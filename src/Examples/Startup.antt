-- ===== src/Examples/Startup.antt =====
-- Runs of src/cli_args.c: the numbers and the options.
use vless_core_cli.Prelude.{
  List, [], ◌∷◌, Option, none, some, length, Bytes, ◌≡◌, ◌≤◌, ◌<◌, refl, ◌↔◌, arith, codes,
}
use vless_core_cli.Cli.{number, parse, accepted, refused, missing_port, no_args, scrub}
use vless_core_cli.Cli.Numbers.{AreDigits, decimal, number_iff}
use vless_core_cli.Cli.Checked.{Answers, parse-Answers}

number_test : number (codes "0080") 1 65535 ≡ some 80
unfolding number
number_test = refl

number_large_test : number (codes "65536") 1 65535 ≡ none
unfolding number
number_large_test = refl

number_iff_example : (number (codes "0080") 1 65535 ≡ some 80) ↔ (
    (0 < length (codes "0080"))
    × AreDigits (codes "0080")
    × (decimal 0 (codes "0080") ≡ 80)
    × (1 ≤ 80)
    × (80 ≤ 65535))
number_iff_example = number_iff (codes "0080") 1 65535 80 (omega arith)

abbrev arguments : List (Option Bytes)
arguments =
    some (codes "--uri-fd")
    ∷ some (codes "3")
    ∷ some (codes "--listen-port")
    ∷ some (codes "1080")
    ∷ []

parse_test :
    parse arguments
    ≡ accepted (record no_args { source = 2; source_fd = some 3; listen_port = 1080 })
unfolding parse
parse_test = refl

parse_incomplete_test : parse (some (codes "--uri") ∷ some (codes "x") ∷ []) ≡ refused missing_port
unfolding parse
parse_incomplete_test = refl

scrub_test :
    scrub (some (codes "--uri") ∷ some (codes "ab") ∷ none ∷ [])
    ≡ some (codes "--uri") ∷ some (0 ∷ 0 ∷ []) ∷ none ∷ []
unfolding scrub
scrub_test = refl

parse-Answers_example : Answers (parse arguments)
parse-Answers_example = parse-Answers arguments
