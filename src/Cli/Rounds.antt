-- ===== src/Cli/Rounds.antt =====
-- What a round of the parser in src/cli_args.c keeps: the ranges of the numbers, and the sources.
use vless_core_cli.Prelude.{
  ℕ, ◌≤◌, Bool, true, false, ◌&&◌, ◌||◌, not, List, [], ◌∷◌, Option, none, some, leb, ◌==◌, length,
  Bytes, ◌≡◌, refl, sym, ◌∙◌, ◌≢◌, inl, inr, arith, Bool-cases, same_bytes, choose, choose_by,
}
use vless_core_cli.Cli.{
  uri_id, connection_fd_id, listen_id, route_port_id, timeout_id, ips_id, inspect_id, Row, options,
  find_row, lookup_option, number, Problem, Parse, saw, Round, rejected, parsed, mark, action_round,
  source_round, option_number,
}
use vless_core_cli.Cli.Numbers.{number_iff}

-- The ranges that the table of options has for the numbers.
unfoldable pub is_row : Row → Bool
is_row r =
    leb r.maximum 2147483647
    && (not (r.id == listen_id) || r.maximum == 65535)
    && (not (r.id == route_port_id) || r.maximum == 65535)
    && (not (r.id == timeout_id) || r.maximum == 300000 && r.minimum == 1)

are_rows : List Row → Bool
are_rows [] = true
are_rows (r ∷ rs) = is_row r && are_rows rs

options_table : are_rows options ≡ true
unfolding options are_rows is_row
options_table = refl

find_row-is_row :
    (text : Bytes) (rs : List Row) {r : Row}
    → are_rows rs ≡ true
    → find_row text rs ≡ some r
    → is_row r ≡ true
unfolding are_rows is_row
find_row-is_row text [] h e = absurd (cc e)
find_row-is_row text (s ∷ rs) {r} h e = elim (Bool-cases (same_bytes text s.name)) [
  | inl f ↦
      let found : find_row text (s ∷ rs) ≡ some s = rw f refl in
      let same : s ≡ r = cc (found, e) in rw (← same) (ground (arith, h))
  | inr f ↦
      let later : find_row text (s ∷ rs) ≡ find_row text rs = rw f refl in
      find_row-is_row text rs (ground (arith, h)) (sym later ∙ e)
]

pub lookup_option-is_row :
    (text : Option Bytes) {r : Row} → lookup_option text ≡ some r → is_row r ≡ true
unfolding lookup_option
lookup_option-is_row none e = absurd (cc e)
lookup_option-is_row (some text) e = find_row-is_row text options options_table e

-- What holds between two arguments.
pub record IsParse (p : Parse) : Type 0 where
  pub listen : p.args.listen_port ≤ 65535
  pub route : p.args.route_port ≤ 65535
  pub timeout : (1 ≤ p.args.connect_timeout) × (p.args.connect_timeout ≤ 300000)
  pub source : p.args.source ≤ 3
  pub apart : p.args.source ≡ 3 → p.args.server_ips ≡ none
  pub ips : saw ips_id p ≡ false → p.args.server_ips ≡ none

unfoldable pub Fine : ℕ → Round → Type 0
Fine n (rejected problem) = Unit
Fine n (parsed q more) = (length more ≤ n) × IsParse q

pub rejected-Fine : (n : ℕ) (problem : Problem) → Fine n (rejected problem)
unfolding Fine
rejected-Fine n problem = tt

pub parsed-Fine :
    (n : ℕ) (q : Parse) (more : List (Option Bytes))
    → length more ≤ n
    → IsParse q
    → Fine n (parsed q more)
unfolding Fine
parsed-Fine n q more le v = (le, v)

pub action_round-Fine :
    (r : Row) (p : Parse) (rest : List (Option Bytes))
    → IsParse p
    → Fine (length rest) (action_round r p rest)
unfolding action_round
action_round-Fine r p rest v =
    let n = length rest in
    choose (Fine n) (r.id == inspect_id && saw inspect_id p) _ _ (rejected-Fine n _) (
      choose (Fine n) _ _ _ (rejected-Fine n _) (
        parsed-Fine n _ rest (omega arith) (record {
          listen = v.listen;
          route = v.route;
          timeout = v.timeout;
          source = v.source;
          apart = v.apart;
          ips = λ e. v.ips (ground (arith, e));
        })))

pub source_round-Fine :
    (r : Row) (value : Bytes) (number : ℕ) (p : Parse) (rest : List (Option Bytes))
    → IsParse p
    → leb r.id connection_fd_id ≡ true
    → Fine (length rest) (source_round r value number p rest)
unfolding source_round
source_round-Fine r value number p rest v le =
    let n = length rest in
    choose (Fine n) (not (p.args.source == 0)) _ _ (rejected-Fine n _) (
      choose_by (Fine n) (r.id == connection_fd_id && saw ips_id p) _ _ (λ e. rejected-Fine n _)
        (λ e. parsed-Fine n _ rest (omega arith) (
          choose (λ args. IsParse (mark r.id args p)) (r.id == uri_id) _ _
            (record {
              listen = v.listen;
              route = v.route;
              timeout = v.timeout;
              source = ground (arith, le);
              apart = λ f. v.ips (ground (arith, e, f));
              ips = λ f. v.ips (ground (arith, f));
            })
            (record {
              listen = v.listen;
              route = v.route;
              timeout = v.timeout;
              source = ground (arith, le);
              apart = λ f. v.ips (ground (arith, e, f));
              ips = λ f. v.ips (ground (arith, f));
            }))))

-- A number is in the range of its option.
abbrev pub InRow : Row → ℕ → Type 0
InRow r number = (r.maximum ≢ 0) → (r.minimum ≤ number) × (number ≤ r.maximum)

pub option_number-InRow :
    (r : Row) (value : Bytes) (n : ℕ) → is_row r ≡ true → option_number r value ≡ some n → InRow r n
unfolding option_number is_row
option_number-InRow r value n ok e given =
    let some_maximum : (r.maximum == 0) ≡ false = ground (arith, given) in
    let opened : option_number r value ≡ number value r.minimum r.maximum =
      rw (some_maximum, option_number) refl in
    let (long, digits, same, low, high) =
      (number_iff value r.minimum r.maximum n (ground (arith, ok))).0 (sym opened ∙ e) in
    (low, high)
