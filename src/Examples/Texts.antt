-- ===== src/Examples/Texts.antt =====
-- Runs of src/utils.c: hexadecimal text, a UUID, escapes and request targets.
use vless_core_cli.Prelude.{
  ◌↔◌, length, ℕ, ◌+◌, ◌≤◌, [], ◌∷◌, none, some, length, Bytes, ◌≡◌, refl, arith,
}
use vless_core_cli.Utils.{
  hex_pairs, hex_pair, hex_value, compact, parse_uuid, percent_decode, percent_loop, escape_value,
  request_target, target_size, target_write, target_byte, request_byte, escape_allowed,
}
use vless_core_cli.Utils.Hex.{without_dashes}
use vless_core_cli.Utils.Spelling.{Spells, parse_uuid_iff}
use vless_core_cli.Utils.Target.{length-request_target}
use vless_core_cli.Utils.Escapes.{escaped, percent_decode-escaped}

-- 0123-4567-... in lower and upper case
abbrev uuid_text : Bytes
uuid_text =
    48 ∷ 49 ∷ 50 ∷ 51 ∷ 52 ∷ 53 ∷ 54 ∷ 55 ∷ 45 ∷ 56 ∷ 57 ∷ 97 ∷ 66 ∷ 45 ∷ 99 ∷ 68 ∷ 101 ∷ 70 ∷ 45
    ∷ 48 ∷ 49 ∷ 50 ∷ 51 ∷ 45 ∷ 52 ∷ 53 ∷ 54 ∷ 55 ∷ 56 ∷ 57 ∷ 97 ∷ 98 ∷ 99 ∷ 100 ∷ 101 ∷ 102 ∷ []

parse_uuid_test :
    parse_uuid uuid_text
    ≡ some
        (1 ∷ 35 ∷ 69 ∷ 103 ∷ 137 ∷ 171 ∷ 205 ∷ 239 ∷ 1 ∷ 35 ∷ 69 ∷ 103 ∷ 137 ∷ 171 ∷ 205 ∷ 239 ∷ [])
unfolding parse_uuid compact hex_pairs hex_pair hex_value
parse_uuid_test = refl

-- The bytes of the text.
abbrev uuid_bytes : Bytes
uuid_bytes =
    1 ∷ 35 ∷ 69 ∷ 103 ∷ 137 ∷ 171 ∷ 205 ∷ 239 ∷ 1 ∷ 35 ∷ 69 ∷ 103 ∷ 137 ∷ 171 ∷ 205 ∷ 239 ∷ []

parse_uuid_example :
    (parse_uuid uuid_text ≡ some uuid_bytes)
    ↔ ((length (without_dashes uuid_text) ≡ 32) × Spells (without_dashes uuid_text) uuid_bytes)
parse_uuid_example = parse_uuid_iff uuid_text uuid_bytes

-- "a+%2f" is "a /"; "%00" is refused.
percent_decode_test : percent_decode (97 ∷ 43 ∷ 37 ∷ 50 ∷ 102 ∷ []) 10 ≡ some (97 ∷ 32 ∷ 47 ∷ [])
unfolding percent_decode percent_loop escape_value hex_pair hex_value
percent_decode_test = refl

percent_zero_test : percent_decode (37 ∷ 48 ∷ 48 ∷ []) 10 ≡ none
unfolding percent_decode percent_loop escape_value hex_pair hex_value
percent_zero_test = refl

percent_decode_example : percent_decode (escaped (37 ∷ 10 ∷ [])) 3 ≡ some (37 ∷ 10 ∷ [])
percent_decode_example = percent_decode-escaped (37 ∷ 10 ∷ []) 3 (omega arith) (omega arith)

-- A blank is escaped, and an escape stays.
target_test :
    request_target (97 ∷ 32 ∷ 37 ∷ 50 ∷ 102 ∷ []) 8 ≡ some (97 ∷ 37 ∷ 50 ∷ 48 ∷ 37 ∷ 50 ∷ 102 ∷ [])
unfolding request_target target_size target_write target_byte request_byte escape_allowed hex_value
target_test = refl

target_small_test : request_target (97 ∷ 32 ∷ 37 ∷ 50 ∷ 102 ∷ []) 7 ≡ none
unfolding request_target target_size target_write target_byte request_byte escape_allowed hex_value
target_small_test = refl

length-request_target_example : length {A = ℕ} (97 ∷ 37 ∷ 50 ∷ 48 ∷ 37 ∷ 50 ∷ 102 ∷ []) + 1 ≤ 8
length-request_target_example =
    length-request_target (97 ∷ 32 ∷ 37 ∷ 50 ∷ 102 ∷ []) 8 (omega arith) target_test
