-- ===== src/Utils/Escapes.antt =====
-- Round trip of the escapes that `percent_decode` of src/utils.c reads.
use vless_core_cli.Prelude.{
  ℕ, ◌+◌, ◌/◌, ◌%◌, ◌<◌, true, false, [], ◌∷◌, some, leb, ◌==◌, length, Bytes, ◌≡◌, refl, arith,
}
use vless_core_cli.Utils.{is_hex_digit, escape_value, percent_loop, percent_decode, hex_digit}
use vless_core_cli.Utils.Hex.{hex_pair-digits}

-- Bytes that a C string can hold.
abbrev pub AreText : Bytes → Type 0
AreText [] = Unit
AreText (b ∷ bs) = (0 < b) × (b < 256) × AreText bs

-- Every byte as `%` and two digits.
abbrev pub escaped : Bytes → Bytes
escaped [] = []
escaped (b ∷ bs) = 37 ∷ hex_digit (b / 16) ∷ hex_digit (b % 16) ∷ escaped bs

hex_digit-is_hex_digit : (d : ℕ) → d < 16 → is_hex_digit (hex_digit d) ≡ true
hex_digit-is_hex_digit d h = ground arith

escape_value-digits :
    (b : ℕ) → 0 < b → b < 256 → escape_value (hex_digit (b / 16)) (hex_digit (b % 16)) ≡ some b
unfolding escape_value
escape_value-digits b p h =
    rw
      (
        hex_digit-is_hex_digit (b / 16) (omega arith),
        hex_digit-is_hex_digit (b % 16) (omega arith),
        hex_pair-digits b h,
        escape_value,
      )
      (ground arith)

percent_loop-escaped :
    (bs : Bytes) (cap used : ℕ)
    → AreText bs
    → used + length bs < cap
    → percent_loop cap used (escaped bs) ≡ some bs
unfolding percent_loop
percent_loop-escaped [] cap used h fits = refl
percent_loop-escaped (b ∷ bs) cap used h fits =
    let room : leb cap (used + 1) ≡ false = ground arith in
    rw
      (
        room,
        escape_value-digits b h.0 h.1,
        percent_loop-escaped bs cap (used + 1) h.2 (omega arith),
        percent_loop,
      )
      refl

-- A text with every byte escaped is decoded to the text itself, where the output has room for it and
-- its final NUL.
pub percent_decode-escaped :
    (bs : Bytes) (cap : ℕ)
    → AreText bs
    → length bs < cap
    → percent_decode (escaped bs) cap ≡ some bs
unfolding percent_decode
percent_decode-escaped bs cap h fits =
    let some_room : cap == 0 ≡ false = ground arith in
    rw (some_room, percent_decode) (percent_loop-escaped bs cap 0 h (omega arith))
