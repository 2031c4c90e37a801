-- ===== src/Utils/Hex.antt =====
-- Round trips of the hexadecimal text of src/utils.c.
use vless_core_cli.Prelude.{
  ℕ, ◌*◌, ◌/◌, ◌%◌, ◌≤◌, ◌<◌, true, false, [], ◌∷◌, ◌++◌, Option, none, some, ltb, leb, ◌==◌,
  if◌then◌else◌, length, Bytes, ◌≡◌, refl, ap, ◌∙◌, inl, inr, arith, Bool-cases, append-nil,
  append_assoc, length-append,
}
use vless_core_cli.Utils.{
  hex_value, is_hex_digit, hex_pair, hex_pairs, hex_to_bytes, compact, parse_uuid, hex_digit,
}

abbrev pub AreBytes : Bytes → Type 0
AreBytes [] = Unit
AreBytes (b ∷ bs) = (b < 256) × AreBytes bs

-- Two digits for each byte.
abbrev pub hex_text : Bytes → Bytes
hex_text [] = []
hex_text (b ∷ bs) = hex_digit (b / 16) ∷ hex_digit (b % 16) ∷ hex_text bs

hex_value-hex_digit : (d : ℕ) → d < 16 → hex_value (hex_digit d) ≡ some d
unfolding hex_value
hex_value-hex_digit d h = ground arith

pub hex_pair-digits :
    (b : ℕ) → b < 256 → hex_pair (hex_digit (b / 16)) (hex_digit (b % 16)) ≡ some b
unfolding hex_pair
hex_pair-digits b h =
    rw
      (
        hex_value-hex_digit (b / 16) (omega arith),
        hex_value-hex_digit (b % 16) (omega arith),
        hex_pair,
      )
      (ap some (omega arith))

hex_pairs-hex_text : (bs : Bytes) → AreBytes bs → hex_pairs (hex_text bs) ≡ some bs
unfolding hex_pairs
hex_pairs-hex_text [] h = refl
hex_pairs-hex_text (b ∷ bs) h =
    rw (hex_pair-digits b h.0, hex_pairs-hex_text bs h.1, hex_pairs) refl

length-hex_text : (bs : Bytes) → length (hex_text bs) ≡ 2 * length bs
length-hex_text [] = refl
length-hex_text (b ∷ bs) = omega (arith, length-hex_text bs)

-- Bytes written as hexadecimal text are read back, where the output has room for them.
pub hex_to_bytes-hex_text :
    (bs : Bytes) (cap : ℕ)
    → AreBytes bs
    → length bs ≤ cap
    → hex_to_bytes (hex_text bs) cap ≡ some bs
unfolding hex_to_bytes
hex_to_bytes-hex_text bs cap h fits =
    let even : length (hex_text bs) % 2 == 0 ≡ true = ground (arith, length-hex_text bs) in
    let room : ltb cap (length (hex_text bs) / 2) ≡ false = ground (arith, length-hex_text bs) in
    rw (even, room, hex_to_bytes) (hex_pairs-hex_text bs h)

-- The text less its dashes.
abbrev pub without_dashes : Bytes → Bytes
without_dashes [] = []
without_dashes (c ∷ rest) = if c == 45 then without_dashes rest else c ∷ without_dashes rest

-- 32 digits, two for each byte.
abbrev pub parse_digits : Bytes → Option Bytes
parse_digits digits = if length digits == 32 then hex_pairs digits else none

-- A text with a byte that is no digit has no value.
bad_digit :
    (xs : Bytes) (c : ℕ) (ys : Bytes) → is_hex_digit c ≡ false → hex_pairs (xs ++ (c ∷ ys)) ≡ none
unfolding hex_pairs hex_pair hex_value
bad_digit [] c [] h = refl
bad_digit [] c (y ∷ ys) h = ground arith
bad_digit (x ∷ []) c ys h = ground arith
bad_digit (x ∷ y ∷ xs) c ys h = ground (arith, bad_digit xs c ys h)

no_digits : (digits : Bytes) → hex_pairs digits ≡ none → none ≡ parse_digits digits
no_digits digits h = elim (Bool-cases (length digits == 32)) [
  | inl e ↦ rw (e, h) refl
  | inr e ↦ rw e refl
]

-- The digits found, with those still to come, are read as one text.
compact_lem :
    (s used : Bytes)
    → elim (compact used s) [ none ↦ none | some digits ↦ hex_pairs digits ]
      ≡ parse_digits (used ++ without_dashes s)
unfolding compact
compact_lem [] used = rw (append-nil used) (ends used)
  where
    ends :
        (used : Bytes)
        → elim (if length used == 32 then some used else none) [
          | none ↦ none
          | some digits ↦ hex_pairs digits
        ]
          ≡ parse_digits used
    ends used = elim (Bool-cases (length used == 32)) [ inl e ↦ rw e refl | inr e ↦ rw e refl ]
compact_lem (c ∷ rest) used = elim (Bool-cases (c == 45)) [
  | inl e ↦ rw (e, compact) (compact_lem rest used)
  | inr e ↦ elim (Bool-cases (is_hex_digit c)) [
    | inl f ↦ elim (Bool-cases (leb 32 (length used))) [
      | inl g ↦
          let long : length (used ++ (c ∷ without_dashes rest)) == 32 ≡ false =
            ground (arith, length-append used (c ∷ without_dashes rest)) in
          rw (e, f, g, long, compact) refl
      | inr g ↦
          rw (e, f, g, compact)
            (compact_lem rest (used ++ (c ∷ []))
              ∙ ap parse_digits (append_assoc used (c ∷ []) (without_dashes rest)))
    ]
    | inr f ↦
        let bad = bad_digit used c (without_dashes rest) f in
        rw (e, f, compact) (no_digits (used ++ (c ∷ without_dashes rest)) bad)
  ]
]

-- `parse_uuid` reads exactly the texts that have 32 hexadecimal digits besides any dashes, wherever
-- these stand, and gives the bytes that the digits spell.
pub parse_uuid_lem : (s : Bytes) → parse_uuid s ≡ parse_digits (without_dashes s)
unfolding parse_uuid
parse_uuid_lem s = compact_lem s []
