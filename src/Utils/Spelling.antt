-- ===== src/Utils/Spelling.antt =====
-- The UUIDs that src/utils.c reads, by the values of their hexadecimal digits.
use vless_core_cli.Prelude.{
  ℕ, ◌+◌, ◌*◌, ◌/◌, ◌%◌, ◌≤◌, ◌<◌, true, [], ◌∷◌, none, some, ◌==◌, length, Bytes, ◌≡◌, refl, sym,
  ap, ◌∙◌, ◌↔◌, ◌⊎◌, inl, inr, arith, Bool-cases, Option-cases,
}
use vless_core_cli.Utils.{hex_value, hex_pair, hex_pairs, parse_uuid}
use vless_core_cli.Utils.Hex.{without_dashes, parse_digits, parse_uuid_lem}

-- The character `c` is the digit of value `v`: `0` to `9`, `a` to `f` or `A` to `F`.
abbrev pub IsDigit : ℕ → ℕ → Type 0
IsDigit c v =
    ((v < 10) × (c ≡ 48 + v))
    ⊎ (((10 ≤ v) × (v < 16) × (c ≡ 87 + v)) ⊎ ((10 ≤ v) × (v < 16) × (c ≡ 55 + v)))

-- The digits spell the bytes, two for each, the higher four bits first.
abbrev pub Spells : Bytes → Bytes → Type 0
Spells [] [] = Unit
Spells (a ∷ b ∷ cs) (x ∷ xs) = IsDigit a (x / 16) × IsDigit b (x % 16) × Spells cs xs
Spells _ _ = ⊥

hex_value_iff : (c v : ℕ) → (hex_value c ≡ some v) ↔ IsDigit c v
unfolding hex_value
hex_value_iff c v = (λ e. ground (arith, e), λ d. ground (arith, d))

digit_below : (c v : ℕ) → IsDigit c v → v < 16
digit_below c v d = ground (arith, d)

halves : (h l : ℕ) → l < 16 → ((h * 16 + l) / 16 ≡ h) × ((h * 16 + l) % 16 ≡ l)
halves h l lt = (omega (arith, lt), omega (arith, lt))

hex_pair_iff : (a b x : ℕ) → (hex_pair a b ≡ some x) ↔ (IsDigit a (x / 16) × IsDigit b (x % 16))
unfolding hex_pair
hex_pair_iff a b x = (
  λ e. elim (Option-cases (hex_value a)) [
    | inl f ↦ let gone : hex_pair a b ≡ none = rw (f, hex_pair) refl in absurd (cc (gone, e))
    | inr (h, f) ↦ elim (Option-cases (hex_value b)) [
      | inl g ↦
          let gone : hex_pair a b ≡ none = rw (f, hex_pair) (rw g refl) in absurd (cc (gone, e))
      | inr (l, g) ↦
          let high = (hex_value_iff a h).0 f in
          let low = (hex_value_iff b l).0 g in
          let found : hex_pair a b ≡ some (h * 16 + l) = rw (f, hex_pair) (rw g refl) in
          let whole : h * 16 + l ≡ x = cc (found, e) in
          let (upper, lower) = halves h l (digit_below b l low) in
          rw (← whole) (rw (upper, lower) (high, low))
    ]
  ],
  λ d.
      let high = (hex_value_iff a (x / 16)).1 d.0 in
      let low = (hex_value_iff b (x % 16)).1 d.1 in
      rw (high, hex_pair) (rw low (ap some (omega arith))),
)

spelled_one :
    (a b : ℕ) (cs : Bytes) (x : ℕ) (xs : Bytes)
    → hex_pair a b ≡ some x
    → hex_pairs cs ≡ some xs
    → hex_pairs (a ∷ b ∷ cs) ≡ some (x ∷ xs)
unfolding hex_pairs
spelled_one a b cs x xs e f = rw (e, hex_pairs) (rw f refl)

hex_pairs_sound : (cs xs : Bytes) → hex_pairs cs ≡ some xs → Spells cs xs
unfolding hex_pairs
hex_pairs_sound [] [] e = tt
hex_pairs_sound [] (x ∷ xs) e = absurd (cc e)
hex_pairs_sound (a ∷ []) xs e = absurd (cc e)
hex_pairs_sound (a ∷ b ∷ cs) xs e = elim (Option-cases (hex_pair a b)) [
  | inl f ↦
      let gone : hex_pairs (a ∷ b ∷ cs) ≡ none = rw (f, hex_pairs) refl in absurd (cc (gone, e))
  | inr (x, f) ↦ elim (Option-cases (hex_pairs cs)) [
    | inl g ↦
        let gone : hex_pairs (a ∷ b ∷ cs) ≡ none = rw (f, hex_pairs) (rw g refl) in
        absurd (cc (gone, e))
    | inr (ys, g) ↦
        let whole : x ∷ ys ≡ xs = cc (spelled_one a b cs x ys f g, e) in
        let (high, low) = (hex_pair_iff a b x).0 f in
        rw (← whole) (high, low, hex_pairs_sound cs ys g)
  ]
]

hex_pairs_complete : (cs xs : Bytes) → Spells cs xs → hex_pairs cs ≡ some xs
unfolding hex_pairs
hex_pairs_complete [] [] h = refl
hex_pairs_complete [] (x ∷ xs) h = absurd h
hex_pairs_complete (a ∷ []) [] h = absurd h
hex_pairs_complete (a ∷ []) (x ∷ xs) h = absurd h
hex_pairs_complete (a ∷ b ∷ cs) [] h = absurd h
hex_pairs_complete (a ∷ b ∷ cs) (x ∷ xs) h =
    spelled_one a b cs x xs ((hex_pair_iff a b x).1 (h.0, h.1)) (hex_pairs_complete cs xs h.2)

-- `parse_uuid` reads a text as some bytes exactly when the text without its dashes, wherever these
-- stand, has 32 characters, and these are hexadecimal digits that spell the bytes.
pub parse_uuid_iff :
    (s bytes : Bytes)
    → (parse_uuid s ≡ some bytes)
      ↔ ((length (without_dashes s) ≡ 32) × Spells (without_dashes s) bytes)
parse_uuid_iff s bytes = (
  λ e. elim (Bool-cases (length (without_dashes s) == 32)) [
    | inl f ↦
        let digits : parse_digits (without_dashes s) ≡ hex_pairs (without_dashes s) = rw f refl in
        (
          ground (arith, f),
          hex_pairs_sound (without_dashes s) bytes (sym digits ∙ sym (parse_uuid_lem s) ∙ e),
        )
    | inr f ↦
        let gone : parse_digits (without_dashes s) ≡ none = rw f refl in
        absurd (cc (gone, parse_uuid_lem s, e))
  ],
  λ h.
      let long : (length (without_dashes s) == 32) ≡ true = ground (arith, h.0) in
      parse_uuid_lem s ∙ rw long (hex_pairs_complete (without_dashes s) bytes h.1),
)
