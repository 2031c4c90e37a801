-- ===== src/WebSocket/Text.antt =====
-- The check of UTF-8 in src/websocket.c against the encoding of characters.
use vless_core_cli.Prelude.{
  ℕ, ◌+◌, ◌/◌, ◌%◌, ◌≤◌, ◌<◌, [], ◌∷◌, ◌++◌, Option, none, some, ltb, ◌==◌, if◌then◌else◌, Bytes,
  ◌≡◌, refl, ◌∙◌, ◌⊎◌, inl, inr, arith, Bool-cases, Option-cases,
}
use vless_core_cli.WebSocket.{Utf, utf8_lead, utf8_byte, utf8}

-- A Unicode scalar value.
abbrev pub IsScalar : ℕ → Type 0
IsScalar c = (c < 0xd800) ⊎ ((0xe000 ≤ c) × (c < 0x110000))

-- The encoding of RFC 3629.
abbrev pub encode : ℕ → Bytes
encode c =
    if ltb c 0x80
    then c ∷ []
    else if ltb c 0x800
    then (0xc0 + c / 64) ∷ (0x80 + c % 64) ∷ []
    else if ltb c 0x10000
    then (0xe0 + c / 4096) ∷ (0x80 + c / 64 % 64) ∷ (0x80 + c % 64) ∷ []
    else (0xf0 + c / 262144) ∷ (0x80 + c / 4096 % 64) ∷ (0x80 + c / 64 % 64) ∷ (0x80 + c % 64) ∷ []

-- A sequence of encoded characters.
pub data IsText : Bytes → Type 0 where
  empty : IsText []
  next : (c : ℕ) (rest : Bytes) → IsScalar c → IsText rest → IsText (encode c ++ rest)

abbrev Accepts : Option Utf → Type 0
Accepts r = (u : Utf) × (r ≡ some u) × (u.left ≡ 0)

-- Text can come in pieces, cut anywhere, also inside a character.
utf8-append :
    (u : Utf) (xs ys : Bytes)
    → utf8 u (xs ++ ys) ≡ elim (utf8 u xs) [ none ↦ none | some v ↦ utf8 v ys ]
unfolding utf8
utf8-append u [] ys = refl
utf8-append u (x ∷ xs) ys = elim (Option-cases (utf8_byte u x)) [
  | inl e ↦ rw (e, utf8) refl
  | inr (v, e) ↦ rw (e, utf8) (utf8-append v xs ys)
]

abbrev tail : Utf
tail = record { left = 0; least = 0x80; most = 0xbf }

-- The bytes behind the first one.
one_left :
    (l m a : ℕ)
    → l ≤ a
    → a ≤ m
    → utf8 (record { left = 1; least = l; most = m }) (a ∷ []) ≡ some tail
unfolding utf8 utf8_byte utf8_lead
one_left l m a h k = ground arith

two_left :
    (l m a b : ℕ)
    → l ≤ a
    → a ≤ m
    → 0x80 ≤ b
    → b ≤ 0xbf
    → utf8 (record { left = 2; least = l; most = m }) (a ∷ b ∷ []) ≡ some tail
unfolding utf8 utf8_byte
two_left l m a b h k p q = ground (arith, one_left 0x80 0xbf b p q)

three_left :
    (l m a b c : ℕ)
    → l ≤ a
    → a ≤ m
    → 0x80 ≤ b
    → b ≤ 0xbf
    → 0x80 ≤ c
    → c ≤ 0xbf
    → utf8 (record { left = 3; least = l; most = m }) (a ∷ b ∷ c ∷ []) ≡ some tail
unfolding utf8 utf8_byte
three_left l m a b c h k p q r s = ground (arith, two_left 0x80 0xbf b c p q r s)

module _ (u : Utf) (a : ℕ) (rest : Bytes) (h : u.left ≡ 0) where
  pub lead_two :
      0xc2 ≤ a
      → a ≤ 0xdf
      → utf8 u (a ∷ rest) ≡ utf8 (record { left = 1; least = 0x80; most = 0xbf }) rest
  unfolding utf8 utf8_byte utf8_lead
  lead_two p q = ground arith

  pub lead_three :
      0xe0 ≤ a
      → a ≤ 0xef
      → utf8 u (a ∷ rest)
        ≡ utf8
            (record {
              left = 2;
              least = if a == 0xe0 then 0xa0 else 0x80;
              most = if a == 0xed then 0x9f else 0xbf;
            })
            rest
  unfolding utf8 utf8_byte utf8_lead
  lead_three p q = ground arith

  pub lead_four :
      0xf0 ≤ a
      → a ≤ 0xf4
      → utf8 u (a ∷ rest)
        ≡ utf8
            (record {
              left = 3;
              least = if a == 0xf0 then 0x90 else 0x80;
              most = if a == 0xf4 then 0x8f else 0xbf;
            })
            rest
  unfolding utf8 utf8_byte utf8_lead
  lead_four p q = ground arith

utf8_ascii : (u : Utf) (c : ℕ) → u.left ≡ 0 → c < 0x80 → Accepts (utf8 u (c ∷ []))
unfolding utf8 utf8_byte utf8_lead
utf8_ascii u c h p = (u, ground arith, h)

-- A character is consumed whole.
character_accepted : (u : Utf) (c : ℕ) → u.left ≡ 0 → IsScalar c → Accepts (utf8 u (encode c))
character_accepted u c h v = elim (Bool-cases (ltb c 0x80)) [
  | inl e ↦ rw e (utf8_ascii u c h (ground arith))
  | inr e ↦ elim (Bool-cases (ltb c 0x800)) [
    | inl f ↦
        let first =
          lead_two u (0xc0 + c / 64) ((0x80 + c % 64) ∷ []) h (ground arith) (ground arith) in
        rw (e, f) (tail, first ∙ one_left _ _ (0x80 + c % 64) (omega arith) (omega arith), refl)
    | inr f ↦ elim (Bool-cases (ltb c 0x10000)) [
      | inl g ↦
          let first =
            lead_three u (0xe0 + c / 4096) ((0x80 + c / 64 % 64) ∷ (0x80 + c % 64) ∷ []) h
              (omega arith) (ground arith) in
          let rest =
            two_left (if 0xe0 + c / 4096 == 0xe0 then 0xa0 else 0x80)
              (if 0xe0 + c / 4096 == 0xed then 0x9f else 0xbf) (0x80 + c / 64 % 64) (0x80 + c % 64)
              (ground arith) (ground arith) (omega arith) (omega arith) in
          rw (e, f, g) (tail, first ∙ rest, refl)
      | inr g ↦
          let first =
            lead_four u (0xf0 + c / 262144)
              ((0x80 + c / 4096 % 64) ∷ (0x80 + c / 64 % 64) ∷ (0x80 + c % 64) ∷ []) h (omega arith)
              (ground arith) in
          let rest =
            three_left (if 0xf0 + c / 262144 == 0xf0 then 0x90 else 0x80)
              (if 0xf0 + c / 262144 == 0xf4 then 0x8f else 0xbf) (0x80 + c / 4096 % 64)
              (0x80 + c / 64 % 64) (0x80 + c % 64) (ground arith) (ground arith) (omega arith)
              (omega arith) (omega arith) (omega arith) in
          rw (e, f, g) (tail, first ∙ rest, refl)
    ]
  ]
]

-- Every sequence of encoded Unicode scalar values is accepted between two characters, and ends
-- between two characters.
pub utf8-IsText :
    {xs : Bytes}
    → IsText xs
    → (u : Utf) → u.left ≡ 0
    → (v : Utf) × (utf8 u xs ≡ some v) × (v.left ≡ 0)
unfolding utf8
utf8-IsText empty u h = (u, refl, h)
utf8-IsText (next c rest v t) u h =
    let (w, e, k) = character_accepted u c h v in
    let (z, e', k') = utf8-IsText t w k in (z, rw (utf8-append u (encode c) rest, e) e', k')
