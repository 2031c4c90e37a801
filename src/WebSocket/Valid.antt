-- ===== src/WebSocket/Valid.antt =====
-- What the check of UTF-8 in src/websocket.c accepts is text.
use vless_core_cli.Prelude.{
  ℕ, zero, suc, ◌+◌, ◌-◌, ◌*◌, ◌/◌, ◌%◌, ◌≤◌, ◌<◌, true, false, [], ◌∷◌, ◌++◌, some, ltb, ◌==◌,
  if◌then◌else◌, length, Bytes, ◌≡◌, refl, sym, ap₂, ◌∙◌, ◌↔◌, ◌⊎◌, inl, inr, arith, Bool-cases,
}
use mathlib.Core.Path.{subst}
use vless_core_cli.WebSocket.{Utf, utf8_lead, utf8_byte, utf8}
use vless_core_cli.WebSocket.Text.{
  IsScalar, encode, IsText, empty, next, utf8-IsText, lead_two, lead_three, lead_four,
}

build :
    (c : ℕ) (rest : Bytes) {xs : Bytes}
    → IsScalar c
    → encode c ++ rest ≡ xs
    → IsText rest
    → IsText xs
build c rest v e t = subst IsText e (next c rest v t)

-- A byte inside a character, and the end of the input there.
inside :
    (k l m b : ℕ) (rest : Bytes) {v : Utf}
    → utf8 (record { left = suc k; least = l; most = m }) (b ∷ rest) ≡ some v
    → (l ≤ b) × (b ≤ m) × (utf8 (record { left = k; least = 0x80; most = 0xbf }) rest ≡ some v)
unfolding utf8 utf8_byte
inside k l m b rest h = (ground arith, ground arith, ground arith)

cut_off :
    (k l m : ℕ) {v : Utf}
    → utf8 (record { left = suc k; least = l; most = m }) [] ≡ some v
    → v.left ≡ 0
    → ⊥
unfolding utf8
cut_off k l m h z = ground arith

-- The first byte of a character: which bytes it can be, and what follows.
ascii_first :
    (u : Utf) (a : ℕ) (rest : Bytes) → u.left ≡ 0 → a < 0x80 → utf8 u (a ∷ rest) ≡ utf8 u rest
unfolding utf8 utf8_byte utf8_lead
ascii_first u a rest h p = ground arith

first_cases :
    (u : Utf) (a : ℕ) (rest : Bytes) {v : Utf}
    → u.left ≡ 0
    → utf8 u (a ∷ rest) ≡ some v
    → (a < 0x80)
      ⊎ (((0xc2 ≤ a) × (a ≤ 0xdf)) ⊎ (((0xe0 ≤ a) × (a ≤ 0xef)) ⊎ ((0xf0 ≤ a) × (a ≤ 0xf4))))
unfolding utf8 utf8_byte utf8_lead
first_cases u a rest h e = ground arith

abbrev Sound : Bytes → Type 0
Sound xs = (u v : Utf) → u.left ≡ 0 → utf8 u xs ≡ some v → v.left ≡ 0 → IsText xs

two_bytes :
    (a b : ℕ) (rest : Bytes)
    → 0xc2 ≤ a
    → a ≤ 0xdf
    → 0x80 ≤ b
    → b ≤ 0xbf
    → IsText rest
    → IsText (a ∷ b ∷ rest)
two_bytes a b rest p q r s t =
    let c = (a - 0xc0) * 64 + (b - 0x80) in
    let first : 0xc0 + c / 64 ≡ a = omega arith in
    let second : 0x80 + c % 64 ≡ b = omega arith in
    let e : ltb c 0x80 ≡ false = ground arith in
    let f : ltb c 0x800 ≡ true = ground arith in
    build c rest (inl (omega arith)) (rw (e, f) (ap₂ (λ (x y : ℕ). x ∷ y ∷ rest) first second)) t

three_bytes :
    (a b d : ℕ) (rest : Bytes)
    → 0xe0 ≤ a
    → a ≤ 0xef
    → (if a == 0xe0 then 0xa0 else 0x80) ≤ b
    → b ≤ (if a == 0xed then 0x9f else 0xbf)
    → 0x80 ≤ d
    → d ≤ 0xbf
    → IsText rest
    → IsText (a ∷ b ∷ d ∷ rest)
three_bytes a b d rest p q r s x y t =
    let low : 0x80 ≤ b = ground arith in
    let high : b ≤ 0xbf = ground arith in
    let c = (a - 0xe0) * 4096 + (b - 0x80) * 64 + (d - 0x80) in
    let first : 0xe0 + c / 4096 ≡ a = omega arith in
    let second : 0x80 + c / 64 % 64 ≡ b = omega arith in
    let third : 0x80 + c % 64 ≡ d = omega arith in
    let f : ltb c 0x800 ≡ false = ground arith in
    let e : ltb c 0x80 ≡ false = ground arith in
    let g : ltb c 0x10000 ≡ true = ground arith in
    build c rest
      (elim (Bool-cases (ltb a 0xee)) [ inl i ↦ inl (ground arith) | inr i ↦ inr (ground arith) ])
      (rw (e, f, g) (rw (first, second, third) refl)) t

four_bytes :
    (a b d e : ℕ) (rest : Bytes)
    → 0xf0 ≤ a
    → a ≤ 0xf4
    → (if a == 0xf0 then 0x90 else 0x80) ≤ b
    → b ≤ (if a == 0xf4 then 0x8f else 0xbf)
    → 0x80 ≤ d
    → d ≤ 0xbf
    → 0x80 ≤ e
    → e ≤ 0xbf
    → IsText rest
    → IsText (a ∷ b ∷ d ∷ e ∷ rest)
four_bytes a b d e rest p q r s x y z w t =
    let low : 0x80 ≤ b = ground arith in
    let high : b ≤ 0xbf = ground arith in
    let c = (a - 0xf0) * 262144 + (b - 0x80) * 4096 + (d - 0x80) * 64 + (e - 0x80) in
    let first : 0xf0 + c / 262144 ≡ a = omega arith in
    let second : 0x80 + c / 4096 % 64 ≡ b = omega arith in
    let third : 0x80 + c / 64 % 64 ≡ d = omega arith in
    let fourth : 0x80 + c % 64 ≡ e = omega arith in
    let h : ltb c 0x10000 ≡ false = ground arith in
    let f : ltb c 0x800 ≡ false = ground arith in
    let g : ltb c 0x80 ≡ false = ground arith in
    build c rest (inr (ground arith)) (rw (g, f, h) (rw (first, second, third, fourth) refl)) t

-- What follows the first byte, when shorter input is known to be text.
module _ (n a : ℕ) (ih : (ys : Bytes) → length ys ≤ n → Sound ys) (v : Utf) (z : v.left ≡ 0) where
  rest_sound :
      (l m : ℕ) (rest : Bytes)
      → length rest ≤ n
      → utf8 (record { left = 0; least = l; most = m }) rest ≡ some v
      → IsText rest
  rest_sound l m rest lt e = ih rest lt (record { left = 0; least = l; most = m }) v refl e z

  finish_two :
      (xs : Bytes)
      → length xs ≤ n
      → 0xc2 ≤ a
      → a ≤ 0xdf
      → utf8 (record { left = 1; least = 0x80; most = 0xbf }) xs ≡ some v
      → IsText (a ∷ xs)
  finish_two [] lt p q e = absurd (cut_off 0 0x80 0xbf e z)
  finish_two (b ∷ rest) lt p q e =
      let (r, s, e') = inside 0 0x80 0xbf b rest e in
      two_bytes a b rest p q r s (rest_sound 0x80 0xbf rest (omega arith) e')

  finish_three :
      (xs : Bytes)
      → length xs ≤ n
      → 0xe0 ≤ a
      → a ≤ 0xef
      → utf8
          (record {
            left = 2;
            least = if a == 0xe0 then 0xa0 else 0x80;
            most = if a == 0xed then 0x9f else 0xbf;
          })
          xs
        ≡ some v
      → IsText (a ∷ xs)
  finish_three [] lt p q e = absurd (cut_off 1 _ _ e z)
  finish_three (b ∷ []) lt p q e = absurd (cut_off 0 0x80 0xbf (inside 1 _ _ b [] e).2 z)
  finish_three (b ∷ d ∷ rest) lt p q e =
      let (r, s, e') = inside 1 _ _ b (d ∷ rest) e in
      let (x, y, e'') = inside 0 0x80 0xbf d rest e' in
      three_bytes a b d rest p q r s x y (rest_sound 0x80 0xbf rest (omega arith) e'')

  finish_four :
      (xs : Bytes)
      → length xs ≤ n
      → 0xf0 ≤ a
      → a ≤ 0xf4
      → utf8
          (record {
            left = 3;
            least = if a == 0xf0 then 0x90 else 0x80;
            most = if a == 0xf4 then 0x8f else 0xbf;
          })
          xs
        ≡ some v
      → IsText (a ∷ xs)
  finish_four [] lt p q e = absurd (cut_off 2 _ _ e z)
  finish_four (b ∷ []) lt p q e = absurd (cut_off 1 0x80 0xbf (inside 2 _ _ b [] e).2 z)
  finish_four (b ∷ c ∷ []) lt p q e =
      let (r, s, e') = inside 2 _ _ b (c ∷ []) e in
      absurd (cut_off 0 0x80 0xbf (inside 1 0x80 0xbf c [] e').2 z)
  finish_four (b ∷ c ∷ d ∷ rest) lt p q e =
      let (r, s, e') = inside 2 _ _ b (c ∷ d ∷ rest) e in
      let (x, y, e'') = inside 1 0x80 0xbf c (d ∷ rest) e' in
      let (w, o, f) = inside 0 0x80 0xbf d rest e'' in
      four_bytes a b c d rest p q r s x y w o (rest_sound 0x80 0xbf rest (omega arith) f)

text_upto : (n : ℕ) (xs : Bytes) → length xs ≤ n → Sound xs
text_upto n [] lt u v h e z = empty
text_upto zero (a ∷ xs) lt u v h e z = absurd (omega arith)
text_upto (suc n) (a ∷ xs) lt u v h e z = elim (first_cases u a xs h e) [
  | inl p ↦
      build a xs (inl (omega arith)) (rw (ascii a p) refl)
        (text_upto n xs (omega arith) u v h (sym (ascii_first u a xs h p) ∙ e) z)
  | inr (inl (p, q)) ↦
      finish_two n a (text_upto n) v z xs (omega arith) p q (sym (lead_two u a xs h p q) ∙ e)
  | inr (inr (inl (p, q))) ↦
      finish_three n a (text_upto n) v z xs (omega arith) p q (sym (lead_three u a xs h p q) ∙ e)
  | inr (inr (inr (p, q))) ↦
      finish_four n a (text_upto n) v z xs (omega arith) p q (sym (lead_four u a xs h p q) ∙ e)
]
  where
    ascii : (c : ℕ) → c < 0x80 → ltb c 0x80 ≡ true
    ascii c p = ground arith

-- Input that starts between two characters is accepted, and ends between two characters, exactly if
-- it is a sequence of encoded Unicode scalar values: no surrogate, no overlong form and no cut.
pub utf8_lem :
    (xs : Bytes) (u : Utf)
    → u.left ≡ 0
    → ((v : Utf) × (utf8 u xs ≡ some v) × (v.left ≡ 0)) ↔ IsText xs
utf8_lem xs u h =
    (λ (v, e, z). text_upto (length xs) xs (omega arith) u v h e z, λ t. utf8-IsText t u h)
