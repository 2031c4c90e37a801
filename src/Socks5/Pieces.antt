-- ===== src/Socks5/Pieces.antt =====
-- However a stream is cut, `read_exact` of src/socks5.c gives the next bytes of it.
use vless_core_cli.Prelude.{
  take-append_le, drop-append_le, ℕ, zero, suc, ◌-◌, ◌<◌, false, List, [], ◌∷◌, ◌++◌, some, ltb,
  ◌==◌, take, drop, length, Bytes, ◌≡◌, refl, sym, ap, ◌∙◌, inl, inr, arith, Bool-cases,
  length-append, length-drop, take-append-drop, take_front, drop_front,
}
use vless_core_cli.Socks5.{read_exact}

abbrev pub flat : List Bytes → Bytes
flat [] = []
flat (p ∷ ps) = p ++ flat ps

-- No piece is empty: `core_recv` gives 0 bytes only at the end.
abbrev pub ArePieces : List Bytes → Type 0
ArePieces [] = Unit
ArePieces (p ∷ ps) = (0 < length p) × ArePieces ps

-- The next bytes of a stream that has them.
pub read_exact-flat :
    (pieces : List Bytes) (n : ℕ) (xs ys : Bytes)
    → ArePieces pieces
    → flat pieces ≡ xs ++ ys
    → length xs ≡ n
    → (left : List Bytes) × (read_exact n pieces ≡ some (xs, left))
      × ArePieces left
      × (flat left ≡ ys)
unfolding read_exact
read_exact-flat pieces zero [] ys v e h = (pieces, refl, v, e)
read_exact-flat pieces zero (x ∷ xs) ys v e h = absurd (omega arith)
read_exact-flat [] (suc n) xs ys v e h =
    absurd (omega (arith, ap (λ (t : Bytes). length t) e, length-append xs ys))
read_exact-flat (p ∷ ps) (suc n) xs ys v e h =
    let some_bytes : length p == 0 ≡ false = ground (arith, v.0) in
    elim (Bool-cases (ltb (suc n) (length p))) [
      | inl less ↦
          let front : take (suc n) p ≡ xs =
            sym (take-append_le (suc n) p (flat ps) (ground arith))
            ∙ ap (λ (t : Bytes). take (suc n) t) e
            ∙ take_front (suc n) xs ys h in
          let back : drop (suc n) p ++ flat ps ≡ ys =
            sym (drop-append_le (suc n) p (flat ps) (ground arith))
            ∙ ap (λ (t : Bytes). drop (suc n) t) e
            ∙ drop_front (suc n) xs ys h in
          let left_over : 0 < length (drop (suc n) p) = ground (arith, length-drop (suc n) p) in
          (
            drop (suc n) p ∷ ps,
            rw (some_bytes, less) (ap (λ (t : Bytes). some (t, drop (suc n) p ∷ ps)) front),
            (left_over, v.1),
            back,
          )
      | inr more ↦
          let k = length p in
          let xs' = drop k xs in
          let front : take k xs ≡ p =
            sym (take-append_le k xs ys (ground arith))
            ∙ ap (λ (t : Bytes). take k t) (sym e)
            ∙ take_front k p (flat ps) refl in
          let back : flat ps ≡ xs' ++ ys =
            sym (drop_front k p (flat ps) refl)
            ∙ ap (λ (t : Bytes). drop k t) e
            ∙ drop-append_le k xs ys (ground arith) in
          let (left, f, w, g) =
            read_exact-flat ps (suc n - k) xs' ys v.1 back (omega (arith, length-drop k xs)) in
          (
            left,
            rw (some_bytes, more)
                (rw f (
                  ap (λ (t : Bytes). some (t, left))
                    (ap (λ (t : Bytes). t ++ xs') (sym front) ∙ take-append-drop k xs))),
            w,
            g,
          )
    ]
