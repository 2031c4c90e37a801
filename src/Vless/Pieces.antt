-- ===== src/Vless/Pieces.antt =====
-- `vless_consume_response` of src/vless.c reads the response header in pieces of any size.
use vless_core_cli.Prelude.{
  ℕ, zero, suc, ◌+◌, ◌-◌, true, false, ◌&&◌, not, [], ◌∷◌, ◌++◌, none, some, ltb, ◌==◌,
  if◌then◌else◌, drop, length, Bytes, ◌≡◌, refl, sym, ap, ◌∙◌, inl, inr, arith, Bool-cases,
  Option-cases, length-append, length-drop, drop_all,
}
use vless_core_cli.Vless.{
  Response, Consumed, read_header, skip_addons, after_header, consume_response,
}

abbrev pub start : Response
start = record { header_bytes = 0; addon_bytes = 0; complete = false }

-- Two calls, the second on what the first left and on what came since.
abbrev pub consume_twice : Response → Bytes → Bytes → Consumed
consume_twice s xs ys = elim (consume_response s xs) [
  | none ↦ none
  | some (t, rest) ↦ consume_response t (rest ++ ys)
]

-- Once the two bytes are read, the loop leaves the input alone.
read_header_full :
    (s : Response) (xs : Bytes) → ltb s.header_bytes 2 ≡ false → read_header s xs ≡ some (s, xs)
unfolding read_header
read_header_full s [] h = refl
read_header_full s (x ∷ xs) h = rw h

read_header-append :
    (xs ys : Bytes) (s : Response)
    → read_header s (xs ++ ys)
      ≡ elim (read_header s xs) [ none ↦ none | some (t, rest) ↦ read_header t (rest ++ ys) ]
unfolding read_header
read_header-append [] ys s = refl
read_header-append (x ∷ xs) ys s = elim (Bool-cases (ltb s.header_bytes 2)) [
  | inl e ↦ elim (Bool-cases (s.header_bytes == 0 && not (x == 0))) [
    | inl bad ↦ rw (e, bad)
    | inr good ↦ rw (e, good) (read_header-append xs ys _)
  ]
  | inr e ↦ rw e (rw e)
]

-- What `skip_addons` does, without the comparison.
skip_addons_lem :
    (s : Response) (xs : Bytes)
    → skip_addons s xs ≡ (
      record s {
        addon_bytes = s.addon_bytes - length xs;
        complete = s.addon_bytes - length xs == 0;
      },
      drop s.addon_bytes xs,
    )
unfolding skip_addons
skip_addons_lem s xs =
    ground (arith, drop_all (length xs) xs (omega arith), drop_all s.addon_bytes xs)

drop_twice : (n : ℕ) (xs ys : Bytes) → drop (n - length xs) (drop n xs ++ ys) ≡ drop n (xs ++ ys)
drop_twice zero [] ys = refl
drop_twice zero (x ∷ xs) ys = let e : 0 - length (x ∷ xs) ≡ 0 = omega arith in rw e
drop_twice (suc n) [] ys = let e : suc n - 0 ≡ suc n = omega arith in rw e
drop_twice (suc n) (x ∷ xs) ys =
    let e : suc n - suc (length xs) ≡ n - length xs = omega arith in rw e (drop_twice n xs ys)

-- Skipping addons in two steps is skipping them in one.
skip_addons-append :
    (s : Response) (xs ys : Bytes)
    → (let (t, rest) = skip_addons s xs in skip_addons t (rest ++ ys)) ≡ skip_addons s (xs ++ ys)
skip_addons-append s xs ys =
    let left : s.addon_bytes - length xs - length (drop s.addon_bytes xs ++ ys)
        ≡ s.addon_bytes - length (xs ++ ys) =
      omega (
        arith,
        length-append xs ys,
        length-append (drop s.addon_bytes xs) ys,
        length-drop s.addon_bytes xs,
      ) in
    simp (skip_addons_lem, drop_twice, left)

-- What the first loop leaves over while the header is short.
read_header_short :
    (xs : Bytes) (s : Response) {t : Response} {rest : Bytes}
    → read_header s xs ≡ some (t, rest)
    → ltb t.header_bytes 2 ≡ true
    → rest ≡ []
unfolding read_header
read_header_short [] s e h = cc
read_header_short (x ∷ xs) s {t} {rest} e h =
    let next = record s {
      addon_bytes = if s.header_bytes == 1 then x else s.addon_bytes;
      header_bytes = s.header_bytes + 1;
    } in
    ground (arith, read_header_short xs next {t = t} {rest = rest})

header_bytes-skip : (s : Response) (xs : Bytes) → (skip_addons s xs).0.header_bytes ≡ s.header_bytes
unfolding skip_addons
header_bytes-skip s xs = refl

consume_some :
    (s : Response) (xs : Bytes) {p : Response × Bytes}
    → read_header s xs ≡ some p
    → consume_response s xs ≡ some (after_header p)
unfolding consume_response
consume_some s xs e = rw (e, consume_response)

consume_full :
    (s : Response) (xs : Bytes)
    → ltb s.header_bytes 2 ≡ false
    → consume_response s xs ≡ some (skip_addons s xs)
consume_full s xs e = consume_some s xs (read_header_full s xs e) ∙ rw e

-- The second call goes on where the first stopped.
consume_after :
    (t : Response) (rest ys : Bytes)
    → (ltb t.header_bytes 2 ≡ true → rest ≡ [])
    → (let (u, left) = after_header (t, rest) in consume_response u (left ++ ys))
      ≡ consume_response t (rest ++ ys)
consume_after t rest ys short = elim (Bool-cases (ltb t.header_bytes 2)) [
  | inl e ↦ rw e
  | inr e ↦
      let u = (skip_addons t rest).0 in
      let full : ltb u.header_bytes 2 ≡ false = ap (λ n. ltb n 2) (header_bytes-skip t rest) ∙ e in
      let left = (skip_addons t rest).1 in
      rw e (
        consume_full u (left ++ ys) full
        ∙ ap some (skip_addons-append t rest ys)
        ∙ sym (consume_full t (rest ++ ys) e))
]

consume_some-append :
    (s : Response) (xs ys : Bytes) {t : Response} {rest : Bytes}
    → read_header s xs ≡ some (t, rest)
    → consume_response t (rest ++ ys) ≡ consume_response s (xs ++ ys)
unfolding consume_response
consume_some-append s xs ys e = rw (read_header-append xs ys s, consume_response) (rw (e))

consume_none :
    (s : Response) (xs ys : Bytes)
    → read_header s xs ≡ none
    → (consume_response s xs ≡ none) × (consume_response s (xs ++ ys) ≡ none)
unfolding consume_response
consume_none s xs ys e =
    (rw (e, consume_response), rw (read_header-append xs ys s, consume_response) (rw e))

-- The response header can come in two pieces, cut anywhere: the state after them, what is left of
-- the input, and a refusal are those of one call on the whole.
pub consume_twice_lem :
    (s : Response) (xs ys : Bytes) → consume_twice s xs ys ≡ consume_response s (xs ++ ys)
consume_twice_lem s xs ys = elim (Option-cases (read_header s xs)) [
  | inl e ↦ let (first, whole) = consume_none s xs ys e in rw (first, consume_twice) (sym whole)
  | inr ((t, rest), e) ↦
      rw (consume_some s xs e, consume_twice)
        (consume_after t rest ys (read_header_short xs s e) ∙ consume_some-append s xs ys e)
]
