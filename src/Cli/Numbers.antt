-- ===== src/Cli/Numbers.antt =====
-- The numbers of src/cli_args.c against the decimal notation.
use vless_core_cli.Prelude.{
  ℕ, ◌+◌, ◌-◌, ◌*◌, ◌%◌, ◌^◌, ◌≤◌, ◌<◌, false, [], ◌∷◌, none, some, ltb, length, Bytes, ◌≡◌, refl,
  sym, ap, ◌∙◌, ◌↔◌, inl, inr, arith, Bool-cases, Option-cases,
}
use native.Mathlib.Nat.{mod-eq_of_lt}
use vless_core_cli.Cli.{refuses_digit, number_loop, number}

abbrev pub AreDigits : Bytes → Type 0
AreDigits [] = Unit
AreDigits (c ∷ cs) = ((48 ≤ c) × (c ≤ 57)) × AreDigits cs

-- The number that digits write behind others.
abbrev pub decimal : ℕ → Bytes → ℕ
decimal value [] = value
decimal value (c ∷ cs) = decimal (value * 10 + (c - 48)) cs

decimal_grows : (value : ℕ) (cs : Bytes) → value ≤ decimal value cs
decimal_grows value [] = omega arith
decimal_grows value (c ∷ cs) = omega (arith, decimal_grows (value * 10 + (c - 48)) cs)

-- The test against the overflow is exact.
pub refuses_digit_iff :
    (maximum value c : ℕ)
    → (refuses_digit maximum value c ≡ false)
      ↔ (((48 ≤ c) × (c ≤ 57)) × (value * 10 + (c - 48) ≤ maximum))
unfolding refuses_digit
refuses_digit_iff maximum value c = ground arith

module _ (maximum : ℕ) (small : maximum < 2 ^ 32) where
  whole : (n : ℕ) → n ≤ maximum → n % 2 ^ 32 ≡ n
  whole n le = mod-eq_of_lt (omega (arith, le, small))

  number_loop_sound :
      (value : ℕ) (cs : Bytes) (n : ℕ)
      → value ≤ maximum
      → number_loop maximum value cs ≡ some n
      → AreDigits cs × (decimal value cs ≡ n) × (n ≤ maximum)
  unfolding number_loop
  number_loop_sound value [] n le e =
      let same : value ≡ n = cc in (tt, same, omega (arith, same, le))
  number_loop_sound value (c ∷ cs) n le e = elim (Bool-cases (refuses_digit maximum value c)) [
    | inl f ↦
        let gone : number_loop maximum value (c ∷ cs) ≡ none = rw (f, number_loop) refl in
        absurd (cc (gone, e))
    | inr f ↦
        let (digit, next) = (refuses_digit_iff maximum value c).0 f in
        let opened : number_loop maximum value (c ∷ cs)
            ≡ number_loop maximum (value * 10 + (c - 48)) cs =
          rw (f, number_loop)
            (ap (λ (k : ℕ). number_loop maximum k cs) (whole (value * 10 + (c - 48)) next)) in
        let (digits, same, fits) =
          number_loop_sound (value * 10 + (c - 48)) cs n next (sym opened ∙ e) in
        ((digit, digits), same, fits)
  ]

  number_loop_complete :
      (value : ℕ) (cs : Bytes)
      → AreDigits cs
      → decimal value cs ≤ maximum
      → number_loop maximum value cs ≡ some (decimal value cs)
  unfolding number_loop
  number_loop_complete value [] digits le = refl
  number_loop_complete value (c ∷ cs) digits le =
      let next : value * 10 + (c - 48) ≤ maximum =
        omega (arith, decimal_grows (value * 10 + (c - 48)) cs, le) in
      let taken : refuses_digit maximum value c ≡ false =
        (refuses_digit_iff maximum value c).1 (digits.0, next) in
      rw (taken, number_loop)
        (ap (λ (k : ℕ). number_loop maximum k cs) (whole (value * 10 + (c - 48)) next)
          ∙ number_loop_complete (value * 10 + (c - 48)) cs digits.1 le)

-- A text is read as a number exactly when it is the decimal notation of that number, leading zeros
-- allowed, and the number is in the range, for every range of 32-bit words.
pub number_iff :
    (text : Bytes) (minimum maximum n : ℕ)
    → maximum < 2 ^ 32
    → (number text minimum maximum ≡ some n)
      ↔ ((0 < length text) × AreDigits text × (decimal 0 text ≡ n) × (minimum ≤ n) × (n ≤ maximum))
unfolding number
number_iff [] minimum maximum n small = (λ e. absurd (cc e), λ h. absurd (omega (arith, h.0)))
number_iff (c ∷ cs) minimum maximum n small = (
  λ e. elim (Option-cases (number_loop maximum 0 (c ∷ cs))) [
    | inl f ↦
        let gone : number (c ∷ cs) minimum maximum ≡ none = rw (f, number) refl in
        absurd (cc (gone, e))
    | inr (value, f) ↦
        let (digits, same, fits) =
          number_loop_sound maximum small 0 (c ∷ cs) value (omega arith) f in
        elim (Bool-cases (ltb value minimum)) [
          | inl g ↦
              let gone : number (c ∷ cs) minimum maximum ≡ none = rw (f, number) (rw g refl) in
              absurd (cc (gone, e))
          | inr g ↦
              let found : number (c ∷ cs) minimum maximum ≡ some value =
                rw (f, number) (rw g refl) in
              let value_is : value ≡ n = cc (found, e) in
              (
                omega arith,
                digits,
                same ∙ value_is,
                ground (arith, g, value_is),
                omega (arith, value_is, fits),
              )
        ]
  ],
  λ h.
      let (some_bytes, digits, same, low, high) = h in
      let read = number_loop_complete maximum small 0 (c ∷ cs) digits (omega (arith, same, high)) in
      let enough : ltb (decimal 0 (c ∷ cs)) minimum ≡ false = ground (arith, same, low) in
      rw (read, number) (rw enough (ap some same)),
)
