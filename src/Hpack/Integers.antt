-- ===== src/Hpack/Integers.antt =====
-- The integers of src/hpack.c against the encoding of RFC 7541, section 5.1.
use vless_core_cli.Prelude.{
  ℕ, zero, suc, ◌+◌, ◌-◌, ◌*◌, ◌/◌, ◌%◌, ◌^◌, ◌≤◌, ◌<◌, true, false, ◌||◌, [], ◌∷◌, ◌++◌, some, ltb,
  ◌==◌, if◌then◌else◌, Bytes, ◌≡◌, refl, ap, ◌∙◌, inl, inr, arith, Bool-cases,
}
use native.Mathlib.Nat.{
  div-add-mod, le-div_iff_mul-le, mod-eq_of_lt, one-le-pow, mul-add-mod_self_right,
}
use native.Mathlib.Numerals.{towards_suc}
use vless_core_cli.Hpack.{decode_more, decode_int}

-- The groups of seven bits of `n`, the lowest first; all but the last have the top bit.
unfoldable pub groups : ℕ → ℕ → Bytes
groups zero n = n ∷ []
groups (suc k) n =
    let rest = groups k (n / 128) in if ltb n 128 then n ∷ [] else (n % 128 + 128) ∷ rest

-- The encoding of `n` with a prefix, under the flag bits `high` above the prefix.
abbrev pub encode_int : ℕ → ℕ → ℕ → Bytes
encode_int prefix high n =
    let mask = 2 ^ prefix - 1 in
    if ltb n mask
    then (high * 2 ^ prefix + n) ∷ []
    else (high * 2 ^ prefix + mask) ∷ groups 4 (n - mask)

shift_seven : (m : ℕ) → 2 ^ (m + 7) ≡ 128 * 2 ^ m
shift_seven m = simp towards_suc (omega arith)

split_group : (n m : ℕ) → n * 2 ^ m ≡ n % 128 * 2 ^ m + n / 128 * 2 ^ (m + 7)
split_group n m = omega (
  arith,
  ap (λ (t : ℕ). t * 2 ^ m) (div-add-mod n 128),
  ap (λ (t : ℕ). n / 128 * t) (shift_seven m),
)

-- The test against the overflow passes when the sum fits.
no_overflow : (b p v : ℕ) → 1 ≤ p → v + b * p < 2 ^ 32 → ltb ((2 ^ 32 - 1 - v) / p) b ≡ false
no_overflow b p v hp fits =
    let fit : b ≤ (2 ^ 32 - 1 - v) / p = (le-div_iff_mul-le hp).1 (omega arith) in ground arith

-- One round on the byte `b`, when the sum fits.
round :
    (b m v : ℕ) (rest : Bytes)
    → m ≤ 28
    → v + b % 128 * 2 ^ m < 2 ^ 32
    → decode_more (b ∷ rest) m v ≡ (
        if ltb b 128
        then some (v + b % 128 * 2 ^ m, rest)
        else decode_more rest (m + 7) (v + b % 128 * 2 ^ m))
unfolding decode_more
round b m v rest hm fits =
    let small : ltb 28 m ≡ false = ground arith in
    let whole : (v + b % 128 * 2 ^ m) % 2 ^ 32 ≡ v + b % 128 * 2 ^ m = mod-eq_of_lt fits in
    rw (small, no_overflow (b % 128) (2 ^ m) v (one-le-pow m 2 (omega arith)) fits, whole) refl

shrink_group : (k n : ℕ) → n < 128 ^ suc (suc k) → n / 128 < 128 ^ suc k
shrink_group k n h = let step : 128 ^ suc (suc k) ≡ 128 * 128 ^ suc k = omega arith in omega arith

decode_more-groups :
    (k n m v : ℕ) (rest : Bytes)
    → n < 128 ^ suc k
    → m + 7 * k ≤ 28
    → v + n * 2 ^ m < 2 ^ 32
    → decode_more (groups k n ++ rest) m v ≡ some (v + n * 2 ^ m, rest)
unfolding groups
decode_more-groups zero n m v rest hn hm fits =
    rw (round n m v rest (omega arith) (ground (arith, mod-eq_of_lt {n = n} {m = 128} hn)))
      (ground (arith, mod-eq_of_lt {n = n} {m = 128} hn))
decode_more-groups (suc k) n m v rest hn hm fits = elim (Bool-cases (ltb n 128)) [
  | inl e ↦
      let same : n % 128 ≡ n = ground arith in
      rw e (round n m v rest (omega arith) (rw same fits) ∙ rw (e, same) refl)
  | inr e ↦
      let low : (n % 128 + 128) % 128 ≡ n % 128 = omega arith in
      let high : ltb (n % 128 + 128) 128 ≡ false = ground arith in
      let split = split_group n m in
      let first =
        round (n % 128 + 128) m v (groups k (n / 128) ++ rest) (omega arith)
          (rw low (omega arith)) in
      let later =
        decode_more-groups k (n / 128) (m + 7) (v + n % 128 * 2 ^ m) rest (shrink_group k n hn)
          (omega arith) (omega arith) in
      rw e (first ∙ rw (low, high) (later ∙ ap (λ (t : ℕ). some (t, rest)) (omega arith)))
]

power_bounds : (p : ℕ) → 1 ≤ p → p ≤ 8 → (2 ≤ 2 ^ p) × (2 ^ p ≤ 256)
power_bounds zero lo hi = absurd (omega arith)
power_bounds (suc zero) lo hi = omega arith
power_bounds (suc (suc zero)) lo hi = omega arith
power_bounds (suc (suc (suc zero))) lo hi = omega arith
power_bounds (suc (suc (suc (suc zero)))) lo hi = omega arith
power_bounds (suc (suc (suc (suc (suc zero))))) lo hi = omega arith
power_bounds (suc (suc (suc (suc (suc (suc zero)))))) lo hi = omega arith
power_bounds (suc (suc (suc (suc (suc (suc (suc zero))))))) lo hi = omega arith
power_bounds (suc (suc (suc (suc (suc (suc (suc (suc zero)))))))) lo hi = omega arith
power_bounds (suc (suc (suc (suc (suc (suc (suc (suc (suc p))))))))) lo hi = absurd (omega arith)

-- Every integer of 32 bits is read back from its encoding with a prefix of 1 to 8 bits, whatever
-- the flag bits are and whatever follows.
pub decode_int-encode_int :
    (prefix high n : ℕ) (rest : Bytes)
    → 1 ≤ prefix
    → prefix ≤ 8
    → n < 2 ^ 32
    → decode_int prefix (encode_int prefix high n ++ rest) ≡ some (n, rest)
unfolding decode_int
decode_int-encode_int prefix high n rest lo hi h =
    let (small, large) = power_bounds prefix lo hi in
    let in_range : (prefix == 0 || ltb 8 prefix) ≡ false = ground arith in
    elim (Bool-cases (ltb n (2 ^ prefix - 1))) [
      | inl e ↦
          let low : (high * 2 ^ prefix + n) % 2 ^ prefix ≡ n =
            mul-add-mod_self_right high (2 ^ prefix) n ∙ mod-eq_of_lt (ground arith) in
          let differs : n == 2 ^ prefix - 1 ≡ false = ground arith in
          rw e (rw (in_range, low, differs) refl)
      | inr e ↦
          let mask = 2 ^ prefix - 1 in
          let low : (high * 2 ^ prefix + mask) % 2 ^ prefix ≡ mask =
            mul-add-mod_self_right high (2 ^ prefix) mask ∙ mod-eq_of_lt (ground arith) in
          let same : mask == mask ≡ true = ground arith in
          let later =
            decode_more-groups 4 (n - mask) 0 mask rest (ground arith) (omega arith)
              (ground arith) in
          rw e (rw (in_range, low, same) (later ∙ ap (λ (t : ℕ). some (t, rest)) (ground arith)))
    ]
