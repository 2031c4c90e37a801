-- ===== src/Utils/Target.antt =====
-- The output of `core_request_target` of src/utils.c fits its buffer.
use vless_core_cli.Prelude.{
  ℕ, ◌+◌, ◌-◌, ◌^◌, ◌≤◌, ◌<◌, [], ◌∷◌, some, ltb, ◌==◌, if◌then◌else◌, length, Bytes, sub_size, ◌≡◌,
  inl, inr, arith, Bool-cases, Option-cases, length-append,
}
use vless_core_cli.Utils.{request_byte, target_size, target_byte, target_write, request_target}

length-target_byte : (c : ℕ) → length (target_byte c) ≡ (if request_byte c then 1 else 3)
unfolding target_byte
length-target_byte c = ground arith

sub_size_fits : (a b : ℕ) → b ≤ a → a < 2 ^ 64 → sub_size a b ≡ a - b
sub_size_fits a b h k = omega arith

-- The first loop counts what the second one writes.
target_size-target_write :
    (cap size : ℕ) (input : Bytes) {n : ℕ}
    → size ≤ cap - 1
    → cap < 2 ^ 64
    → target_size cap size input ≡ some n
    → (n ≡ size + length (target_write input)) × (n ≤ cap - 1)
unfolding target_size target_write
target_size-target_write cap size [] h k e = ground arith
target_size-target_write cap size (c ∷ []) h k e = ground (arith, length-target_byte c)
target_size-target_write cap size (c ∷ a ∷ []) {n} h k e =
    let required : ℕ = if request_byte c then 1 else 3 in
    let room = sub_size_fits (cap - 1) size h (omega arith) in
    let written = length-append (target_byte c) (target_write (a ∷ [])) in
    elim (Bool-cases (ltb (cap - 1 - size) required)) [
      | inl f ↦ absurd (ground arith)
      | inr f ↦ ground (
        arith,
        length-target_byte c,
        target_size-target_write cap (size + required) (a ∷ []) {n = n} (ground arith) k
            (ground arith),
      )
    ]
target_size-target_write cap size (c ∷ a ∷ b ∷ rest) {n} h k e =
    let required : ℕ = if request_byte c then 1 else 3 in
    let room = sub_size_fits (cap - 1) size h (omega arith) in
    let written = length-append (target_byte c) (target_write (a ∷ b ∷ rest)) in
    elim (Bool-cases (c == 37)) [
      | inl f ↦ elim (Bool-cases (ltb (cap - 1 - size) 3)) [
        | inl g ↦ absurd (ground arith)
        | inr g ↦ ground (
          arith,
          target_size-target_write cap (size + 3) rest {n = n} (ground arith) k (ground arith),
        )
      ]
      | inr f ↦ elim (Bool-cases (ltb (cap - 1 - size) required)) [
        | inl g ↦ absurd (ground arith)
        | inr g ↦ ground (
          arith,
          length-target_byte c,
          target_size-target_write cap (size + required) (a ∷ b ∷ rest) {n = n} (ground arith) k
              (ground arith),
        )
      ]
    ]

-- What `core_request_target` writes fits the buffer with its final NUL: the two loops agree on the
-- size.
pub length-request_target :
    (input : Bytes) (cap : ℕ) {out : Bytes}
    → cap < 2 ^ 64
    → request_target input cap ≡ some out
    → length out + 1 ≤ cap
unfolding request_target
length-request_target input cap {out} k e = elim (Option-cases (target_size cap 0 input)) [
  | inl f ↦ absurd (ground (arith, f))
  | inr (n, f) ↦ ground (arith, f, target_size-target_write cap 0 input (omega arith) k f)
]
