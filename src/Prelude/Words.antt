-- ===== src/Prelude/Words.antt =====
-- Machine words as native numbers. `size_t` and `uint64_t` have 64 bits.
use Prim.Native.Nat.{ℕ, ◌+◌, ◌-◌, ◌*◌, ◌/◌, ◌%◌, ◌^◌, compare, Ordering}
use mathlib.Core.Bool.{Bool, true, false}

abbrev pub size_max : ℕ
size_max = 2 ^ 64 - 1

-- `a + b` and `a - b` on `size_t`.
abbrev pub add_size : ℕ → ℕ → ℕ
add_size a b = (a + b) % 2 ^ 64

abbrev pub sub_size : ℕ → ℕ → ℕ
sub_size a b = (a + 2 ^ 64 - b) % 2 ^ 64

-- `flags & (1 << k)`, as a test.
abbrev pub bit : ℕ → ℕ → Bool
bit flags k = elim (compare (flags / 2 ^ k % 2) 1) [ Ordering.eq ↦ true | _ ↦ false ]

-- Big-endian numbers from their bytes.
abbrev pub word16 : ℕ → ℕ → ℕ
word16 a b = a * 256 + b

abbrev pub word24 : ℕ → ℕ → ℕ → ℕ
word24 a b c = a * 65536 + b * 256 + c

abbrev pub word32 : ℕ → ℕ → ℕ → ℕ → ℕ
word32 a b c d = a * 16777216 + b * 65536 + c * 256 + d
