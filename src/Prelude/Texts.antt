-- ===== src/Prelude/Texts.antt =====
-- Texts as lists of bytes.
use Prim.Native.Char.{code}
use Prim.Native.String.{String}
use mathlib.Core.Bool.{Bool, true, false, ◌&&◌, ◌||◌}
use mathlib.Core.List.{[], ◌∷◌}
use Prim.Native.Nat.{ℕ}
use vless_core_cli.Prelude.Tests.{◌==◌}
use vless_core_cli.Prelude.Lists.{Bytes}
use mathlib.Core.Path.{◌≡◌, refl}
use mathlib.Core.Logic.{◌↔◌}
use native.Mathlib.Omega.{arith}

-- The bytes of a text in ASCII.
abbrev pub codes : String → Bytes
codes String.[] = []
codes (String.◌∷◌ c s) = code c ∷ codes s

-- `memcmp` and `strcmp`, as a test
abbrev pub same_bytes : Bytes → Bytes → Bool
same_bytes [] [] = true
same_bytes (x ∷ xs) (y ∷ ys) = x == y && same_bytes xs ys
same_bytes _ _ = false

pub same_bytes_iff : (xs ys : Bytes) → (same_bytes xs ys ≡ true) ↔ (xs ≡ ys)
same_bytes_iff [] [] = (λ h. refl, λ e. refl)
same_bytes_iff [] (y ∷ ys) = (λ h. absurd (ground (arith, h)), λ e. absurd (cc e))
same_bytes_iff (x ∷ xs) [] = (λ h. absurd (ground (arith, h)), λ e. absurd (cc e))
same_bytes_iff (x ∷ xs) (y ∷ ys) = (
  λ h. ground (arith, h, same_bytes_iff xs ys),
  λ e.
      let head : x ≡ y = cc in
      let tail : xs ≡ ys = cc in
      let rest = (same_bytes_iff xs ys).1 tail in ground (arith, head, rest),
)

abbrev pub contains : ℕ → Bytes → Bool
contains c [] = false
contains c (x ∷ xs) = x == c || contains c xs
