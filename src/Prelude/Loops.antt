-- ===== src/Prelude/Loops.antt =====
-- Loops over bytes: a round reads some of them, and the loop goes on behind these.
use Prim.Native.Nat.{ℕ, zero, suc, ◌≤◌, ◌<◌}
use mathlib.Core.List.{[], ◌∷◌}
use native.Mathlib.Omega.{arith}
use vless_core_cli.Prelude.Lists.{length, Bytes}

-- What one round of a loop over bytes gives: the state and the bytes behind it, or the state of the
-- failure. `hung` stands for a round that has a loop that does not end.
pub data Turn (S : Type 0) : Type 0 where
  hung : Turn S
  failed : S → Turn S
  went : S → Bytes → Turn S

-- What a loop gives: `stuck` stands for a loop that has more rounds than its fuel.
pub data Read (S : Type 0) : Type 0 where
  stuck : Read S
  bad : S → Read S
  done : S → Read S

-- What the rest of a loop makes of a round.
abbrev pub follow : {S : Type 0} → Turn S → (S → Bytes → Read S) → Read S
follow hung next = stuck
follow (failed t) next = bad t
follow (went t rest) next = next t rest

-- The loops `for (size_t offset=0;offset<length;)`, at the bytes from `offset` on.
unfoldable pub read_loop : {S : Type 0} → (S → Bytes → Turn S) → ℕ → S → Bytes → Read S
read_loop round n s [] = done s
read_loop round zero s (b ∷ bytes) = stuck
read_loop round (suc n) s (b ∷ bytes) =
    follow (round s (b ∷ bytes)) (λ t rest. read_loop round n t rest)

-- A round at `n` bytes reads some of them, and leaves a state that is as it has to be for the bytes that
-- are left, or one of a failure.
unfoldable pub Good : {S : Type 0} → (S → ℕ → Type 0) → (S → Type 0) → ℕ → Turn S → Type 0
Good P F n hung = ⊥
Good P F n (failed t) = F t
Good P F n (went t rest) = (length rest < n) × P t (length rest)

unfoldable pub Ended : {S : Type 0} → (S → Type 0) → (S → Type 0) → Read S → Type 0
Ended Q F stuck = ⊥
Ended Q F (bad t) = F t
Ended Q F (done t) = Q t

-- A failure of which nothing is said.
abbrev pub Anything : {S : Type 0} → S → Type 0
Anything s = Unit {0}

follow-Ended :
    {S : Type 0} (P : S → ℕ → Type 0) (F : S → Type 0) (n : ℕ) (next : S → Bytes → Read S)
    (t : Turn S)
    → ((u : S) (rest : Bytes)
        → length rest < n
        → P u (length rest)
        → Ended (λ v. P v 0) F (next u rest))
    → Good P F n t
    → Ended (λ v. P v 0) F (follow t next)
unfolding Good Ended
follow-Ended P F n next hung step g = g
follow-Ended P F n next (failed t) step g = g
follow-Ended P F n next (went t rest) step g = step t rest g.0 g.1

-- A loop has no more rounds than there are bytes, and at its end the state is as it has to be for none.
pub read_loop-Ended :
    {S : Type 0} (P : S → ℕ → Type 0) (F : S → Type 0) (round : S → Bytes → Turn S)
    → ((s : S) (b : ℕ) (bytes : Bytes)
        → P s (suc (length bytes))
        → Good P F (suc (length bytes)) (round s (b ∷ bytes)))
    → (n : ℕ) (s : S) (bytes : Bytes) → length bytes ≤ n
    → P s (length bytes)
    → Ended (λ t. P t 0) F (read_loop round n s bytes)
unfolding read_loop Ended
read_loop-Ended P F round step n s [] le p = p
read_loop-Ended P F round step zero s (b ∷ bytes) le p = absurd (omega arith)
read_loop-Ended P F round step (suc n) s (b ∷ bytes) le p =
    follow-Ended P F (suc (length bytes)) (λ t rest. read_loop round n t rest) (round s (b ∷ bytes))
      (λ t rest less q. read_loop-Ended P F round step n t rest (omega (arith, less, le)) q)
      (step s b bytes p)
