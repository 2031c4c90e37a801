-- ===== src/BufferBudget/Waiters.antt =====
-- The linked list of waiters of src/buffer_budget.c, against the `registered` flags.
use vless_core_cli.Prelude.{
  ℕ, ◌+◌, ◌-◌, Bool, true, false, List, [], ◌∷◌, ◌≡◌, refl, arith, ◌==◌, if◌then◌else◌,
}
use vless_core_cli.BufferBudget.{
  Ledger, notify_released, watch, unlink, unwatch, claim, release, budget_init, budget_clear, alloc,
  free, realloc, transfer,
}
use vless_core_cli.BufferBudget.Reachable.{
  Step, add_budget, watch_call, unwatch_call, hold_call, drop_call, init_call, clear_call,
  alloc_call, free_call, realloc_call, transfer_call, Reach, here, next, initial,
}

-- How often a waiter stands in the list.
abbrev pub count : ℕ → List ℕ → ℕ
count w [] = 0
count w (x ∷ xs) = (if x == w then 1 else 0) + count w xs

-- A waiter is in the list once if it is registered, and else not at all.
abbrev pub IsListed : Ledger → Type 0
IsListed l = (w : ℕ) → count w l.waiters ≡ (if (l.waiter w).registered then 1 else 0)

count-unlink :
    (w v : ℕ) (ws : List ℕ)
    → count v (unlink w ws) ≡ (if w == v then count v ws - 1 else count v ws)
unfolding unlink
count-unlink w v [] = ground arith
count-unlink w v (x ∷ ws) = ground (arith, count-unlink w v ws)

watch-IsListed : (l : Ledger) (w fd wanted : ℕ) → IsListed l → IsListed (watch l w fd wanted)
unfolding watch
watch-IsListed l w fd wanted h v = ground (arith, h v, h w)

unwatch-IsListed : (l : Ledger) (w : ℕ) → IsListed l → IsListed (unwatch l w)
unfolding unwatch
unwatch-IsListed l w h v = ground (arith, h v, count-unlink w v l.waiters)

-- An operation on the accounts leaves the waiters alone.
abbrev SameWaiters : Ledger → Ledger → Type 0
SameWaiters l l' =
    (l'.waiters ≡ l.waiters) × ((w : ℕ) → (l'.waiter w).registered ≡ (l.waiter w).registered)

SameWaiters-IsListed : (l l' : Ledger) → SameWaiters l l' → IsListed l → IsListed l'
SameWaiters-IsListed l l' s h v = rw (s.0, s.1 v) (h v)

claim-SameWaiters : (l : Ledger) (i size : ℕ) → SameWaiters l (claim l i size).1
unfolding claim
claim-SameWaiters l i size = (ground arith, λ w. ground arith)

release-SameWaiters : (l : Ledger) (i size : ℕ) → SameWaiters l (release l i size)
unfolding release notify_released
release-SameWaiters l i size = (ground arith, λ w. ground arith)

budget_init-SameWaiters :
    (l : Ledger) (i direction minimum : ℕ) → SameWaiters l (budget_init l i direction minimum).1
unfolding budget_init notify_released
budget_init-SameWaiters l i direction minimum = (ground arith, λ w. ground arith)

budget_clear-SameWaiters : (l : Ledger) (i : ℕ) → SameWaiters l (budget_clear l i).1
unfolding budget_clear notify_released
budget_clear-SameWaiters l i = (ground arith, λ w. ground arith)

alloc-SameWaiters :
    (l : Ledger) (i size : ℕ) (granted : Bool) → SameWaiters l (alloc l i size granted).1
unfolding alloc
alloc-SameWaiters l i size granted =
    let c = claim-SameWaiters l i size in
    let r = release-SameWaiters (claim l i size).1 i size in
    (ground (arith, c.0, r.0), λ w. ground (arith, c.1 w, r.1 w))

free-SameWaiters :
    (l : Ledger) (i : ℕ) (present : Bool) (size : ℕ) → SameWaiters l (free l i present size)
unfolding free
free-SameWaiters l i true size = release-SameWaiters l i size
free-SameWaiters l i false size = (refl, λ w. refl)

realloc-SameWaiters :
    (l : Ledger) (i : ℕ) (present : Bool) (previous size : ℕ) (granted : Bool)
    → SameWaiters l (realloc l i present previous size granted).1
unfolding realloc
realloc-SameWaiters l i present previous size granted =
    let c = claim-SameWaiters l i size in
    let f = free-SameWaiters l i present previous in
    let r = release-SameWaiters (claim l i size).1 i size in
    let p = release-SameWaiters (claim l i size).1 i previous in
    (ground (arith, c.0, r.0, f.0, p.0), λ w. ground (arith, c.1 w, r.1 w, f.1 w, p.1 w))

transfer-SameWaiters : (l : Ledger) (i j size : ℕ) → SameWaiters l (transfer l i j size).1
unfolding transfer notify_released
transfer-SameWaiters l i j size = (ground arith, λ w. ground arith)

Step-IsListed : {l l' : Ledger} → Step l l' → IsListed l → IsListed l'
Step-IsListed (add_budget l direction) h = h
Step-IsListed (watch_call l w fd wanted) h = watch-IsListed l w fd wanted h
Step-IsListed (unwatch_call l w) h = unwatch-IsListed l w h
Step-IsListed (hold_call l i size) h =
    SameWaiters-IsListed l (claim l i size).1 (claim-SameWaiters l i size) h
Step-IsListed (drop_call l i size held) h =
    SameWaiters-IsListed l (release l i size) (release-SameWaiters l i size) h
Step-IsListed (init_call l i direction minimum) h =
    SameWaiters-IsListed l (budget_init l i direction minimum).1
      (budget_init-SameWaiters l i direction minimum) h
Step-IsListed (clear_call l i) h =
    SameWaiters-IsListed l (budget_clear l i).1 (budget_clear-SameWaiters l i) h
Step-IsListed (alloc_call l i size granted) h =
    SameWaiters-IsListed l (alloc l i size granted).1 (alloc-SameWaiters l i size granted) h
Step-IsListed (free_call l i present size held) h =
    SameWaiters-IsListed l (free l i present size) (free-SameWaiters l i present size) h
Step-IsListed (realloc_call l i present previous size granted held) h =
    SameWaiters-IsListed l (realloc l i present previous size granted).1
      (realloc-SameWaiters l i present previous size granted) h
Step-IsListed (transfer_call l i j size) h =
    SameWaiters-IsListed l (transfer l i j size).1 (transfer-SameWaiters l i j size) h

-- After any calls, the list of waiters holds each registered waiter once, and no other.
pub Reach-IsListed : {l : Ledger} → Reach initial l → IsListed l
Reach-IsListed here = λ v. refl
Reach-IsListed (next r s) = Step-IsListed s (Reach-IsListed r)
