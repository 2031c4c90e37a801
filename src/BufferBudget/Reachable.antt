-- ===== src/BufferBudget/Reachable.antt =====
-- Every ledger that the calls of src/buffer_budget.c can reach from the initial one is balanced.
use vless_core_cli.Prelude.{
  ℕ, ◌+◌, ◌≤◌, Bool, true, false, [], ◌∷◌, some, get_elem?, ◌≡◌, refl, arith, Option-cases, inl,
  inr, ◌⊎◌, ltb,
}
use vless_core_cli.Prelude.Results.{Errno, Status, done, failed}
use vless_core_cli.BufferBudget.{
  Budget, Ledger, total_limit, directions, watch, unwatch, claim, release, budget_init,
  budget_clear, alloc, free, realloc, transfer, snapshot, available,
}
use vless_core_cli.BufferBudget.Balance.{IsBalanced, sum_at-covered}
use vless_core_cli.BufferBudget.Operations.{
  claim-IsBalanced, release-IsBalanced, budget_init-IsBalanced, budget_clear-IsBalanced,
  transfer-IsBalanced, claim_done, claim_null,
}

-- The budget `i` holds at least `size`: what a caller that gives memory back has to know.
abbrev pub Holds : Ledger → ℕ → ℕ → Type 0
Holds l i size = (b : Budget) × (get_elem? l.budgets i ≡ some b) × (size ≤ b.allocated)

-- One call, by any caller. Memory that is given back was held.
pub data Step : Ledger → Ledger → Type 0 where
  add_budget :
      (l : Ledger) (direction : ℕ)
      → Step l (record l {
        budgets =
            record { minimum = 0; allocated = 0; charged = 0; direction = direction } ∷ l.budgets;
      })
  watch_call : (l : Ledger) (w fd wanted : ℕ) → Step l (watch l w fd wanted)
  unwatch_call : (l : Ledger) (w : ℕ) → Step l (unwatch l w)
  hold_call : (l : Ledger) (i size : ℕ) → Step l (claim l i size).1
  drop_call : (l : Ledger) (i size : ℕ) → Holds l i size → Step l (release l i size)
  init_call : (l : Ledger) (i direction minimum : ℕ) → Step l (budget_init l i direction minimum).1
  clear_call : (l : Ledger) (i : ℕ) → Step l (budget_clear l i).1
  alloc_call : (l : Ledger) (i size : ℕ) (granted : Bool) → Step l (alloc l i size granted).1
  free_call :
      (l : Ledger) (i : ℕ) (present : Bool) (size : ℕ)
      → Holds l i size
      → Step l (free l i present size)
  realloc_call :
      (l : Ledger) (i : ℕ) (present : Bool) (previous size : ℕ) (granted : Bool)
      → Holds l i previous
      → Step l (realloc l i present previous size granted).1
  transfer_call : (l : Ledger) (i j size : ℕ) → Step l (transfer l i j size).1

pub data Reach (s : Ledger) : Ledger → Type 0 where
  here : Reach s s
  next : {t u : Ledger} → Reach s t → Step t u → Reach s u

-- After a successful `claim` the budget holds what was claimed.
claim-Holds :
    {l : Ledger} (i size : ℕ) {l' : Ledger}
    → IsBalanced l
    → claim l i size ≡ (done, l')
    → Holds l' i size
claim-Holds {l} i size v h = elim (Option-cases (get_elem? l.budgets i)) [
  | inl e ↦ absurd (claim_null l i size e h)
  | inr (b, e) ↦ let (b', e', a) = claim_done l i size v e h in (b', e', omega arith)
]

-- What the budget held before, it still holds.
claim-keeps-Holds :
    {l : Ledger} (i size : ℕ) {l' : Ledger} {n : ℕ}
    → IsBalanced l
    → claim l i size ≡ (done, l')
    → Holds l i n
    → Holds l' i n
claim-keeps-Holds {l} i size v h (b, e, fits) =
    let (b', e', a) = claim_done l i size v e h in (b', e', omega arith)

Status-cases : (p : Status × Ledger) → (p ≡ (done, p.1)) ⊎ ((e : Errno) × (p ≡ (failed e, p.1)))
Status-cases (done, l) = inl refl
Status-cases (failed e, l) = inr (e, refl)

alloc-IsBalanced :
    {l : Ledger} (i size : ℕ) (granted : Bool)
    → IsBalanced l
    → IsBalanced (alloc l i size granted).1
unfolding alloc
alloc-IsBalanced {l} i size granted v = elim (Status-cases (claim l i size)) [
  | inl e ↦
      let (b, at, fits) = claim-Holds i size v e in
      ground (
        arith,
        v,
        e,
        claim-IsBalanced i size v,
        release-IsBalanced {l = (claim l i size).1} i size (claim-IsBalanced i size v) at fits,
      )
  | inr (f, e) ↦ ground (arith, v, e, claim-IsBalanced i size v)
]

free-IsBalanced :
    {l : Ledger} (i : ℕ) (present : Bool) (size : ℕ)
    → IsBalanced l
    → Holds l i size
    → IsBalanced (free l i present size)
unfolding free
free-IsBalanced i true size v (b, e, fits) = release-IsBalanced i size v e fits
free-IsBalanced i false size v h = v

realloc-IsBalanced :
    {l : Ledger} (i : ℕ) (present : Bool) (previous size : ℕ) (granted : Bool)
    → IsBalanced l
    → Holds l i previous
    → IsBalanced (realloc l i present previous size granted).1
unfolding realloc
realloc-IsBalanced {l} i present previous size granted v h = elim (Status-cases (claim l i size)) [
  | inl e ↦
      let kept = claim-IsBalanced i size v in
      let (b, at, fits) = claim-Holds i size v e in
      let (c, at', fits') = claim-keeps-Holds i size v e h in
      ground (
        arith,
        v,
        e,
        kept,
        free-IsBalanced i present previous v h,
        release-IsBalanced {l = (claim l i size).1} i size kept at fits,
        release-IsBalanced {l = (claim l i size).1} i previous kept at' fits',
      )
  | inr (f, e) ↦
      ground (arith, v, e, claim-IsBalanced i size v, free-IsBalanced i present previous v h)
]

Step-IsBalanced : {l l' : Ledger} → Step l l' → IsBalanced l → IsBalanced l'
unfolding watch unwatch
Step-IsBalanced (add_budget l direction) v = record {
  charges = λ d. ground (arith, v.charges d);
  uses = λ d. ground (arith, v.uses d);
  within = v.within;
  budgets = (omega arith, v.budgets);
}
Step-IsBalanced (watch_call l w fd wanted) v = record {
  charges = v.charges;
  uses = v.uses;
  within = v.within;
  budgets = v.budgets;
}
Step-IsBalanced (unwatch_call l w) v = record {
  charges = v.charges;
  uses = v.uses;
  within = v.within;
  budgets = v.budgets;
}
Step-IsBalanced (hold_call l i size) v = claim-IsBalanced i size v
Step-IsBalanced (drop_call l i size (b, e, fits)) v = release-IsBalanced i size v e fits
Step-IsBalanced (init_call l i direction minimum) v = budget_init-IsBalanced i direction minimum v
Step-IsBalanced (clear_call l i) v = budget_clear-IsBalanced i v
Step-IsBalanced (alloc_call l i size granted) v = alloc-IsBalanced i size granted v
Step-IsBalanced (free_call l i present size h) v = free-IsBalanced i present size v h
Step-IsBalanced (realloc_call l i present previous size granted h) v =
    realloc-IsBalanced i present previous size granted v h
Step-IsBalanced (transfer_call l i j size) v = transfer-IsBalanced i j size v

-- The static variables at the start, with no budget.
abbrev pub initial : Ledger
initial = record {
  charged = λ d. 0;
  allocated = λ d. 0;
  budgets = [];
  waiter = λ w. record { fd = 0; registered = false; wanted = 0 };
  waiters = [];
  events = [];
}

initial-IsBalanced : IsBalanced initial
initial-IsBalanced = omega arith

-- After any calls, the charge and the use of each direction are the sums over its budgets, the
-- charge is within the limit, and each budget is charged the larger of its use and its minimum,
-- provided that memory given back was held.
pub Reach-IsBalanced : {l : Ledger} → Reach initial l → IsBalanced l
Reach-IsBalanced here = initial-IsBalanced
Reach-IsBalanced (next r s) = Step-IsBalanced s (Reach-IsBalanced r)

-- On a balanced ledger what a direction has in use, in reserve and available makes up the limit.
pub snapshot-available :
    (l : Ledger) (d : ℕ)
    → IsBalanced l
    → ltb d directions ≡ true
    → (snapshot l d).0 + (snapshot l d).1 + available l d ≡ total_limit
unfolding snapshot available
snapshot-available l d v h =
    ground (arith, v.charges d, v.uses d, v.within d, sum_at-covered d l.budgets v.budgets)
