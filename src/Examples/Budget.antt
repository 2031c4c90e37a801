-- ===== src/Examples/Budget.antt =====
-- Runs of src/buffer_budget.c: a budget that holds memory, a waiter, and a transfer.
use vless_core_cli.Prelude.{ℕ, ◌+◌, [], ◌∷◌, some, get_elem?, ◌≡◌, refl, ◌≢◌, ◌⊎◌, arith}
use vless_core_cli.Prelude.Results.{done, failed, enobufs}
use vless_core_cli.BufferBudget.{
  Budget, Ledger, total_limit, watch, claim, release, transfer, snapshot, notified, notify_released,
}
use vless_core_cli.BufferBudget.Balance.{IsBalanced}
use vless_core_cli.BufferBudget.Operations.{claim_plain}
use vless_core_cli.BufferBudget.Reachable.{
  Reach, here, next, add_budget, watch_call, hold_call, initial, Reach-IsBalanced,
}
use vless_core_cli.BufferBudget.Contract.{
  release-claim, claim-claim_plain, IsRefused, transfer_moves,
}
use vless_core_cli.BufferBudget.Waiters.{IsListed, Reach-IsListed}

abbrev download : Budget
download = record { minimum = 0; allocated = 0; charged = 0; direction = 1 }

abbrev two_budgets : Ledger
two_budgets = record initial { budgets = download ∷ download ∷ [] }

abbrev two_reached : Reach initial two_budgets
two_reached =
    next (next here (add_budget initial 1))
      (add_budget (record initial { budgets = download ∷ [] }) 1)

-- The first budget holds 100 bytes, and a waiter for the download waits.
abbrev held : Ledger
held = (claim two_budgets 0 100).1

abbrev waiting : Ledger
waiting = watch held 7 12 2

abbrev waiting_reached : Reach initial waiting
waiting_reached = next (next two_reached (hold_call two_budgets 0 100)) (watch_call held 7 12 2)

claim_test : (claim two_budgets 0 100).0 ≡ done
unfolding claim
claim_test = refl

claim_full_test : (claim two_budgets 0 (total_limit + 1)).0 ≡ failed enobufs
unfolding claim
claim_full_test = refl

-- A release wakes the waiter.
release_test : (release waiting 0 40).events ≡ notified 12 ∷ []
unfolding claim release watch notify_released
release_test = refl

snapshot_test : snapshot waiting 1 ≡ (100, 0)
unfolding claim watch snapshot
snapshot_test = refl

Reach-IsBalanced_example : IsBalanced waiting
Reach-IsBalanced_example = Reach-IsBalanced waiting_reached

Reach-IsListed_example : IsListed waiting
Reach-IsListed_example = Reach-IsListed waiting_reached

held_lem : claim two_budgets 0 100 ≡ (done, held)
unfolding claim
held_lem = refl

release-claim_example :
    let r = release held 0 100 in
    (r.budgets ≡ two_budgets.budgets)
    × (r.charged 1 ≡ two_budgets.charged 1)
    × (r.allocated 1 ≡ two_budgets.allocated 1)
release-claim_example =
    release-claim two_budgets 0 100 1 (Reach-IsBalanced two_reached) refl held_lem

claim-claim_plain_example : claim two_budgets 0 100 ≡ claim_plain two_budgets 0 download 100
claim-claim_plain_example = claim-claim_plain two_budgets 0 100 (Reach-IsBalanced two_reached) refl

abbrev held_budget : Budget
held_budget = record { minimum = 0; allocated = 100; charged = 100; direction = 1 }

held_reached : Reach initial held
held_reached = next two_reached (hold_call two_budgets 0 100)

held_first : get_elem? held.budgets 0 ≡ some held_budget
unfolding claim
held_first = refl

held_second : get_elem? held.budgets 1 ≡ some download
unfolding claim
held_second = refl

distinct : ◌≢◌ {A = ℕ} 0 1
distinct = omega arith

transfer_moves_example :
    let (s, l') = transfer held 0 1 60 in
    (IsRefused held held_budget download 60 s × (l' ≡ held))
    ⊎ ((a' : Budget) × (b' : Budget) × (s ≡ done)
        × (get_elem? l'.budgets 0 ≡ some a')
        × (get_elem? l'.budgets 1 ≡ some b')
        × (a'.allocated + 60 ≡ 100)
        × (b'.allocated ≡ 60)
        × (l'.allocated ≡ held.allocated))
transfer_moves_example =
    transfer_moves held 0 1 60 (Reach-IsBalanced held_reached) distinct held_first held_second refl
      refl
