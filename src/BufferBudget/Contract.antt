-- ===== src/BufferBudget/Contract.antt =====
-- What one call of src/buffer_budget.c does to the accounts, as its caller sees it.
use vless_core_cli.Prelude.{
  ℕ, ◌+◌, ◌-◌, ◌≤◌, Bool, true, false, ◌||◌, List, some, get_elem?, set, set-set_self,
  get_elem?-set_self, get_elem?-set_ne, size_max, ◌<◌, max, ◌≡◌, refl, sym, ap, ◌∙◌, ◌≢◌, arith,
  ltb, ◌==◌, Bool-cases, inl, inr, ◌⊎◌,
}
use mathlib.Core.Path.{subst}
use vless_core_cli.Prelude.Results.{einval, enobufs, Status, done, failed}
use vless_core_cli.BufferBudget.{
  Budget, Ledger, relay, total_limit, directions, notify_released, notify_if, claim, release,
  transfer,
}
use vless_core_cli.BufferBudget.Balance.{
  IsBalanced, IsHeld, IsCharged, IsBalanced-IsHeld, settle, recharge_two, charges_of_two,
}
use vless_core_cli.BufferBudget.Operations.{
  claimed, claim_plain, claim_at-claim_plain, released, release_plain, release_at-release_plain,
  sent, received, transfer_plain, transfer_at-transfer_plain, claim-IsBalanced,
}

-- A budget that is charged right returns to its state after a claim and a release.
released-claimed : (b : Budget) (size : ℕ) → IsCharged b → released (claimed b size) size ≡ b
unfolding released claimed
released-claimed b size h = ground arith

claimed-holds : (b : Budget) (size : ℕ) → size ≤ (claimed b size).allocated
unfolding claimed
claimed-holds b size = omega arith

claimed-direction : (b : Budget) (size : ℕ) → (claimed b size).direction ≡ b.direction
unfolding claimed
claimed-direction b size = refl

claim_eq :
    (l : Ledger) (i size : ℕ) {b : Budget} {l' : Ledger}
    → IsBalanced l
    → get_elem? l.budgets i ≡ some b
    → claim l i size ≡ (done, l')
    → l' ≡ settle l i b (claimed b size)
unfolding claim claim_plain
claim_eq l i size {b} v e h =
    ground (arith, claim_at-claim_plain l i b size (IsBalanced-IsHeld i v e))

-- The accounts, without the notifications.
record SameAccounts (l l' : Ledger) : Type 0 where
  budgets : l.budgets ≡ l'.budgets
  charged : (d : ℕ) → l.charged d ≡ l'.charged d
  allocated : (d : ℕ) → l.allocated d ≡ l'.allocated d

-- The accounts of `notify_if t l d` are those of `l`.
notify_if-SameAccounts : (t : Bool) (l : Ledger) (d : ℕ) → SameAccounts (notify_if t l d) l
unfolding notify_released
notify_if-SameAccounts t l d = ground arith

settle_twice :
    (l : Ledger) (i : ℕ) (b b' : Budget)
    → get_elem? l.budgets i ≡ some b
    → b'.direction ≡ b.direction
    → IsHeld l b
    → SameAccounts (settle (settle l i b b') i b' b) l
settle_twice l i b b' e dir held = record {
  budgets = set-set_self l.budgets i b' e;
  charged = λ d. ground arith;
  allocated = λ d. ground arith;
}

-- `release_at` at a budget in plain arithmetic, up to the notifications.
release-SameAccounts :
    (l : Ledger) (i size : ℕ) {b : Budget}
    → IsBalanced l
    → get_elem? l.budgets i ≡ some b
    → size ≤ b.allocated
    → SameAccounts (release l i size) (settle l i b (released b size))
unfolding release release_plain
release-SameAccounts l i size {b} v e fits =
    rw (e, release, release_at-release_plain l i b size (IsBalanced-IsHeld i v e) fits)
      (notify_if-SameAccounts _ (settle l i b (released b size)) b.direction)

-- On a balanced ledger with the budget `i`, a successful claim followed by the release of the same
-- size restores every budget, and the charge and the use of every direction.
pub release-claim :
    (l : Ledger) (i size d : ℕ) {b : Budget} {l' : Ledger}
    → IsBalanced l
    → get_elem? l.budgets i ≡ some b
    → claim l i size ≡ (done, l')
    → let r = release l' i size in
      (r.budgets ≡ l.budgets) × (r.charged d ≡ l.charged d) × (r.allocated d ≡ l.allocated d)
release-claim l i size d {b} {l'} v e h =
    let at = get_elem?-set_self l.budgets i (claimed b size) e in
    let same : l' ≡ settle l i b (claimed b size) = claim_eq l i size v e h in
    let held = IsBalanced-IsHeld i v e in
    let v' : IsBalanced l' = rw h at (claim-IsBalanced i size v) in
    let at' : get_elem? l'.budgets i ≡ some (claimed b size) = rw same at in
    let after = release-SameAccounts l' i size v' at' (claimed-holds b size) in
    let back = settle_twice l i b (claimed b size) e (claimed-direction b size) held in
    let undone = released-claimed b size held.is_charged in
    let c = claimed b size in
    let to_b : SameAccounts (release l' i size) (settle l' i c b) = rw undone at after in
    let there = subst (λ x. SameAccounts (release l' i size) (settle x i c b)) same to_b in
    (
      there.budgets ∙ back.budgets,
      there.charged d ∙ back.charged d,
      there.allocated d ∙ back.allocated d,
    )

-- A claim on a balanced ledger succeeds, fails and counts as in plain arithmetic with no wrap-around;
-- a failure leaves the ledger as it was.
pub claim-claim_plain :
    (l : Ledger) (i size : ℕ) {b : Budget}
    → IsBalanced l
    → get_elem? l.budgets i ≡ some b
    → claim l i size ≡ claim_plain l i b size
unfolding claim
claim-claim_plain l i size {b} v e =
    rw (e, claim) (claim_at-claim_plain l i b size (IsBalanced-IsHeld i v e))

notify_if_keeps :
    (t : Bool) (l : Ledger) (d : ℕ)
    → ((notify_if t l d).budgets ≡ l.budgets) × ((notify_if t l d).allocated ≡ l.allocated)
unfolding notify_released
notify_if_keeps false l d = (refl, refl)
notify_if_keeps true l d = elim (Bool-cases (d == relay)) [
  | inl e ↦ rw e (refl, refl)
  | inr e ↦ rw e (refl, refl)
]

-- Why a transfer fails: the source holds less, the bytes of the destination do not fit in a size_t, or
-- the two charges, each at least its minimum, would take the direction over the limit of all.
abbrev pub IsRefused : Ledger → Budget → Budget → ℕ → Status → Type 0
IsRefused l a b size s =
    ((s ≡ failed einval) × ((a.allocated < size) ⊎ (size_max < b.allocated + size)))
    ⊎ ((s ≡ failed enobufs)
        × (total_limit + a.charged + b.charged
            < l.charged a.direction
              + max (a.allocated - size) a.minimum
              + max (b.allocated + size) b.minimum))

sent-charged : (a : Budget) (size : ℕ) → (sent a size).charged ≡ max (a.allocated - size) a.minimum
unfolding sent
sent-charged a size = ground arith

received-charged :
    (b : Budget) (size : ℕ) → (received b size).charged ≡ max (b.allocated + size) b.minimum
unfolding received
received-charged b size = ground arith

transfer_plain_moves :
    (l : Ledger) (i j : ℕ) (a b : Budget) (size : ℕ)
    → i ≢ j
    → get_elem? l.budgets i ≡ some a
    → get_elem? l.budgets j ≡ some b
    → let (s, l') = transfer_plain l i a j b size in
      (IsRefused l a b size s × (l' ≡ l))
      ⊎ ((a' : Budget) × (b' : Budget) × (s ≡ done)
          × (get_elem? l'.budgets i ≡ some a')
          × (get_elem? l'.budgets j ≡ some b')
          × (a'.allocated + size ≡ a.allocated)
          × (b'.allocated ≡ b.allocated + size)
          × (l'.allocated ≡ l.allocated))
unfolding transfer_plain sent received
transfer_plain_moves l i j a b size ne ea eb =
    elim (Bool-cases (ltb a.allocated size || ltb (size_max - b.allocated) size)) [
      | inl t ↦ rw t (inl (inl (refl, ground (arith, t)), refl))
      | inr t ↦ elim (Bool-cases (ltb (total_limit + a.charged + b.charged) charge)) [
        | inl full ↦ rw (t, full) (inl (inr (refl, exceeds full), refl))
        | inr room ↦
            rw (t, room)
              (inr (
                let (same, uses) =
                  notify_if_keeps
                    (ltb ((sent a size).charged + (received b size).charged)
                      (a.charged + b.charged))
                    (recharge_two l i a (sent a size) j b (received b size)) a.direction in
                (
                  sent a size,
                  received b size,
                  refl,
                  ap (λ (x : List Budget). get_elem? x i) same
                      ∙ get_elem?-set_ne (set l.budgets i (sent a size)) j i (received b size)
                          (λ e. ne (sym e))
                      ∙ get_elem?-set_self l.budgets i (sent a size) ea,
                  ap (λ (x : List Budget). get_elem? x j) same
                      ∙ get_elem?-set_self (set l.budgets i (sent a size)) j (received b size)
                          (get_elem?-set_ne l.budgets i j (sent a size) ne ∙ eb),
                  ground (arith, t),
                  refl,
                  uses,
                )))
      ]
    ]
  where
    charge : ℕ
    charge = l.charged a.direction + (sent a size).charged + (received b size).charged

    exceeds :
        ltb (total_limit + a.charged + b.charged) charge ≡ true
        → total_limit + a.charged + b.charged
          < l.charged a.direction
            + max (a.allocated - size) a.minimum
            + max (b.allocated + size) b.minimum
    exceeds full = ground (arith, sent-charged a size, received-charged b size)

-- A transfer on a balanced ledger between two different budgets of one direction is the one of plain
-- arithmetic with no wrap-around.
pub transfer-transfer_plain :
    (l : Ledger) (i j size : ℕ) {a b : Budget}
    → IsBalanced l
    → i ≢ j
    → get_elem? l.budgets i ≡ some a
    → get_elem? l.budgets j ≡ some b
    → a.direction ≡ b.direction
    → ltb a.direction directions ≡ true
    → transfer l i j size ≡ transfer_plain l i a j b size
unfolding transfer
transfer-transfer_plain l i j size {a} {b} v ne ea eb dir ok =
    let plain =
      transfer_at-transfer_plain l i a j b size (IsBalanced-IsHeld i v ea)
        (IsBalanced-IsHeld j v eb) (charges_of_two i j v ne ea eb dir) dir in
    rw (ea, eb, transfer) (ground (arith, plain))

-- On a balanced ledger with two different budgets of one direction, a transfer that succeeds moves
-- exactly `size` between them and changes the use of no direction, and one that fails changes
-- nothing. It fails only if the source holds less than `size`, the bytes of the destination do not fit
-- in a size_t, or the charges would take the direction over the limit.
pub transfer_moves :
    (l : Ledger) (i j size : ℕ) {a b : Budget}
    → IsBalanced l
    → i ≢ j
    → get_elem? l.budgets i ≡ some a
    → get_elem? l.budgets j ≡ some b
    → a.direction ≡ b.direction
    → ltb a.direction directions ≡ true
    → let (s, l') = transfer l i j size in
      (IsRefused l a b size s × (l' ≡ l))
      ⊎ ((a' : Budget) × (b' : Budget) × (s ≡ done)
          × (get_elem? l'.budgets i ≡ some a')
          × (get_elem? l'.budgets j ≡ some b')
          × (a'.allocated + size ≡ a.allocated)
          × (b'.allocated ≡ b.allocated + size)
          × (l'.allocated ≡ l.allocated))
transfer_moves l i j size {a} {b} v ne ea eb dir ok =
    rw (transfer-transfer_plain l i j size v ne ea eb dir ok)
      (transfer_plain_moves l i j a b size ne ea eb)
