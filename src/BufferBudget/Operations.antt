-- ===== src/BufferBudget/Operations.antt =====
-- Each operation of src/buffer_budget.c against plain arithmetic, with no wrap-around: on a balanced
-- ledger no `size_t` operation wraps, and the ledger stays balanced.
use vless_core_cli.Prelude.{
  ℕ, ◌+◌, ◌-◌, ◌^◌, ◌≤◌, Bool, true, false, ◌&&◌, ◌||◌, not, none, some, ltb, ◌==◌, if◌then◌else◌,
  get_elem?, size_max, add_size, sub_size, ◌≡◌, refl, ◌≢◌, arith, get_elem?-set_self, Bool-cases,
  Option-cases, inl, inr,
}
use vless_core_cli.Prelude.Results.{Status, done, failed, einval, eoverflow, enobufs}
use vless_core_cli.BufferBudget.{
  Budget, Ledger, total_limit, directions, notify_if, claim_at, claim, release_at, release, init_at,
  budget_init, budget_clear, transfer_at, transfer,
}
use vless_core_cli.BufferBudget.Balance.{
  IsBalanced, IsHeld, IsBalanced-IsHeld, notify-IsBalanced, settle, settle-IsBalanced, recharge,
  recharge-IsBalanced, charges_of_two, recharge_two, recharge_two-IsBalanced,
}

unfoldable pub claimed : Budget → ℕ → Budget
claimed b size = record b {
  allocated = b.allocated + size;
  charged = if ltb b.charged (b.allocated + size) then b.allocated + size else b.charged;
}

-- `claim` in plain arithmetic.
unfoldable pub claim_plain : Ledger → ℕ → Budget → ℕ → Status × Ledger
claim_plain l i b size =
    if not (ltb b.direction directions)
    then (failed einval, l)
    else if ltb size_max (b.allocated + size)
    then (failed eoverflow, l)
    else if ltb (total_limit + b.charged) (l.charged b.direction + (claimed b size).charged)
    then (failed enobufs, l)
    else (done, settle l i b (claimed b size))

pub claim_at-claim_plain :
    (l : Ledger) (i : ℕ) (b : Budget) (size : ℕ)
    → IsHeld l b
    → claim_at l i b size ≡ claim_plain l i b size
unfolding claim_at claim_plain claimed
claim_at-claim_plain l i b size h = ground arith

claim_plain-IsBalanced :
    {l : Ledger} (i : ℕ) {b : Budget} (size : ℕ)
    → IsBalanced l
    → get_elem? l.budgets i ≡ some b
    → IsBalanced (claim_plain l i b size).1
unfolding claim_plain claimed
claim_plain-IsBalanced {l} i {b} size v e =
    ground (arith, v, IsBalanced-IsHeld i v e, settle-IsBalanced i (claimed b size) v e (inl refl))

pub claim-IsBalanced : {l : Ledger} (i size : ℕ) → IsBalanced l → IsBalanced (claim l i size).1
unfolding claim
claim-IsBalanced {l} i size v = elim (Option-cases (get_elem? l.budgets i)) [
  | inl e ↦ rw (e, claim) v
  | inr (b, e) ↦
      rw (e, claim, claim_at-claim_plain l i b size (IsBalanced-IsHeld i v e))
        (claim_plain-IsBalanced i size v e)
]

pub notify_if-IsBalanced :
    {l : Ledger} (t : Bool) (d : ℕ) → IsBalanced l → IsBalanced (notify_if t l d)
notify_if-IsBalanced true d v = notify-IsBalanced d v
notify_if-IsBalanced false d v = v

unfoldable pub released : Budget → ℕ → Budget
released b size =
    let left = b.allocated - size in
    record b { allocated = left; charged = if ltb b.minimum left then left else b.minimum }

-- `release` in plain arithmetic.
unfoldable pub release_plain : Ledger → ℕ → Budget → ℕ → Ledger
release_plain l i b size =
    notify_if (ltb (released b size).charged b.charged) (settle l i b (released b size)) b.direction

pub release_at-release_plain :
    (l : Ledger) (i : ℕ) (b : Budget) (size : ℕ)
    → IsHeld l b
    → size ≤ b.allocated
    → release_at l i b size ≡ release_plain l i b size
unfolding release_at release_plain released
release_at-release_plain l i b size h fits = ground arith

release_plain-IsBalanced :
    {l : Ledger} (i : ℕ) {b : Budget} (size : ℕ)
    → IsBalanced l
    → get_elem? l.budgets i ≡ some b
    → size ≤ b.allocated
    → IsBalanced (release_plain l i b size)
unfolding release_plain released
release_plain-IsBalanced {l} i {b} size v e fits = notify_if-IsBalanced _ _ (
    settle-IsBalanced i (released b size) v e (inl refl) (ground arith)
      (ground (arith, IsBalanced-IsHeld i v e)))

unfoldable pub initialised : Budget → ℕ → ℕ → Budget
initialised b direction minimum = record b {
  direction = direction;
  minimum = minimum;
  charged = if ltb b.allocated minimum then minimum else b.allocated;
}

-- `core_buffer_budget_init` in plain arithmetic.
unfoldable pub init_plain : Ledger → ℕ → Budget → ℕ → ℕ → Status × Ledger
init_plain l i b direction minimum =
    if not (ltb direction directions)
      || ltb total_limit minimum
      || ((not (b.charged == 0) || not (b.allocated == 0)) && not (b.direction == direction))
    then (failed einval, l)
    else if ltb (total_limit + b.charged)
        (l.charged direction + (initialised b direction minimum).charged)
    then (failed enobufs, l)
    else (
      done,
      notify_if (ltb (initialised b direction minimum).charged b.charged)
          (recharge l i b (initialised b direction minimum)) direction,
    )

pub init_at-init_plain :
    (l : Ledger) (i : ℕ) (b : Budget) (direction minimum : ℕ)
    → IsHeld l b
    → l.charged direction ≤ total_limit
    → init_at l i b direction minimum ≡ init_plain l i b direction minimum
unfolding init_at init_plain initialised
init_at-init_plain l i b direction minimum h within = ground arith

init_plain-IsBalanced :
    {l : Ledger} (i : ℕ) {b : Budget} (direction minimum : ℕ)
    → IsBalanced l
    → get_elem? l.budgets i ≡ some b
    → IsBalanced (init_plain l i b direction minimum).1
unfolding init_plain initialised
init_plain-IsBalanced {l} i {b} direction minimum v e = ground (
  arith,
  v,
  IsBalanced-IsHeld i v e,
  notify_if-IsBalanced {l = recharge l i b (initialised b direction minimum)}
      (ltb (initialised b direction minimum).charged b.charged) direction,
  recharge-IsBalanced i (initialised b direction minimum) v e,
)

-- The budgets after a transfer.
unfoldable pub sent : Budget → ℕ → Budget
sent a size =
    let left = a.allocated - size in
    record a { allocated = left; charged = if ltb left a.minimum then a.minimum else left }

unfoldable pub received : Budget → ℕ → Budget
received b size =
    let grown = b.allocated + size in
    record b { allocated = grown; charged = if ltb grown b.minimum then b.minimum else grown }

unfoldable pub transfer_plain : Ledger → ℕ → Budget → ℕ → Budget → ℕ → Status × Ledger
transfer_plain l i a j b size =
    let a' = sent a size in
    let b' = received b size in
    if ltb a.allocated size || ltb (size_max - b.allocated) size
    then (failed einval, l)
    else if ltb (total_limit + a.charged + b.charged)
        (l.charged a.direction + a'.charged + b'.charged)
    then (failed enobufs, l)
    else (
      done,
      notify_if (ltb (a'.charged + b'.charged) (a.charged + b.charged))
          (recharge_two l i a a' j b b') a.direction,
    )

-- No sum that `core_buffer_transfer` forms wraps.
transfer_sums :
    (l : Ledger) (a b : Budget) (size : ℕ)
    → IsHeld l a
    → IsHeld l b
    → (ltb a.allocated size || ltb (size_max - b.allocated) size) ≡ false
    → (add_size b.allocated size ≡ b.allocated + size)
      × (add_size a.charged b.charged ≡ a.charged + b.charged)
      × (add_size (sent a size).charged (received b size).charged
          ≡ (sent a size).charged + (received b size).charged)
      × ((sent a size).charged + (received b size).charged ≤ 2 ^ 32)
unfolding sent received
transfer_sums l a b size ha hb t = ground arith

-- The room test and the new charge, without wrap-around.
transfer_room :
    (c x y s t : ℕ)
    → c ≤ total_limit
    → x + y ≤ c
    → (ltb (x + y) (s + t) && ltb (sub_size total_limit c) (s + t - (x + y)))
      ≡ ltb (total_limit + x + y) (c + s + t)
transfer_room c x y s t h k = ground arith

transfer_charge :
    (c x y s t : ℕ)
    → c ≤ total_limit
    → x + y ≤ c
    → s + t ≤ 2 ^ 32
    → add_size (sub_size c (x + y)) (s + t) ≡ c + s + t - x - y
transfer_charge c x y s t h k f = omega arith

pub transfer_at-transfer_plain :
    (l : Ledger) (i : ℕ) (a : Budget) (j : ℕ) (b : Budget) (size : ℕ)
    → IsHeld l a
    → IsHeld l b
    → a.charged + b.charged ≤ l.charged b.direction
    → a.direction ≡ b.direction
    → transfer_at l i a j b size ≡ transfer_plain l i a j b size
unfolding transfer_at transfer_plain sent received
transfer_at-transfer_plain l i a j b size ha hb two dir =
    elim (Bool-cases (ltb a.allocated size || ltb (size_max - b.allocated) size)) [
      | inl t ↦ rw t
      | inr t ↦
          let (grown, current, future, small) = transfer_sums l a b size ha hb t in
          let under = rw (← dir) at two in
          rw (
            t,
            grown,
            current,
            future,
            transfer_room _ a.charged b.charged _ _ ha.within under,
            transfer_charge _ a.charged b.charged _ _ ha.within under small,
          )
    ]

transfer_plain-IsBalanced :
    {l : Ledger} (i j : ℕ) {a b : Budget} (size : ℕ)
    → IsBalanced l
    → i ≢ j
    → get_elem? l.budgets i ≡ some a
    → get_elem? l.budgets j ≡ some b
    → a.direction ≡ b.direction
    → IsBalanced (transfer_plain l i a j b size).1
unfolding transfer_plain sent received
transfer_plain-IsBalanced {l} i j {a} {b} size v ne ea eb dir =
    elim (Bool-cases (ltb a.allocated size || ltb (size_max - b.allocated) size)) [
      | inl t ↦ rw t v
      | inr t ↦ elim (Bool-cases (ltb (total_limit + a.charged + b.charged) charge)) [
        | inl full ↦ rw (t, full) v
        | inr room ↦
            rw (t, room)
              (notify_if-IsBalanced _ _ (
                recharge_two-IsBalanced i j (sent a size) (received b size) v ne ea eb dir refl refl
                  (ground arith) (ground arith) (ground (arith, t)) (ground (arith, room))))
      ]
    ]
  where
    charge : ℕ
    charge = l.charged a.direction + (sent a size).charged + (received b size).charged

pub release-IsBalanced :
    {l : Ledger} (i : ℕ) {b : Budget} (size : ℕ)
    → IsBalanced l
    → get_elem? l.budgets i ≡ some b
    → size ≤ b.allocated
    → IsBalanced (release l i size)
unfolding release
release-IsBalanced {l} i {b} size v e fits =
    rw (e, release, release_at-release_plain l i b size (IsBalanced-IsHeld i v e) fits)
      (release_plain-IsBalanced i size v e fits)

init_at-IsBalanced :
    {l : Ledger} (i : ℕ) {b : Budget} (direction minimum : ℕ)
    → IsBalanced l
    → get_elem? l.budgets i ≡ some b
    → IsBalanced (init_at l i b direction minimum).1
init_at-IsBalanced {l} i {b} direction minimum v e =
    rw (init_at-init_plain l i b direction minimum (IsBalanced-IsHeld i v e) (v.within direction))
      (init_plain-IsBalanced i direction minimum v e)

pub budget_init-IsBalanced :
    {l : Ledger} (i direction minimum : ℕ)
    → IsBalanced l
    → IsBalanced (budget_init l i direction minimum).1
unfolding budget_init
budget_init-IsBalanced {l} i direction minimum v = elim (Option-cases (get_elem? l.budgets i)) [
  | inl e ↦ rw (e, budget_init) v
  | inr (b, e) ↦ rw (e, budget_init) (init_at-IsBalanced i direction minimum v e)
]

pub budget_clear-IsBalanced : {l : Ledger} (i : ℕ) → IsBalanced l → IsBalanced (budget_clear l i).1
unfolding budget_clear
budget_clear-IsBalanced {l} i v = elim (Option-cases (get_elem? l.budgets i)) [
  | inl e ↦ rw (e, budget_clear) v
  | inr (b, e) ↦ rw (e, budget_clear) (ground (arith, v, init_at-IsBalanced i b.direction 0 v e))
]

pub claim_null :
    (l : Ledger) (i size : ℕ) {l' : Ledger}
    → get_elem? l.budgets i ≡ none
    → claim l i size ≢ (done, l')
unfolding claim
claim_null l i size e h = ground arith

-- After a successful `claim` the budget uses `size` more.
pub claim_done :
    (l : Ledger) (i size : ℕ) {b : Budget} {l' : Ledger}
    → IsBalanced l
    → get_elem? l.budgets i ≡ some b
    → claim l i size ≡ (done, l')
    → (b' : Budget) × (get_elem? l'.budgets i ≡ some b') × (b'.allocated ≡ b.allocated + size)
unfolding claim claim_plain claimed
claim_done l i size {b} {l'} v e h = (
  claimed b size,
  ground (
    arith,
    claim_at-claim_plain l i b size (IsBalanced-IsHeld i v e),
    get_elem?-set_self l.budgets i (claimed b size) e,
  ),
  refl,
)

transfer_between :
    {l : Ledger} (i j : ℕ) {a b : Budget} (size : ℕ)
    → IsBalanced l
    → get_elem? l.budgets i ≡ some a
    → get_elem? l.budgets j ≡ some b
    → IsBalanced
        (if not (ltb a.direction directions) || not (a.direction == b.direction)
          then (failed einval, l)
          else if i == j
          then (done, l)
          else transfer_at l i a j b size).1
transfer_between {l} i j {a} {b} size v ea eb = ground (
  arith,
  v,
  transfer_at-transfer_plain l i a j b size (IsBalanced-IsHeld i v ea) (IsBalanced-IsHeld j v eb),
  λ (ne : i ≢ j) (dir : a.direction ≡ b.direction). charges_of_two i j v ne ea eb dir,
  λ (ne : i ≢ j) (dir : a.direction ≡ b.direction).
      transfer_plain-IsBalanced i j size v ne ea eb dir,
)

pub transfer-IsBalanced :
    {l : Ledger} (i j size : ℕ) → IsBalanced l → IsBalanced (transfer l i j size).1
unfolding transfer
transfer-IsBalanced {l} i j size v = elim (Option-cases (get_elem? l.budgets i)) [
  | inl e ↦ rw (e, transfer) v
  | inr (a, ea) ↦ elim (Option-cases (get_elem? l.budgets j)) [
    | inl e ↦ rw (ea, e, transfer) v
    | inr (b, eb) ↦ rw (ea, eb, transfer) (transfer_between i j size v ea eb)
  ]
]
