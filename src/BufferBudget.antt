-- ===== src/BufferBudget.antt =====
-- src/buffer_budget.c and include/buffer_budget.h: the accounting of buffer memory.
pub mod Balance
pub mod Operations
pub mod Reachable
pub mod Contract
pub mod Waiters
use vless_core_cli.Prelude.{
  ℕ, ◌+◌, ◌-◌, ◌*◌, ◌/◌, ◌%◌, ◌^◌, Bool, true, false, ◌&&◌, ◌||◌, not, List, [], ◌∷◌, ◌++◌, Option,
  none, some, ltb, leb, ◌==◌, if◌then◌else◌, get_elem?, set, size_max, add_size, sub_size,
}
use vless_core_cli.Prelude.Results.{Errno, einval, eoverflow, enobufs, Status, done, failed}

abbrev pub total_limit : ℕ
total_limit = 16 * 1024 * 1024

-- `CORE_BUFFER_DIRECTIONS`: upload 0, download 1, relay 2.
abbrev pub directions : ℕ
directions = 3

abbrev pub relay : ℕ
relay = 2

-- `core_buffer_budget_t`
pub record Budget : Type 0 where
  pub minimum : ℕ
  pub allocated : ℕ
  pub charged : ℕ
  pub direction : ℕ

-- `core_buffer_waiter_t`, less its link
pub record Waiter : Type 0 where
  pub fd : ℕ
  pub registered : Bool
  pub wanted : ℕ

-- What `notify_released` does to the outside.
pub data Event : Type 0 where
  relay_released : Event
  notified : ℕ → Event

-- The static variables, the budgets and waiters that the callers own, and the notifications sent.
-- A budget is named by its index, and an index with no budget is NULL. A waiter is named by a
-- number, and `waiters` is the linked list.
pub record Ledger : Type 0 where
  pub charged : ℕ → ℕ
  pub allocated : ℕ → ℕ
  pub budgets : List Budget
  pub waiter : ℕ → Waiter
  pub waiters : List ℕ
  pub events : List Event

abbrev pub update {ℓ} : {A : Type ℓ} → (ℕ → A) → ℕ → A → ℕ → A
update f k v j = if j == k then v else f j

-- `core_buffer_watch`
unfoldable pub watch : Ledger → ℕ → ℕ → ℕ → Ledger
watch l w fd wanted =
    let old = l.waiter w in
    record l {
      waiter = update l.waiter w (record { fd = fd; registered = true; wanted = wanted });
      waiters = if old.registered then l.waiters else w ∷ l.waiters;
    }

-- The loop of `core_buffer_unwatch` and the unlinking: the first link to the waiter goes.
pub unlink : ℕ → List ℕ → List ℕ
unlink w [] = []
unlink w (x ∷ xs) = if x == w then xs else x ∷ unlink w xs

-- `core_buffer_unwatch`
unfoldable pub unwatch : Ledger → ℕ → Ledger
unfolding unlink
unwatch l w = record l {
  waiter = update l.waiter w (record { fd = (l.waiter w).fd; registered = false; wanted = 0 });
  waiters = unlink w l.waiters;
}

-- The loop of `notify_released`: the bit of the direction is tested.
pub notify_waiters : (ℕ → Waiter) → ℕ → List ℕ → List Event
notify_waiters waiter direction [] = []
notify_waiters waiter direction (w ∷ ws) =
    (if ((waiter w).wanted / 2 ^ direction) % 2 == 1 then notified (waiter w).fd ∷ [] else [])
    ++ notify_waiters waiter direction ws

-- `notify_released`
unfoldable pub notify_released : Ledger → ℕ → Ledger
unfolding notify_waiters
notify_released l direction =
    if direction == relay
    then record l { events = l.events ++ (relay_released ∷ []) }
    else record l { events = l.events ++ notify_waiters l.waiter direction l.waiters }

-- `if (released) notify_released(direction)`
abbrev pub notify_if : Bool → Ledger → ℕ → Ledger
notify_if b l direction = if b then notify_released l direction else l

-- The body of `claim` at a budget.
pub claim_at : Ledger → ℕ → Budget → ℕ → Status × Ledger
claim_at l i b size =
    if not (ltb b.direction directions)
    then (failed einval, l)
    else if ltb (size_max - b.allocated) size
    then (failed eoverflow, l)
    else (let total = add_size b.allocated size in
        let increase = if ltb b.charged total then total - b.charged else 0 in
        if ltb (sub_size total_limit (l.charged b.direction)) increase
        then (failed enobufs, l)
        else (
          done,
          record l {
            charged = update l.charged b.direction (add_size (l.charged b.direction) increase);
            allocated = update l.allocated b.direction (add_size (l.allocated b.direction) size);
            budgets =
                set l.budgets i
                  (record b { allocated = total; charged = add_size b.charged increase });
          },
        ))

-- `claim`, which is `core_buffer_hold`
unfoldable pub claim : Ledger → ℕ → ℕ → Status × Ledger
unfolding claim_at
claim l i size = elim (get_elem? l.budgets i) [
  | none ↦ (failed einval, l)
  | some b ↦ claim_at l i b size
]

-- The body of `release` at a budget; its callers hold at least `size`.
pub release_at : Ledger → ℕ → Budget → ℕ → Ledger
release_at l i b size =
    let left = sub_size b.allocated size in
    let remaining = if ltb b.minimum left then left else b.minimum in
    let released = sub_size b.charged remaining in
    notify_if (not (released == 0))
      (record l {
        charged = update l.charged b.direction (sub_size (l.charged b.direction) released);
        allocated = update l.allocated b.direction (sub_size (l.allocated b.direction) size);
        budgets = set l.budgets i (record b { allocated = left; charged = remaining });
      })
      b.direction

-- `release`, which is `core_buffer_drop`. It is not called with NULL.
unfoldable pub release : Ledger → ℕ → ℕ → Ledger
unfolding release_at
release l i size = elim (get_elem? l.budgets i) [ none ↦ l | some b ↦ release_at l i b size ]

-- The body of `core_buffer_budget_init` at a budget.
pub init_at : Ledger → ℕ → Budget → ℕ → ℕ → Status × Ledger
init_at l i b direction minimum =
    if not (ltb direction directions)
      || ltb total_limit minimum
      || ((not (b.charged == 0) || not (b.allocated == 0)) && not (b.direction == direction))
    then (failed einval, l)
    else (let required = if ltb b.allocated minimum then minimum else b.allocated in
        let released = if ltb required b.charged then b.charged - required else 0 in
        let increase = if ltb b.charged required then required - b.charged else 0 in
        if ltb (sub_size total_limit (l.charged direction)) increase then (failed enobufs, l) else (
          done,
          notify_if (not (released == 0))
              (record l {
                charged =
                    update l.charged direction
                      (sub_size (add_size (l.charged direction) increase) released);
                budgets =
                    set l.budgets i
                      (record b { direction = direction; minimum = minimum; charged = required });
              })
              direction,
        ))

-- `core_buffer_budget_init`
unfoldable pub budget_init : Ledger → ℕ → ℕ → ℕ → Status × Ledger
unfolding init_at
budget_init l i direction minimum = elim (get_elem? l.budgets i) [
  | none ↦ (failed einval, l)
  | some b ↦ init_at l i b direction minimum
]

-- `core_buffer_budget_clear`
unfoldable pub budget_clear : Ledger → ℕ → Status × Ledger
unfolding init_at
budget_clear l i = elim (get_elem? l.budgets i) [
  | none ↦ (failed einval, l)
  | some b ↦ if not (b.allocated == 0) then (failed einval, l) else init_at l i b b.direction 0
]

-- `core_buffer_alloc`; `granted` says whether `malloc` gave memory. The flag returned says whether
-- the pointer returned is not NULL.
unfoldable pub alloc : Ledger → ℕ → ℕ → Bool → Bool × Ledger
alloc l i size granted =
    if size == 0
    then (false, l)
    else (let (s, l') = claim l i size in
        elim s [
          | failed e ↦ (false, l')
          | done ↦ if granted then (true, l') else (false, release l' i size)
        ])

-- `core_buffer_free`; the flag says whether the pointer is not NULL.
unfoldable pub free : Ledger → ℕ → Bool → ℕ → Ledger
free l i present size = if present then release l i size else l

-- `core_buffer_realloc`; `present` as in `free`, `granted` is for `realloc`.
unfoldable pub realloc : Ledger → ℕ → Bool → ℕ → ℕ → Bool → Bool × Ledger
realloc l i present previous size granted =
    if size == 0
    then (false, free l i present previous)
    else (let (s, l') = claim l i size in
        elim s [
          | failed e ↦ (false, l')
          | done ↦
              if not granted
              then (false, release l' i size)
              else (true, if not (previous == 0) then release l' i previous else l')
        ])

-- The body of `core_buffer_transfer` between two budgets of one direction.
pub transfer_at : Ledger → ℕ → Budget → ℕ → Budget → ℕ → Status × Ledger
transfer_at l i a j b size =
    if ltb a.allocated size || ltb (size_max - b.allocated) size
    then (failed einval, l)
    else (let left = a.allocated - size in
        let source = if ltb left a.minimum then a.minimum else left in
        let grown = add_size b.allocated size in
        let destination = if ltb grown b.minimum then b.minimum else grown in
        let current = add_size a.charged b.charged in
        let future = add_size source destination in
        if ltb current future
          && ltb (sub_size total_limit (l.charged a.direction)) (future - current)
        then (failed enobufs, l)
        else (
          done,
          notify_if (ltb future current)
              (record l {
                charged =
                    update l.charged a.direction
                      (add_size (sub_size (l.charged a.direction) current) future);
                budgets =
                    set (set l.budgets i (record a { allocated = left; charged = source })) j
                      (record b { allocated = grown; charged = destination });
              })
              a.direction,
        ))

abbrev budgets_of : Ledger → ℕ → ℕ → Option (Budget × Budget)
budgets_of l i j = elim (get_elem? l.budgets i) [
  | none ↦ none
  | some a ↦ elim (get_elem? l.budgets j) [ none ↦ none | some b ↦ some (a, b) ]
]

-- `core_buffer_transfer`
unfoldable pub transfer : Ledger → ℕ → ℕ → ℕ → Status × Ledger
unfolding transfer_at
transfer l i j size = elim (budgets_of l i j) [
  | none ↦ (failed einval, l)
  | some (a, b) ↦
      if not (ltb a.direction directions) || not (a.direction == b.direction)
      then (failed einval, l)
      else if i == j
      then (done, l)
      else transfer_at l i a j b size
]

-- `core_buffer_snapshot`: the bytes in use and the bytes reserved beside them.
unfoldable pub snapshot : Ledger → ℕ → ℕ × ℕ
snapshot l direction =
    if ltb direction directions
    then (l.allocated direction, sub_size (l.charged direction) (l.allocated direction))
    else (0, 0)

-- `core_buffer_available`
unfoldable pub available : Ledger → ℕ → ℕ
available l direction =
    if ltb direction directions then sub_size total_limit (l.charged direction) else 0
