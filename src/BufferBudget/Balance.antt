-- ===== src/BufferBudget/Balance.antt =====
-- The accounts of src/buffer_budget.c add up: the charge of a direction is the sum of the charges of
-- its budgets, and never passes the limit.
use vless_core_cli.Prelude.{
  ℕ, zero, suc, ◌+◌, ◌-◌, ◌≤◌, List, [], ◌∷◌, some, ◌==◌, if◌then◌else◌, get_elem?, set, ◌≡◌, ◌∙◌,
  ◌≢◌, arith, max, get_elem?-set_ne, Bool-cases, inl, inr, ◌⊎◌,
}
use vless_core_cli.BufferBudget.{Budget, Ledger, total_limit, update, notify_released}

-- The sum over the budgets of direction `d` of the field that `f` reads.
abbrev pub sum_at : (Budget → ℕ) → ℕ → List Budget → ℕ
sum_at f d [] = 0
sum_at f d (b ∷ bs) = (if b.direction == d then f b else 0) + sum_at f d bs

-- A budget is charged for what it uses, and at least for its minimum.
abbrev pub IsCharged : Budget → Type 0
IsCharged b = b.charged ≡ max b.allocated b.minimum

abbrev pub All {ℓ κ} : {A : Type ℓ} → (A → Type κ) → List A → Type κ
All P [] = Unit
All P (x ∷ xs) = P x × All P xs

pub record IsBalanced (l : Ledger) : Type 0 where
  pub charges : (d : ℕ) → l.charged d ≡ sum_at (λ b. b.charged) d l.budgets
  pub uses : (d : ℕ) → l.allocated d ≡ sum_at (λ b. b.allocated) d l.budgets
  pub within : (d : ℕ) → l.charged d ≤ total_limit
  pub budgets : All IsCharged l.budgets

All-get {ℓ κ} :
    {A : Type ℓ} (P : A → Type κ) (xs : List A) (i : ℕ) {x : A}
    → get_elem? xs i ≡ some x
    → All P xs
    → P x
All-get P [] i e h = cc
All-get P (y ∷ ys) zero e h = ground arith
All-get P (y ∷ ys) (suc i) e h = All-get P ys i e h.1

All-set {ℓ κ} :
    {A : Type ℓ} (P : A → Type κ) (xs : List A) (i : ℕ) (x : A)
    → All P xs
    → P x
    → All P (set xs i x)
All-set P [] i x h p = tt
All-set P (y ∷ ys) zero x h p = (p, h.1)
All-set P (y ∷ ys) (suc i) x h p = (h.0, All-set P ys i x h.1 p)

-- What one budget adds to the sum.
abbrev share : (Budget → ℕ) → ℕ → Budget → ℕ
share f d b = if b.direction == d then f b else 0

sum_at-set :
    (f : Budget → ℕ) (d : ℕ) (bs : List Budget) (i : ℕ) (b' : Budget) {b : Budget}
    → get_elem? bs i ≡ some b
    → sum_at f d (set bs i b') + share f d b ≡ sum_at f d bs + share f d b'
sum_at-set f d [] i b' e = cc
sum_at-set f d (x ∷ bs) zero b' {b} e = let e' : x ≡ b = cc in rw e' (omega arith)
sum_at-set f d (x ∷ bs) (suc i) b' e = omega (arith, sum_at-set f d bs i b' e)

share-le-sum_at :
    (f : Budget → ℕ) (d : ℕ) (bs : List Budget) (i : ℕ) {b : Budget}
    → get_elem? bs i ≡ some b
    → share f d b ≤ sum_at f d bs
share-le-sum_at f d [] i e = cc
share-le-sum_at f d (x ∷ bs) zero {b} e = let e' : x ≡ b = cc in rw e' (omega arith)
share-le-sum_at f d (x ∷ bs) (suc i) e = omega (arith, share-le-sum_at f d bs i e)

pub sum_at-covered :
    (d : ℕ) (bs : List Budget)
    → All IsCharged bs
    → sum_at (λ b. b.allocated) d bs ≤ sum_at (λ b. b.charged) d bs
sum_at-covered d [] h = omega arith
sum_at-covered d (b ∷ bs) h = ground (arith, sum_at-covered d bs h.1)

-- What the proofs need of a budget in a balanced ledger.
pub record IsHeld (l : Ledger) (b : Budget) : Type 0 where
  pub charged : b.charged ≤ l.charged b.direction
  pub allocated : b.allocated ≤ l.allocated b.direction
  pub used : b.allocated ≤ b.charged
  pub within : l.charged b.direction ≤ total_limit
  pub covered : l.allocated b.direction ≤ l.charged b.direction
  pub is_charged : IsCharged b

pub IsBalanced-IsHeld :
    {l : Ledger} (i : ℕ) {b : Budget} → IsBalanced l → get_elem? l.budgets i ≡ some b → IsHeld l b
IsBalanced-IsHeld {l} i {b} v e = ground (
  arith,
  v.charges b.direction,
  v.uses b.direction,
  v.within b.direction,
  share-le-sum_at (λ x. x.charged) b.direction l.budgets i e,
  share-le-sum_at (λ x. x.allocated) b.direction l.budgets i e,
  All-get IsCharged l.budgets i e v.budgets,
  sum_at-covered b.direction l.budgets v.budgets,
)

-- A notification changes no account.
pub notify-IsBalanced : {l : Ledger} (d : ℕ) → IsBalanced l → IsBalanced (notify_released l d)
unfolding notify_released
notify-IsBalanced {l} d v = elim (Bool-cases (d == 2)) [
  | inl e ↦
      rw e (record { charges = v.charges; uses = v.uses; within = v.within; budgets = v.budgets })
  | inr e ↦
      rw e (record { charges = v.charges; uses = v.uses; within = v.within; budgets = v.budgets })
]

-- The budget `i` changes from `b` to `b'`, and the accounts of its direction follow, in plain
-- arithmetic.
abbrev pub settle : Ledger → ℕ → Budget → Budget → Ledger
settle l i b b' =
    let d = b'.direction in
    record l {
      charged = update l.charged d (l.charged d + b'.charged - b.charged);
      allocated = update l.allocated d (l.allocated d + b'.allocated - b.allocated);
      budgets = set l.budgets i b';
    }

-- A budget moves to another direction only when it holds nothing.
abbrev pub Moves : Budget → Budget → Type 0
Moves b b' = (b'.direction ≡ b.direction) ⊎ ((b.charged ≡ 0) × (b.allocated ≡ 0))

pub settle-IsBalanced :
    {l : Ledger} (i : ℕ) {b : Budget} (b' : Budget)
    → IsBalanced l
    → get_elem? l.budgets i ≡ some b
    → Moves b b'
    → IsCharged b'
    → l.charged b'.direction + b'.charged ≤ total_limit + b.charged
    → IsBalanced (settle l i b b')
settle-IsBalanced {l} i {b} b' v e m c fits =
    let held = IsBalanced-IsHeld i v e in
    record {
      charges =
          λ d. ground (arith, v.charges d, sum_at-set (λ x. x.charged) d l.budgets i b' e, held);
      uses = λ d. ground (arith, v.uses d, sum_at-set (λ x. x.allocated) d l.budgets i b' e, held);
      within = λ d. ground (arith, v.within d, held);
      budgets = All-set IsCharged l.budgets i b' v.budgets c;
    }

-- As `settle`, for an operation that uses no more and no less memory.
abbrev pub recharge : Ledger → ℕ → Budget → Budget → Ledger
recharge l i b b' =
    let d = b'.direction in
    record l {
      charged = update l.charged d (l.charged d + b'.charged - b.charged);
      budgets = set l.budgets i b';
    }

pub recharge-IsBalanced :
    {l : Ledger} (i : ℕ) {b : Budget} (b' : Budget)
    → IsBalanced l
    → get_elem? l.budgets i ≡ some b
    → Moves b b'
    → IsCharged b'
    → b'.allocated ≡ b.allocated
    → l.charged b'.direction + b'.charged ≤ total_limit + b.charged
    → IsBalanced (recharge l i b b')
recharge-IsBalanced {l} i {b} b' v e m c same fits =
    let held = IsBalanced-IsHeld i v e in
    record {
      charges =
          λ d. ground (arith, v.charges d, sum_at-set (λ x. x.charged) d l.budgets i b' e, held);
      uses = λ d. ground (arith, v.uses d, sum_at-set (λ x. x.allocated) d l.budgets i b' e, held);
      within = λ d. ground (arith, v.within d, held);
      budgets = All-set IsCharged l.budgets i b' v.budgets c;
    }

-- Two budgets together are charged no more than their direction.
pub charges_of_two :
    {l : Ledger} (i j : ℕ) {a b : Budget}
    → IsBalanced l
    → i ≢ j
    → get_elem? l.budgets i ≡ some a
    → get_elem? l.budgets j ≡ some b
    → a.direction ≡ b.direction
    → a.charged + b.charged ≤ l.charged b.direction
charges_of_two {l} i j {a} {b} v ne ea eb same =
    let bare = record a { charged = 0 } in
    ground (
      arith,
      v.charges b.direction,
      sum_at-set (λ x. x.charged) b.direction l.budgets i bare ea,
      share-le-sum_at (λ x. x.charged) b.direction (set l.budgets i bare) j
          (get_elem?-set_ne l.budgets i j bare ne ∙ eb),
    )

-- Two budgets of one direction change at once.
abbrev pub recharge_two : Ledger → ℕ → Budget → Budget → ℕ → Budget → Budget → Ledger
recharge_two l i a a' j b b' =
    let d = a.direction in
    record l {
      charged = update l.charged d (l.charged d + a'.charged + b'.charged - a.charged - b.charged);
      budgets = set (set l.budgets i a') j b';
    }

pub recharge_two-IsBalanced :
    {l : Ledger} (i j : ℕ) {a b : Budget} (a' b' : Budget)
    → IsBalanced l
    → i ≢ j
    → get_elem? l.budgets i ≡ some a
    → get_elem? l.budgets j ≡ some b
    → a.direction ≡ b.direction
    → a'.direction ≡ a.direction
    → b'.direction ≡ b.direction
    → IsCharged a'
    → IsCharged b'
    → a'.allocated + b'.allocated ≡ a.allocated + b.allocated
    → l.charged a.direction + a'.charged + b'.charged ≤ total_limit + a.charged + b.charged
    → IsBalanced (recharge_two l i a a' j b b')
recharge_two-IsBalanced {l} i j {a} {b} a' b' v ne ea eb dir da db ca cb same fits =
    let eb' = get_elem?-set_ne l.budgets i j a' ne ∙ eb in
    let two = charges_of_two i j v ne ea eb dir in
    record {
      charges = λ d. ground (
        arith,
        v.charges d,
        two,
        sum_at-set (λ x. x.charged) d l.budgets i a' ea,
        sum_at-set (λ x. x.charged) d (set l.budgets i a') j b' eb',
      );
      uses = λ d. ground (
        arith,
        v.uses d,
        sum_at-set (λ x. x.allocated) d l.budgets i a' ea,
        sum_at-set (λ x. x.allocated) d (set l.budgets i a') j b' eb',
      );
      within = λ d. ground (arith, v.within d, two);
      budgets = All-set IsCharged _ j b' (All-set IsCharged l.budgets i a' v.budgets ca) cb;
    }
