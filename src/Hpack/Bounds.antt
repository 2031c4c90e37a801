-- ===== src/Hpack/Bounds.antt =====
-- The dynamic table of src/hpack.c keeps its size.
use vless_core_cli.Prelude.{
  ℕ, zero, suc, ◌+◌, ◌-◌, ◌*◌, ◌≤◌, Bool, true, List, [], ◌∷◌, none, some, get_elem?, take, length,
  Bytes, ◌≡◌, refl, arith, length-take,
}
use vless_core_cli.Hpack.{Entry, Decoder, table_limit, evict_loop, evict_to, insert, resize, lookup}

-- The size of RFC 7541, section 4.1.
abbrev pub sum_sizes : List Entry → ℕ
sum_sizes [] = 0
sum_sizes (e ∷ es) = e.size + sum_sizes es

abbrev pub AreSized : List Entry → Type 0
AreSized [] = Unit
AreSized (e ∷ es) = (e.size ≡ length e.name + length e.value + 32) × AreSized es

pub record IsTable (t : Decoder) : Type 0 where
  pub total : t.size ≡ sum_sizes t.entries
  pub sized : AreSized t.entries
  pub within : t.size ≤ t.maximum
  pub limited : t.maximum ≤ table_limit

AreSized-take : (n : ℕ) (es : List Entry) → AreSized es → AreSized (take n es)
AreSized-take zero es h = tt
AreSized-take (suc n) [] h = tt
AreSized-take (suc n) (e ∷ es) h = (h.0, AreSized-take n es h.1)

-- Each entry counts at least 32.
length-le-sum : (es : List Entry) → AreSized es → 32 * length es ≤ sum_sizes es
length-le-sum [] h = omega arith
length-le-sum (e ∷ es) h = omega (arith, h.0, length-le-sum es h.1)

abbrev size_of : List Entry → ℕ → ℕ
size_of es i = elim (get_elem? es i) [ none ↦ 0 | some e ↦ e.size ]

sum_sizes-take :
    (n : ℕ) (es : List Entry)
    → length es ≡ suc n
    → sum_sizes (take n es) + size_of es n ≡ sum_sizes es
sum_sizes-take n [] h = absurd (omega arith)
sum_sizes-take zero (e ∷ []) h = omega arith
sum_sizes-take zero (e ∷ f ∷ es) h = absurd (omega arith)
sum_sizes-take (suc n) (e ∷ es) h = omega (arith, sum_sizes-take n es (omega arith))

-- What eviction leaves: a table with its sum, no larger than the target.
record Evicted (t u : Decoder) (target : ℕ) : Type 0 where
  total : u.size ≡ sum_sizes u.entries
  sized : AreSized u.entries
  small : u.size ≤ target
  maximum : u.maximum ≡ t.maximum

empty_of_length : (es : List Entry) → length es ≡ 0 → es ≡ []
empty_of_length [] h = refl
empty_of_length (e ∷ es) h = absurd (omega arith)

evict_loop-Evicted :
    (n target : ℕ) (t : Decoder)
    → length t.entries ≡ n
    → t.size ≡ sum_sizes t.entries
    → AreSized t.entries
    → Evicted t (evict_loop n target t) target
unfolding evict_loop
evict_loop-Evicted zero target t h total sized = ground (arith, empty_of_length t.entries h)
evict_loop-Evicted (suc n) target t h total sized = ground (
  arith,
  evict_loop-Evicted n target
      (record t { entries = take n t.entries; size = t.size - size_of t.entries n })
      (omega (arith, length-take n t.entries)) (omega (arith, sum_sizes-take n t.entries h))
      (AreSized-take n t.entries sized),
)

evict_to-Evicted : (t : Decoder) (target : ℕ) → IsTable t → Evicted t (evict_to t target) target
evict_to-Evicted t target v = evict_loop-Evicted (length t.entries) target t refl v.total v.sized

-- An insertion keeps the table: its size is the sum of the entries', within its maximum.
pub insert-IsTable :
    (t : Decoder) (name value : Bytes) (granted : Bool)
    → IsTable t
    → IsTable (insert t name value granted).1
unfolding insert
insert-IsTable t name value granted v =
    let size = length name + length value + 32 in
    ground (arith, v, evict_to-Evicted t 0 v, evict_to-Evicted t (t.maximum - size) v)

-- On such a table the check against 128 entries never fails: with memory, an insertion succeeds.
pub insert_succeeds :
    (t : Decoder) (name value : Bytes) → IsTable t → (insert t name value true).0 ≡ true
unfolding insert
insert_succeeds t name value v =
    let size = length name + length value + 32 in
    let u = evict_to t (t.maximum - size) in
    let e = evict_to-Evicted t (t.maximum - size) v in
    ground (arith, v, e, length-le-sum u.entries e.sized)

-- A size update that succeeds keeps such a table, and cuts it to the new maximum.
pub resize-IsTable :
    (t : Decoder) (index : ℕ) {u : Decoder}
    → IsTable t
    → resize t index ≡ some u
    → IsTable u × (u.maximum ≡ index)
unfolding resize
resize-IsTable t index {u} v h =
    let t' = record t { maximum = index } in
    ground (arith, h, evict_loop-Evicted (length t.entries) index t' refl v.total v.sized)

-- On such a table a new entry that fits is found at the first dynamic index, with its name and value.
pub lookup-insert :
    (static : List (Bytes × Bytes)) (t : Decoder) (name value : Bytes)
    → IsTable t
    → length name + length value + 32 ≤ t.maximum
    → lookup static (insert t name value true).1 (length static + 1) ≡ some (name, value)
unfolding insert lookup
lookup-insert static t name value v fits =
    let size = length name + length value + 32 in
    let u = evict_to t (t.maximum - size) in
    let e = evict_to-Evicted t (t.maximum - size) v in
    let first : length static + 1 - length static - 1 ≡ 0 = omega arith in
    ground (arith, v, e, length-le-sum u.entries e.sized, first)
