-- ===== src/Hpack.antt =====
-- src/hpack.c: the integers and the dynamic table of HPACK.
pub mod Bounds
pub mod Integers
pub mod Huffman
pub mod Code
pub mod Fields
pub mod Decode
pub mod Sound
pub mod Walks
use vless_core_cli.Prelude.{
  ℕ, zero, suc, ◌+◌, ◌-◌, ◌*◌, ◌/◌, ◌%◌, ◌^◌, ◌≤◌, ◌<◌, min, max, Bool, true, false, ◌&&◌, ◌||◌,
  not, List, [], ◌∷◌, ◌++◌, Option, none, some, ltb, leb, ◌==◌, if◌then◌else◌, get_elem?, get_or,
  set, take, drop, length, Bytes, size_max, add_size, sub_size, ◌≡◌, refl, sym, ap, ap₂, ◌∙◌, ◌≢◌,
  ◌↔◌, ◌⊎◌, inl, inr, arith, Bool-cases, Option-cases, append-nil, append_assoc, length-append,
  length-take, length-drop, bit, word16, word24, word32, map, take-append-drop,
}

abbrev pub table_limit : ℕ
table_limit = 4096

-- `core_hpack_entry_t`
pub record Entry : Type 0 where
  pub name : Bytes
  pub value : Bytes
  pub size : ℕ

-- `core_hpack_decoder_t`: the entries in use, the newest first, so that `count` is their number.
pub record Decoder : Type 0 where
  pub entries : List Entry
  pub size : ℕ
  pub maximum : ℕ
  pub initialized : Bool

-- `core_hpack_init`
abbrev pub init : Decoder
init = record { entries = []; size = 0; maximum = table_limit; initialized = true }

-- `core_hpack_clear`, less the freeing
abbrev pub clear : Decoder → Decoder
clear t = record { entries = []; size = 0; maximum = 0; initialized = false }

abbrev size_at : List Entry → ℕ → ℕ
size_at entries i = elim (get_elem? entries i) [ none ↦ 0 | some e ↦ e.size ]

-- The loop of `evict_to`, by its count: the last entry goes while the table is too large.
unfoldable pub evict_loop : ℕ → ℕ → Decoder → Decoder
evict_loop zero target t = t
evict_loop (suc n) target t =
    let rest =
      evict_loop n target
        (record t { entries = take n t.entries; size = t.size - size_at t.entries n }) in
    if ltb target t.size then rest else t

-- `evict_to`
abbrev pub evict_to : Decoder → ℕ → Decoder
evict_to t target = evict_loop (length t.entries) target t

-- `insert`; `granted` says whether both allocations succeed. The flag returned is `false` for -1.
unfoldable pub insert : Decoder → Bytes → Bytes → Bool → Bool × Decoder
unfolding evict_loop
insert t name value granted =
    let size = length name + length value + 32 in
    if ltb t.maximum size
    then (true, evict_to t 0)
    else if not granted
    then (false, t)
    else (let u = evict_to t (t.maximum - size) in
        if leb 128 (length u.entries) then (false, u) else (
          true,
          record u {
            entries = record { name = name; value = value; size = size } ∷ u.entries;
            size = u.size + size;
          },
        ))

-- A change of the table size in `core_hpack_decode`.
unfoldable pub resize : Decoder → ℕ → Option Decoder
unfolding evict_loop
resize t index =
    if ltb table_limit index then none else some (evict_to (record t { maximum = index }) index)

-- `lookup`, over the static table that is given; the index of the first dynamic entry is one more
-- than the number of static ones.
unfoldable pub lookup : List (Bytes × Bytes) → Decoder → ℕ → Option (Bytes × Bytes)
lookup static t index =
    if index == 0
    then none
    else if leb index (length static)
    then get_elem? static (index - 1)
    else elim (get_elem? t.entries (index - length static - 1)) [
      | none ↦ none
      | some e ↦ some (e.name, e.value)
    ]

-- The loop of `core_hpack_decode_int` on what follows the first byte.
unfoldable pub decode_more : Bytes → ℕ → ℕ → Option (ℕ × Bytes)
decode_more [] m v = none
decode_more (b ∷ rest) m v =
    let next = (v + b % 128 * 2 ^ m) % 2 ^ 32 in
    let later = decode_more rest (m + 7) next in
    if ltb 28 m
    then none
    else if ltb ((2 ^ 32 - 1 - v) / 2 ^ m) (b % 128)
    then none
    else if ltb b 128
    then some (next, rest)
    else later

-- `core_hpack_decode_int`: the value, and the bytes behind `*off`.
unfoldable pub decode_int : ℕ → Bytes → Option (ℕ × Bytes)
unfolding decode_more
decode_int prefix [] = none
decode_int prefix (first ∷ rest) =
    if prefix == 0 || ltb 8 prefix
    then none
    else (let mask = 2 ^ prefix - 1 in
        let v = first % 2 ^ prefix in
        if not (v == mask) then some (v, rest) else decode_more rest 0 v)
