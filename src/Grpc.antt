-- ===== src/Grpc.antt =====
-- src/grpc.c: the messages of gRPC, as they arrive in pieces.
pub mod Media
pub mod Chunks
pub mod Bounds
pub mod Rounds
pub mod Messages
pub mod Trailers
pub mod Parameters
use vless_core_cli.Prelude.{
  ℕ, zero, suc, ◌+◌, ◌-◌, ◌*◌, ◌/◌, ◌%◌, ◌^◌, ◌≤◌, ◌<◌, min, max, Bool, true, false, ◌&&◌, ◌||◌,
  not, List, [], ◌∷◌, ◌++◌, Option, none, some, ltb, leb, ◌==◌, if◌then◌else◌, get_elem?, get_or,
  set, take, drop, length, Bytes, size_max, add_size, sub_size, ◌≡◌, refl, sym, ap, ap₂, ◌∙◌, ◌≢◌,
  ◌↔◌, ◌⊎◌, inl, inr, arith, Bool-cases, Option-cases, append-nil, append_assoc, length-append,
  length-take, length-drop, bit, word16, word24, word32, map, take-append-drop, take_front,
  drop_front, long_enough, choose_left, choose_right, codes, same_bytes, contains,
}

abbrev pub message_limit : ℕ
message_limit = 16 * 1024 * 1024

-- `GRPC_BUFFER_LIMIT`
abbrev pub buffer_limit : ℕ
buffer_limit = 16 * 1024 * 1024

-- `struct core_grpc_chunk`: `data` is the part that is written.
pub record Chunk : Type 0 where
  pub start : ℕ
  pub data_bytes : Bytes
  pub capacity : ℕ

-- `core_grpc_decoder_t`, and `grpc_reserved` as `total`. `header` is the part in use, and `groups` holds
-- the innermost group first.
pub record Decoder : Type 0 where
  pub header : Bytes
  pub phase : ℕ
  pub wire : ℕ
  pub field : ℕ
  pub shift : ℕ
  pub failed : ℕ
  pub varint : ℕ
  pub remaining : ℕ
  pub field_remaining : ℕ
  pub reserved : ℕ
  pub chunks : List Chunk
  pub multi : Bool
  pub ready : Bool
  pub groups : List ℕ
  pub total : ℕ

-- `release_message`
abbrev pub release_message : Decoder → Decoder
release_message s = record s {
  chunks = [];
  total = sub_size s.total s.reserved;
  reserved = 0;
  ready = false;
}

-- Whether a new chunk is needed: there is none, or the last one is full.
unfoldable pub is_full : List Chunk → Bool
is_full [] = true
is_full (c ∷ []) = length c.data_bytes == c.capacity
is_full (c ∷ d ∷ cs) = is_full (d ∷ cs)

-- The room of the last chunk.
unfoldable pub room : List Chunk → ℕ
room [] = 0
room (c ∷ []) = c.capacity - length c.data_bytes
room (c ∷ d ∷ cs) = room (d ∷ cs)

-- A write to the last chunk.
unfoldable pub fill : List Chunk → Bytes → List Chunk
fill [] bytes = []
fill (c ∷ []) bytes = record c { data_bytes = c.data_bytes ++ bytes } ∷ []
fill (c ∷ d ∷ cs) bytes = c ∷ fill (d ∷ cs) bytes

abbrev pub new_chunk : ℕ → Chunk
new_chunk remaining = record { start = 0; data_bytes = []; capacity = min remaining 8192 }

-- The loop of `append_data`; `behind` is the number of the input bytes behind the data, and `granted` says
-- whether there is memory for a chunk when so many bytes of the input are left.
unfoldable pub append_loop : (ℕ → Bool) → ℕ → ℕ → ℕ → List Chunk → Bytes → Option (List Chunk)
unfolding is_full room fill
append_loop granted n behind remaining chunks [] = some chunks
append_loop granted zero behind remaining chunks (b ∷ bs) = none
append_loop granted (suc n) behind remaining chunks (b ∷ bs) =
    let data_bytes : Bytes = b ∷ bs in
    let usable = if is_full chunks then chunks ++ new_chunk remaining ∷ [] else chunks in
    let taken = min (room usable) (length data_bytes) in
    let rest =
      append_loop granted n behind (remaining - taken) (fill usable (take taken data_bytes))
        (drop taken data_bytes) in
    if is_full chunks && not (granted (length data_bytes + behind)) then none else rest

-- `append_data`, on no more bytes than remain
abbrev pub append_data : (ℕ → Bool) → ℕ → ℕ → List Chunk → Bytes → Option (List Chunk)
append_data granted behind remaining chunks data_bytes =
    append_loop granted (length data_bytes) behind remaining chunks data_bytes

-- The loop of `core_grpc_read`: the bytes, and the chunks that are left.
unfoldable pub read_chunks : ℕ → List Chunk → Bytes × List Chunk
read_chunks cap [] = ([], [])
read_chunks cap (c ∷ cs) =
    let size = min (length c.data_bytes - c.start) cap in
    let found = take size (drop c.start c.data_bytes) in
    let (more, left) = read_chunks (cap - size) cs in
    if cap == 0
    then ([], c ∷ cs)
    else if c.start + size == length c.data_bytes
    then (found ++ more, left)
    else (found, record c { start = c.start + size } ∷ cs)

-- `core_grpc_read`: none for -1.
unfoldable pub read : ℕ → Decoder → Option (Bytes × Decoder)
unfolding read_chunks
read cap s =
    let (bytes, left) = read_chunks cap s.chunks in
    let t = record s { chunks = left } in
    if not (s.failed == 0)
    then none
    else if not s.ready
    then some ([], s)
    else some (bytes, if length left == 0 then release_message t else t)

-- `core_grpc_complete`, on a decoder that is there.
abbrev pub complete : Decoder → Bool
complete s = s.failed == 0 && length s.header == 0

-- `core_grpc_pending`, on a decoder that is there.
abbrev pub pending : Decoder → Bool
pending s = s.ready

-- How `core_grpc_decode` ends: 0, 1 with a message or a payload, or -1.
pub data Outcome : Type 0 where
  waits : Outcome
  whole_message : Outcome
  payload : Bytes → Outcome
  refused : Outcome

-- A round of its loop: the loop goes on, or ends.
pub data Step : Type 0 where
  on : Decoder → Bytes → Step
  stop : Outcome → Decoder → Bytes → Step

-- The label `invalid`
abbrev pub invalid : Decoder → Bytes → Step
invalid s rest = stop refused (release_message (record s { failed = 1 })) rest

-- The end of a round.
unfoldable pub settle : Bytes → Decoder → Bytes → Step
settle found s rest =
    let t = record s { header = [] } in
    if s.remaining == 0
    then if not (s.phase == 0) || not (s.shift == 0) || not (length s.groups == 0)
      then invalid s rest
      else if not s.multi
      then stop whole_message (record t { ready = true }) rest
      else if length found == 0
      then on t rest
      else stop (payload found) t rest
    else if length found == 0
    then on s rest
    else stop (payload found) s rest

-- The contents of a field: those of field 1 outside of groups are the data.
unfoldable pub contents_round : (ℕ → Bool) → Decoder → Bytes → Step
unfolding settle append_loop
contents_round granted s buf =
    let size = min s.field_remaining (length buf) in
    let found = take size buf in
    let rest = drop size buf in
    let left = s.field_remaining - size in
    let t = record s {
      field_remaining = left;
      remaining = sub_size s.remaining size;
      phase = if left == 0 then 0 else s.phase;
    } in
    if length s.groups == 0 && s.field == 1 && s.wire == 2
    then if s.multi
      then settle found t rest
      else elim (append_data granted (length rest) s.field_remaining s.chunks found) [
        | none ↦ stop refused (release_message (record s { failed = 3 })) buf
        | some chunks ↦ settle [] (record t { chunks = chunks }) rest
      ]
    else settle [] t rest

-- The decoder after a step, and whether what was read is valid.
abbrev pub Checked : Type 0
Checked = Decoder × Bool

-- A group ends where it is the innermost one.
unfoldable pub end_group : List ℕ → Decoder → Checked
end_group [] s = (s, false)
end_group (g ∷ gs) s = if g == s.field then (record s { groups = gs }, true) else (s, false)

-- The decoder after a tag.
unfoldable pub on_tag : ℕ → Decoder → Checked
unfolding end_group
on_tag value s =
    let t = record s { field = value / 8; wire = value % 8 } in
    let fixed = if value % 8 == 1 then 8 else 4 in
    let u = record t { field_remaining = fixed } in
    if value / 8 == 0 || ltb 536870911 (value / 8)
    then (s, false)
    else if value % 8 == 0
    then (record t { phase = 3 }, true)
    else if value % 8 == 2
    then (record t { phase = 1 }, true)
    else if value % 8 == 1 || value % 8 == 5
    then if ltb s.remaining fixed then (u, false) else (record u { phase = 2 }, true)
    else if value % 8 == 3
    then if length s.groups == 64
      then (t, false)
      else (record t { groups = value / 8 ∷ s.groups }, true)
    else if value % 8 == 4
    then end_group s.groups t
    else (t, false)

-- The decoder after a length: it clears what an earlier field 1 had.
unfoldable pub on_length : ℕ → Decoder → Checked
on_length value s =
    let t = record s {
      chunks = if length s.groups == 0 && s.field == 1 && not s.multi then [] else s.chunks;
      field_remaining = value;
      phase = if value == 0 then 0 else 2;
    } in
    if ltb s.remaining value then (s, false) else (t, true)

-- A number that is read, in its phase.
unfoldable pub on_number : ℕ → Decoder → Checked
unfolding on_tag on_length
on_number value s =
    if s.phase == 0
    then on_tag value s
    else if s.phase == 1
    then on_length value s
    else (record s { phase = 0 }, true)

-- A byte of a number; the bits of `varint` from `shift` on are zero, so that `|` is a sum.
unfoldable pub number_round : Decoder → ℕ → Bytes → Step
unfolding on_number settle
number_round s byte rest =
    let u = record s { remaining = sub_size s.remaining 1 } in
    let value = (s.varint + byte % 128 * 2 ^ s.shift) % 2 ^ 64 in
    if ltb 63 s.shift || s.shift == 63 && leb 2 byte
    then invalid u rest
    else if leb 128 byte
    then settle [] (record u { varint = value; shift = s.shift + 7 }) rest
    else (let (t, valid) = on_number value (record u { varint = 0; shift = 0 }) in
        if valid then settle [] t rest else invalid t rest)

unfoldable pub body_round : (ℕ → Bool) → Decoder → Bytes → Step
unfolding contents_round number_round
body_round granted s [] = on s []
body_round granted s (b ∷ bs) =
    if s.phase == 2 then contents_round granted s (b ∷ bs) else number_round s b bs

-- The header is there: its number of bytes, and the room for them.
unfoldable pub begin_message : (ℕ → Bool) → Decoder → Bytes → Step
unfolding body_round
begin_message granted s rest =
    let size =
      word32 (get_or s.header 1 0) (get_or s.header 2 0) (get_or s.header 3 0)
        (get_or s.header 4 0) in
    let t = record s { remaining = size; phase = 0; shift = 0; varint = 0; groups = [] } in
    let u = record t { reserved = size; total = add_size s.total size } in
    if not (get_or s.header 0 0 == 0) || ltb message_limit size
    then invalid (record s { remaining = size }) rest
    else if size == 0
    then if s.multi
      then on (record t { header = [] }) rest
      else stop whole_message (record t { header = []; ready = true }) rest
    else if s.multi
    then body_round granted t rest
    else if ltb (sub_size buffer_limit s.total) size
    then stop refused (record t { failed = 2 }) rest
    else body_round granted u rest

-- A round of the loop of `core_grpc_decode`.
unfoldable pub message_round : (ℕ → Bool) → Decoder → Bytes → Step
unfolding begin_message body_round
message_round granted s buf =
    let size = min (5 - length s.header) (length buf) in
    let t = record s { header = s.header ++ take size buf } in
    if ltb (length s.header) 5
    then if ltb (length t.header) 5
      then on t (drop size buf)
      else begin_message granted t (drop size buf)
    else body_round granted s buf

-- The loop of `core_grpc_decode`; the option is for the fuel.
unfoldable pub message_loop : (ℕ → Bool) → ℕ → Decoder → Bytes → Option (Outcome × Decoder × Bytes)
unfolding message_round
message_loop granted n s [] = some (waits, s, [])
message_loop granted zero s (b ∷ bs) = none
message_loop granted (suc n) s (b ∷ bs) = elim (message_round granted s (b ∷ bs)) [
  | on t rest ↦ message_loop granted n t rest
  | stop result t rest ↦ some (result, t, rest)
]

-- `core_grpc_decode`, with the bytes that are not consumed.
unfoldable pub decode : (ℕ → Bool) → Decoder → Bytes → Option (Outcome × Decoder × Bytes)
unfolding message_loop
decode granted s buf =
    if not (s.failed == 0)
    then some (refused, s, buf)
    else if s.ready
    then some (whole_message, s, buf)
    else message_loop granted (length buf) s buf

abbrev pub fresh : Bool → ℕ → Decoder
fresh multi total = record {
  header = [];
  phase = 0;
  wire = 0;
  field = 0;
  shift = 0;
  failed = 0;
  varint = 0;
  remaining = 0;
  field_remaining = 0;
  reserved = 0;
  chunks = [];
  multi = multi;
  ready = false;
  groups = [];
  total = total;
}
