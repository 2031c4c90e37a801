-- ===== src/Hpack/Decode.antt =====
-- src/hpack.c: the decoder of a header block.
use vless_core_cli.Prelude.{
  ℕ, ◌+◌, ◌/◌, ◌%◌, Bool, true, false, ◌&&◌, ◌||◌, List, [], ◌∷◌, Option, none, some, ◌==◌,
  if◌then◌else◌, length, Bytes, ◌≡◌, refl, bit, codes,
}
use vless_core_cli.Prelude.Loops.{Turn, hung, failed, went, Read, done, read_loop}
use vless_core_cli.Hpack.{Decoder, init, clear, insert, resize, lookup, decode_int}
use vless_core_cli.Hpack.Huffman.{read_allocated}
use vless_core_cli.Hpack.Fields.{Headers, no_headers, emit_header}

-- `static_table`
unfoldable pub static_table : List (Bytes × Bytes)
static_table =
    (codes ":authority", [])
    ∷ (codes ":method", codes "GET")
    ∷ (codes ":method", codes "POST")
    ∷ (codes ":path", codes "/")
    ∷ (codes ":path", codes "/index.html")
    ∷ (codes ":scheme", codes "http")
    ∷ (codes ":scheme", codes "https")
    ∷ (codes ":status", codes "200")
    ∷ (codes ":status", codes "204")
    ∷ (codes ":status", codes "206")
    ∷ (codes ":status", codes "304")
    ∷ (codes ":status", codes "400")
    ∷ (codes ":status", codes "404")
    ∷ (codes ":status", codes "500")
    ∷ (codes "accept-charset", [])
    ∷ (codes "accept-encoding", codes "gzip, deflate")
    ∷ (codes "accept-language", [])
    ∷ (codes "accept-ranges", [])
    ∷ (codes "accept", [])
    ∷ (codes "access-control-allow-origin", [])
    ∷ (codes "age", [])
    ∷ (codes "allow", [])
    ∷ (codes "authorization", [])
    ∷ (codes "cache-control", [])
    ∷ (codes "content-disposition", [])
    ∷ (codes "content-encoding", [])
    ∷ (codes "content-language", [])
    ∷ (codes "content-length", [])
    ∷ (codes "content-location", [])
    ∷ (codes "content-range", [])
    ∷ (codes "content-type", [])
    ∷ (codes "cookie", [])
    ∷ (codes "date", [])
    ∷ (codes "etag", [])
    ∷ (codes "expect", [])
    ∷ (codes "expires", [])
    ∷ (codes "from", [])
    ∷ (codes "host", [])
    ∷ (codes "if-match", [])
    ∷ (codes "if-modified-since", [])
    ∷ (codes "if-none-match", [])
    ∷ (codes "if-range", [])
    ∷ (codes "if-unmodified-since", [])
    ∷ (codes "last-modified", [])
    ∷ (codes "link", [])
    ∷ (codes "location", [])
    ∷ (codes "max-forwards", [])
    ∷ (codes "proxy-authenticate", [])
    ∷ (codes "proxy-authorization", [])
    ∷ (codes "range", [])
    ∷ (codes "referer", [])
    ∷ (codes "refresh", [])
    ∷ (codes "retry-after", [])
    ∷ (codes "server", [])
    ∷ (codes "set-cookie", [])
    ∷ (codes "strict-transport-security", [])
    ∷ (codes "transfer-encoding", [])
    ∷ (codes "user-agent", [])
    ∷ (codes "vary", [])
    ∷ (codes "via", [])
    ∷ (codes "www-authenticate", [])
    ∷ []

-- What `core_hpack_decode` keeps from field to field.
pub record Walk : Type 0 where
  pub decoder : Decoder
  pub headers : Headers
  pub saw_header : Bool
  pub invalid : Bool

-- A call of `emit_header`.
unfoldable pub noted : Bytes → Bytes → Walk → Walk
unfolding emit_header
noted name value w =
    let (headers, wrong) = emit_header w.headers name value in
    record w { headers = headers; saw_header = true; invalid = w.invalid || wrong }

unfoldable pub resize_round : Bytes → Walk → Turn Walk
unfolding decode_int resize
resize_round buf w = if w.saw_header then failed w else elim (decode_int 5 buf) [
  | none ↦ failed w
  | some (index, rest) ↦ elim (resize w.decoder index) [
    | none ↦ failed w
    | some t ↦ went (record w { decoder = t }) rest
  ]
]

unfoldable pub indexed_round : Bytes → Walk → Turn Walk
unfolding decode_int lookup noted static_table
indexed_round buf w = elim (decode_int 7 buf) [
  | none ↦ failed w
  | some (index, rest) ↦ elim (lookup static_table w.decoder index) [
    | none ↦ failed w
    | some (name, value) ↦ went (noted name value w) rest
  ]
]

-- The name of a literal field: one of a table, or a text.
unfoldable pub read_name : (ℕ → ℕ → Bool) → Decoder → ℕ → Bytes → Option (Bytes × Bytes)
unfolding lookup static_table read_allocated
read_name granted t index buf =
    if index == 0
    then read_allocated granted buf
    else elim (lookup static_table t index) [ none ↦ none | some (name, value) ↦ some (name, buf) ]

-- A literal field goes into the table where it says so.
unfoldable pub keep_field : (ℕ → ℕ → Bool) → Bool → Bytes → Bytes → Bytes → Walk → Turn Walk
unfolding insert
keep_field granted indexing name value rest w =
    let room =
      granted (length rest) (length name + 1) && granted (length rest) (length value + 1) in
    let (kept, t) = insert w.decoder name value room in
    if indexing
    then if kept then went (record w { decoder = t }) rest else failed (record w { decoder = t })
    else went w rest

unfoldable pub literal_round : (ℕ → ℕ → Bool) → Bool → Bytes → Walk → Turn Walk
unfolding decode_int read_name read_allocated keep_field noted
literal_round granted indexing buf w = elim (decode_int (if indexing then 6 else 4) buf) [
  | none ↦ failed w
  | some (index, rest) ↦ elim (read_name granted w.decoder index rest) [
    | none ↦ failed w
    | some (name, value_at) ↦ elim (read_allocated granted value_at) [
      | none ↦ failed w
      | some (value, last) ↦ keep_field granted indexing name value last (noted name value w)
    ]
  ]
]

-- A round of the loop of `core_hpack_decode`, on the kind that the first byte has.
unfoldable pub field_round : (ℕ → ℕ → Bool) → Walk → Bytes → Turn Walk
unfolding resize_round indexed_round literal_round
field_round granted w [] = hung
field_round granted w (first ∷ more) =
    let buf : Bytes = first ∷ more in
    if first / 32 % 8 == 1
    then resize_round buf w
    else if bit first 7
    then indexed_round buf w
    else literal_round granted (bit first 6) buf w

-- A decoder is initialised by its first block.
abbrev pub begun : Decoder → Decoder
begun t = if t.initialized then t else init

-- `core_hpack_decode`: a failure is -1, and the result of a walk is -2 where it is invalid. `granted` says
-- whether there is memory for a number of bytes, when so many bytes of the block are left.
unfoldable pub decode : (ℕ → ℕ → Bool) → Decoder → Bytes → Read Walk
unfolding field_round read_loop
decode granted t block =
    read_loop (field_round granted) (length block)
      (record { decoder = begun t; headers = no_headers; saw_header = false; invalid = false })
      block

-- `core_hpack_status`: none for -1. Its decoder is all zeros.
unfoldable pub block_status : (ℕ → ℕ → Bool) → Bytes → Option ℕ
unfolding decode
block_status granted block = elim (decode granted (clear init) block) [
  | done w ↦ if w.invalid then none else some w.headers.status
  | _ ↦ none
]

-- An indexed field of the static table, and a literal one that is kept.
simple_block : block_status (λ n m. true) (136 ∷ 64 ∷ 1 ∷ 97 ∷ 1 ∷ 98 ∷ 190 ∷ []) ≡ some 200
unfolding block_status
simple_block = refl
