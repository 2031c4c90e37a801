-- ===== src/Hpack/Fields.antt =====
-- src/hpack.c: the fields of a response, checked and noted one by one.
use vless_core_cli.Prelude.{
  ℕ, ◌+◌, ◌-◌, ◌*◌, ◌/◌, ◌^◌, Bool, true, false, ◌&&◌, ◌||◌, not, [], ◌∷◌, Option, none, some, ltb,
  leb, ◌==◌, if◌then◌else◌, length, Bytes, size_max, bit, codes, same_bytes,
}
use vless_core_cli.Grpc.Media.{token_mark, content_type}

-- `core_hpack_headers_t`, in the order in which the fields are noted; `grpc_status` is none for -1.
pub record Headers : Type 0 where
  pub decoded_size : ℕ
  pub regular_seen : Bool
  pub other_pseudo : ℕ
  pub has_te : Bool
  pub content_type_seen : ℕ
  pub grpc_content_type : Bool
  pub status_seen : ℕ
  pub status : ℕ
  pub has_content_length : Bool
  pub content_length : ℕ
  pub has_grpc_status : Bool
  pub grpc_status : Option ℕ

abbrev pub no_headers : Headers
no_headers = record {
  decoded_size = 0;
  regular_seen = false;
  other_pseudo = 0;
  has_te = false;
  content_type_seen = 0;
  grpc_content_type = false;
  status_seen = 0;
  status = 0;
  has_content_length = false;
  content_length = 0;
  has_grpc_status = false;
  grpc_status = some 0;
}

abbrev pub header_limit : ℕ
header_limit = 65536

-- The headers after a step, and whether it found the field invalid.
abbrev pub Noted : Type 0
Noted = Headers × Bool

-- The size of the decoded fields.
unfoldable pub note_size : Bytes → Bytes → Headers → Noted
note_size name value h =
    let size = length name + length value + 32 in
    if ltb header_limit h.decoded_size || ltb (header_limit - h.decoded_size) size
    then (record h { decoded_size = header_limit + 1 }, true)
    else (record h { decoded_size = h.decoded_size + size }, false)

abbrev pub name_byte : ℕ → Bool
name_byte c = leb 97 c && leb c 122 || leb 48 c && leb c 57 || token_mark c

abbrev pub name_bytes : Bytes → Bool
name_bytes [] = true
name_bytes (c ∷ cs) = name_byte c && name_bytes cs

-- A colon may be the first byte of a name.
unfoldable pub valid_name : Bytes → Bool
unfolding token_mark
valid_name [] = false
valid_name (c ∷ cs) = (c == 58 || name_byte c) && name_bytes cs

-- The place of a name among the pseudo-fields of a request.
unfoldable pub pseudo_flag : Bytes → Option ℕ
pseudo_flag name =
    if same_bytes name (codes ":method")
    then some 0
    else if same_bytes name (codes ":scheme")
    then some 1
    else if same_bytes name (codes ":authority")
    then some 2
    else if same_bytes name (codes ":path")
    then some 3
    else if same_bytes name (codes ":protocol")
    then some 4
    else none

-- `flags | 1 << k`
abbrev pub with_bit : ℕ → ℕ → ℕ
with_bit flags k = if bit flags k then flags else flags + 2 ^ k

-- Pseudo-fields stand before the others, and each once.
unfoldable pub note_pseudo : Bytes → Headers → Noted
unfolding pseudo_flag
note_pseudo [] h = (record h { regular_seen = true }, false)
note_pseudo (c ∷ cs) h =
    let misplaced = h.regular_seen || length cs == 0 in
    if not (c == 58)
    then (record h { regular_seen = true }, false)
    else if same_bytes (c ∷ cs) (codes ":status")
    then (h, misplaced)
    else elim (pseudo_flag (c ∷ cs)) [
      | none ↦ (record h { other_pseudo = with_bit h.other_pseudo 31 }, true)
      | some k ↦
          (record h { other_pseudo = with_bit h.other_pseudo k }, misplaced || bit h.other_pseudo k)
    ]

abbrev pub value_byte : ℕ → Bool
value_byte c = not (ltb c 32 && not (c == 9) || c == 127)

abbrev pub value_bytes : Bytes → Bool
value_bytes [] = true
value_bytes (c ∷ cs) = value_byte c && value_bytes cs

abbrev is_blank : ℕ → Bool
is_blank c = c == 32 || c == 9

abbrev last_byte : ℕ → Bytes → ℕ
last_byte c [] = c
last_byte c (d ∷ cs) = last_byte d cs

-- No blank stands at the front or at the end of a value.
abbrev pub is_trimmed : Bytes → Bool
is_trimmed [] = true
is_trimmed (c ∷ cs) = not (is_blank c) && not (is_blank (last_byte c cs))

unfoldable pub valid_value : Bytes → Bool
valid_value value = value_bytes value && is_trimmed value

-- The fields that belong to one connection of HTTP/1.
unfoldable pub forbidden : Bytes → Bool
forbidden name =
    same_bytes name (codes "connection")
    || same_bytes name (codes "proxy-connection")
    || same_bytes name (codes "keep-alive")
    || same_bytes name (codes "transfer-encoding")
    || same_bytes name (codes "upgrade")

unfoldable pub note_te : Bytes → Headers → Noted
note_te value h = (record h { has_te = true }, not (same_bytes value (codes "trailers")))

unfoldable pub note_content_type : Bytes → Headers → Noted
note_content_type value h = (
  record h { content_type_seen = h.content_type_seen + 1; grpc_content_type = content_type value },
  false,
)

-- A status of three digits, from 100 to 599.
unfoldable pub read_status : Bytes → Option ℕ
read_status (a ∷ b ∷ c ∷ []) =
    if leb 49 a && leb a 53 && (leb 48 b && leb b 57) && (leb 48 c && leb c 57)
    then some ((a - 48) * 100 + (b - 48) * 10 + (c - 48))
    else none
read_status _ = none

unfoldable pub note_status : Bytes → Headers → Noted
unfolding read_status
note_status value h =
    let seen = record h { status_seen = h.status_seen + 1 } in
    if not (h.status_seen == 0) then (seen, true) else elim (read_status value) [
      | none ↦ (seen, true)
      | some status ↦ (record seen { status = status }, false)
    ]

-- The loop over the digits of a content length: the number so far, and whether it is valid.
unfoldable pub length_digits : ℕ → Bytes → ℕ × Bool
length_digits parsed [] = (parsed, true)
length_digits parsed (c ∷ cs) =
    let rest = length_digits (parsed * 10 + (c - 48)) cs in
    if not (leb 48 c && leb c 57) || ltb ((size_max - (c - 48)) / 10) parsed
    then (parsed, false)
    else rest

unfoldable pub note_content_length : Bytes → Headers → Noted
unfolding length_digits
note_content_length value h =
    let (parsed, valid) = length_digits 0 value in
    (
      record h { has_content_length = true; content_length = parsed },
      not (valid && not (length value == 0))
          || h.has_content_length && not (h.content_length == parsed),
    )

-- The loop over the digits of a gRPC status: none where there is another byte.
unfoldable pub status_digits : ℕ → Bytes → Option ℕ
status_digits status [] = some status
status_digits status (c ∷ cs) =
    let rest = status_digits (if leb status 16 then status * 10 + (c - 48) else status) cs in
    if leb 48 c && leb c 57 then rest else none

unfoldable pub read_grpc_status : Bytes → Option ℕ
unfolding status_digits
read_grpc_status [] = none
read_grpc_status (c ∷ cs) =
    if not (length cs == 0) && c == 48 then none else elim (status_digits 0 (c ∷ cs)) [
      | none ↦ none
      | some status ↦ some (if ltb 16 status then 2 else status)
    ]

unfoldable pub note_grpc_status : Bytes → Headers → Noted
unfolding read_grpc_status
note_grpc_status value h =
    let status = read_grpc_status value in
    (
      record h { has_grpc_status = true; grpc_status = status },
      h.has_grpc_status || length value == 0 || elim status [ none ↦ true | some s ↦ false ],
    )

abbrev pub valid : Headers → Noted
valid h = (h, false)

-- The step for the name of the field, if there is one.
unfoldable pub note_named : Bytes → Bytes → Headers → Noted
unfolding note_te note_content_type note_status note_content_length note_grpc_status
note_named name value h =
    if same_bytes name (codes "te")
    then note_te value h
    else if same_bytes name (codes "content-type")
    then note_content_type value h
    else if same_bytes name (codes ":status")
    then note_status value h
    else if same_bytes name (codes "content-length")
    then note_content_length value h
    else if same_bytes name (codes "grpc-status")
    then note_grpc_status value h
    else valid h

-- `emit_header`; the flag is true for -2.
unfoldable pub emit_header : Headers → Bytes → Bytes → Noted
unfolding note_size valid_name note_pseudo valid_value forbidden note_named
emit_header h name value =
    let (sized, large) = note_size name value h in
    let (placed, misplaced) = note_pseudo name sized in
    let (noted, wrong) = note_named name value placed in
    (
      noted,
      large
          || (not (valid_name name)
              || misplaced
              || not (valid_value value)
              || forbidden name
              || wrong),
    )
