-- ===== src/WebSocket.antt =====
-- src/websocket.c and include/websocket.h: the decoder of WebSocket frames.
pub mod Decode
pub mod Text
pub mod Valid
pub mod Bounds
use vless_core_cli.Prelude.{
  ℕ, zero, suc, ◌+◌, ◌-◌, ◌*◌, ◌/◌, ◌%◌, ◌^◌, ◌≤◌, ◌<◌, min, max, Bool, true, false, ◌&&◌, ◌||◌,
  not, List, [], ◌∷◌, ◌++◌, Option, none, some, ltb, leb, ◌==◌, if◌then◌else◌, get_elem?, get_or,
  set, take, drop, length, Bytes, size_max, add_size, sub_size, ◌≡◌, refl, sym, ap, ap₂, ◌∙◌, ◌≢◌,
  ◌↔◌, ◌⊎◌, inl, inr, arith, Bool-cases, Option-cases, append-nil, append_assoc, length-append,
  length-take, length-drop, bit, word16, word24, word32, map, take-append-drop,
}

-- `CORE_WS_MESSAGE_LIMIT`
abbrev pub message_limit : ℕ
message_limit = 16 * 1024 * 1024

-- `utf_left`, `utf_min` and `utf_max` of `core_ws_decoder_t`
pub record Utf : Type 0 where
  pub left : ℕ
  pub least : ℕ
  pub most : ℕ

-- `core_ws_decoder_t`: of `header` and `control` the bytes in use.
pub record Decoder : Type 0 where
  pub header : Bytes
  pub control : Bytes
  pub remaining : ℕ
  pub message_length : ℕ
  pub active : Bool
  pub opcode : ℕ
  pub fin : Bool
  pub fragmented : Bool
  pub text : Bool
  pub utf : Utf
  pub closed : Bool
  pub failed : Bool

-- `core_ws_event_t`
pub record Event : Type 0 where
  pub opcode : ℕ
  pub payload : Bytes

abbrev pub within : ℕ → ℕ → ℕ → Bool
within low high n = leb low n && leb n high

-- The first byte of a character, in the loop of `utf8`.
unfoldable pub utf8_lead : Utf → ℕ → Option Utf
utf8_lead u byte =
    if ltb byte 0x80
    then some u
    else if within 0xc2 0xdf byte
    then some (record { left = 1; least = 0x80; most = 0xbf })
    else if within 0xe0 0xef byte
    then some (record {
      left = 2;
      least = if byte == 0xe0 then 0xa0 else 0x80;
      most = if byte == 0xed then 0x9f else 0xbf;
    })
    else if within 0xf0 0xf4 byte
    then some (record {
      left = 3;
      least = if byte == 0xf0 then 0x90 else 0x80;
      most = if byte == 0xf4 then 0x8f else 0xbf;
    })
    else none

-- One round of the loop of `utf8`.
unfoldable pub utf8_byte : Utf → ℕ → Option Utf
unfolding utf8_lead
utf8_byte u byte =
    if not (u.left == 0)
    then (if ltb byte u.least || ltb u.most byte
        then none
        else some (record { left = u.left - 1; least = 0x80; most = 0xbf }))
    else utf8_lead u byte

-- `utf8`
unfoldable pub utf8 : Utf → Bytes → Option Utf
unfolding utf8_byte
utf8 u [] = some u
utf8 u (byte ∷ rest) = elim (utf8_byte u byte) [ none ↦ none | some v ↦ utf8 v rest ]

-- The extended length in the header.
unfoldable pub big_endian : ℕ → Bytes → ℕ
big_endian size [] = size
big_endian size (byte ∷ rest) = big_endian ((size * 256 + byte) % 2 ^ 64) rest

-- A control frame in `frame_header`.
unfoldable pub control_header : Decoder → ℕ → Option Decoder
control_header s size =
    if not s.fin || ltb 125 size || (s.opcode == 8 && size == 1)
    then none
    else some (record s { control = []; remaining = size; active = true })

-- The start of a message, or its continuation with opcode 0.
abbrev pub open_message : Decoder → Decoder
open_message s = if s.opcode == 0 then s else record s {
  text = s.opcode == 1;
  message_length = 0;
  utf = record { left = 0; least = s.utf.least; most = s.utf.most };
  fragmented = not s.fin;
}

-- A data frame in `frame_header`.
unfoldable pub data_header : Decoder → ℕ → Option Decoder
data_header s size =
    let t = open_message s in
    if (if s.opcode == 0 then not s.fragmented else s.fragmented)
    then none
    else if ltb (message_limit - t.message_length) size
    then none
    else some
        (record t { message_length = t.message_length + size; remaining = size; active = true })

-- The length that the header says, if its encoding is the shortest one.
unfoldable pub payload_size : Bytes → Option ℕ
unfolding big_endian
payload_size header =
    let code = get_or header 1 0 % 128 in
    let size = big_endian 0 (drop 2 header) in
    if ltb code 126
    then some code
    else if (code == 126 && ltb size 126)
        || (code == 127 && (leb size 65535 || bit (get_or header 2 0) 7))
    then none
    else some size

-- `frame_header`
unfoldable pub frame_header : Decoder → Option Decoder
unfolding control_header data_header payload_size
frame_header s =
    let first = get_or s.header 0 0 in
    let opcode = first % 16 in
    let t = record s { fin = bit first 7; opcode = opcode } in
    if not (first / 16 % 8 == 0) || bit (get_or s.header 1 0) 7
    then none
    else if not (leb opcode 2 || within 8 10 opcode)
    then none
    else elim (payload_size s.header) [
      | none ↦ none
      | some size ↦ if leb 8 opcode then control_header t size else data_header t size
    ]

abbrev pub close_code : ℕ → Bool
close_code code =
    (within 1000 1014 code && not (code == 1004) && not (code == 1005) && not (code == 1006))
    || within 3000 4999 code

-- The payload of a close frame in `frame_end`.
unfoldable pub close_payload : Bytes → Bool
unfolding utf8
close_payload (a ∷ b ∷ reason) =
    close_code (word16 a b) && elim (utf8 (record { left = 0; least = 0; most = 0 }) reason) [
      | none ↦ false
      | some u ↦ u.left == 0
    ]
close_payload _ = true

-- `frame_end`: the event, if it returns 1.
unfoldable pub frame_end : Decoder → Option (Option Event × Decoder)
unfolding close_payload
frame_end s =
    let done = record s { active = false; header = [] } in
    if ltb s.opcode 8
    then (if not s.fin
        then some (none, done)
        else if s.text && not (s.utf.left == 0)
        then none
        else some (none, record done { fragmented = false; message_length = 0 }))
    else if s.opcode == 8 && not (close_payload s.control)
    then none
    else some (
      some (record { opcode = s.opcode; payload = s.control }),
      record done { closed = s.closed || s.opcode == 8 },
    )
