-- ===== src/WebSocket/Decode.antt =====
-- `core_ws_decode` of src/websocket.c, round by round.
use vless_core_cli.Prelude.{
  ℕ, zero, suc, ◌-◌, ◌%◌, true, false, ◌&&◌, ◌||◌, not, [], ◌∷◌, ◌++◌, Option, none, some, ltb, leb,
  bit, ◌/◌, ◌==◌, if◌then◌else◌, get_or, take, drop, length, Bytes,
}
use vless_core_cli.WebSocket.{
  Utf, Decoder, Event, within, utf8, utf8_byte, open_message, payload_size, frame_header, frame_end,
}

-- The start of a decoder, all zero.
abbrev pub start : Decoder
start = record {
  header = [];
  control = [];
  remaining = 0;
  message_length = 0;
  active = false;
  opcode = 0;
  fin = false;
  fragmented = false;
  text = false;
  utf = record { left = 0; least = 0; most = 0 };
  closed = false;
  failed = false;
}

-- The bytes of the header, as far as it is known.
unfoldable pub needed : Bytes → ℕ
needed header =
    if ltb (length header) 2
    then 2
    else (let code = get_or header 1 0 % 128 in
        if code == 126 then 4 else if code == 127 then 10 else 2)

-- Where `utf8` leaves the state when it refuses the text: at the first byte that does not fit, of
-- which a bad first byte of a character has set the range.
unfoldable pub utf8_stop : Utf → Bytes → Utf
utf8_stop u [] = u
utf8_stop u (byte ∷ rest) = elim (utf8_byte u byte) [
  | none ↦ if u.left == 0 then record { left = 0; least = 0x80; most = 0xbf } else u
  | some v ↦ utf8_stop v rest
]

-- Where `frame_header` leaves the state when it refuses the header: the flag and the opcode are
-- read, and a message that only its length forbids is open.
unfoldable pub refused_header : Decoder → Decoder
refused_header s =
    let first = get_or s.header 0 0 in
    let opcode = first % 16 in
    let t = record s { fin = bit first 7; opcode = opcode } in
    if not (first / 16 % 8 == 0) || bit (get_or s.header 1 0) 7
    then t
    else if not (leb opcode 2 || within 8 10 opcode)
    then t
    else elim (payload_size s.header) [
      | none ↦ t
      | some size ↦
          if leb 8 opcode
          then t
          else if (if opcode == 0 then not s.fragmented else s.fragmented)
          then t
          else open_message t
    ]

-- What a round does: it fails, returns an event, goes on with what is left, or ends the loop.
pub data Round : Type 0 where
  invalid : Decoder → Bytes → Round
  event : Decoder → Bytes → Event → Round
  again : Decoder → Bytes → Round
  pause : Decoder → Bytes → Round

-- The end of a frame with no event of its own: of an empty frame, or of a control frame.
unfoldable pub empty_frame : Decoder → Bytes → Round
empty_frame s rest = elim (frame_end s) [
  | none ↦ invalid s rest
  | some (none, t) ↦ again t rest
  | some (some e, t) ↦ event t rest e
]

-- The check of text, which the payload of a text frame gets.
unfoldable pub checked_utf : Decoder → Bytes → Option Utf
checked_utf s piece = if s.text then utf8 s.utf piece else some s.utf

-- `n` bytes of the payload of a data frame
unfoldable pub data_round : Decoder → ℕ → Bytes → Round
data_round s n input =
    let piece = take n input in
    let rest = drop n input in
    let left = s.remaining - n in
    elim (checked_utf s piece) [
      | none ↦ invalid (record s { utf = utf8_stop s.utf piece }) input
      | some u ↦
          let t = record s { utf = u; remaining = left } in
          let e : Event = record { opcode = if s.text then 1 else 2; payload = piece } in
          if not (left == 0) then event t rest e else elim (frame_end t) [
            | none ↦ invalid t rest
            | some (none, v) ↦ event v rest e
            | some (some c, v) ↦ event v rest c
          ]
    ]

-- `n` bytes of the payload of a control frame
unfoldable pub control_round : Decoder → ℕ → Bytes → Round
control_round s n input =
    let rest = drop n input in
    let left = s.remaining - n in
    let t = record s { control = s.control ++ take n input; remaining = left } in
    if not (left == 0) then again t rest else empty_frame t rest

-- The payload of an active frame.
unfoldable pub payload_round : Decoder → Bytes → Round
payload_round s input =
    let n = if ltb s.remaining (length input) then s.remaining else length input in
    if n == 0
    then pause s input
    else if ltb s.opcode 8
    then data_round s n input
    else control_round s n input

-- The header of a frame, and its payload once the header is complete.
unfoldable pub header_round : Decoder → Bytes → Round
header_round s input =
    let missing = needed s.header - length s.header in
    let n = if ltb (length input) missing then length input else missing in
    let header = s.header ++ take n input in
    let rest = drop n input in
    let t = record s { header = header } in
    if ltb (length header) 2 || ltb (length header) (needed header)
    then again t rest
    else elim (frame_header t) [
      | none ↦ invalid (refused_header t) rest
      | some u ↦ if u.remaining == 0 then empty_frame u rest else payload_round u rest
    ]

-- One round of the loop.
unfoldable pub decode_round : Decoder → Bytes → Round
decode_round s input = if s.active then payload_round s input else header_round s input

-- What a call returns: -1, 1 with an event, or 0; with what is not consumed.
pub data Outcome : Type 0 where
  failed : Decoder → Bytes → Outcome
  event_at : Decoder → Bytes → Event → Outcome
  idle : Decoder → Bytes → Outcome

-- The loop, on fuel.
unfoldable pub decode_loop : ℕ → Decoder → Bytes → Outcome
decode_loop zero s input = idle s input
decode_loop (suc n) s input =
    if length input == 0 then idle s input else elim (decode_round s input) [
      | invalid t rest ↦ failed (record t { failed = true }) rest
      | event t rest e ↦ event_at t rest e
      | again t rest ↦ decode_loop n t rest
      | pause t rest ↦ idle t rest
    ]

-- `core_ws_decode`; each round consumes a byte, so the length of the input is fuel enough.
unfoldable pub decode : Decoder → Bytes → Outcome
decode s input =
    if s.failed || (s.closed && not (length input == 0))
    then failed s input
    else decode_loop (length input) s input
