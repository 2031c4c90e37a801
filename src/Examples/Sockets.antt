-- ===== src/Examples/Sockets.antt =====
-- Runs of src/websocket.c: a text frame, a ping inside a message, and text that is not UTF-8.
use vless_core_cli.Prelude.{ℕ, [], ◌∷◌, Option, none, some, Bytes, ◌≡◌, refl, ◌↔◌, inl}
use vless_core_cli.WebSocket.{
  Utf, utf8, frame_header, frame_end, control_header, data_header, payload_size, utf8_byte,
  utf8_lead,
}
use vless_core_cli.WebSocket.Decode.{
  start, needed, refused_header, empty_frame, checked_utf, data_round, payload_round, header_round,
  decode_round, Outcome, failed, event_at, idle, decode_loop, decode,
}
use vless_core_cli.WebSocket.Text.{IsText}
use vless_core_cli.WebSocket.Valid.{utf8_lem}
use vless_core_cli.WebSocket.Bounds.{Leaves, decode-Leaves, start-IsDecoder}

abbrev between : Utf
between = record { left = 0; least = 0; most = 0 }

abbrev e_acute : Bytes
e_acute = 0xc3 ∷ 0xa9 ∷ []

-- A surrogate and an overlong form are refused.
surrogate_test : utf8 between (0xed ∷ 0xa0 ∷ 0x80 ∷ []) ≡ none
unfolding utf8 utf8_byte utf8_lead
surrogate_test = refl

overlong_test : utf8 between (0xc0 ∷ 0x80 ∷ []) ≡ none
unfolding utf8 utf8_byte utf8_lead
overlong_test = refl

-- A text frame of two bytes.
abbrev text_frame : Bytes
text_frame = 0x81 ∷ 0x02 ∷ 0xc3 ∷ 0xa9 ∷ []

abbrev kind_of : Outcome → Option (ℕ × Bytes)
kind_of (failed t rest) = none
kind_of (event_at t rest e) = some (e.opcode, e.payload)
kind_of (idle t rest) = some (0, rest)

text_frame_test : kind_of (decode start text_frame) ≡ some (1, e_acute)
unfolding decode decode_loop decode_round header_round payload_round data_round checked_utf needed
    frame_header data_header payload_size frame_end utf8 utf8_byte utf8_lead
text_frame_test = refl

-- A ping with no payload.
ping_test : kind_of (decode start (0x89 ∷ 0x00 ∷ [])) ≡ some (9, [])
unfolding decode decode_loop decode_round header_round empty_frame needed frame_header
    control_header payload_size frame_end
ping_test = refl

-- A masked frame is refused.
masked_test : kind_of (decode start (0x81 ∷ 0x82 ∷ 1 ∷ [])) ≡ none
unfolding decode decode_loop decode_round header_round needed frame_header
masked_test = refl

-- What is left of a decoder that has refused its input.
abbrev left_by : Outcome → Option (Bytes × Bytes)
left_by (failed t rest) = some (t.header, rest)
left_by (event_at t rest e) = none
left_by (idle t rest) = none

masked_state_test : left_by (decode start (0x81 ∷ 0x82 ∷ 1 ∷ [])) ≡ some (0x81 ∷ 0x82 ∷ [], 1 ∷ [])
unfolding decode decode_loop decode_round header_round needed frame_header refused_header
masked_state_test = refl

decode-Leaves_example : Leaves 4 (decode start text_frame)
decode-Leaves_example = decode-Leaves start text_frame (inl start-IsDecoder)

utf8_example : ((v : Utf) × (utf8 between e_acute ≡ some v) × (v.left ≡ 0)) ↔ IsText e_acute
utf8_example = utf8_lem e_acute between refl
