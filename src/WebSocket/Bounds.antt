-- ===== src/WebSocket/Bounds.antt =====
-- The bounds of the decoder of src/websocket.c, and that a call consumes its input.
use vless_core_cli.Prelude.{
  ℕ, zero, suc, ◌+◌, ◌-◌, ◌≤◌, ◌<◌, Bool, true, false, ◌&&◌, ◌||◌, not, ◌++◌, Option, none, some,
  ltb, ◌==◌, if◌then◌else◌, take, drop, length, Bytes, ◌≡◌, refl, ◌⊎◌, sym, inl, inr, arith,
  Bool-cases, Option-cases, length-append, length-take, length-drop,
}
use mathlib.Core.Path.{subst}
use vless_core_cli.WebSocket.{
  Decoder, Event, message_limit, control_header, data_header, frame_header, frame_end,
}
use vless_core_cli.WebSocket.Decode.{
  start, needed, refused_header, Round, invalid, event, again, pause, empty_frame, checked_utf,
  data_round, control_round, payload_round, header_round, decode_round, Outcome, failed, event_at,
  idle, decode_loop, decode,
}

-- The arrays of 10 and 125 bytes are large enough, the message is within its limit, and a frame
-- that is open has bytes to come.
pub record IsDecoder (s : Decoder) : Type 0 where
  pub message : s.message_length ≤ message_limit
  pub header : length s.header ≤ 10
  pub control : length s.control ≤ 125
  pub partial : s.active ≡ false → length s.header < needed s.header
  pub open_frame : s.active ≡ true → 1 ≤ s.remaining
  pub control_frame : s.active ≡ true → 8 ≤ s.opcode → length s.control + s.remaining ≤ 125

-- What holds of a decoder even after a failure, which can leave a frame half open.
pub record IsBounded (s : Decoder) : Type 0 where
  pub message : s.message_length ≤ message_limit
  pub header : length s.header ≤ 10
  pub control : length s.control ≤ 125

-- A decoder between two calls: it works on, or has failed.
abbrev pub IsUsable : Decoder → Type 0
IsUsable s = IsDecoder s ⊎ ((s.failed ≡ true) × IsBounded s)

IsDecoder-IsBounded : (s : Decoder) → IsDecoder s → IsBounded s
IsDecoder-IsBounded s v = record { message = v.message; header = v.header; control = v.control }

needed_small : (h : Bytes) → needed h ≤ 10
unfolding needed
needed_small h = ground arith

-- A frame just opened: as a decoder, but it can be empty.
record IsOpened (s : Decoder) : Type 0 where
  message : s.message_length ≤ message_limit
  header : length s.header ≤ 10
  control : length s.control ≤ 125
  active : s.active ≡ true
  control_frame : 8 ≤ s.opcode → length s.control + s.remaining ≤ 125

frame_header-IsOpened :
    (s : Decoder) {t : Decoder}
    → s.message_length ≤ message_limit
    → length s.header ≤ 10
    → length s.control ≤ 125
    → frame_header s ≡ some t
    → IsOpened t
unfolding frame_header control_header data_header
frame_header-IsOpened s {t} a b c h = record {
  message = ground arith;
  header = ground arith;
  control = ground arith;
  active = ground arith;
  control_frame = λ p. ground arith;
}

refused_header-IsBounded :
    (s : Decoder)
    → s.message_length ≤ message_limit
    → length s.header ≤ 10
    → length s.control ≤ 125
    → IsBounded (refused_header s)
unfolding refused_header
refused_header-IsBounded s a b c = record {
  message = ground arith;
  header = ground arith;
  control = ground arith;
}

frame_end-IsDecoder :
    (s : Decoder) {e : Option Event} {t : Decoder}
    → s.message_length ≤ message_limit
    → length s.control ≤ 125
    → frame_end s ≡ some (e, t)
    → IsDecoder t
unfolding frame_end needed
frame_end-IsDecoder s a b h = record {
  message = ground arith;
  header = ground arith;
  control = ground arith;
  partial = λ p. ground arith;
  open_frame = λ p. ground arith;
  control_frame = λ p q. ground arith;
}

-- A round keeps the decoder, or its bounds when it fails, and consumes input unless the loop ends with none left.
abbrev Sound : ℕ → Round → Type 0
Sound n (invalid t rest) = IsBounded t × (length rest ≤ n)
Sound n (event t rest e) = IsDecoder t × (length rest < n)
Sound n (again t rest) = IsDecoder t × (length rest < n)
Sound n (pause t rest) = IsDecoder t × (length rest ≡ 0)

round_widens : (m n : ℕ) (r : Round) → m ≤ n → Sound m r → Sound n r
round_widens m n (invalid t rest) le h = (h.0, omega (arith, h.1))
round_widens m n (event t rest e) le h = (h.0, omega (arith, h.1))
round_widens m n (again t rest) le h = (h.0, omega (arith, h.1))
round_widens m n (pause t rest) le h = h

-- The end of a frame after a round that consumed input.
empty_frame-Sound :
    (n : ℕ) (s : Decoder) (rest : Bytes)
    → s.message_length ≤ message_limit
    → length s.header ≤ 10
    → length s.control ≤ 125
    → length rest < n
    → Sound n (empty_frame s rest)
unfolding empty_frame
empty_frame-Sound n s rest a c b h = elim (Option-cases (frame_end s)) [
  | inl e ↦ rw (e, empty_frame) (record { message = a; header = c; control = b }, omega (arith, h))
  | inr ((none, t), e) ↦ rw (e, empty_frame) (frame_end-IsDecoder s a b e, h)
  | inr ((some c, t), e) ↦ rw (e, empty_frame) (frame_end-IsDecoder s a b e, h)
]

module _ (s : Decoder) (n : ℕ) (input : Bytes) (v : IsDecoder s) (h : s.active ≡ true)
    (some_bytes : 1 ≤ n) (there : n ≤ length input) (due : n ≤ s.remaining) where
  shorter : length (drop n input) < length input
  shorter = omega (arith, length-drop n input)

  data_round-Sound : ltb s.opcode 8 ≡ true → Sound (length input) (data_round s n input)
  unfolding data_round
  data_round-Sound low = elim (Option-cases (checked_utf s (take n input))) [
    | inl e ↦
        rw (e, data_round)
          (record { message = v.message; header = v.header; control = v.control }, omega arith)
    | inr (u, e) ↦ elim (Bool-cases (s.remaining - n == 0)) [
      | inl z ↦
          elim (Option-cases (frame_end (record s { utf = u; remaining = s.remaining - n }))) [
            | inl f ↦
                rw (e, z, f, data_round)
                  (
                    record { message = v.message; header = v.header; control = v.control },
                    omega (arith, shorter),
                  )
            | inr ((none, t), f) ↦
                rw (e, z, f, data_round) (frame_end-IsDecoder _ v.message v.control f, shorter)
            | inr ((some c, t), f) ↦
                rw (e, z, f, data_round) (frame_end-IsDecoder _ v.message v.control f, shorter)
          ]
      | inr z ↦
          rw (e, z, data_round)
            (
              record {
                message = v.message;
                header = v.header;
                control = v.control;
                partial = λ p. ground arith;
                open_frame = λ p. ground arith;
                control_frame = λ p q. ground arith;
              },
              shorter,
            )
    ]
  ]

  control_round-Sound : ltb s.opcode 8 ≡ false → Sound (length input) (control_round s n input)
  unfolding control_round
  control_round-Sound high =
      let room = v.control_frame h (ground arith) in
      let grown : length (s.control ++ take n input) ≡ length s.control + n =
        omega (arith, length-append s.control (take n input), length-take n input) in
      elim (Bool-cases (s.remaining - n == 0)) [
        | inl z ↦
            rw (z, control_round) (empty_frame-Sound _ _ _ v.message v.header (omega arith) shorter)
        | inr z ↦
            rw (z, control_round)
              (
                record {
                  message = v.message;
                  header = v.header;
                  control = omega arith;
                  partial = λ p. ground arith;
                  open_frame = λ p. ground arith;
                  control_frame = λ p q. omega arith;
                },
                shorter,
              )
      ]

payload_round-Sound :
    (s : Decoder) (input : Bytes)
    → IsDecoder s
    → s.active ≡ true
    → Sound (length input) (payload_round s input)
unfolding payload_round
payload_round-Sound s input v h =
    let n = if ltb s.remaining (length input) then s.remaining else length input in
    let there : n ≤ length input = ground arith in
    let due : n ≤ s.remaining = ground arith in
    elim (Bool-cases (n == 0)) [
      | inl e ↦ rw (e, payload_round) (v, ground (arith, v.open_frame h))
      | inr e ↦ elim (Bool-cases (ltb s.opcode 8)) [
        | inl low ↦
            rw (e, low, payload_round) (data_round-Sound s n input v h (ground arith) there due low)
        | inr high ↦
            rw (e, high, payload_round)
              (control_round-Sound s n input v h (ground arith) there due high)
      ]
    ]

incomplete :
    (h : Bytes) → (ltb (length h) 2 || ltb (length h) (needed h)) ≡ true → length h < needed h
unfolding needed
incomplete h e = ground arith

-- An opened frame is empty, or its payload starts in the same round.
opened_round-Sound :
    (u : Decoder) (n : ℕ) (rest : Bytes)
    → IsOpened u
    → length rest < n
    → Sound n (if u.remaining == 0 then empty_frame u rest else payload_round u rest)
opened_round-Sound u n rest o lt = elim (Bool-cases (u.remaining == 0)) [
  | inl e ↦ rw e (empty_frame-Sound n u rest o.message o.header o.control lt)
  | inr e ↦ rw e (
      round_widens (length rest) n _ (omega arith) (
        payload_round-Sound u rest
          (record {
            message = o.message;
            header = o.header;
            control = o.control;
            partial = λ q. absurd (ground (arith, o.active));
            open_frame = λ q. ground arith;
            control_frame = λ q. o.control_frame;
          })
          o.active))
]

header_round-Sound :
    (s : Decoder) (input : Bytes)
    → IsDecoder s
    → s.active ≡ false
    → 0 < length input
    → Sound (length input) (header_round s input)
unfolding header_round
header_round-Sound s input v h p =
    let missing = needed s.header - length s.header in
    let n = if ltb (length input) missing then length input else missing in
    let some_bytes : 1 ≤ n = ground (arith, v.partial h) in
    let there : n ≤ length input = ground arith in
    let due : n ≤ missing = ground arith in
    let header = s.header ++ take n input in
    let t = record s { header = header } in
    let grown : length header ≡ length s.header + n =
      omega (arith, length-append s.header (take n input), length-take n input) in
    let fits : length header ≤ 10 = omega (arith, needed_small s.header, v.partial h) in
    let shorter : length (drop n input) < length input = omega (arith, length-drop n input) in
    elim (Bool-cases (ltb (length header) 2 || ltb (length header) (needed header))) [
      | inl e ↦
          rw (e, header_round)
            (
              record {
                message = v.message;
                header = fits;
                control = v.control;
                partial = λ q. incomplete header e;
                open_frame = λ q. ground arith;
                control_frame = λ q r. ground arith;
              },
              shorter,
            )
      | inr e ↦ elim (Option-cases (frame_header t)) [
        | inl f ↦
            rw (e, f, header_round)
              (refused_header-IsBounded t v.message fits v.control, omega (arith, shorter))
        | inr (u, f) ↦
            let opened = frame_header-IsOpened t v.message fits v.control f in
            rw (e, f, header_round)
              (opened_round-Sound u (length input) (drop n input) opened shorter)
      ]
    ]

decode_round-Sound :
    (s : Decoder) (input : Bytes)
    → IsDecoder s
    → 0 < length input
    → Sound (length input) (decode_round s input)
unfolding decode_round
decode_round-Sound s input v p =
    let rounds = λ (b : Bool). if b then payload_round s input else header_round s input in
    elim (Bool-cases s.active) [
      | inl e ↦
          subst (λ b. Sound (length input) (rounds b)) (sym e) (payload_round-Sound s input v e)
      | inr e ↦
          subst (λ b. Sound (length input) (rounds b)) (sym e) (header_round-Sound s input v e p)
    ]

-- What a call on `n` bytes leaves: a decoder, of which a failure keeps the bounds; an event has
-- consumed input, and a return of 0 has consumed all of it.
abbrev pub Leaves : ℕ → Outcome → Type 0
Leaves n (failed t rest) = IsUsable t × (length rest ≤ n)
Leaves n (event_at t rest e) = IsDecoder t × (length rest < n)
Leaves n (idle t rest) = IsDecoder t × (length rest ≡ 0)

outcome_widens : (m n : ℕ) (o : Outcome) → m ≤ n → Leaves m o → Leaves n o
outcome_widens m n (failed t rest) le h = (h.0, omega (arith, h.1))
outcome_widens m n (event_at t rest e) le h = (h.0, omega (arith, h.1))
outcome_widens m n (idle t rest) le h = h

-- The loop after a round, when it is right on shorter input.
after_round-Leaves :
    (n : ℕ) (input : Bytes) (r : Round)
    → ((t : Decoder) (rest : Bytes)
        → IsDecoder t
        → length rest ≤ n
        → Leaves (length rest) (decode_loop n t rest))
    → length input ≤ suc n
    → Sound (length input) r
    → Leaves (length input) (elim r [
      | invalid t rest ↦ failed (record t { failed = true }) rest
      | event t rest e ↦ event_at t rest e
      | again t rest ↦ decode_loop n t rest
      | pause t rest ↦ idle t rest
    ])
after_round-Leaves n input (invalid t rest) ih le h =
    (inr (refl, record { message = h.0.message; header = h.0.header; control = h.0.control }), h.1)
after_round-Leaves n input (event t rest e) ih le h = h
after_round-Leaves n input (again t rest) ih le h =
    outcome_widens (length rest) (length input) (decode_loop n t rest) (omega (arith, h.1))
      (ih t rest h.0 (omega (arith, h.1)))
after_round-Leaves n input (pause t rest) ih le h = h

decode_loop-Leaves :
    (n : ℕ) (s : Decoder) (input : Bytes)
    → IsDecoder s
    → length input ≤ n
    → Leaves (length input) (decode_loop n s input)
unfolding decode_loop
decode_loop-Leaves zero s input v le = (v, omega arith)
decode_loop-Leaves (suc n) s input v le = elim (Bool-cases (length input == 0)) [
  | inl e ↦ rw (e, decode_loop) (v, ground arith)
  | inr e ↦
      rw (e, decode_loop)
        (after_round-Leaves n input (decode_round s input) (decode_loop-Leaves n) le
          (decode_round-Sound s input v (ground arith)))
]

works : (s : Decoder) → IsUsable s → s.failed ≡ false → IsDecoder s
works s (inl v) e = v
works s (inr (f, _)) e = absurd (ground arith)

-- A call on a decoder that works or has failed keeps its bounds, also when it fails: the header stays
-- within 10 bytes, the control payload within 125, the message within its limit. A call that does not
-- fail leaves a decoder that works on. It always comes to an end: with an event it has consumed some of
-- the input, and a return of 0 has consumed all of it.
pub decode-Leaves :
    (s : Decoder) (input : Bytes) → IsUsable s → Leaves (length input) (decode s input)
unfolding decode
decode-Leaves s input v = elim (Bool-cases (s.failed || (s.closed && not (length input == 0)))) [
  | inl e ↦ rw (e, decode) (v, omega arith)
  | inr e ↦
      rw (e, decode)
        (decode_loop-Leaves (length input) s input (works s v (ground arith)) (omega arith))
]

pub start-IsDecoder : IsDecoder start
unfolding needed
start-IsDecoder = record {
  message = omega arith;
  header = omega arith;
  control = omega arith;
  partial = λ p. omega arith;
  open_frame = λ p. ground arith;
  control_frame = λ p q. ground arith;
}
