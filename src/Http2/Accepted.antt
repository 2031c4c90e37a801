-- ===== src/Http2/Accepted.antt =====
-- What a frame that src/http2.c accepts looks like.
use vless_core_cli.Prelude.{
  word16, word32, Bool-cases, ◌∷◌, [], ◌-◌, Option-cases, ℕ, ◌+◌, ◌%◌, ◌^◌, ◌≤◌, ◌<◌, true, false,
  ◌&&◌, ◌||◌, not, none, ◌==◌, if◌then◌else◌, get_or, length, Bytes, ◌≡◌, ap, ◌≢◌, ◌⊎◌, inl, inr,
  arith, bit,
}
use vless_core_cli.Http2.{
  nothing, connection, accepted, setting_error, Validation, Checked, stream_id, check_data,
  check_priority, check_headers, check_priority_frame, check_reset, settings_error, check_settings,
  check_ping, check_goaway, check_window, check_continuation, check_type, validate_frame,
}

-- The continuation that a frame leaves: HEADERS without END_HEADERS opens one on its stream, and
-- CONTINUATION with END_HEADERS closes it.
abbrev pub continued : ℕ → ℕ → ℕ → ℕ → ℕ
continued type flags stream before =
    if type == 1 && not (bit flags 2)
    then stream
    else if type == 9 && bit flags 2
    then 0
    else before

-- The SETTINGS frames of this side that wait for an acknowledgement: the first SETTINGS of the peer comes
-- behind one, and an acknowledgement takes one off.
abbrev pub pending_after : ℕ → ℕ → Validation → ℕ
pending_after type flags s =
    if type == 4 && bit flags 0
    then s.settings_pending - 1
    else if type == 4 && not s.settings_received
    then 1
    else s.settings_pending

-- The entries of SETTINGS, six bytes each: no push, a window below 2 ^ 31, frames of 2 ^ 14 to
-- 2 ^ 24 - 1 bytes.
abbrev pub AreSettings : Bytes → Type 0
AreSettings (a ∷ b ∷ c ∷ d ∷ e ∷ f ∷ rest) =
    (word16 a b ≡ 2 → word32 c d e f ≡ 0)
    × (word16 a b ≡ 4 → word32 c d e f < 2 ^ 31)
    × (word16 a b ≡ 5 → (2 ^ 14 ≤ word32 c d e f) × (word32 c d e f < 2 ^ 24))
    × AreSettings rest
AreSettings _ = Unit

-- An accepted frame, after the rules of RFC 9113, and the state that it leaves.
pub record IsFrame (s : Validation) (type flags stream : ℕ) (d : Bytes) (t : Validation)
    : Type 0 where
  pub id : stream < 2 ^ 31
  pub size : length d ≤ 16384
  pub preface : s.settings_received ≡ false → (type ≡ 4) × (bit flags 0 ≡ false) × (stream ≡ 0)
  pub block : s.continuation ≢ 0 → (type ≡ 9) × (stream ≡ s.continuation)
  pub on_stream : type < 4 → stream ≢ 0
  pub on_connection : (type ≡ 4) ⊎ ((type ≡ 6) ⊎ (type ≡ 7)) → stream ≡ 0
  pub padding : (type < 2) → bit flags 3 ≡ true → get_or d 0 0 < length d
  -- The priority of HEADERS stands between the length of the padding and the padding.
  pub dependency :
      type ≡ 1
      → bit flags 5 ≡ true
      → ((if bit flags 3 then get_or d 0 0 + 6 else 5) ≤ length d)
        × (stream_id d (if bit flags 3 then 1 else 0) ≢ stream)
  pub priority : type ≡ 2 → (length d ≡ 5) × (stream_id d 0 ≢ stream)
  pub reset : type ≡ 3 → length d ≡ 4
  pub settings : type ≡ 4 → bit flags 0 ≡ false → (length d % 6 ≡ 0) × (settings_error d ≡ none)
  pub entries : type ≡ 4 → bit flags 0 ≡ false → AreSettings d
  pub acknowledged :
      type ≡ 4 → bit flags 0 ≡ true → (length d ≡ 0) × (s.settings_pending ≡ t.settings_pending + 1)
  pub push : type ≢ 5
  pub ping : type ≡ 6 → length d ≡ 8
  pub goaway : type ≡ 7 → 8 ≤ length d
  pub window : type ≡ 8 → (length d ≡ 4) × (stream_id d 0 ≢ 0)
  pub expected : type ≡ 9 → (s.continuation ≢ 0)
  pub continuation : t.continuation ≡ continued type flags stream s.continuation
  pub received : t.settings_received ≡ (s.settings_received || (type == 4 && not (bit flags 0)))
  pub pending : t.settings_pending ≡ pending_after type flags s
  pub no_error : (t.scope ≡ nothing) × (t.code ≡ 0)

-- What a part of the `switch` keeps of the state, when it accepts.
abbrev Keeps : Validation → ℕ → ℕ → ℕ → Checked → Type 0
Keeps s type flags stream r =
    r.0 ≡ accepted
    → (r.1.continuation ≡ continued type flags stream s.continuation)
      × (r.1.settings_received ≡ (s.settings_received || (type == 4 && not (bit flags 0))))
      × (r.1.settings_pending ≡ pending_after type flags s)
      × (r.1.scope ≡ nothing)
      × (r.1.code ≡ 0)

module _ (s : Validation) (flags stream : ℕ) (d : Bytes) where
  headers-Keeps : Keeps s 1 flags stream (check_headers s flags stream d)
  unfolding check_headers check_priority
  headers-Keeps h = ground arith

  settings-Keeps : Keeps s 4 flags stream (check_settings s flags stream d)
  unfolding check_settings
  settings-Keeps h = ground arith

  continuation-Keeps : Keeps s 9 flags stream (check_continuation s flags stream)
  unfolding check_continuation
  continuation-Keeps h = ground arith

  data-Keeps : Keeps s 0 flags stream (check_data s flags stream d)
  unfolding check_data
  data-Keeps h = ground arith

  priority-Keeps : Keeps s 2 flags stream (check_priority_frame s stream d)
  unfolding check_priority_frame
  priority-Keeps h = ground arith

  reset-Keeps : Keeps s 3 flags stream (check_reset s stream d)
  unfolding check_reset
  reset-Keeps h = ground arith

  ping-Keeps : Keeps s 6 flags stream (check_ping s stream d)
  unfolding check_ping
  ping-Keeps h = ground arith

  goaway-Keeps : Keeps s 7 flags stream (check_goaway s stream d)
  unfolding check_goaway
  goaway-Keeps h = ground arith

  window-Keeps : Keeps s 8 flags stream (check_window s stream d)
  unfolding check_window
  window-Keeps h = ground arith

  check_type-Keeps : (type : ℕ) → Keeps s type flags stream (check_type s type flags stream d)
  unfolding check_type
  check_type-Keeps type h = ground (
    arith, data-Keeps, headers-Keeps, priority-Keeps, reset-Keeps, settings-Keeps, ping-Keeps,
    goaway-Keeps, window-Keeps, continuation-Keeps,
  )

validate_frame-Keeps :
    (s : Validation) (type flags stream : ℕ) (d : Bytes)
    → Keeps s type flags stream (validate_frame s type flags stream d)
unfolding validate_frame
validate_frame-Keeps s type flags stream d h =
    ground (arith, check_type-Keeps (record s { scope = connection; code = 1 }) flags stream d type)

validate_frame_admits :
    (s : Validation) (type flags stream : ℕ) (d : Bytes)
    → (validate_frame s type flags stream d).0 ≡ accepted
    → (stream < 2 ^ 31)
      × (length d ≤ 16384)
      × (s.settings_received ≡ false → (type ≡ 4) × (bit flags 0 ≡ false) × (stream ≡ 0))
      × (s.continuation ≢ 0 → (type ≡ 9) × (stream ≡ s.continuation))
unfolding validate_frame
validate_frame_admits s type flags stream d h =
    (ground arith, ground arith, λ e. ground arith, λ e. ground arith)

check_type_on_stream :
    (s : Validation) (type flags stream : ℕ) (d : Bytes)
    → (check_type s type flags stream d).0 ≡ accepted
    → type < 4
    → stream ≢ 0
unfolding check_type check_data check_headers check_priority check_priority_frame check_reset
check_type_on_stream s type flags stream d h lt = ground arith

validate_frame_on_stream :
    (s : Validation) (type flags stream : ℕ) (d : Bytes)
    → (validate_frame s type flags stream d).0 ≡ accepted
    → type < 4
    → stream ≢ 0
unfolding validate_frame
validate_frame_on_stream s type flags stream d h lt =
    let armed = record s { scope = connection; code = 1 } in
    ground (arith, check_type_on_stream armed type flags stream d)

check_type_padding :
    (s : Validation) (type flags stream : ℕ) (d : Bytes)
    → (check_type s type flags stream d).0 ≡ accepted
    → type < 2
    → bit flags 3 ≡ true
    → get_or d 0 0 < length d
unfolding check_type check_data check_headers
check_type_padding s type flags stream d h lt padded = ground arith

validate_frame_padding :
    (s : Validation) (type flags stream : ℕ) (d : Bytes)
    → (validate_frame s type flags stream d).0 ≡ accepted
    → type < 2
    → bit flags 3 ≡ true
    → get_or d 0 0 < length d
unfolding validate_frame
validate_frame_padding s type flags stream d h lt padded =
    let armed = record s { scope = connection; code = 1 } in
    ground (arith, check_type_padding armed type flags stream d)

check_headers_dependency :
    (s : Validation) (flags stream : ℕ) (d : Bytes)
    → (check_headers s flags stream d).0 ≡ accepted
    → bit flags 5 ≡ true
    → ((if bit flags 3 then get_or d 0 0 + 6 else 5) ≤ length d)
      × (stream_id d (if bit flags 3 then 1 else 0) ≢ stream)
unfolding check_headers check_priority
check_headers_dependency s flags stream d h prioritised = elim (Bool-cases (bit flags 3)) [
  | inl e ↦ rw e (ground (arith, h, e, prioritised), λ z. ground (arith, h, e, prioritised, z))
  | inr e ↦ rw e (ground (arith, h, e, prioritised), λ z. ground (arith, h, e, prioritised, z))
]

validate_frame_dependency :
    (s : Validation) (flags stream : ℕ) (d : Bytes)
    → (validate_frame s 1 flags stream d).0 ≡ accepted
    → bit flags 5 ≡ true
    → ((if bit flags 3 then get_or d 0 0 + 6 else 5) ≤ length d)
      × (stream_id d (if bit flags 3 then 1 else 0) ≢ stream)
unfolding validate_frame check_type
validate_frame_dependency s flags stream d h prioritised =
    let armed = record s { scope = connection; code = 1 } in
    ground (arith, check_headers_dependency armed flags stream d)

setting_error-none :
    (id value : ℕ)
    → setting_error id value ≡ none
    → (id ≡ 2 → value ≡ 0)
      × (id ≡ 4 → value < 2 ^ 31)
      × (id ≡ 5 → (2 ^ 14 ≤ value) × (value < 2 ^ 24))
unfolding setting_error
setting_error-none id value h =
    (λ e. ground arith, λ e. ground arith, λ e. (ground arith, ground arith))

settings_error-AreSettings : (d : Bytes) → settings_error d ≡ none → AreSettings d
unfolding settings_error
settings_error-AreSettings [] h = tt
settings_error-AreSettings (a ∷ []) h = tt
settings_error-AreSettings (a ∷ b ∷ []) h = tt
settings_error-AreSettings (a ∷ b ∷ c ∷ []) h = tt
settings_error-AreSettings (a ∷ b ∷ c ∷ d ∷ []) h = tt
settings_error-AreSettings (a ∷ b ∷ c ∷ d ∷ e ∷ []) h = tt
settings_error-AreSettings (a ∷ b ∷ c ∷ d ∷ e ∷ f ∷ rest) h =
    let value = word32 c d e f in
    let id = word16 a b in
    elim (Option-cases (setting_error id value)) [
      | inl none_here ↦
          let obeys = setting_error-none id value none_here in
          (
            obeys.0,
            obeys.1,
            obeys.2,
            settings_error-AreSettings rest (rw (none_here, settings_error) at h),
          )
      | inr (x, wrong) ↦ absurd (ground (arith, rw (wrong, settings_error) at h))
    ]

-- A frame that `core_http2_validate_frame` accepts obeys the rules for its type: its stream, its
-- length, its padding, the priority in HEADERS and PRIORITY, the entries of SETTINGS, its place after
-- SETTINGS and inside a header block. The state follows: the continuation, the SETTINGS received and
-- those that wait for an acknowledgement, with no error.
pub validate_frame-IsFrame :
    (s : Validation) (type flags stream : ℕ) (d : Bytes) {t : Validation}
    → validate_frame s type flags stream d ≡ (accepted, t)
    → IsFrame s type flags stream d t
unfolding validate_frame check_type check_data check_priority check_headers check_priority_frame
    check_reset check_settings check_ping check_goaway check_window check_continuation
validate_frame-IsFrame s type flags stream d {t} h = record {
  id = (validate_frame_admits s type flags stream d (ap (λ r. r.0) h)).0;
  size = (validate_frame_admits s type flags stream d (ap (λ r. r.0) h)).1;
  preface = (validate_frame_admits s type flags stream d (ap (λ r. r.0) h)).2;
  block = (validate_frame_admits s type flags stream d (ap (λ r. r.0) h)).3;
  on_stream = validate_frame_on_stream s type flags stream d (ap (λ r. r.0) h);
  on_connection = on_connection;
  padding = validate_frame_padding s type flags stream d (ap (λ r. r.0) h);
  priority = λ e. ground arith;
  dependency = λ e f. validate_frame_dependency s flags stream d (rw e at (ap (λ r. r.0) h)) f;
  reset = λ e. ground arith;
  settings = λ e f. ground arith;
  entries = λ e f. settings_error-AreSettings d (ground arith);
  acknowledged = λ e f. ground arith;
  push = λ e. ground arith;
  ping = λ e. ground arith;
  goaway = λ e. ground arith;
  window = λ e. ground arith;
  expected = λ e. ground arith;
  continuation = kept.0;
  received = kept.1;
  pending = kept.2;
  no_error = (kept.3, kept.4);
}
  where
    kept :
        (t.continuation ≡ continued type flags stream s.continuation)
        × (t.settings_received ≡ (s.settings_received || (type == 4 && not (bit flags 0))))
        × (t.settings_pending ≡ pending_after type flags s)
        × (t.scope ≡ nothing)
        × (t.code ≡ 0)
    kept = rw h at (validate_frame-Keeps s type flags stream d (ap (λ r. r.0) h))

    on_connection : (type ≡ 4) ⊎ ((type ≡ 6) ⊎ (type ≡ 7)) → stream ≡ 0
    on_connection (inl e) = ground arith
    on_connection (inr (inl e)) = ground arith
    on_connection (inr (inr e)) = ground arith
