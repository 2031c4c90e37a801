-- ===== src/Http2.antt =====
-- src/http2.c and include/http2.h: the checks on HTTP/2 frames and on the course of a response.
pub mod Frames
pub mod Accepted
pub mod Response
pub mod Responses
pub mod Alps
pub mod Allowed
use vless_core_cli.Prelude.{
  ℕ, zero, suc, ◌+◌, ◌-◌, ◌*◌, ◌/◌, ◌%◌, ◌^◌, ◌≤◌, ◌<◌, min, max, Bool, true, false, ◌&&◌, ◌||◌,
  not, List, [], ◌∷◌, ◌++◌, Option, none, some, ltb, leb, ◌==◌, if◌then◌else◌, get_elem?, get_or,
  set, take, drop, length, Bytes, size_max, add_size, sub_size, ◌≡◌, refl, sym, ap, ap₂, ◌∙◌, ◌≢◌,
  ◌↔◌, ◌⊎◌, inl, inr, arith, Bool-cases, Option-cases, append-nil, append_assoc, length-append,
  length-take, length-drop, bit, word16, word24, word32, map, take-append-drop,
}

-- The scope of `core_http2_error_t`.
pub data Scope : Type 0 where
  nothing connection stream_scope : Scope

-- What `core_http2_validate_frame` returns: 0, -1 and -2.
pub data Verdict : Type 0 where
  accepted connection_failed stream_failed : Verdict

-- `core_http2_validation_t`
pub record Validation : Type 0 where
  pub continuation : ℕ
  pub settings_received : Bool
  pub settings_pending : ℕ
  pub scope : Scope
  pub code : ℕ

abbrev pub Checked : Type 0
Checked = Verdict × Validation

-- A return of -1 under the error that stands in the state.
abbrev pub refuse : Validation → Checked
refuse s = (connection_failed, s)

-- `frame_error`
abbrev pub frame_error : Validation → Scope → ℕ → Checked
frame_error s stream_scope code = (stream_failed, record s { scope = stream_scope; code = code })
frame_error s scope code = (connection_failed, record s { scope = scope; code = code })

-- The last line: no error is left.
abbrev pub accept : Validation → Checked
accept s = (accepted, record s { scope = nothing; code = 0 })

-- `value32(data + offset)`
abbrev pub value32 : Bytes → ℕ → ℕ
value32 d i = word32 (get_or d i 0) (get_or d (i + 1) 0) (get_or d (i + 2) 0) (get_or d (i + 3) 0)

-- `value32(data + offset) & 0x7fffffff`
abbrev pub stream_id : Bytes → ℕ → ℕ
stream_id d i = value32 d i % 2 ^ 31

-- The padding of a DATA or HEADERS frame reaches past the frame.
abbrev pub overpadded : Bytes → Bool
overpadded d = length d == 0 || leb (length d) (get_or d 0 0)

unfoldable pub check_data : Validation → ℕ → ℕ → Bytes → Checked
check_data s flags stream d =
    if stream == 0 || (bit flags 3 && overpadded d) then refuse s else accept s

-- HEADERS from `if (flags&32)` on; `start` and `size` are `start` and `end - start`.
unfoldable pub check_priority : Validation → ℕ → ℕ → Bytes → ℕ → ℕ → Checked
check_priority s flags stream d start size =
    let s' = if bit flags 2 then s else record s { continuation = stream } in
    if bit flags 5
    then (if ltb size 5
        then frame_error s connection 6
        else if stream_id d start == stream
        then frame_error s' stream_scope 1
        else accept s')
    else accept s'

unfoldable pub check_headers : Validation → ℕ → ℕ → Bytes → Checked
unfolding check_priority
check_headers s flags stream d =
    if stream == 0
    then refuse s
    else if bit flags 3
    then (if overpadded d
        then refuse s
        else check_priority s flags stream d 1 (length d - get_or d 0 0 - 1))
    else check_priority s flags stream d 0 (length d)

unfoldable pub check_priority_frame : Validation → ℕ → Bytes → Checked
check_priority_frame s stream d =
    if stream == 0
    then refuse s
    else if not (length d == 5)
    then frame_error s stream_scope 6
    else if stream_id d 0 == stream
    then frame_error s stream_scope 1
    else accept s

unfoldable pub check_reset : Validation → ℕ → Bytes → Checked
check_reset s stream d =
    if stream == 0
    then refuse s
    else if not (length d == 4)
    then frame_error s connection 6
    else accept s

-- One entry of SETTINGS: the error code, if it is wrong.
unfoldable pub setting_error : ℕ → ℕ → Option ℕ
setting_error id value =
    if id == 4 && ltb 0x7fffffff value
    then some 3
    else if (id == 2 && not (value == 0)) || (id == 5 && (ltb value 16384 || ltb 16777215 value))
    then some 1
    else none

-- The loop over the entries, six bytes each.
unfoldable pub settings_error : Bytes → Option ℕ
unfolding setting_error
settings_error (a ∷ b ∷ c ∷ d ∷ e ∷ f ∷ rest) =
    let later = settings_error rest in
    elim (setting_error (word16 a b) (word32 c d e f)) [ some code ↦ some code | none ↦ later ]
settings_error _ = none

unfoldable pub check_settings : Validation → ℕ → ℕ → Bytes → Checked
check_settings s flags stream d =
    if not (stream == 0)
    then refuse s
    else if (if bit flags 0 then not (length d == 0) else not (length d % 6 == 0))
    then frame_error s connection 6
    else if bit flags 0
    then (if s.settings_pending == 0
        then refuse s
        else accept (record s { settings_pending = s.settings_pending - 1 }))
    else elim (settings_error d) [
      | some code ↦ frame_error s connection code
      | none ↦ accept (record s {
        settings_pending = if s.settings_received then s.settings_pending else 1;
        settings_received = true;
      })
    ]

unfoldable pub check_ping : Validation → ℕ → Bytes → Checked
check_ping s stream d =
    if not (stream == 0)
    then refuse s
    else if not (length d == 8)
    then frame_error s connection 6
    else accept s

unfoldable pub check_goaway : Validation → ℕ → Bytes → Checked
check_goaway s stream d =
    if not (stream == 0)
    then refuse s
    else if ltb (length d) 8
    then frame_error s connection 6
    else accept s

unfoldable pub check_window : Validation → ℕ → Bytes → Checked
check_window s stream d =
    if not (length d == 4)
    then frame_error s connection 6
    else if stream_id d 0 == 0
    then (if stream == 0 then frame_error s connection 1 else frame_error s stream_scope 1)
    else accept s

unfoldable pub check_continuation : Validation → ℕ → ℕ → Checked
check_continuation s flags stream =
    if s.continuation == 0 || not (stream == s.continuation)
    then refuse s
    else accept (if bit flags 2 then record s { continuation = 0 } else s)

-- The `switch` on the frame's type.
unfoldable pub check_type : Validation → ℕ → ℕ → ℕ → Bytes → Checked
check_type s type flags stream d =
    if type == 0
    then check_data s flags stream d
    else if type == 1
    then check_headers s flags stream d
    else if type == 2
    then check_priority_frame s stream d
    else if type == 3
    then check_reset s stream d
    else if type == 4
    then check_settings s flags stream d
    else if type == 5
    then refuse s
    else if type == 6
    then check_ping s stream d
    else if type == 7
    then check_goaway s stream d
    else if type == 8
    then check_window s stream d
    else if type == 9
    then check_continuation s flags stream
    else accept s

-- `core_http2_validate_frame`, at a state and a data pointer that are not NULL.
unfoldable pub validate_frame : Validation → ℕ → ℕ → ℕ → Bytes → Checked
validate_frame s0 type flags stream d =
    let s = record s0 { scope = connection; code = 1 } in
    if ltb 0x7fffffff stream
    then refuse s
    else if ltb 16384 (length d)
    then frame_error s connection 6
    else if not s.settings_received && (not (type == 4) || bit flags 0 || not (stream == 0))
    then refuse s
    else if not (s.continuation == 0) && (not (type == 9) || not (stream == s.continuation))
    then refuse s
    else check_type s type flags stream d
