-- ===== src/Http2/Frames.antt =====
-- What a frame that src/http2.c accepts looks like, and what the error fields say.
use vless_core_cli.Prelude.{ℕ, Bool, true, false, ◌∷◌, some, ◌==◌, Bytes, ◌≡◌, refl, ◌≢◌, arith}
use vless_core_cli.Http2.{
  Scope, nothing, connection, stream_scope, Verdict, accepted, connection_failed, stream_failed,
  Validation, Checked, check_data, check_headers, check_priority_frame, check_reset, settings_error,
  check_settings, check_ping, check_goaway, check_window, check_continuation, check_type,
  validate_frame,
}

-- The verdict that belongs to an error field.
abbrev pub verdict_of : Scope → Verdict
verdict_of nothing = accepted
verdict_of connection = connection_failed
verdict_of stream_scope = stream_failed

abbrev pub is_nothing : Scope → Bool
is_nothing nothing = true
is_nothing _ = false

-- The verdict is the one of the error's scope, and the code is 0 exactly with no error.
pub record Reports (r : Checked) : Type 0 where
  pub verdict : r.0 ≡ verdict_of r.1.scope
  pub code : (r.1.code == 0) ≡ is_nothing r.1.scope

-- A wrong entry of SETTINGS has a code.
settings_error-ne-zero : (d : Bytes) → settings_error d ≢ some 0
unfolding settings_error
settings_error-ne-zero (a ∷ b ∷ c ∷ e ∷ f ∷ g ∷ rest) = ground (arith, settings_error-ne-zero rest)
settings_error-ne-zero _ = ground arith

-- The error stands at the start as `core_http2_validate_frame` sets it.
record Armed (s : Validation) : Type 0 where
  scope : s.scope ≡ connection
  code : s.code ≡ 1

module _ (s : Validation) (flags stream : ℕ) (d : Bytes) (a : Armed s) where
  data-Reports : Reports (check_data s flags stream d)
  unfolding check_data
  data-Reports = ground arith

  headers-Reports : Reports (check_headers s flags stream d)
  unfolding check_headers
  headers-Reports = ground arith

  priority-Reports : Reports (check_priority_frame s stream d)
  unfolding check_priority_frame
  priority-Reports = ground arith

  reset-Reports : Reports (check_reset s stream d)
  unfolding check_reset
  reset-Reports = ground arith

  settings-Reports : Reports (check_settings s flags stream d)
  unfolding check_settings
  settings-Reports = ground (arith, settings_error-ne-zero d)

  ping-Reports : Reports (check_ping s stream d)
  unfolding check_ping
  ping-Reports = ground arith

  goaway-Reports : Reports (check_goaway s stream d)
  unfolding check_goaway
  goaway-Reports = ground arith

  window-Reports : Reports (check_window s stream d)
  unfolding check_window
  window-Reports = ground arith

  continuation-Reports : Reports (check_continuation s flags stream)
  unfolding check_continuation
  continuation-Reports = ground arith

  check_type-Reports : (type : ℕ) → Reports (check_type s type flags stream d)
  unfolding check_type
  check_type-Reports type = ground (
    arith, data-Reports, headers-Reports, priority-Reports, reset-Reports, settings-Reports,
    ping-Reports, goaway-Reports, window-Reports, continuation-Reports,
  )

-- The verdict of `core_http2_validate_frame` is the one that the error's scope stands for, and the
-- error code is 0 exactly when there is no error.
pub validate_frame-Reports :
    (s : Validation) (type flags stream : ℕ) (d : Bytes)
    → Reports (validate_frame s type flags stream d)
unfolding validate_frame
validate_frame-Reports s type flags stream d =
    let armed = record s { scope = connection; code = 1 } in
    ground
      (arith, check_type-Reports armed flags stream d (record { scope = refl; code = refl }) type)
