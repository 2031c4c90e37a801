-- ===== src/Examples/Frames.antt =====
-- Runs of src/http2.c: a SETTINGS frame, a WINDOW_UPDATE, and a response with a body.
use vless_core_cli.Prelude.{List, some, ℕ, true, false, [], ◌∷◌, Bytes, ◌≡◌, refl}
use vless_core_cli.Http2.{
  nothing, stream_scope, accepted, stream_failed, Validation, validate_frame, check_type,
  check_settings, check_window, settings_error,
}
use vless_core_cli.Http2.Frames.{Reports, validate_frame-Reports}
use vless_core_cli.Http2.Accepted.{IsFrame, validate_frame-IsFrame}
use vless_core_cli.Http2.Response.{Response, Headers, response_headers, response_data, fresh}
use vless_core_cli.Http2.Alps.{
  Settings, defaults, apply_settings, apply_setting, settings_body, alps_body, alps_loop,
  alps_parse, IsAllowed,
}
use vless_core_cli.Http2.Allowed.{alps_parse-IsAllowed}
use vless_core_cli.Http2.Responses.{Reach, here, next, on_headers, on_data, IsSound, Reach-IsSound}

-- No frame has come.
abbrev first_frame : Validation
first_frame = record {
  continuation = 0;
  settings_received = false;
  settings_pending = 0;
  scope = nothing;
  code = 0;
}

abbrev after_settings : Validation
after_settings = record {
  continuation = 0;
  settings_received = true;
  settings_pending = 1;
  scope = nothing;
  code = 0;
}

-- SETTINGS with the initial window of 65,536 bytes.
abbrev settings : Bytes
settings = 0 ∷ 4 ∷ 0 ∷ 1 ∷ 0 ∷ 0 ∷ []

settings_frame : validate_frame first_frame 4 0 0 settings ≡ (accepted, after_settings)
unfolding validate_frame check_type check_settings settings_error
settings_frame = refl

-- A window update of 0 is an error of its stream.
window_test :
    validate_frame after_settings 8 0 1 (0 ∷ 0 ∷ 0 ∷ 0 ∷ [])
    ≡ (stream_failed, record after_settings { scope = stream_scope; code = 1 })
unfolding validate_frame check_type check_window
window_test = refl

validate_frame-Reports_example : Reports (validate_frame after_settings 8 0 1 (0 ∷ 0 ∷ 0 ∷ 0 ∷ []))
validate_frame-Reports_example = validate_frame-Reports after_settings 8 0 1 (0 ∷ 0 ∷ 0 ∷ 0 ∷ [])

validate_frame-IsFrame_example : IsFrame first_frame 4 0 0 settings after_settings
validate_frame-IsFrame_example = validate_frame-IsFrame first_frame 4 0 0 settings settings_frame

-- `:status: 200` and `content-length: 5`
abbrev ok_headers : Headers
ok_headers = record {
  status = 200;
  status_seen = true;
  other_pseudo = false;
  has_te = false;
  has_content_length = true;
  content_length = 5;
}

abbrev opened : Response
opened = (response_headers (fresh false) ok_headers false).1

abbrev finished : Response
finished = (response_data opened 5 true).1

opened_lem : response_headers (fresh false) ok_headers false ≡ (true, opened)
unfolding response_headers
opened_lem = refl

finished_lem : response_data opened 5 true ≡ (true, finished)
unfolding response_headers response_data
finished_lem = refl

-- A body that is too short is an error.
short_test : (response_data opened 4 true).0 ≡ false
unfolding response_headers response_data
short_test = refl

finished_reached : Reach (fresh false) finished
finished_reached =
    next (next here (on_headers ok_headers false opened_lem)) (on_data 5 true finished_lem)

Reach-IsSound_example : IsSound finished
Reach-IsSound_example = Reach-IsSound finished_reached

finished_ended : finished.ended ≡ true
unfolding response_headers response_data
finished_ended = refl

-- One SETTINGS frame, with the initial window of 65,536 bytes.
abbrev alps : List ℕ
alps = 0 ∷ 0 ∷ 6 ∷ 4 ∷ 0 ∷ 0 ∷ 0 ∷ 0 ∷ 0 ∷ settings

abbrev alps_settings : Settings
alps_settings = record defaults { initial_window = 65536; received = true }

alps_test : alps_parse alps ≡ some alps_settings
unfolding alps_parse alps_loop alps_body settings_body apply_settings apply_setting validate_frame
    check_type check_settings settings_error
alps_test = refl

alps_parse-IsAllowed_example : IsAllowed alps_settings
alps_parse-IsAllowed_example = alps_parse-IsAllowed alps alps_test
