-- ===== src/Http2/Alps.antt =====
-- `core_http2_alps_parse` of src/http2.c: the settings that the server sends in the TLS handshake.
use vless_core_cli.Prelude.{
  ℕ, zero, suc, ◌-◌, ◌%◌, ◌^◌, ◌≤◌, Bool, true, false, ◌&&◌, ◌||◌, not, [], ◌∷◌, Option, none, some,
  ltb, leb, ◌==◌, if◌then◌else◌, take, drop, length, Bytes, bit, word16, word24, word32,
}
use vless_core_cli.Http2.{
  Validation, accepted, connection_failed, stream_failed, nothing, validate_frame,
}

-- `core_http2_settings_t`
pub record Settings : Type 0 where
  pub table_size : ℕ
  pub concurrency : ℕ
  pub initial_window : ℕ
  pub max_frame : ℕ
  pub header_limit : ℕ
  pub received : Bool

abbrev pub defaults : Settings
defaults = record {
  table_size = 4096;
  concurrency = 2 ^ 32 - 1;
  initial_window = 65535;
  max_frame = 16384;
  header_limit = 8192;
  received = false;
}

-- One entry of SETTINGS.
unfoldable pub apply_setting : Settings → ℕ → ℕ → Settings
apply_setting t id value =
    if id == 1
    then record t { table_size = value }
    else if id == 3
    then record t { concurrency = value }
    else if id == 4
    then record t { initial_window = value }
    else if id == 5
    then record t { max_frame = value }
    else if id == 6
    then record t { header_limit = value }
    else t

-- The loop over the entries.
unfoldable pub apply_settings : Settings → Bytes → Settings
apply_settings t (a ∷ b ∷ c ∷ d ∷ e ∷ f ∷ rest) =
    apply_settings (apply_setting t (word16 a b) (word32 c d e f)) rest
apply_settings t _ = t

-- A field of the ACCEPT_CH frame: what is behind it.
unfoldable pub skip_field : Bytes → Option Bytes
skip_field (a ∷ b ∷ rest) =
    if ltb (length rest) (word16 a b) then none else some (drop (word16 a b) rest)
skip_field _ = none

-- The loop over pairs of fields, on fuel; each pair takes four bytes at least.
unfoldable pub skip_pairs : ℕ → Bytes → Bool
skip_pairs zero body = length body == 0
skip_pairs (suc n) body = if length body == 0 then true else elim (skip_field body) [
  | none ↦ false
  | some middle ↦ elim (skip_field middle) [ none ↦ false | some rest ↦ skip_pairs n rest ]
]

-- The state in which a SETTINGS frame is checked.
abbrev pub alps_state : Validation
alps_state = record {
  continuation = 0;
  settings_received = true;
  settings_pending = 0;
  scope = nothing;
  code = 0;
}

-- A SETTINGS frame.
unfoldable pub settings_body : Settings → ℕ → ℕ → Bytes → Option Settings
settings_body t flags stream body =
    if bit flags 0 then none else elim (validate_frame alps_state 4 flags stream body).0 [
      | accepted ↦ some (apply_settings (record t { received = true }) body)
      | connection_failed ↦ none
      | stream_failed ↦ none
    ]

-- The body of a frame.
unfoldable pub alps_body : Settings → ℕ → ℕ → ℕ → Bytes → Option Settings
alps_body t type flags stream body =
    if leb type 9 && not (type == 4)
    then none
    else if type == 4
    then settings_body t flags stream body
    else if type == 0x89
        && (not (stream == 0) || not (flags == 0) || not (skip_pairs (length body) body))
    then none
    else some t

-- The loop over the frames, on fuel; each frame takes nine bytes at least.
unfoldable pub alps_loop : ℕ → Settings → Bytes → Option Settings
alps_loop n t [] = some t
alps_loop zero t (x ∷ xs) = none
alps_loop (suc n) t (a ∷ b ∷ c ∷ type ∷ flags ∷ e ∷ f ∷ g ∷ h ∷ rest) =
    let size = word24 a b c in
    if ltb 16384 size || ltb (length rest) size
    then none
    else elim (alps_body t type flags (word32 e f g h % 2 ^ 31) (take size rest)) [
      | none ↦ none
      | some u ↦ alps_loop n u (drop size rest)
    ]
alps_loop (suc n) t _ = none

-- `core_http2_alps_parse`: the output, if it returns 0.
unfoldable pub alps_parse : Bytes → Option Settings
alps_parse d = if ltb 65535 (length d) then none else alps_loop (length d) defaults d

-- What the settings can be: a window of 31 bits, and frames of 2 ^ 14 to 2 ^ 24 - 1 bytes.
pub record IsAllowed (t : Settings) : Type 0 where
  pub window : t.initial_window ≤ 0x7fffffff
  pub least : 16384 ≤ t.max_frame
  pub most : t.max_frame ≤ 16777215
