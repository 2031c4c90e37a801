-- ===== src/Vision/Wrap.antt =====
-- src/vision.c: the padding of what a wrapper sends.
pub mod Sending
pub mod Session
pub mod Payloads
pub mod Success
use vless_core_cli.Prelude.{
  ℕ, zero, suc, ◌+◌, ◌-◌, ◌*◌, ◌/◌, ◌%◌, ◌^◌, ◌≤◌, ◌<◌, min, max, Bool, true, false, ◌&&◌, ◌||◌,
  not, List, [], ◌∷◌, ◌++◌, Option, none, some, ltb, leb, ◌==◌, if◌then◌else◌, get_elem?, get_or,
  set, take, drop, length, Bytes, size_max, add_size, sub_size, ◌≡◌, refl, sym, ap, ap₂, ◌∙◌, ◌≢◌,
  ◌↔◌, ◌⊎◌, inl, inr, arith, Bool-cases, Option-cases, append-nil, append_assoc, length-append,
  length-take, length-drop, bit, word16, word24, word32, map, take-append-drop, take_front,
  drop_front, long_enough,
}
use vless_core_cli.Vision.{cmd_continue, cmd_end, cmd_direct, append_out}
use vless_core_cli.Vision.Tls.{Reader, hello_prefix, sub_word32}
use vless_core_cli.Vision.Tls.Records.{Wrap, Flags, observe_tls}

-- What `strtol` gives for `VLESS_VISION_PAD_PACKETS`: no number, also where the variable is missing, one
-- below 0, or another.
pub data Parsed : Type 0 where
  no_number below_zero : Parsed
  number : ℕ → Parsed

-- `read_pad_packets_env`
abbrev pub pad_packets : Parsed → ℕ
pad_packets no_number = 8
pad_packets below_zero = 1
pad_packets (number n) = if ltb n 1 then 1 else if ltb 32 n then 32 else n

abbrev pub reader_init : Reader
reader_init = record {
  record_bytes = [];
  message_bytes = [];
  prefix_bytes = [];
  field_bytes = [];
  prefix_need = 0;
  record_left = 0;
  message_left = 0;
  skip_left = 0;
  extensions_left = 0;
  extension_left = 0;
  records = 0;
  phase = hello_prefix;
  extension = 0;
  version = 0;
  cipher = 0;
  interested = false;
  version_seen = false;
  compression_seen = false;
  retry = false;
  last_application = false;
}

abbrev pub flags_init : Flags
flags_init = record {
  client_hello_seen = false;
  client_tls_app_records = 0;
  server_hello_seen = false;
  tls13_confirmed = false;
  tls_disabled = false;
}

-- `vision_wrap_init`
abbrev pub wrap_init : Parsed → Bytes → Wrap
wrap_init env uuid = record {
  uuid = uuid;
  uuid_sent = false;
  padding_active = true;
  packets_left = pad_packets env;
  bootstrap_sent = false;
  direct_sent = false;
  flags = flags_init;
  client_tls = reader_init;
  server_tls = reader_init;
}

-- `core_random_range` and `core_random_fill`, as far as they answer one block.
pub record Random : Type 0 where
  pub range : ℕ → ℕ → Option ℕ
  pub fill : ℕ → Option Bytes
  pub range_bounds : (low high n : ℕ) → range low high ≡ some n → (low ≤ n) × (n ≤ high)
  pub fill_length : (n : ℕ) (b : Bytes) → fill n ≡ some b → length b ≡ n

-- `rand_u16_mod`
abbrev pub rand_u16_mod : Random → ℕ → Option ℕ
rand_u16_mod random bound =
    if bound == 0
    then some 0
    else elim (random.range 0 (bound - 1)) [ none ↦ none | some n ↦ some (n % 65536) ]

-- `want`, behind its two bounds
abbrev pub long_padding_len : ℕ → ℕ → ℕ
long_padding_len content extra =
    let want = sub_size (900 + extra) content in
    let positive = if leb 9223372036854775808 want then 0 else want in
    if ltb 65535 positive then 65535 else positive

-- `vision_padding_len`
unfoldable pub padding_len : Random → ℕ → Bool → Option ℕ
padding_len random content long =
    if long && ltb content 900
    then elim (rand_u16_mod random 500) [
      | none ↦ none
      | some extra ↦ some (long_padding_len content extra)
    ]
    else rand_u16_mod random 256

-- `command`, for a wrapper that has observed the payload, `complete` records of it
unfoldable pub command_for : Wrap → ℕ → ℕ
command_for w complete =
    let partial =
      not w.flags.tls_disabled
      && (not (length w.client_tls.record_bytes == 0)
          || not (length w.client_tls.message_bytes == 0)) in
    if not w.flags.tls_disabled
      && w.flags.client_hello_seen
      && w.flags.server_hello_seen
      && w.client_tls.last_application
    then if w.flags.tls13_confirmed then cmd_direct else cmd_end
    else if not partial && not (complete == 0) && leb w.packets_left complete
    then cmd_end
    else cmd_continue

abbrev pub wrap_raw : Wrap → Option Bytes → Option (Wrap × Bytes)
wrap_raw w none = none
wrap_raw w (some bytes) = some (w, bytes)

module _ (room : ℕ → Bool) where
  -- The bytes of `vision_build_block`, for a padding of that length.
  unfoldable pub block_of : Random → Wrap → ℕ → Bytes → ℕ → Option Bytes
  block_of random w command content padding =
      let prefix = if w.uuid_sent then [] else w.uuid in
      let total = (if w.uuid_sent then 0 else 16) + 1 + 2 + 2 + length content + padding in
      let header =
        command
        ∷ length content / 256 % 256
        ∷ length content % 256
        ∷ padding / 256 % 256
        ∷ padding % 256
        ∷ [] in
      if not (room total)
      then none
      else if padding == 0
      then some (prefix ++ (header ++ content))
      else elim (random.fill padding) [
        | none ↦ none
        | some fill ↦ some (prefix ++ (header ++ (content ++ fill)))
      ]

  -- `vision_build_block`
  unfoldable pub build_block : Random → Wrap → ℕ → Bytes → Bool → Option (Wrap × Bytes)
  build_block random w command content long =
      if ltb 65535 (length content) then none else elim (padding_len random (length content) long) [
        | none ↦ none
        | some padding ↦ elim (block_of random w command content padding) [
          | none ↦ none
          | some bytes ↦ some (record w { uuid_sent = true }, bytes)
        ]
      ]

  -- `vision_wrap_bootstrap_buffer`
  unfoldable pub bootstrap : Random → Wrap → Option (Wrap × Bytes)
  bootstrap random w =
      if not w.padding_active || w.bootstrap_sent
      then some (w, [])
      else elim (build_block random w cmd_continue [] true) [
        | none ↦ none
        | some (t, bytes) ↦ some (record t { bootstrap_sent = true }, bytes)
      ]

  -- What `vision_wrap_chunk` does once the payload is observed.
  unfoldable pub wrap_observed : Random → Wrap → Bytes → ℕ → Option (Wrap × Bytes)
  wrap_observed random w payload complete =
      let command = command_for w complete in
      elim (build_block random w command payload (ltb (length payload) 900)) [
        | none ↦ none
        | some (t, bytes) ↦ some (
          record t {
            packets_left = if leb t.packets_left complete then 0 else t.packets_left - complete;
            padding_active = t.padding_active && command == cmd_continue;
            direct_sent = t.direct_sent || command == cmd_direct;
          },
          bytes,
        )
      ]

  abbrev pub wrap_noted : Random → Wrap → Bytes → Option Wrap → Option (Wrap × Bytes)
  wrap_noted random w payload none = none
  wrap_noted random w payload (some t) =
      wrap_observed random t payload
        (if t.flags.tls_disabled then 1 else sub_word32 t.client_tls.records w.client_tls.records)

  -- `vision_wrap_chunk`, into a buffer that is empty
  unfoldable pub wrap_chunk : Random → Wrap → Bytes → Option (Wrap × Bytes)
  wrap_chunk random w payload =
      if length payload == 0
      then some (w, [])
      else if not w.padding_active
      then wrap_raw w (append_out room [] payload)
      else if ltb 65535 (length payload)
      then none
      else wrap_noted random w payload (observe_tls false w payload)

  -- The loop of `vision_wrap_payload_buffer`, into a buffer that holds `out`
  unfoldable pub wrap_chunks : (ℕ → Random) → ℕ → Wrap → Bytes → Bytes → Option (Wrap × Bytes)
  wrap_chunks random n w out [] = some (w, out)
  wrap_chunks random zero w out (b ∷ payload) = none
  wrap_chunks random (suc n) w out (b ∷ payload) =
      let left = length (b ∷ payload) in
      let size = if w.padding_active && ltb 65535 left then 65535 else left in
      elim (wrap_chunk (random n) w (take size (b ∷ payload))) [
        | none ↦ none
        | some (t, chunk) ↦ elim (append_out room out chunk) [
          | none ↦ none
          | some more ↦ wrap_chunks random n t more (drop size (b ∷ payload))
        ]
      ]

  -- `vision_wrap_payload_buffer`
  unfoldable pub wrap_payload : (ℕ → Random) → Wrap → Bytes → Option (Wrap × Bytes)
  wrap_payload random w payload =
      if leb (length payload) 65535 || not w.padding_active
      then wrap_chunk (random 0) w payload
      else wrap_chunks random (length payload) w [] payload
