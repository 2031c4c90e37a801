-- ===== src/Vision/Tls/Records.antt =====
-- src/vision.c: the handshake messages and the records that a wrapper observes.
use vless_core_cli.Prelude.{
  ℕ, ◌+◌, ◌-◌, ◌%◌, ◌^◌, min, Bool, true, false, ◌&&◌, ◌||◌, not, [], ◌++◌, Option, none, some, ltb,
  leb, ◌==◌, if◌then◌else◌, get_or, take, drop, length, Bytes, word24,
}
use vless_core_cli.Prelude.Loops.{Turn, hung, failed, went, Read, stuck, bad, done, read_loop}
use vless_core_cli.Vision.Tls.{
  Reader, hello_prefix, hello_extensions_length, hello_extension_header, sub_word32, word_at,
  hello_body,
}

-- What `vision_wrap_t` notes of the TLS connection inside.
pub record Flags : Type 0 where
  pub client_hello_seen : Bool
  pub client_tls_app_records : ℕ
  pub server_hello_seen : Bool
  pub tls13_confirmed : Bool
  pub tls_disabled : Bool

-- `vision_wrap_t`
pub record Wrap : Type 0 where
  pub uuid : Bytes
  pub uuid_sent : Bool
  pub padding_active : Bool
  pub packets_left : ℕ
  pub bootstrap_sent : Bool
  pub direct_sent : Bool
  pub flags : Flags
  pub client_tls : Reader
  pub server_tls : Reader

-- What an observation changes: the flags, and the reader of one side.
pub record Observed : Type 0 where
  pub flags : Flags
  pub reader : Reader

-- The reader at the start of a hello.
unfoldable pub start_hello : Reader → Reader
start_hello s = record s {
  prefix_bytes = [];
  field_bytes = [];
  prefix_need = 35;
  phase = hello_prefix;
  version = 0;
  cipher = 0;
  version_seen = false;
  retry = false;
  compression_seen = false;
}

-- The four bytes of a message's header, once they are there.
unfoldable pub start_message : Bool → Observed → Bytes → Turn Observed
start_message server o rest =
    let m = o.reader.message_bytes in
    let left : ℕ = word24 (get_or m 1 0) (get_or m 2 0) (get_or m 3 0) in
    let s : Reader = record (o.reader) { message_left = left } in
    let t : Reader = record s { interested = get_or m 0 0 == (if server then 2 else 1) } in
    if ltb 1048576 left
    then failed (record o { reader = s })
    else if t.interested && ltb left 38
    then failed (record o { reader = t })
    else let u : Reader = if t.interested then start_hello t else t in
      went (record o { reader = if left == 0 then record u { message_bytes = [] } else u }) rest

unfoldable pub hello_complete : Reader → Bool
hello_complete s = elim s.phase [
  | hello_extension_header ↦ s.extensions_left == 0 && length s.field_bytes == 0
  | hello_extensions_length ↦ length s.field_bytes == 0
  | _ ↦ false
]

-- The end of a message, of which all bytes are read.
unfoldable pub end_message : Bool → Observed → Bytes → Turn Observed
end_message server o rest =
    let s : Reader = record (o.reader) { message_bytes = [] } in
    let w = o.flags in
    if not s.interested
    then went (record o { reader = s }) rest
    else if not (hello_complete o.reader)
    then failed o
    else if not server
    then went (record { flags = record w { client_hello_seen = true }; reader = s }) rest
    else if s.retry
    then went (record o { reader = s }) rest
    else went
        (record {
          flags = record w {
            server_hello_seen = true;
            tls13_confirmed = s.version == 0x0304 && leb 0x1301 s.cipher && leb s.cipher 0x1304;
          };
          reader = s;
        })
        rest

-- What stands behind the bytes of a message that are read.
unfoldable pub after_body : Bool → Observed → Bytes → Turn Observed
after_body server o rest =
    if o.reader.message_left == 0 then end_message server o rest else went o rest

abbrev pub after_hello : Bool → Observed → Bytes → Read Reader → Turn Observed
after_hello server o rest stuck = hung
after_hello server o rest (bad t) = failed (record o { reader = t })
after_hello server o rest (done t) = after_body server (record o { reader = t }) rest

unfoldable pub read_message : Bool → Observed → Bytes → Turn Observed
read_message server o bytes =
    let s = o.reader in
    let count = min (length bytes) s.message_left in
    if not s.interested
    then after_body server
        (record o { reader = record s { message_left = sub_word32 s.message_left count } })
        (drop count bytes)
    else after_hello server o (drop count bytes) (hello_body server s (take count bytes))

-- One round of the loop of `vision_tls_handshake`
unfoldable pub handshake_round : Bool → Observed → Bytes → Turn Observed
handshake_round server o bytes =
    let s = o.reader in
    let count = min (length bytes) (4 - length s.message_bytes) in
    let t : Reader = record s { message_bytes = s.message_bytes ++ take count bytes } in
    if ltb (length s.message_bytes) 4
    then if ltb (length t.message_bytes) 4
      then went (record o { reader = t }) (drop count bytes)
      else start_message server (record o { reader = t }) (drop count bytes)
    else read_message server o bytes

-- `vision_tls_handshake`
unfoldable pub handshake : Bool → Observed → Bytes → Read Observed
handshake server o bytes = read_loop (handshake_round server) (length bytes) o bytes

unfoldable pub disable : Observed → Turn Observed
disable o = failed (record o { flags = record (o.flags) { tls_disabled = true } })

-- The end of a record, of which all bytes are read.
unfoldable pub end_record : Bool → Observed → Bytes → Turn Observed
end_record server o rest =
    let s = o.reader in
    let w = o.flags in
    let application = get_or s.record_bytes 0 0 == 23 && not (word_at s.record_bytes 3 == 0) in
    let counted = not server && application && ltb w.client_tls_app_records 0x7fffffff in
    went
      (record {
        flags =
            if counted
            then record w { client_tls_app_records = w.client_tls_app_records + 1 }
            else w;
        reader = record s {
          records = (s.records + 1) % 2 ^ 32;
          last_application = application;
          record_bytes = [];
        };
      })
      rest

-- The header of a record is one that the reader does not follow.
unfoldable pub record_refused : Flags → Reader → Bool
record_refused w s =
    let type = get_or s.record_bytes 0 0 in
    let minor = get_or s.record_bytes 2 0 in
    not (get_or s.record_bytes 1 0 == 3)
    || minor == 0
    || ltb 3 minor
    || ltb 18432 s.record_left
    || (type == 23 && (not (minor == 3) || (w.tls13_confirmed && ltb s.record_left 17)))
    || (type == 22 && s.record_left == 0)
    || (type == 20 && not (s.record_left == 1))
    || (not (type == 22) && not (type == 20) && not (length s.message_bytes == 0))

unfoldable pub read_record_header : Bool → Observed → Bytes → Turn Observed
read_record_header server o bytes =
    let s = o.reader in
    let count = min (length bytes) (5 - length s.record_bytes) in
    let t : Reader = record s {
      last_application = false;
      record_bytes = s.record_bytes ++ take count bytes;
    } in
    let u : Reader = record t { record_left = word_at t.record_bytes 3 } in
    let type = get_or t.record_bytes 0 0 in
    if ltb type 20 || ltb 23 type
    then disable (record o { reader = t })
    else if ltb (length t.record_bytes) 5
    then went (record o { reader = t }) (drop count bytes)
    else if record_refused o.flags u
    then disable (record o { reader = u })
    else if u.record_left == 0
    then end_record server (record o { reader = u }) (drop count bytes)
    else went (record o { reader = u }) (drop count bytes)

-- What stands behind the bytes of a record that are read.
unfoldable pub after_part : Bool → Observed → ℕ → Bytes → Turn Observed
after_part server o count rest =
    let s : Reader = record (o.reader) { record_left = sub_word32 o.reader.record_left count } in
    if s.record_left == 0
    then end_record server (record o { reader = s }) rest
    else went (record o { reader = s }) rest

abbrev pub after_handshake : Bool → ℕ → Bytes → Read Observed → Turn Observed
after_handshake server count rest stuck = hung
after_handshake server count rest (bad p) = disable p
after_handshake server count rest (done p) = after_part server p count rest

unfoldable pub read_record : Bool → Observed → Bytes → Turn Observed
read_record server o bytes =
    let s = o.reader in
    let count = min (length bytes) s.record_left in
    let type = get_or s.record_bytes 0 0 in
    if type == 22
    then after_handshake server count (drop count bytes) (handshake server o (take count bytes))
    else if type == 20 && not (get_or bytes 0 0 == 1)
    then disable o
    else after_part server o count (drop count bytes)

-- One round of the loop of `vision_observe_tls`
unfoldable pub record_round : Bool → Observed → Bytes → Turn Observed
record_round server o bytes =
    if ltb (length o.reader.record_bytes) 5
    then read_record_header server o bytes
    else read_record server o bytes

abbrev pub store : Bool → Wrap → Observed → Wrap
store true w o = record w { flags = o.flags; server_tls = o.reader }
store false w o = record w { flags = o.flags; client_tls = o.reader }

abbrev pub stored : Bool → Wrap → Read Observed → Option Wrap
stored server w stuck = none
stored server w (bad o) = some (store server w o)
stored server w (done o) = some (store server w o)

-- `vision_observe_tls`: none stands for a loop that does not end.
unfoldable pub observe_tls : Bool → Wrap → Bytes → Option Wrap
observe_tls server w bytes =
    let s = if server then w.server_tls else w.client_tls in
    let o : Observed = record { flags = w.flags; reader = record s { last_application = false } } in
    if w.flags.tls_disabled || length bytes == 0
    then some (store server w o)
    else stored server w (read_loop (record_round server) (length bytes) o bytes)
