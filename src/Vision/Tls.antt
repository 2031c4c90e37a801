-- ===== src/Vision/Tls.antt =====
-- src/vision.c: the reader of TLS records and handshake messages that decides when padding ends.
pub mod Records
pub mod Bounds
pub mod Hello
pub mod Observed
pub mod Sound
pub mod Total
use vless_core_cli.Prelude.{
  same_bytes, ℕ, zero, suc, ◌+◌, ◌-◌, ◌*◌, ◌/◌, ◌%◌, ◌^◌, ◌≤◌, ◌<◌, min, max, Bool, true, false,
  ◌&&◌, ◌||◌, not, List, [], ◌∷◌, ◌++◌, Option, none, some, ltb, leb, ◌==◌, if◌then◌else◌,
  get_elem?, get_or, set, take, drop, length, Bytes, size_max, add_size, sub_size, ◌≡◌, refl, sym,
  ap, ap₂, ◌∙◌, ◌≢◌, ◌↔◌, ◌⊎◌, inl, inr, arith, Bool-cases, Option-cases, append-nil, append_assoc,
  length-append, length-take, length-drop, bit, word16, word24, word32, map, take-append-drop,
  take_front, drop_front, long_enough,
}
use vless_core_cli.Prelude.Loops.{Turn, hung, failed, went, Read, stuck, bad, done, read_loop}
use vless_core_cli.Socks5.{contains_zero}

abbrev pub sub_word32 : ℕ → ℕ → ℕ
sub_word32 a b = (a + 4294967296 - b % 4294967296) % 4294967296

-- `VISION_HELLO_PREFIX` and the six other phases
pub data Phase : Type 0 where
  hello_prefix hello_ciphers hello_compression_length hello_compression hello_extensions_length
        hello_extension_header hello_extension :
      Phase

-- `vision_tls_reader_t`: of `record`, `message`, `prefix` and `field` the bytes that are used.
pub record Reader : Type 0 where
  pub record_bytes : Bytes
  pub message_bytes : Bytes
  pub prefix_bytes : Bytes
  pub field_bytes : Bytes
  pub prefix_need : ℕ
  pub record_left : ℕ
  pub message_left : ℕ
  pub skip_left : ℕ
  pub extensions_left : ℕ
  pub extension_left : ℕ
  pub records : ℕ
  pub phase : Phase
  pub extension : ℕ
  pub version : ℕ
  pub cipher : ℕ
  pub interested : Bool
  pub version_seen : Bool
  pub compression_seen : Bool
  pub retry : Bool
  pub last_application : Bool

-- `retry_random`
abbrev pub retry_random : Bytes
retry_random =
    0xcf ∷ 0x21 ∷ 0xad ∷ 0x74 ∷ 0xe5 ∷ 0x9a ∷ 0x61 ∷ 0x11 ∷ 0xbe ∷ 0x1d ∷ 0x8c ∷ 0x02 ∷ 0x1e ∷ 0x65
    ∷ 0xb8 ∷ 0x91 ∷ 0xc2 ∷ 0xa2 ∷ 0x11 ∷ 0x16 ∷ 0x7a ∷ 0xbb ∷ 0x8c ∷ 0x5e ∷ 0x07 ∷ 0x9e ∷ 0x09
    ∷ 0xe2 ∷ 0xc8 ∷ 0xa8 ∷ 0x33 ∷ 0x9c ∷ []

-- `vision_word`
abbrev pub word_at : Bytes → ℕ → ℕ
word_at b i = word16 (get_or b i 0) (get_or b (i + 1) 0)

-- The first 35 bytes, up to the length of the session id.
unfoldable pub start_prefix : Bool → Reader → Bytes → Turn Reader
start_prefix server s rest =
    let minor = get_or s.prefix_bytes 1 0 in
    let session = get_or s.prefix_bytes 34 0 in
    let need = 35 + session + (if server then 3 else 2) in
    if not (get_or s.prefix_bytes 0 0 == 3)
      || minor == 0
      || ltb 3 minor
      || (server && not (minor == 3))
      || ltb 32 session
    then failed s
    else if ltb s.message_left (sub_size need (length s.prefix_bytes))
    then failed (record s { prefix_need = need })
    else went (record s { prefix_need = need }) rest

-- The whole prefix, with the session id and what stands behind it.
unfoldable pub end_prefix : Bool → Reader → Bytes → Turn Reader
end_prefix server s rest =
    let word = word_at s.prefix_bytes (35 + get_or s.prefix_bytes 34 0) in
    let random = take 32 (drop 2 s.prefix_bytes) in
    if server
    then if not (get_or s.prefix_bytes (sub_size s.prefix_need 1) 0 == 0)
      then failed s
      else went
          (record s {
            cipher = word;
            retry = same_bytes random retry_random;
            phase = hello_extensions_length;
          })
          rest
    else if ltb word 2 || not (word % 2 == 0) || ltb s.message_left word
    then failed s
    else went (record s { skip_left = word; phase = hello_ciphers }) rest

unfoldable pub read_prefix : Bool → Reader → Bytes → Turn Reader
read_prefix server s bytes =
    let count = min (length bytes) (sub_size s.prefix_need (length s.prefix_bytes)) in
    let t = record s {
      prefix_bytes = s.prefix_bytes ++ take count bytes;
      message_left = sub_word32 s.message_left count;
    } in
    if not (length t.prefix_bytes == t.prefix_need)
    then went t (drop count bytes)
    else if t.prefix_need == 35
    then start_prefix server t (drop count bytes)
    else end_prefix server t (drop count bytes)

-- The cipher suites.
unfoldable pub skip_ciphers : Reader → Bytes → Turn Reader
skip_ciphers s bytes =
    let count = min (length bytes) s.skip_left in
    let t = record s {
      skip_left = sub_word32 s.skip_left count;
      message_left = sub_word32 s.message_left count;
    } in
    if not (t.skip_left == 0)
    then went t (drop count bytes)
    else went (record t { phase = hello_compression_length }) (drop count bytes)

-- The compression methods, of which one must be 0.
unfoldable pub skip_compression : Reader → Bytes → Turn Reader
skip_compression s bytes =
    let count = min (length bytes) s.skip_left in
    let t = record s {
      compression_seen = s.compression_seen || contains_zero (take count bytes);
      skip_left = sub_word32 s.skip_left count;
      message_left = sub_word32 s.message_left count;
    } in
    if not (t.skip_left == 0)
    then went t (drop count bytes)
    else if not t.compression_seen
    then failed t
    else went (record t { phase = hello_extensions_length }) (drop count bytes)

unfoldable pub read_compression_length : Reader → Bytes → Turn Reader
read_compression_length s bytes =
    let t = record s { skip_left = get_or bytes 0 0; message_left = sub_word32 s.message_left 1 } in
    if t.skip_left == 0 || ltb t.message_left t.skip_left
    then failed t
    else went (record t { phase = hello_compression }) (drop 1 bytes)

-- The body of an extension; 43 is `supported_versions`.
unfoldable pub read_extension : Bool → Reader → Bytes → Turn Reader
read_extension server s bytes =
    let count = min (length bytes) s.extension_left in
    let kept = server && s.extension == 43 in
    let t = record s {
      field_bytes = if kept then s.field_bytes ++ take count bytes else s.field_bytes;
      message_left = sub_word32 s.message_left count;
      extensions_left = sub_word32 s.extensions_left count;
      extension_left = sub_word32 s.extension_left count;
    } in
    if not (t.extension_left == 0)
    then went t (drop count bytes)
    else went
        (record t {
          version = if kept then word_at t.field_bytes 0 else t.version;
          field_bytes = [];
          phase = hello_extension_header;
        })
        (drop count bytes)

unfoldable pub read_extensions_length : Reader → Bytes → Turn Reader
read_extensions_length s bytes =
    let count = min (length bytes) (sub_size 2 (length s.field_bytes)) in
    let t = record s {
      field_bytes = s.field_bytes ++ take count bytes;
      message_left = sub_word32 s.message_left count;
    } in
    let all = word_at t.field_bytes 0 in
    if not (length t.field_bytes == 2)
    then went t (drop count bytes)
    else if not (all == t.message_left)
    then failed (record t { field_bytes = []; extensions_left = all })
    else went (record t { field_bytes = []; extensions_left = all; phase = hello_extension_header })
        (drop count bytes)

-- The type and the length of an extension, once they are there.
unfoldable pub start_extension : Bool → Reader → Bytes → Turn Reader
start_extension server s rest =
    let t = record s {
      field_bytes = [];
      extension = word_at s.field_bytes 0;
      extension_left = word_at s.field_bytes 2;
    } in
    let kept = server && t.extension == 43 in
    if ltb t.extensions_left t.extension_left
    then failed t
    else if kept && (t.version_seen || not (t.extension_left == 2))
    then failed t
    else went
        (record t {
          version_seen = kept || t.version_seen;
          phase = if t.extension_left == 0 then t.phase else hello_extension;
        })
        rest

unfoldable pub read_extension_header : Bool → Reader → Bytes → Turn Reader
read_extension_header server s bytes =
    let missing = sub_size 4 (length s.field_bytes) in
    let count = min (length bytes) missing in
    let t = record s {
      field_bytes = s.field_bytes ++ take count bytes;
      message_left = sub_word32 s.message_left count;
      extensions_left = sub_word32 s.extensions_left count;
    } in
    if ltb s.extensions_left missing
    then failed s
    else if not (length t.field_bytes == 4)
    then went t (drop count bytes)
    else start_extension server t (drop count bytes)

-- One round of the loop of `vision_hello_body`, at bytes that are left.
unfoldable pub hello_round : Bool → Reader → Bytes → Turn Reader
hello_round server s bytes = elim s.phase [
  | hello_prefix ↦ read_prefix server s bytes
  | hello_ciphers ↦ skip_ciphers s bytes
  | hello_compression_length ↦ read_compression_length s bytes
  | hello_compression ↦ skip_compression s bytes
  | hello_extensions_length ↦ read_extensions_length s bytes
  | hello_extension_header ↦ read_extension_header server s bytes
  | hello_extension ↦ read_extension server s bytes
]

-- `vision_hello_body`
unfoldable pub hello_body : Bool → Reader → Bytes → Read Reader
hello_body server s bytes = read_loop (hello_round server) (length bytes) s bytes
