-- ===== src/Vision/Tls/Sound.antt =====
-- src/vision.c: `vision_observe_tls` ends, and keeps the readers of a wrapper as they have to be.
use vless_core_cli.Prelude.{
  ℕ, suc, ◌+◌, ◌-◌, ◌%◌, ◌^◌, ◌≤◌, ◌<◌, min, Bool, true, false, ◌&&◌, ◌||◌, not, [], ◌∷◌, ◌++◌, ltb,
  ◌==◌, get_or, take, drop, length, Bytes, ◌≡◌, refl, ap, ◌∙◌, ◌⊎◌, inl, inr, arith, Bool-cases,
  length-append, length-take,
}
use vless_core_cli.Prelude.Loops.{
  Read, stuck, bad, done, read_loop, Anything, Good, Ended, read_loop-Ended,
}
use vless_core_cli.Vision.Tls.{
  Reader, Phase, hello_prefix, hello_ciphers, hello_compression_length, hello_compression,
  hello_extensions_length, hello_extension_header, hello_extension, sub_word32, word_at,
}
use vless_core_cli.Vision.Tls.Records.{
  Flags, Wrap, Observed, disable, end_record, record_refused, read_record_header, after_part,
  after_handshake, read_record, record_round,
}
use vless_core_cli.Vision.Tls.Bounds.{Ready, sub_word32-exact, shorter}
use vless_core_cli.Vision.Tls.Observed.{InMessage, around, Kept, handshake-Ended}

-- Between the bytes of a record's header, or inside a record.
abbrev pub InRecord : Reader → Type 0
InRecord s =
    (length s.record_bytes < 5)
    ⊎ ((length s.record_bytes ≡ 5) × (0 < s.record_left) × (s.record_left ≤ 18432))

abbrev pub Steady : Bool → Reader → Type 0
Steady server s = InRecord s × InMessage server s

-- The readers of a wrapper, as long as it observes.
abbrev pub IsSound : Wrap → Type 0
IsSound w = w.flags.tls_disabled ≡ false → Steady false w.client_tls × Steady true w.server_tls

-- A reader with another place in its records.
abbrev pub moved : Reader → Bytes → ℕ → ℕ → Bool → Reader
moved s bytes left records last = record s {
  record_bytes = bytes;
  record_left = left;
  records = records;
  last_application = last;
}

Ready-moved :
    (server : Bool) (p : Phase) (s : Reader) (bytes : Bytes) (left records : ℕ) (last : Bool)
    → Ready server p s
    → Ready server p (moved s bytes left records last)
unfolding Ready
Ready-moved server hello_prefix s bytes left records last r = r
Ready-moved server hello_ciphers s bytes left records last r = r
Ready-moved server hello_compression_length s bytes left records last r = r
Ready-moved server hello_compression s bytes left records last r = r
Ready-moved server hello_extensions_length s bytes left records last r = r
Ready-moved server hello_extension_header s bytes left records last r = r
Ready-moved server hello_extension s bytes left records last r = r

pub InMessage-moved :
    (server : Bool) (s : Reader) (bytes : Bytes) (left records : ℕ) (last : Bool)
    → InMessage server s
    → InMessage server (moved s bytes left records last)
InMessage-moved server s bytes left records last (inl few) = inl few
InMessage-moved server s bytes left records last (inr (full, low, high, r)) =
    inr (full, low, high, λ i. Ready-moved server s.phase s bytes left records last (r i))

abbrev pub Disabled : Observed → Type 0
Disabled o = o.flags.tls_disabled ≡ true

module _ (server : Bool) (off : Bool) where
  abbrev pub Held : Observed → ℕ → Type 0
  Held o n = Steady server o.reader × (o.flags.tls_disabled ≡ off)

  disable-Good : (o : Observed) (n : ℕ) → Good Held Disabled n (disable o)
  unfolding disable Good
  disable-Good o n = refl

  end_record-Good :
      (o : Observed) (rest : Bytes) (n : ℕ)
      → length rest < n
      → InMessage server o.reader
      → o.flags.tls_disabled ≡ off
      → Good Held Disabled n (end_record server o rest)
  unfolding end_record Good
  end_record-Good o rest n less m same =
      let s = o.reader in
      let fresh : length {A = ℕ} [] < 5 = omega arith in
      let application = get_or s.record_bytes 0 0 == 23 && not (word_at s.record_bytes 3 == 0) in
      let m' = InMessage-moved server s [] s.record_left ((s.records + 1) % 2 ^ 32) application m in
      elim (Bool-cases
        (not server && application && ltb o.flags.client_tls_app_records 0x7fffffff)) [
          | inl z ↦ rw z (less, ((inl fresh, m'), same))
          | inr z ↦ rw z (less, ((inl fresh, m'), same))
        ]

  after_part-Good :
      (o : Observed) (rest : Bytes) (n count : ℕ)
      → length rest < n
      → InMessage server o.reader
      → length o.reader.record_bytes ≡ 5
      → count ≤ o.reader.record_left
      → o.reader.record_left ≤ 18432
      → o.flags.tls_disabled ≡ off
      → Good Held Disabled n (after_part server o count rest)
  unfolding after_part Good
  after_part-Good o rest n count less m full le high same =
      let s = o.reader in
      let left = sub_word32-exact s.record_left count le (omega arith) in
      let fewer : ℕ = sub_word32 s.record_left count in
      let m' = InMessage-moved server s s.record_bytes fewer s.records s.last_application m in
      elim (Bool-cases (fewer == 0)) [
        | inl z ↦ rw z (
            end_record-Good (record o { reader = record s { record_left = fewer } }) rest n less m'
              same)
        | inr z ↦ rw z (less, ((inr (full, ground (arith, z), omega (arith, left)), m'), same))
      ]

  after_handshake-Good :
      (o : Observed) (rest : Bytes) (n count : ℕ) (h : Read Observed)
      → length rest < n
      → length o.reader.record_bytes ≡ 5
      → count ≤ o.reader.record_left
      → o.reader.record_left ≤ 18432
      → o.flags.tls_disabled ≡ off
      → Ended (λ t. Kept server (around o) t 0) Anything h
      → Good Held Disabled n (after_handshake server count rest h)
  unfolding Ended Good
  after_handshake-Good o rest n count stuck less full le high same end = end
  after_handshake-Good o rest n count (bad p) less full le high same end = disable-Good p n
  after_handshake-Good o rest n count (done p) less full le high same (m, frame) =
      let bytes : p.reader.record_bytes ≡ o.reader.record_bytes = ap (λ x. x.0) frame in
      let left : p.reader.record_left ≡ o.reader.record_left = ap (λ x. x.1) frame in
      let off' : p.flags.tls_disabled ≡ off = ap (λ x. x.2) frame ∙ same in
      let full' : length p.reader.record_bytes ≡ 5 = ap (λ x. length x) bytes ∙ full in
      after_part-Good p rest n count less m full' (omega (arith, left, le))
        (omega (arith, left, high)) off'

  read_record-Good :
      (o : Observed) (bytes : Bytes)
      → 0 < length bytes
      → InMessage server o.reader
      → length o.reader.record_bytes ≡ 5
      → 0 < o.reader.record_left
      → o.reader.record_left ≤ 18432
      → o.flags.tls_disabled ≡ off
      → Good Held Disabled (length bytes) (read_record server o bytes)
  unfolding read_record Good
  read_record-Good o bytes some_bytes m full low high same =
      let s = o.reader in
      let count : ℕ = min (length bytes) s.record_left in
      let type = get_or s.record_bytes 0 0 in
      let less = shorter count bytes (omega arith) (omega arith) in
      elim (Bool-cases (type == 22)) [
        | inl z ↦ rw z (
            after_handshake-Good o (drop count bytes) (length bytes) count _ less full (omega arith)
              high same (handshake-Ended server (around o) o (take count bytes) (m, refl)))
        | inr z ↦ elim (Bool-cases (type == 20 && not (get_or bytes 0 0 == 1))) [
          | inl y ↦ rw z (rw y (disable-Good o (length bytes)))
          | inr y ↦ rw z (
              rw y (
                after_part-Good o (drop count bytes) (length bytes) count less m full (omega arith)
                  high same))
        ]
      ]

  record_refused-left :
      (w : Flags) (s : Reader) → record_refused w s ≡ false → s.record_left ≤ 18432
  unfolding record_refused
  record_refused-left w s e = ground (arith, e)

  read_record_header-Good :
      (o : Observed) (bytes : Bytes)
      → 0 < length bytes
      → InMessage server o.reader
      → length o.reader.record_bytes < 5
      → o.flags.tls_disabled ≡ off
      → Good Held Disabled (length bytes) (read_record_header server o bytes)
  unfolding read_record_header Good
  read_record_header-Good o bytes some_bytes m few same =
      let s = o.reader in
      let count : ℕ = min (length bytes) (5 - length s.record_bytes) in
      let header = s.record_bytes ++ take count bytes in
      let type = get_or header 0 0 in
      let size : ℕ = word_at header 3 in
      let kept = length-append s.record_bytes (take count bytes) in
      let less = shorter count bytes (omega arith) (omega arith) in
      let t : Reader = record s {
        last_application = false;
        record_bytes = header;
        record_left = size;
      } in
      let before = InMessage-moved server s header s.record_left s.records false m in
      let after = InMessage-moved server s header size s.records false m in
      elim (Bool-cases (ltb type 20 || ltb 23 type)) [
        | inl z ↦ rw z (disable-Good _ _)
        | inr z ↦ elim (Bool-cases (ltb (length header) 5)) [
          | inl y ↦ rw z (rw y (less, ((inl (ground (arith, y)), before), same)))
          | inr y ↦ elim (Bool-cases (record_refused o.flags t)) [
            | inl x ↦ rw z (rw y (rw x (disable-Good _ _)))
            | inr x ↦ elim (Bool-cases (size == 0)) [
              | inl v ↦ rw z (rw y (rw x (rw v (end_record-Good _ _ _ less after same))))
              | inr v ↦
                  let full : length header ≡ 5 = ground (arith, y, kept, length-take count bytes) in
                  rw z (
                    rw y (
                      rw x (
                        rw v (
                          less,
                          (
                            (inr (full, ground (arith, v), record_refused-left o.flags t x), after),
                            same,
                          ),
                        ))))
            ]
          ]
        ]
      ]

  record_round-Good :
      (o : Observed) (b : ℕ) (bytes : Bytes)
      → Held o (suc (length bytes))
      → Good Held Disabled (suc (length bytes)) (record_round server o (b ∷ bytes))
  unfolding record_round
  record_round-Good o b bytes ((inl few, m), same) =
      let waits : ltb (length o.reader.record_bytes) 5 ≡ true = ground (arith, few) in
      rw waits (read_record_header-Good o (b ∷ bytes) (omega arith) m few same)
  record_round-Good o b bytes ((inr (full, low, high), m), same) =
      let ready : ltb (length o.reader.record_bytes) 5 ≡ false = ground (arith, full) in
      rw ready (read_record-Good o (b ∷ bytes) (omega arith) m full low high same)

  pub observe-Ended :
      (o : Observed) (bytes : Bytes)
      → Held o (length bytes)
      → Ended (λ t. Held t 0) Disabled (read_loop (record_round server) (length bytes) o bytes)
  observe-Ended o bytes held =
      read_loop-Ended Held Disabled (record_round server) record_round-Good (length bytes) o bytes
        (omega arith) held
