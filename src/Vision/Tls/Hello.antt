-- ===== src/Vision/Tls/Hello.antt =====
-- src/vision.c: a hello is read to its end, within the arrays of the reader and within its message.
use vless_core_cli.Prelude.{
  ℕ, suc, ◌+◌, ◌%◌, ◌≤◌, ◌<◌, min, Bool, ◌&&◌, ◌||◌, not, ◌∷◌, ◌++◌, ltb, ◌==◌, if◌then◌else◌,
  get_or, take, length, Bytes, sub_size, ◌≡◌, refl, inl, inr, arith, Bool-cases, length-append,
  length-take,
}
use vless_core_cli.Prelude.Loops.{Anything, Good, Ended, read_loop-Ended}
use vless_core_cli.Vision.Tls.{
  Reader, Phase, hello_prefix, hello_ciphers, hello_compression_length, hello_compression,
  hello_extensions_length, hello_extension_header, hello_extension, word_at, start_prefix,
  end_prefix, read_prefix, skip_ciphers, skip_compression, read_compression_length, read_extension,
  read_extensions_length, read_extension_header, hello_round, hello_body,
}
use vless_core_cli.Vision.Tls.Bounds.{
  Ready, Outer, outer, Fits, At, sub_size-exact, message_left-drop, shorter, stays,
  skip_ciphers-Good, skip_compression-Good, read_compression_length-Good, read_extension-Good,
  read_extensions_length-Good, read_extension_header-Good,
}

module _ (server : Bool) (k : ℕ) (f : Outer) where
  start_prefix-Good :
      (s : Reader) (rest : Bytes) (n : ℕ)
      → length rest < n
      → (s.message_left ≡ length rest + k) × (length rest + k ≤ 1048576)
      → outer s ≡ f
      → s.phase ≡ hello_prefix
      → length s.field_bytes ≡ 0
      → length s.prefix_bytes ≡ 35
      → Good (Fits server k f) Anything n (start_prefix server s rest)
  unfolding start_prefix Good Ready
  start_prefix-Good s rest n less (m, le) o e field full =
      let minor = get_or s.prefix_bytes 1 0 in
      let session = get_or s.prefix_bytes 34 0 in
      let need : ℕ = 35 + session + (if server then 3 else 2) in
      let more : (35 + session < need) × (need ≤ 38 + session) = elim (Bool-cases server) [
        | inl y ↦ rw y (omega arith, omega arith)
        | inr y ↦ rw y (omega arith, omega arith)
      ] in
      elim (Bool-cases (
        not (get_or s.prefix_bytes 0 0 == 3)
        || minor == 0
        || ltb 3 minor
        || (server && not (minor == 3))
        || ltb 32 session)) [
          | inl z ↦ rw z tt
          | inr z ↦
              let short : session ≤ 32 = ground (arith, z) in
              elim (Bool-cases (ltb s.message_left (sub_size need (length s.prefix_bytes)))) [
                | inl y ↦ rw z (rw y tt)
                | inr y ↦ rw z (
                    rw y (
                      less,
                      (
                        m,
                        le,
                        stays server _ e
                            (field, omega (arith, full, more.0), omega (arith, more.1)),
                        o,
                      ),
                    ))
              ]
        ]

  end_prefix-Good :
      (s : Reader) (rest : Bytes) (n : ℕ)
      → length rest < n
      → (s.message_left ≡ length rest + k) × (length rest + k ≤ 1048576)
      → outer s ≡ f
      → length s.field_bytes ≡ 0
      → Good (Fits server k f) Anything n (end_prefix server s rest)
  unfolding end_prefix Good Ready
  end_prefix-Good s rest n less (m, le) o field =
      let word = word_at s.prefix_bytes (35 + get_or s.prefix_bytes 34 0) in
      elim (Bool-cases server) [
        | inl z ↦ elim (Bool-cases (get_or s.prefix_bytes (sub_size s.prefix_need 1) 0 == 0)) [
          | inl y ↦ rw z (rw y (less, (m, le, omega (arith, field), o)))
          | inr y ↦ rw z (rw y tt)
        ]
        | inr z ↦ elim (Bool-cases (ltb word 2 || not (word % 2 == 0) || ltb s.message_left word)) [
          | inl y ↦ rw z (rw y tt)
          | inr y ↦ rw z (rw y (less, (m, le, (field, ground (arith, y), ground (arith, y, m)), o)))
        ]
      ]

  read_prefix-Good :
      (s : Reader) (bytes : Bytes)
      → At server k f hello_prefix s (length bytes)
      → Good (Fits server k f) Anything (length bytes) (read_prefix server s bytes)
  unfolding read_prefix Good Ready
  read_prefix-Good s bytes (some_bytes, m, le, o, e, (field, few, high)) =
      let missing = sub_size-exact s.prefix_need (length s.prefix_bytes) (omega arith) high in
      let count : ℕ = min (length bytes) (sub_size s.prefix_need (length s.prefix_bytes)) in
      let prefix = s.prefix_bytes ++ take count bytes in
      let kept = length-append s.prefix_bytes (take count bytes) in
      let (m', le') = message_left-drop s.message_left k count bytes m le (omega arith) in
      let less = shorter count bytes (omega (arith, missing)) (omega arith) in
      elim (Bool-cases (length prefix == s.prefix_need)) [
        | inr z ↦ rw z (
          less,
          (
            m',
            le',
            stays server _ e
                (field, ground (arith, kept, length-take count bytes, missing, z), high),
            o,
          ),
        )
        | inl z ↦ elim (Bool-cases (s.prefix_need == 35)) [
          | inl y ↦
              rw z (rw y (start_prefix-Good _ _ _ less (m', le') o e field (ground (arith, y, z))))
          | inr y ↦ rw z (rw y (end_prefix-Good _ _ _ less (m', le') o field))
        ]
      ]

  hello_round-Good :
      (s : Reader) (b : ℕ) (bytes : Bytes)
      → Fits server k f s (suc (length bytes))
      → Good (Fits server k f) Anything (suc (length bytes)) (hello_round server s (b ∷ bytes))
  unfolding hello_round
  hello_round-Good s b bytes (m, le, r, o) = go s.phase refl r
    where
      go :
          (p : Phase)
          → s.phase ≡ p
          → Ready server p s
          → Good (Fits server k f) Anything (suc (length bytes)) (elim p [
            | hello_prefix ↦ read_prefix server s (b ∷ bytes)
            | hello_ciphers ↦ skip_ciphers s (b ∷ bytes)
            | hello_compression_length ↦ read_compression_length s (b ∷ bytes)
            | hello_compression ↦ skip_compression s (b ∷ bytes)
            | hello_extensions_length ↦ read_extensions_length s (b ∷ bytes)
            | hello_extension_header ↦ read_extension_header server s (b ∷ bytes)
            | hello_extension ↦ read_extension server s (b ∷ bytes)
          ])
      go hello_prefix e r = read_prefix-Good s (b ∷ bytes) (omega arith, m, le, o, e, r)
      go hello_ciphers e r =
          skip_ciphers-Good server k f s (b ∷ bytes) (omega arith, m, le, o, e, r)
      go hello_compression_length e r =
          read_compression_length-Good server k f s b bytes (omega arith, m, le, o, e, r)
      go hello_compression e r =
          skip_compression-Good server k f s (b ∷ bytes) (omega arith, m, le, o, e, r)
      go hello_extensions_length e r =
          read_extensions_length-Good server k f s (b ∷ bytes) (omega arith, m, le, o, e, r)
      go hello_extension_header e r =
          read_extension_header-Good server k f s (b ∷ bytes) (omega arith, m, le, o, e, r)
      go hello_extension e r =
          read_extension-Good server k f s (b ∷ bytes) (omega arith, m, le, o, e, r)

  pub hello_body-Ended :
      (s : Reader) (bytes : Bytes)
      → Fits server k f s (length bytes)
      → Ended (λ t. Fits server k f t 0) Anything (hello_body server s bytes)
  unfolding hello_body
  hello_body-Ended s bytes fits =
      read_loop-Ended (Fits server k f) Anything (hello_round server) hello_round-Good
        (length bytes) s bytes (omega arith) fits
