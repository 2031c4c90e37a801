-- ===== src/Vision/Tls/Bounds.antt =====
-- src/vision.c: the counters of the reader of TLS records stay within its arrays and its messages.
use vless_core_cli.Prelude.{
  ℕ, suc, ◌+◌, ◌-◌, ◌≤◌, ◌<◌, min, Bool, true, false, ◌&&◌, ◌||◌, not, [], ◌∷◌, ◌++◌, ltb, ◌==◌,
  if◌then◌else◌, take, drop, length, Bytes, sub_size, ◌≡◌, refl, sym, ◌⊎◌, inl, inr, arith,
  Bool-cases, length-append, length-take, length-drop,
}
use vless_core_cli.Prelude.Loops.{Anything, Good}
use mathlib.Core.Path.{subst}
use vless_core_cli.Vision.Tls.{
  Reader, Phase, hello_prefix, hello_ciphers, hello_compression_length, hello_compression,
  hello_extensions_length, hello_extension_header, hello_extension, sub_word32, word_at,
  skip_ciphers, skip_compression, read_compression_length, read_extension, read_extensions_length,
  start_extension, read_extension_header,
}
use vless_core_cli.Socks5.{contains_zero}

-- What the phases of a hello rely on: the bytes kept are fewer than the phase waits for.
unfoldable pub Ready : Bool → Phase → Reader → Type 0
Ready server hello_prefix s =
    (length s.field_bytes ≡ 0) × (length s.prefix_bytes < s.prefix_need) × (s.prefix_need ≤ 70)
Ready server hello_ciphers s =
    (length s.field_bytes ≡ 0) × (0 < s.skip_left) × (s.skip_left ≤ 1048576)
Ready server hello_compression_length s = length s.field_bytes ≡ 0
Ready server hello_compression s =
    (length s.field_bytes ≡ 0) × (0 < s.skip_left) × (s.skip_left ≤ 1048576)
Ready server hello_extensions_length s = length s.field_bytes < 2
Ready server hello_extension_header s = (length s.field_bytes < 4) × (s.extensions_left ≤ 1048576)
Ready server hello_extension s =
    (0 < s.extension_left)
    × (s.extension_left ≤ s.extensions_left)
    × (s.extensions_left ≤ 1048576)
    × ((((server && s.extension == 43) ≡ false) × (length s.field_bytes ≡ 0))
        ⊎ (((server && s.extension == 43) ≡ true) × (length s.field_bytes + s.extension_left ≡ 2)))

-- What the rounds for a hello leave alone.
abbrev pub Outer : Type 0
Outer = Bool × Bytes × Bytes × ℕ

abbrev pub outer : Reader → Outer
outer s = (s.interested, s.message_bytes, s.record_bytes, s.record_left)

-- A message of which these bytes are at hand, and `k` are to come.
abbrev pub Fits : Bool → ℕ → Outer → Reader → ℕ → Type 0
Fits server k f s n =
    (s.message_left ≡ n + k) × (n + k ≤ 1048576) × Ready server s.phase s × (outer s ≡ f)

pub sub_word32-exact : (a b : ℕ) → b ≤ a → a ≤ 1048576 → sub_word32 a b ≡ a - b
sub_word32-exact a b p q = omega arith

pub sub_size-exact : (a b : ℕ) → b ≤ a → a ≤ 70 → sub_size a b ≡ a - b
sub_size-exact a b p q = omega arith

-- The message that is left, behind `count` of the bytes.
pub message_left-drop :
    (left k count : ℕ) (bytes : Bytes)
    → left ≡ length bytes + k
    → length bytes + k ≤ 1048576
    → count ≤ length bytes
    → (sub_word32 left count ≡ length (drop count bytes) + k)
      × (length (drop count bytes) + k ≤ 1048576)
message_left-drop left k count bytes e p q =
    (omega (arith, length-drop count bytes), omega (arith, length-drop count bytes))

pub shorter :
    (count : ℕ) (bytes : Bytes)
    → 0 < count
    → count ≤ length bytes
    → length (drop count bytes) < length bytes
shorter count bytes p q = omega (arith, length-drop count bytes)

pub stays :
    (server : Bool) (t : Reader) {p : Phase}
    → t.phase ≡ p
    → Ready server p t
    → Ready server t.phase t
stays server t e r = subst (λ p. Ready server p t) (sym e) r

module _ (server : Bool) (k : ℕ) (f : Outer) where
  -- A round at `n` bytes of a message, in a phase.
  abbrev pub At : Phase → Reader → ℕ → Type 0
  At p s n =
      (0 < n)
      × (s.message_left ≡ n + k)
      × (n + k ≤ 1048576)
      × (outer s ≡ f)
      × (s.phase ≡ p)
      × Ready server p s

  pub skip_ciphers-Good :
      (s : Reader) (bytes : Bytes)
      → At hello_ciphers s (length bytes)
      → Good (Fits server k f) Anything (length bytes) (skip_ciphers s bytes)
  unfolding skip_ciphers Good Ready
  skip_ciphers-Good s bytes (some_bytes, m, le, o, e, (field, low, high)) =
      let count : ℕ = min (length bytes) s.skip_left in
      let (m', le') = message_left-drop s.message_left k count bytes m le (omega arith) in
      let less = shorter count bytes (omega arith) (omega arith) in
      let left = sub_word32-exact s.skip_left count (omega arith) high in
      elim (Bool-cases (sub_word32 s.skip_left count == 0)) [
        | inl z ↦ rw z (less, (m', le', field, o))
        | inr z ↦ rw z (
          less,
          (m', le', stays server _ e (field, ground (arith, left, z), omega (arith, left)), o),
        )
      ]

  pub skip_compression-Good :
      (s : Reader) (bytes : Bytes)
      → At hello_compression s (length bytes)
      → Good (Fits server k f) Anything (length bytes) (skip_compression s bytes)
  unfolding skip_compression Good Ready
  skip_compression-Good s bytes (some_bytes, m, le, o, e, (field, low, high)) =
      let count : ℕ = min (length bytes) s.skip_left in
      let (m', le') = message_left-drop s.message_left k count bytes m le (omega arith) in
      let less = shorter count bytes (omega arith) (omega arith) in
      let left = sub_word32-exact s.skip_left count (omega arith) high in
      let seen = s.compression_seen || contains_zero (take count bytes) in
      elim (Bool-cases (sub_word32 s.skip_left count == 0)) [
        | inl z ↦ elim (Bool-cases seen) [
          | inl y ↦ rw z (rw y (less, (m', le', omega (arith, field), o)))
          | inr y ↦ rw z (rw y tt)
        ]
        | inr z ↦ rw z (
          less,
          (m', le', stays server _ e (field, ground (arith, left, z), omega (arith, left)), o),
        )
      ]

  pub read_compression_length-Good :
      (s : Reader) (b : ℕ) (bytes : Bytes)
      → At hello_compression_length s (suc (length bytes))
      → Good (Fits server k f) Anything (suc (length bytes)) (read_compression_length s (b ∷ bytes))
  unfolding read_compression_length Good Ready
  read_compression_length-Good s b bytes (some_bytes, m, le, o, e, field) =
      let (m', le') = message_left-drop s.message_left k 1 (b ∷ bytes) m le (omega arith) in
      let less : length bytes < suc (length bytes) = omega arith in
      elim (Bool-cases (b == 0 || ltb (sub_word32 s.message_left 1) b)) [
        | inl z ↦ rw z tt
        | inr z ↦ rw z (less, (m', le', (field, ground (arith, z), ground (arith, z, m', le')), o))
      ]

  pub read_extensions_length-Good :
      (s : Reader) (bytes : Bytes)
      → At hello_extensions_length s (length bytes)
      → Good (Fits server k f) Anything (length bytes) (read_extensions_length s bytes)
  unfolding read_extensions_length Good Ready
  read_extensions_length-Good s bytes (some_bytes, m, le, o, e, few) =
      let missing = sub_size-exact 2 (length s.field_bytes) (omega arith) (omega arith) in
      let count : ℕ = min (length bytes) (sub_size 2 (length s.field_bytes)) in
      let field = s.field_bytes ++ take count bytes in
      let kept = length-append s.field_bytes (take count bytes) in
      let (m', le') = message_left-drop s.message_left k count bytes m le (omega arith) in
      let less = shorter count bytes (omega (arith, missing)) (omega arith) in
      elim (Bool-cases (length field == 2)) [
        | inl z ↦ elim (Bool-cases (word_at field 0 == sub_word32 s.message_left count)) [
          | inl y ↦
              let same : word_at field 0 ≡ sub_word32 s.message_left count = ground (arith, y) in
              rw z (rw y (less, (m', le', (omega arith, omega (arith, same, m', le')), o)))
          | inr y ↦ rw z (rw y tt)
        ]
        | inr z ↦ rw z (
          less,
          (
            m',
            le',
            stays server _ e (ground (arith, kept, length-take count bytes, missing, z)),
            o,
          ),
        )
      ]

  start_extension-Good :
      (s : Reader) (rest : Bytes) (n : ℕ)
      → length rest < n
      → (s.message_left ≡ length rest + k) × (length rest + k ≤ 1048576)
      → outer s ≡ f
      → s.phase ≡ hello_extension_header
      → s.extensions_left ≤ 1048576
      → Good (Fits server k f) Anything n (start_extension server s rest)
  unfolding start_extension Good Ready
  start_extension-Good s rest n less (m, le) o e high =
      let size = word_at s.field_bytes 2 in
      let kept = server && word_at s.field_bytes 0 == 43 in
      elim (Bool-cases (ltb s.extensions_left size)) [
        | inl z ↦ rw z tt
        | inr z ↦ elim (Bool-cases (kept && (s.version_seen || not (size == 2)))) [
          | inl y ↦ rw z (rw y tt)
          | inr y ↦ elim (Bool-cases (size == 0)) [
            | inl x ↦ rw z (rw y (rw x (less, (m, le, stays server _ e (omega arith, high), o))))
            | inr x ↦
                let field : ((kept ≡ false) × (length {A = ℕ} [] ≡ 0))
                    ⊎ ((kept ≡ true) × (length {A = ℕ} [] + size ≡ 2)) =
                  elim (Bool-cases kept) [
                    | inl w ↦ inr (w, ground (arith, y, w))
                    | inr w ↦ inl (w, refl)
                  ] in
                rw z (
                  rw y
                    (rw x (less, (m, le, (ground (arith, x), ground (arith, z), high, field), o))))
          ]
        ]
      ]

  pub read_extension_header-Good :
      (s : Reader) (bytes : Bytes)
      → At hello_extension_header s (length bytes)
      → Good (Fits server k f) Anything (length bytes) (read_extension_header server s bytes)
  unfolding read_extension_header Good Ready
  read_extension_header-Good s bytes (some_bytes, m, le, o, e, (few, high)) =
      let missing = sub_size-exact 4 (length s.field_bytes) (omega arith) (omega arith) in
      let count : ℕ = min (length bytes) (sub_size 4 (length s.field_bytes)) in
      let field = s.field_bytes ++ take count bytes in
      let kept = length-append s.field_bytes (take count bytes) in
      let (m', le') = message_left-drop s.message_left k count bytes m le (omega arith) in
      let less = shorter count bytes (omega (arith, missing)) (omega arith) in
      elim (Bool-cases (ltb s.extensions_left (sub_size 4 (length s.field_bytes)))) [
        | inl z ↦ rw z tt
        | inr z ↦
            let left = sub_word32-exact s.extensions_left count (ground (arith, z)) high in
            let small : sub_word32 s.extensions_left count ≤ 1048576 = omega (arith, left) in
            elim (Bool-cases (length field == 4)) [
              | inl y ↦ rw z (rw y (start_extension-Good _ _ _ less (m', le') o e small))
              | inr y ↦ rw z (
                  rw y (
                    less,
                    (
                      m',
                      le',
                      stays server _ e
                          (ground (arith, kept, length-take count bytes, missing, y), small),
                      o,
                    ),
                  ))
            ]
      ]

  pub read_extension-Good :
      (s : Reader) (bytes : Bytes)
      → At hello_extension s (length bytes)
      → Good (Fits server k f) Anything (length bytes) (read_extension server s bytes)
  unfolding read_extension Good Ready
  read_extension-Good s bytes (some_bytes, m, le, o, e, (low, inner, high, field)) =
      let count : ℕ = min (length bytes) s.extension_left in
      let (m', le') = message_left-drop s.message_left k count bytes m le (omega arith) in
      let less = shorter count bytes (omega arith) (omega arith) in
      let left = sub_word32-exact s.extension_left count (omega arith) (omega arith) in
      let kept = server && s.extension == 43 in
      let field' : sub_word32 s.extension_left count ≡ s.extension_left - count
          → ((kept ≡ false)
              × (length (if kept then s.field_bytes ++ take count bytes else s.field_bytes) ≡ 0))
            ⊎ ((kept ≡ true)
                × (length (if kept then s.field_bytes ++ take count bytes else s.field_bytes)
                      + sub_word32 s.extension_left count
                    ≡ 2)) =
        λ same. elim field [
          | inl (w, q) ↦ inl (w, rw w q)
          | inr (w, q) ↦ inr (
            w,
            rw w (
                omega (
                  arith,
                  q,
                  same,
                  length-append s.field_bytes (take count bytes),
                  length-take count bytes,
                )),
          )
        ] in
      let lefts = sub_word32-exact s.extensions_left count (omega arith) high in
      elim (Bool-cases (sub_word32 s.extension_left count == 0)) [
        | inl z ↦ rw z (less, (m', le', (omega arith, omega (arith, lefts)), o))
        | inr z ↦ rw z (
          less,
          (
            m',
            le',
            stays server _ e
                (ground (arith, z), omega (arith, left, lefts), omega (arith, lefts), field' left),
            o,
          ),
        )
      ]
