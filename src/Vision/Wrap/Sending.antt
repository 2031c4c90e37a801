-- ===== src/Vision/Wrap/Sending.antt =====
-- What a wrapper of src/vision.c sends is a padded stream of the payloads.
use vless_core_cli.Prelude.{
  ℕ, ◌+◌, ◌-◌, ◌/◌, ◌%◌, ◌<◌, Bool, true, ◌&&◌, [], ◌∷◌, ◌++◌, Option, none, some, ltb, ◌==◌,
  if◌then◌else◌, length, Bytes, ◌≡◌, refl, sym, ap, ◌∙◌, inl, inr, arith, Bool-cases, Option-cases,
  append-nil,
}
use vless_core_cli.Vision.Blocks.{Block, IsBlock, block_bytes}
use vless_core_cli.Vision.Tls.Records.{Wrap}
use vless_core_cli.Vision.Wrap.{Random, rand_u16_mod, padding_len, block_of, build_block}

rand_u16_mod-lt : (random : Random) (bound n : ℕ) → rand_u16_mod random bound ≡ some n → n < 65536
rand_u16_mod-lt random bound n e = elim (Bool-cases (bound == 0)) [
  | inl z ↦ ground (arith, e, z)
  | inr z ↦ elim (Option-cases (random.range 0 (bound - 1))) [
    | inl f ↦ ground (arith, e, z, f)
    | inr (m, f) ↦ ground (arith, e, z, f)
  ]
]

padding_len-lt :
    (random : Random) (content n : ℕ) (long : Bool)
    → padding_len random content long ≡ some n
    → n < 65536
unfolding padding_len
padding_len-lt random content n long e = elim (Bool-cases (long && ltb content 900)) [
  | inr z ↦ rand_u16_mod-lt random 256 n (ground (arith, z, e))
  | inl z ↦ elim (Option-cases (rand_u16_mod random 500)) [
    | inl f ↦ ground (arith, e, z, f)
    | inr (m, f) ↦ ground (arith, e, z, f)
  ]
]

pub some_injective : {a b : Bytes} → some a ≡ some b → a ≡ b
some_injective e = cc

pub pair_left :
    {s t : Wrap} {a b : Bytes} → ◌≡◌ {A = Option (Wrap × Bytes)} (some (s, a)) (some (t, b)) → s ≡ t
pair_left e = cc

pub pair_right :
    {s t : Wrap} {a b : Bytes} → ◌≡◌ {A = Option (Wrap × Bytes)} (some (s, a)) (some (t, b)) → a ≡ b
pair_right e = cc

-- A header as `vision_build_block` writes it, with the rest of its block.
header_bytes :
    (command : ℕ) (content padding : Bytes) (size : ℕ)
    → length content < 65536
    → size < 65536
    → length padding ≡ size
    → block_bytes (record { command = command; content = content; padding = padding })
      ≡ command
        ∷ length content / 256 % 256
        ∷ length content % 256
        ∷ size / 256 % 256
        ∷ size % 256
        ∷ (content ++ padding)
header_bytes command content padding size p q e =
    let high : length content / 256 % 256 ≡ length content / 256 = omega arith in
    let high' : size / 256 % 256 ≡ size / 256 = omega arith in rw (high, high', e) refl

header_bytes_bare :
    (command : ℕ) (content : Bytes) (size : ℕ)
    → length content < 65536
    → size < 65536
    → 0 ≡ size
    → block_bytes (record { command = command; content = content; padding = [] })
      ≡ command
        ∷ length content / 256 % 256
        ∷ length content % 256
        ∷ size / 256 % 256
        ∷ size % 256
        ∷ content
header_bytes_bare command content size p q e =
    let high : length content / 256 % 256 ≡ length content / 256 = omega arith in
    rw (sym e, high, append-nil content) refl

-- The block that is built.
unfoldable pub Built : Wrap → ℕ → Bytes → Bytes → Type 0
Built w command content bytes =
    (b : Block) × IsBlock b
    × (b.command ≡ command)
    × (b.content ≡ content)
    × (bytes ≡ (if w.uuid_sent then [] else w.uuid) ++ block_bytes b)

module _ (room : ℕ → Bool) where
  block_of-Built :
      (random : Random) (w : Wrap) (command padding : ℕ) (content bytes : Bytes)
      → length content < 65536
      → padding < 65536
      → block_of room random w command content padding ≡ some bytes
      → Built w command content bytes
  unfolding block_of Built
  block_of-Built random w command padding content bytes p q e =
      let prefix = if w.uuid_sent then [] else w.uuid in
      let total = (if w.uuid_sent then 0 else 16) + 1 + 2 + 2 + length content + padding in
      elim (Bool-cases (room total)) [
        | inr z ↦
            let gone : block_of room random w command content padding ≡ none = rw z refl in
            cc (gone, e)
        | inl z ↦ elim (Bool-cases (padding == 0)) [
          | inl y ↦
              let b : Block = record { command = command; content = content; padding = [] } in
              let built : block_of room random w command content padding
                  ≡ some (prefix ++ block_bytes b) =
                rw (z, block_of)
                  (rw y (
                    ap (λ t. some (prefix ++ t))
                      (sym (header_bytes_bare command content padding p q (ground (arith, y)))))) in
              (
                b,
                record { content = p; padding = omega arith },
                refl,
                refl,
                sym (some_injective (sym built ∙ e)),
              )
          | inr y ↦ elim (Option-cases (random.fill padding)) [
            | inl f ↦
                let gone : block_of room random w command content padding ≡ none =
                  rw (z, block_of) (rw y (rw f refl)) in
                cc (gone, e)
            | inr (fill, f) ↦
                let size = random.fill_length padding fill f in
                let b : Block = record { command = command; content = content; padding = fill } in
                let built : block_of room random w command content padding
                    ≡ some (prefix ++ block_bytes b) =
                  rw (z, block_of)
                    (rw y (
                      rw f (
                        ap (λ t. some (prefix ++ t))
                          (sym (header_bytes command content fill padding p q size))))) in
                (
                  b,
                  record { content = p; padding = omega (arith, size) },
                  refl,
                  refl,
                  sym (some_injective (sym built ∙ e)),
                )
          ]
        ]
      ]

  pub build_block-Built :
      (random : Random) (w t : Wrap) (command : ℕ) (content bytes : Bytes) (long : Bool)
      → build_block room random w command content long ≡ some (t, bytes)
      → (t ≡ record w { uuid_sent = true }) × Built w command content bytes
  unfolding build_block
  build_block-Built random w t command content bytes long e =
      elim (Bool-cases (ltb 65535 (length content))) [
        | inl z ↦
            let gone : build_block room random w command content long ≡ none = rw z refl in
            cc (gone, e)
        | inr z ↦ elim (Option-cases (padding_len random (length content) long)) [
          | inl f ↦
              let gone : build_block room random w command content long ≡ none =
                rw (z, build_block) (rw f refl) in
              cc (gone, e)
          | inr (padding, f) ↦
              elim (Option-cases (block_of room random w command content padding)) [
                | inl g ↦
                    let gone : build_block room random w command content long ≡ none =
                      rw (z, build_block) (rw f (rw g refl)) in
                    cc (gone, e)
                | inr (b, g) ↦
                    let built : build_block room random w command content long
                        ≡ some (record w { uuid_sent = true }, b) =
                      rw (z, build_block) (rw f (rw g refl)) in
                    let same : b ≡ bytes = pair_right (sym built ∙ e) in
                    (
                      sym (pair_left (sym built ∙ e)),
                      block_of-Built random w command padding content bytes (ground (arith, z))
                          (padding_len-lt random (length content) padding long f)
                          (g ∙ ap (λ x. some x) same),
                    )
              ]
        ]
      ]
