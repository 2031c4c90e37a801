-- ===== src/Vision/Wrap/Success.antt =====
-- src/vision.c: with memory and random numbers, a payload is wrapped.
use vless_core_cli.Prelude.{
  choose_left, choose_right, ℕ, ◌+◌, ◌-◌, ◌/◌, ◌%◌, ◌≤◌, Bool, true, false, ◌&&◌, ◌||◌, not, [],
  ◌∷◌, ◌++◌, some, ltb, leb, ◌==◌, if◌then◌else◌, length, Bytes, ◌≡◌, refl, ap, ◌∙◌, inl, inr,
  arith, Bool-cases,
}
use vless_core_cli.Vision.{cmd_continue, cmd_direct}
use vless_core_cli.Vision.Tls.{sub_word32}
use vless_core_cli.Vision.Tls.Records.{Wrap, store}
use vless_core_cli.Vision.Tls.Sound.{IsSound}
use vless_core_cli.Vision.Tls.Total.{observe_tls-IsSound}
use vless_core_cli.Vision.Wrap.{
  Random, long_padding_len, padding_len, block_of, build_block, command_for, wrap_observed,
  wrap_noted, wrap_raw, wrap_chunk,
}

-- Every request for random numbers is answered.
pub record Answers (random : Random) : Type 0 where
  pub range : (low high : ℕ) → low ≤ high → (n : ℕ) × (random.range low high ≡ some n)
  pub fill : (n : ℕ) → (b : Bytes) × (random.fill n ≡ some b)

module _ (room : ℕ → Bool) (roomy : (n : ℕ) → room n ≡ true) (random : Random)
    (answers : Answers random) where
  padding_len_succeeds :
      (content : ℕ) (long : Bool) → (n : ℕ) × (padding_len random content long ≡ some n)
  unfolding padding_len
  padding_len_succeeds content long = elim (Bool-cases (long && ltb content 900)) [
    | inl z ↦
        let (n, e) = answers.range 0 499 (omega arith) in
        (long_padding_len content (n % 65536), rw (z, e) refl)
    | inr z ↦ let (n, e) = answers.range 0 255 (omega arith) in (n % 65536, rw (z, e) refl)
  ]

  block_of_succeeds :
      (w : Wrap) (command : ℕ) (content : Bytes) (padding : ℕ)
      → (bytes : Bytes) × (block_of room random w command content padding ≡ some bytes)
  unfolding block_of
  block_of_succeeds w command content padding =
      let total = (if w.uuid_sent then 0 else 16) + 1 + 2 + 2 + length content + padding in
      let prefix = if w.uuid_sent then [] else w.uuid in
      let header : Bytes =
        command
        ∷ length content / 256 % 256
        ∷ length content % 256
        ∷ padding / 256 % 256
        ∷ padding % 256
        ∷ [] in
      elim (Bool-cases (padding == 0)) [
        | inl z ↦ (prefix ++ (header ++ content), rw (roomy total, z) refl)
        | inr z ↦
            let (b, e) = answers.fill padding in
            (prefix ++ (header ++ (content ++ b)), rw (roomy total, z) (rw e refl))
      ]

  build_block_succeeds :
      (w : Wrap) (command : ℕ) (content : Bytes) (long : Bool)
      → length content ≤ 65535
      → (bytes : Bytes) × (build_block room random w command content long
          ≡ some (record w { uuid_sent = true }, bytes))
  unfolding build_block
  build_block_succeeds w command content long le =
      let (n, e) = padding_len_succeeds (length content) long in
      let (bytes, f) = block_of_succeeds w command content n in
      let short : ltb 65535 (length content) ≡ false = ground (arith, le) in
      (bytes, choose_right _ _ _ short ∙ rw e (rw f refl))

  -- A wrapper behind a payload of which it has seen so many records.
  abbrev behind : Wrap → ℕ → Wrap
  behind u complete = record u {
    uuid_sent = true;
    packets_left = if leb u.packets_left complete then 0 else u.packets_left - complete;
    padding_active = u.padding_active && command_for u complete == cmd_continue;
    direct_sent = u.direct_sent || command_for u complete == cmd_direct;
  }

  wrap_observed_succeeds :
      (u : Wrap) (payload : Bytes) (complete : ℕ)
      → length payload ≤ 65535
      → (bytes : Bytes) × (wrap_observed room random u payload complete
          ≡ some (behind u complete, bytes))
  unfolding wrap_observed
  wrap_observed_succeeds u payload complete le =
      let (bytes, f) =
        build_block_succeeds u (command_for u complete) payload (ltb (length payload) 900) le in
      (bytes, rw (f, wrap_observed) refl)

  -- From a wrapper with sound readers, with memory for every buffer and an answer to every request for
  -- random numbers, a payload of at most 65535 bytes is wrapped, and leaves such a wrapper.
  pub wrap_chunk_succeeds :
      (w : Wrap) (payload : Bytes)
      → IsSound w
      → length payload ≤ 65535
      → (t : Wrap) × (bytes : Bytes) × (wrap_chunk room random w payload ≡ some (t, bytes))
        × IsSound t
  unfolding wrap_chunk
  wrap_chunk_succeeds w payload v le = elim (Bool-cases (length payload == 0)) [
    | inl z ↦ (w, [], choose_left _ _ _ z, v)
    | inr z ↦ elim (Bool-cases (not w.padding_active)) [
      | inl y ↦
          let found = choose_left _ _ _ (roomy (0 + length payload)) in
          (w, payload, choose_right _ _ _ z ∙ choose_left _ _ _ y ∙ ap (λ x. wrap_raw w x) found, v)
      | inr y ↦
          let (o, e, s) = observe_tls-IsSound false w payload v in
          let u = store false w o in
          let complete =
            if u.flags.tls_disabled
            then 1
            else sub_word32 u.client_tls.records w.client_tls.records in
          let (bytes, f) = wrap_observed_succeeds u payload complete le in
          let short : ltb 65535 (length payload) ≡ false = ground (arith, le) in
          (
            behind u complete,
            bytes,
            choose_right _ _ _ z
                ∙ choose_right _ _ _ y
                ∙ choose_right _ _ _ short
                ∙ ap (λ x. wrap_noted room random w payload x) e
                ∙ f,
            s,
          )
    ]
  ]
