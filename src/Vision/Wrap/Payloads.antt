-- ===== src/Vision/Wrap/Payloads.antt =====
-- src/vision.c: the payloads of a session, and what the other side reads.
use vless_core_cli.Prelude.{
  choose_left, choose_right, ℕ, zero, suc, Bool, true, false, ◌&&◌, ◌||◌, not, List, [], ◌∷◌, ◌++◌,
  Option, none, some, ltb, leb, ◌==◌, if◌then◌else◌, take, drop, length, Bytes, ◌≡◌, refl, sym, ap,
  ◌∙◌, inl, inr, arith, Bool-cases, Option-cases, append-nil, append_assoc, take-append-drop,
}
use mathlib.Core.Path.{subst}
use vless_core_cli.Vision.{cmd_continue, append_out, unpad_init, Feed, unpad_feed}
use vless_core_cli.Vision.Blocks.{
  Block, IsBlock, block_bytes, AreBlocks, stream, contents, unpad_feed-stream,
}
use vless_core_cli.Vision.Tls.Records.{Wrap}
use vless_core_cli.Vision.Wrap.{
  Random, Parsed, wrap_init, build_block, bootstrap, wrap_chunk, wrap_chunks, wrap_payload,
}
use vless_core_cli.Vision.Wrap.Sending.{Built, build_block-Built, pair_left, pair_right}
use vless_core_cli.Vision.Wrap.Session.{
  Wire, prefix, stream-append_one, contents-append_one, AreBlocks-append_one, pads_active,
  append_out-append, wrap_chunk-Wire,
}

module _ (room : ℕ → Bool) (uuid : Bytes) where
  wrap_chunks-Wire :
      (random : ℕ → Random) (n : ℕ) (w t : Wrap) (out payload bytes wire sent : Bytes)
      → Wire uuid w (wire ++ out) sent
      → wrap_chunks room random n w out payload ≡ some (t, bytes)
      → Wire uuid t (wire ++ bytes) (sent ++ payload)
  unfolding wrap_chunks
  wrap_chunks-Wire random n w t out [] bytes wire sent v h =
      let same : out ≡ bytes = pair_right h in
      subst (λ x. Wire uuid x (wire ++ bytes) (sent ++ [])) (pair_left h)
        (rw (sym same, append-nil sent) v)
  wrap_chunks-Wire random zero w t out (b ∷ ps) bytes wire sent v h = cc h
  wrap_chunks-Wire random (suc n) w t out (b ∷ ps) bytes wire sent v h =
      let payload = b ∷ ps in
      let left : ℕ = length payload in
      let size : ℕ = if w.padding_active && ltb 65535 left then 65535 else left in
      elim (Option-cases (wrap_chunk room (random n) w (take size payload))) [
        | inl f ↦
            let gone : wrap_chunks room random (suc n) w out payload ≡ none =
              rw (f, wrap_chunks) refl in
            cc (gone, h)
        | inr ((u, chunk), f) ↦ elim (Option-cases (append_out room out chunk)) [
          | inl g ↦
              let gone : wrap_chunks room random (suc n) w out payload ≡ none =
                rw (f, wrap_chunks) (rw g refl) in
              cc (gone, h)
          | inr (more, g) ↦
              let gives : wrap_chunks room random (suc n) w out payload
                  ≡ wrap_chunks room random n u more (drop size payload) =
                rw (f, wrap_chunks) (rw g refl) in
              let step =
                wrap_chunk-Wire room uuid (random n) w u (take size payload) chunk (wire ++ out)
                  sent v f in
              let place : (wire ++ out) ++ chunk ≡ wire ++ more =
                append_assoc wire out chunk
                ∙ ap (λ x. wire ++ x) (sym (append_out-append room uuid out chunk more g)) in
              let all : (sent ++ take size payload) ++ drop size payload ≡ sent ++ payload =
                append_assoc sent (take size payload) (drop size payload)
                ∙ ap (λ x. sent ++ x) (take-append-drop size payload) in
              let rest =
                wrap_chunks-Wire random n u t more (drop size payload) bytes wire
                  (sent ++ take size payload)
                  (subst (λ x. Wire uuid u x (sent ++ take size payload)) place step)
                  (sym gives ∙ h) in
              subst (λ x. Wire uuid t (wire ++ bytes) x) all rest
        ]
      ]

  -- If what was sent so far carries the payloads so far, either in blocks that go on while the wrapper
  -- pads, or in such blocks, a last one and bytes as they are, and a call on a payload of any length
  -- succeeds, then what was sent with the new output carries those payloads and the new one.
  pub wrap_payload-Wire :
      (random : ℕ → Random) (w t : Wrap) (payload bytes wire sent : Bytes)
      → Wire uuid w wire sent
      → wrap_payload room random w payload ≡ some (t, bytes)
      → Wire uuid t (wire ++ bytes) (sent ++ payload)
  unfolding wrap_payload
  wrap_payload-Wire random w t payload bytes wire sent v h =
      let short = leb (length payload) 65535 || not w.padding_active in
      elim (Bool-cases short) [
        | inl z ↦
            wrap_chunk-Wire room uuid (random 0) w t payload bytes wire sent v
              (sym (choose_left short _ _ z) ∙ h)
        | inr z ↦
            wrap_chunks-Wire random (length payload) w t [] payload bytes wire sent
              (rw (append-nil wire) v) (sym (choose_right short _ _ z) ∙ h)
      ]

  pub wrap_init-Wire : (env : Parsed) → Wire uuid (wrap_init env uuid) [] []
  wrap_init-Wire env = inl (refl, ([], tt, sym (append-nil uuid), refl))

  bootstrap-Wire :
      (random : Random) (w t : Wrap) (bytes wire sent : Bytes)
      → Wire uuid w wire sent
      → bootstrap room random w ≡ some (t, bytes)
      → Wire uuid t (wire ++ bytes) sent
  unfolding bootstrap Built
  bootstrap-Wire random w t bytes wire sent v h =
      let none_due = not w.padding_active || w.bootstrap_sent in
      elim (Bool-cases none_due) [
        | inl z ↦
            let noted = sym (choose_left none_due _ _ z) ∙ h in
            let same : [] ≡ bytes = pair_right noted in
            subst (λ x. Wire uuid x (wire ++ bytes) sent) (pair_left noted)
              (rw (sym same, append-nil wire) v)
        | inr z ↦ elim (Option-cases (build_block room random w cmd_continue [] true)) [
          | inl f ↦
              let gone : bootstrap room random w ≡ none = choose_right none_due _ _ z ∙ rw f refl in
              cc (gone, h)
          | inr ((u, c), f) ↦
              let active : w.padding_active ≡ true = ground (arith, z) in
              let (bs, v', e, s) = pads_active uuid w wire sent active v in
              let (same, (b, w', k, content, built)) =
                build_block-Built room random w u cmd_continue [] c true f in
              let gives : bootstrap room random w ≡ some (record u { bootstrap_sent = true }, c) =
                choose_right none_due _ _ z ∙ rw f refl in
              let out : c ≡ bytes = pair_right (sym gives ∙ h) in
              let active' : u.padding_active ≡ true =
                ap (λ (x : Wrap). x.padding_active) same ∙ active in
              let sent_uuid : u.uuid_sent ≡ true = ap (λ (x : Wrap). x.uuid_sent) same in
              let whole : wire ++ bytes ≡ uuid ++ stream (bs ++ (b ∷ [])) =
                ap (λ x. wire ++ x) (sym out ∙ built)
                ∙ sym (append_assoc wire (prefix w) (block_bytes b))
                ∙ ap (λ x. x ++ block_bytes b) e
                ∙ append_assoc uuid (stream bs) (block_bytes b)
                ∙ ap (λ x. uuid ++ x) (sym (stream-append_one bs b)) in
              subst (λ x. Wire uuid x (wire ++ bytes) sent) (pair_left (sym gives ∙ h))
                (inl (
                  active',
                  (
                    bs ++ (b ∷ []),
                    AreBlocks-append_one bs b v' k w',
                    rw sent_uuid (append-nil (wire ++ bytes) ∙ whole),
                    s
                        ∙ sym (append-nil (contents bs))
                        ∙ ap (λ x. contents bs ++ x) (sym content)
                        ∙ sym (contents-append_one bs b),
                  ),
                ))
        ]
      ]

raw_now :
    (uuid : Bytes) (w : Wrap) (wire sent : Bytes)
    → w.padding_active ≡ false
    → Wire uuid w wire sent
    → (bs : List Block) × (b : Block) × (rest : Bytes) × AreBlocks bs
      × IsBlock b
      × ((b.command == cmd_continue) ≡ false)
      × (wire ≡ uuid ++ (stream bs ++ (block_bytes b ++ rest)))
      × (sent ≡ contents bs ++ (b.content ++ rest))
raw_now uuid w wire sent off (inl (on, _)) = cc (on, off)
raw_now uuid w wire sent off (inr (_, raw)) = raw

-- The payloads of a session, with one call for each payload.
abbrev pub send_all : (ℕ → Bool) → (ℕ → ℕ → Random) → Wrap → List Bytes → Option (Wrap × Bytes)
send_all room random w [] = some (w, [])
send_all room random w (payload ∷ payloads) =
    elim (wrap_payload room (random (length payloads)) w payload) [
      | none ↦ none
      | some (u, bytes) ↦ elim (send_all room random u payloads) [
        | none ↦ none
        | some (t, rest) ↦ some (t, bytes ++ rest)
      ]
    ]

abbrev pub all_of : List Bytes → Bytes
all_of [] = []
all_of (payload ∷ payloads) = payload ++ all_of payloads

module _ (room : ℕ → Bool) (uuid : Bytes) (random : ℕ → ℕ → Random) where
  send_all-Wire :
      (w t : Wrap) (payloads : List Bytes) (bytes wire sent : Bytes)
      → Wire uuid w wire sent
      → send_all room random w payloads ≡ some (t, bytes)
      → Wire uuid t (wire ++ bytes) (sent ++ all_of payloads)
  send_all-Wire w t [] bytes wire sent v h =
      let same : [] ≡ bytes = pair_right h in
      subst (λ x. Wire uuid x (wire ++ bytes) (sent ++ [])) (pair_left h)
        (rw (sym same, append-nil wire, append-nil sent) v)
  send_all-Wire w t (payload ∷ payloads) bytes wire sent v h =
      elim (Option-cases (wrap_payload room (random (length payloads)) w payload)) [
        | inl f ↦
            let gone : send_all room random w (payload ∷ payloads) ≡ none = rw (f, send_all) refl in
            cc (gone, h)
        | inr ((u, first), f) ↦ elim (Option-cases (send_all room random u payloads)) [
          | inl g ↦
              let gone : send_all room random w (payload ∷ payloads) ≡ none =
                rw (f, send_all) (rw g refl) in
              cc (gone, h)
          | inr ((t', rest), g) ↦
              let gives : send_all room random w (payload ∷ payloads) ≡ some (t', first ++ rest) =
                rw (f, send_all) (rw g refl) in
              let out : first ++ rest ≡ bytes = pair_right (sym gives ∙ h) in
              let step =
                wrap_payload-Wire room uuid (random (length payloads)) w u payload first wire sent v
                  f in
              let others =
                send_all-Wire u t' payloads rest (wire ++ first) (sent ++ payload) step g in
              subst (λ x. Wire uuid x (wire ++ bytes) (sent ++ all_of (payload ∷ payloads)))
                (pair_left (sym gives ∙ h))
                (subst (λ x. Wire uuid t' (wire ++ x) (sent ++ all_of (payload ∷ payloads))) out
                  (subst (λ x. Wire uuid t' (wire ++ (first ++ rest)) x)
                    (append_assoc sent payload (all_of payloads))
                    (subst (λ x. Wire uuid t' x ((sent ++ payload) ++ all_of payloads))
                      (append_assoc wire first rest) others)))
        ]
      ]

  -- The bootstrap of a new wrapper, and the payloads.
  abbrev pub session : Parsed → List Bytes → Option (Wrap × Bytes)
  session env payloads = elim (bootstrap room (random (length payloads) 0) (wrap_init env uuid)) [
    | none ↦ none
    | some (w, bytes) ↦ elim (send_all room random w payloads) [
      | none ↦ none
      | some (t, rest) ↦ some (t, bytes ++ rest)
    ]
  ]

  session-Wire :
      (env : Parsed) (payloads : List Bytes) (t : Wrap) (wire : Bytes)
      → session env payloads ≡ some (t, wire)
      → Wire uuid t wire (all_of payloads)
  session-Wire env payloads t wire h =
      let start = wrap_init env uuid in
      elim (Option-cases (bootstrap room (random (length payloads) 0) start)) [
        | inl f ↦ let gone : session env payloads ≡ none = rw (f, session) refl in cc (gone, h)
        | inr ((w, bytes), f) ↦ elim (Option-cases (send_all room random w payloads)) [
          | inl g ↦
              let gone : session env payloads ≡ none = rw (f, session) (rw g refl) in cc (gone, h)
          | inr ((t', rest), g) ↦
              let gives : session env payloads ≡ some (t', bytes ++ rest) =
                rw (f, session) (rw g refl) in
              let out : bytes ++ rest ≡ wire = pair_right (sym gives ∙ h) in
              let first =
                bootstrap-Wire room uuid _ start w bytes [] [] (wrap_init-Wire room uuid env) f in
              let others = send_all-Wire w t' payloads rest bytes [] first g in
              subst (λ x. Wire uuid x wire (all_of payloads)) (pair_left (sym gives ∙ h))
                (subst (λ x. Wire uuid t' x (all_of payloads)) out others)
        ]
      ]

  -- With a UUID of 16 bytes, and memory for every buffer of the reader: if a session, its bootstrap and
  -- its payloads of any length, leaves the wrapper past its padding, then one call of the other side on
  -- all that was sent gives the payloads one after another, and keeps nothing back.
  pub session-unpad :
      (env : Parsed) (payloads : List Bytes) (t : Wrap) (wire : Bytes) (space : ℕ → Bool)
      → length uuid ≡ 16
      → ((n : ℕ) → space n ≡ true)
      → session env payloads ≡ some (t, wire)
      → t.padding_active ≡ false
      → (f : Feed) × (unpad_feed space (unpad_init uuid) wire ≡ some f)
        × (f.out ≡ all_of payloads)
        × (f.unpad.stash ≡ [])
  session-unpad env payloads t wire space n roomy h off =
      let (bs, b, rest, v, k, last, e, s) =
        raw_now uuid t wire (all_of payloads) off (session-Wire env payloads t wire h) in
      let (f, g, o, l, d) = unpad_feed-stream space roomy uuid bs b rest n v k last in
      (f, subst (λ x. unpad_feed space (unpad_init uuid) x ≡ some f) (sym e) g, o ∙ sym s, l)
