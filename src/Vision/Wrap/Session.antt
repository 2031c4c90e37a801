-- ===== src/Vision/Wrap/Session.antt =====
-- src/vision.c: what a wrapper sends over a session, and what the other side makes of it.
use vless_core_cli.Prelude.{
  choose_left, choose_right, ℕ, ◌+◌, ◌-◌, Bool, true, false, ◌&&◌, ◌||◌, not, List, [], ◌∷◌, ◌++◌,
  none, some, ltb, leb, ◌==◌, if◌then◌else◌, length, Bytes, ◌≡◌, refl, sym, ap, ap₂, ◌∙◌, ◌⊎◌, inl,
  inr, arith, Bool-cases, Option-cases, append-nil, append_assoc,
}
use mathlib.Core.Path.{subst}
use vless_core_cli.Vision.{cmd_continue, cmd_direct, append_out}
use vless_core_cli.Vision.Blocks.{Block, IsBlock, block_bytes, AreBlocks, stream, contents}
use vless_core_cli.Vision.Tls.Records.{Wrap, observe_tls}
use vless_core_cli.Vision.Tls.Total.{observe_tls-store}
use vless_core_cli.Vision.Wrap.{
  Random, build_block, command_for, wrap_observed, wrap_noted, wrap_raw, wrap_chunk,
}
use vless_core_cli.Vision.Wrap.Sending.{
  Built, build_block-Built, pair_left, pair_right, some_injective,
}

pub stream-append_one :
    (bs : List Block) (b : Block) → stream (bs ++ (b ∷ [])) ≡ stream bs ++ block_bytes b
stream-append_one [] b = append-nil (block_bytes b)
stream-append_one (x ∷ xs) b =
    ap (λ t. block_bytes x ++ t) (stream-append_one xs b)
    ∙ sym (append_assoc (block_bytes x) (stream xs) (block_bytes b))

pub contents-append_one :
    (bs : List Block) (b : Block) → contents (bs ++ (b ∷ [])) ≡ contents bs ++ b.content
contents-append_one [] b = append-nil b.content
contents-append_one (x ∷ xs) b =
    ap (λ t. x.content ++ t) (contents-append_one xs b)
    ∙ sym (append_assoc x.content (contents xs) b.content)

pub AreBlocks-append_one :
    (bs : List Block) (b : Block)
    → AreBlocks bs
    → b.command ≡ cmd_continue
    → IsBlock b
    → AreBlocks (bs ++ (b ∷ []))
AreBlocks-append_one [] b v e w = (e, w, tt)
AreBlocks-append_one (x ∷ xs) b (c, u, v) e w = (c, u, AreBlocks-append_one xs b v e w)

abbrev pub prefix : Wrap → Bytes
prefix w = if w.uuid_sent then [] else w.uuid

-- While a wrapper pads, it has sent blocks that go on, with the contents given to it.
abbrev pub Pads : Bytes → Wrap → Bytes → Bytes → Type 0
Pads uuid w wire sent =
    (w.padding_active ≡ true)
    × ((bs : List Block) × AreBlocks bs
        × (wire ++ prefix w ≡ uuid ++ stream bs)
        × (sent ≡ contents bs))

-- Once it does not, it has sent such blocks, a last one, and all that came then as it is.
abbrev pub IsRaw : Bytes → Wrap → Bytes → Bytes → Type 0
IsRaw uuid w wire sent =
    (w.padding_active ≡ false)
    × ((bs : List Block) × (b : Block) × (rest : Bytes) × AreBlocks bs
        × IsBlock b
        × ((b.command == cmd_continue) ≡ false)
        × (wire ≡ uuid ++ (stream bs ++ (block_bytes b ++ rest)))
        × (sent ≡ contents bs ++ (b.content ++ rest)))

abbrev pub Wire : Bytes → Wrap → Bytes → Bytes → Type 0
Wire uuid w wire sent = Pads uuid w wire sent ⊎ IsRaw uuid w wire sent

pub pads_active :
    (uuid : Bytes) (w : Wrap) (wire sent : Bytes)
    → w.padding_active ≡ true
    → Wire uuid w wire sent
    → (bs : List Block) × AreBlocks bs
      × (wire ++ prefix w ≡ uuid ++ stream bs)
      × (sent ≡ contents bs)
pads_active uuid w wire sent on (inl (_, pads)) = pads
pads_active uuid w wire sent on (inr (off, _)) = cc (on, off)

module _ (room : ℕ → Bool) (uuid : Bytes) where
  wrap_observed-Wire :
      (random : Random) (w t : Wrap) (payload bytes wire sent : Bytes) (complete : ℕ)
      → Pads uuid w wire sent
      → wrap_observed room random w payload complete ≡ some (t, bytes)
      → Wire uuid t (wire ++ bytes) (sent ++ payload)
  unfolding wrap_observed Built
  wrap_observed-Wire random w t payload bytes wire sent complete (on, (bs, v, e, s)) h =
      let command = command_for w complete in
      elim (Option-cases (build_block room random w command payload (ltb (length payload) 900))) [
        | inl f ↦
            let gone : wrap_observed room random w payload complete ≡ none =
              rw (f, wrap_observed) refl in
            cc (gone, h)
        | inr ((u, c), f) ↦
            let (same, (b, w', k, content, built)) =
              build_block-Built room random w u command payload c _ f in
            let active : u.padding_active ≡ true = ap (λ (x : Wrap). x.padding_active) same ∙ on in
            let sent_uuid : u.uuid_sent ≡ true = ap (λ (x : Wrap). x.uuid_sent) same in
            let result = record u {
              packets_left = if leb u.packets_left complete then 0 else u.packets_left - complete;
              padding_active = u.padding_active && command == cmd_continue;
              direct_sent = u.direct_sent || command == cmd_direct;
            } in
            let gives : wrap_observed room random w payload complete ≡ some (result, c) =
              rw (f, wrap_observed) refl in
            let state : result ≡ t = pair_left (sym gives ∙ h) in
            let out : c ≡ bytes = pair_right (sym gives ∙ h) in
            let whole : wire ++ bytes ≡ uuid ++ (stream bs ++ block_bytes b) =
              ap (λ x. wire ++ x) (sym out ∙ built)
              ∙ sym (append_assoc wire (prefix w) (block_bytes b))
              ∙ ap (λ x. x ++ block_bytes b) e
              ∙ append_assoc uuid (stream bs) (block_bytes b) in
            let sum : sent ++ payload ≡ contents bs ++ b.content =
              ap₂ (λ x y. x ++ y) s (sym content) in
            subst (λ x. Wire uuid x (wire ++ bytes) (sent ++ payload)) state
              (elim (Bool-cases (command == cmd_continue)) [
                | inl z ↦ inl (
                  rw (active, z) refl,
                  (
                    bs ++ (b ∷ []),
                    AreBlocks-append_one bs b v (k ∙ ground (arith, z)) w',
                    rw sent_uuid (
                        append-nil (wire ++ bytes)
                        ∙ whole
                        ∙ ap (λ x. uuid ++ x) (sym (stream-append_one bs b))),
                    sum ∙ sym (contents-append_one bs b),
                  ),
                )
                | inr z ↦ inr (
                  rw (active, z) refl,
                  (
                    bs,
                    b,
                    [],
                    v,
                    w',
                    rw k z,
                    whole ∙ ap (λ x. uuid ++ (stream bs ++ x)) (sym (append-nil (block_bytes b))),
                    sum ∙ ap (λ x. contents bs ++ x) (sym (append-nil b.content)),
                  ),
                )
              ])
      ]

  IsRaw-append :
      (w : Wrap) (payload wire sent : Bytes)
      → IsRaw uuid w wire sent
      → IsRaw uuid w (wire ++ payload) (sent ++ payload)
  IsRaw-append w payload wire sent (off, (bs, b, rest, v, k, last, e, s)) = (
    off,
    (
      bs,
      b,
      rest ++ payload,
      v,
      k,
      last,
      ap (λ x. x ++ payload) e
          ∙ append_assoc uuid (stream bs ++ (block_bytes b ++ rest)) payload
          ∙ ap (λ x. uuid ++ x) (append_assoc (stream bs) (block_bytes b ++ rest) payload)
          ∙ ap (λ x. uuid ++ (stream bs ++ x)) (append_assoc (block_bytes b) rest payload),
      ap (λ x. x ++ payload) s
          ∙ append_assoc (contents bs) (b.content ++ rest) payload
          ∙ ap (λ x. contents bs ++ x) (append_assoc b.content rest payload),
    ),
  )

  pub append_out-append :
      (out bytes more : Bytes) → append_out room out bytes ≡ some more → more ≡ out ++ bytes
  append_out-append out bytes more e = elim (Bool-cases (room (length out + length bytes))) [
    | inl z ↦ some_injective (sym e ∙ choose_left _ _ _ z)
    | inr z ↦ let gone : append_out room out bytes ≡ none = choose_right _ _ _ z in cc (gone, e)
  ]

  -- What a chunk adds to the wire says what it adds to the payloads.
  pub wrap_chunk-Wire :
      (random : Random) (w t : Wrap) (payload bytes wire sent : Bytes)
      → Wire uuid w wire sent
      → wrap_chunk room random w payload ≡ some (t, bytes)
      → Wire uuid t (wire ++ bytes) (sent ++ payload)
  unfolding wrap_chunk
  wrap_chunk-Wire random w t [] bytes wire sent v h =
      let state = pair_left h in
      let out : [] ≡ bytes = pair_right h in
      subst (λ x. Wire uuid x (wire ++ bytes) (sent ++ [])) state
        (rw (sym out, append-nil wire, append-nil sent) v)
  wrap_chunk-Wire random w t (p ∷ ps) bytes wire sent (inr raw) h =
      let payload = p ∷ ps in
      let some_left : length payload == 0 ≡ false = ground arith in
      let raw_now : not w.padding_active ≡ true = ap (λ x. not x) raw.0 in
      let gives : wrap_chunk room random w payload ≡ wrap_raw w (append_out room [] payload) =
        choose_right _ _ _ some_left ∙ choose_left _ _ _ raw_now in
      elim (Option-cases (append_out room [] payload)) [
        | inl f ↦
            let gone : wrap_chunk room random w payload ≡ none = gives ∙ ap (λ x. wrap_raw w x) f in
            cc (gone, h)
        | inr (c, f) ↦
            let noted = sym (gives ∙ ap (λ x. wrap_raw w x) f) ∙ h in
            let out : payload ≡ bytes = sym (append_out-append [] payload c f) ∙ pair_right noted in
            subst (λ x. Wire uuid x (wire ++ bytes) (sent ++ payload)) (pair_left noted)
              (rw (sym out) (inr (IsRaw-append w payload wire sent raw)))
      ]
  wrap_chunk-Wire random w t (p ∷ ps) bytes wire sent (inl pads) h =
      let payload = p ∷ ps in
      let some_left : length payload == 0 ≡ false = ground arith in
      let active : not w.padding_active ≡ false = ap (λ x. not x) pads.0 in
      elim (Bool-cases (ltb 65535 (length payload))) [
        | inl z ↦
            let gone : wrap_chunk room random w payload ≡ none =
              choose_right _ _ _ some_left ∙ choose_right _ _ _ active ∙ choose_left _ _ _ z in
            cc (gone, h)
        | inr z ↦
            let gives : wrap_chunk room random w payload
                ≡ wrap_noted room random w payload (observe_tls false w payload) =
              choose_right _ _ _ some_left ∙ choose_right _ _ _ active ∙ choose_right _ _ _ z in
            elim (Option-cases (observe_tls false w payload)) [
              | inl f ↦
                  let gone : wrap_chunk room random w payload ≡ none =
                    gives ∙ ap (λ x. wrap_noted room random w payload x) f in
                  cc (gone, h)
              | inr (u, f) ↦
                  let (o, same) = observe_tls-store false w u payload f in
                  let noted = sym (gives ∙ ap (λ x. wrap_noted room random w payload x) f) ∙ h in
                  wrap_observed-Wire random u t payload bytes wire sent _
                    (subst (λ x. Pads uuid x wire sent) same pads) noted
            ]
      ]
