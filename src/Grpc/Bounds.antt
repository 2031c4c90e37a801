-- ===== src/Grpc/Bounds.antt =====
-- The decoder of src/grpc.c keeps its bounds, and its part of the memory that all decoders share.
use vless_core_cli.Prelude.{
  ℕ, ◌+◌, ◌-◌, ◌/◌, ◌%◌, ◌^◌, ◌≤◌, ◌<◌, Bool, true, false, ◌||◌, not, List, [], ◌∷◌, ltb, ◌==◌,
  if◌then◌else◌, length, Bytes, sub_size, ◌≡◌, refl, ◌≢◌, arith, choose, choose_by,
}
use vless_core_cli.Grpc.{
  message_limit, buffer_limit, Chunk, Decoder, Outcome, waits, whole_message, payload, refused,
  Step, on, stop, invalid, settle, end_group, on_tag, Checked,
}

-- What holds of a decoder that has not failed; the other decoders hold `others` bytes.
pub record IsHeld (others : ℕ) (s : Decoder) : Type 0 where
  pub share : s.total ≡ others + s.reserved
  pub within : s.total ≤ buffer_limit
  pub small : s.remaining ≤ message_limit
  pub contents : s.phase ≡ 2 → (0 < s.field_remaining) × (s.field_remaining ≤ s.remaining)
  pub depth : length s.groups ≤ 64
  pub shifted : s.shift ≤ 70
  pub number : s.varint < 2 ^ s.shift
  pub streams : s.multi ≡ true → s.reserved ≡ 0
  pub working : s.failed ≡ 0

-- Within a message.
pub record IsOpen (others : ℕ) (s : Decoder) : Type 0 where
  pub held : IsHeld others s
  pub full : length s.header ≡ 5
  pub unread : s.ready ≡ false

-- Between two calls, before the end of a message.
pub record IsDecoder (others : ℕ) (s : Decoder) : Type 0 where
  pub held : IsHeld others s
  pub header : length s.header ≤ 5
  pub unread : s.ready ≡ false
  pub begun : length s.header ≡ 5 → 0 < s.remaining
  pub idle : length s.header < 5 → s.reserved ≡ 0

-- With a message.
pub record IsReady (others : ℕ) (s : Decoder) : Type 0 where
  pub held : IsHeld others s
  pub header : s.header ≡ []
  pub ready : s.ready ≡ true

-- How a call leaves the decoder; after a failure it holds none of the memory.
unfoldable pub Leaves : ℕ → Outcome → Decoder → Type 0
Leaves others waits s = IsDecoder others s
Leaves others whole_message s = IsReady others s
Leaves others (payload found) s = IsDecoder others s
Leaves others refused s = (s.total ≡ others) × (s.reserved ≡ 0) × (s.failed ≢ 0)

-- A round with fewer than `n` bytes behind it.
unfoldable pub Sound : ℕ → ℕ → Step → Type 0
Sound others n (on t rest) = (length rest < n) × IsDecoder others t
Sound others n (stop result t rest) = Leaves others result t

pub sub_size_lem : (a b : ℕ) → b ≤ a → a ≤ buffer_limit → sub_size a b ≡ a - b
sub_size_lem a b le small = omega arith

pub invalid-Sound :
    (others n : ℕ) (s : Decoder) (rest : Bytes)
    → s.total ≡ others + s.reserved
    → s.total ≤ buffer_limit
    → Sound others n (invalid s rest)
unfolding Sound Leaves
invalid-Sound others n s rest e le = (
  omega (arith, sub_size_lem s.total s.reserved (omega arith) le),
  refl,
  λ (z : 1 ≡ 0). absurd (omega (arith, z)),
)

-- The header and the mark of a message do not matter to what is held.
pub marked :
    (others : ℕ) (s : Decoder) (header : Bytes) (ready : Bool)
    → IsHeld others s
    → IsHeld others (record s { header = header; ready = ready })
marked others s header ready v = record {
  share = v.share;
  within = v.within;
  small = v.small;
  contents = v.contents;
  depth = v.depth;
  shifted = v.shifted;
  number = v.number;
  streams = v.streams;
  working = v.working;
}

pub on-Sound :
    (others n : ℕ) (s : Decoder) (rest : Bytes)
    → length rest < n
    → IsDecoder others s
    → Sound others n (on s rest)
unfolding Sound
on-Sound others n s rest lt v = (lt, v)

pub payload-Sound :
    (others n : ℕ) (found : Bytes) (s : Decoder) (rest : Bytes)
    → IsDecoder others s
    → Sound others n (stop (payload found) s rest)
unfolding Sound Leaves
payload-Sound others n found s rest v = v

pub whole-Sound :
    (others n : ℕ) (s : Decoder) (rest : Bytes)
    → IsReady others s
    → Sound others n (stop whole_message s rest)
unfolding Sound Leaves
whole-Sound others n s rest v = v

-- A message that is over.
pub over :
    (others : ℕ) (s : Decoder)
    → IsHeld others s
    → s.ready ≡ false
    → s.reserved ≡ 0
    → IsDecoder others (record s { header = [] })
over others s v unread none_held = record {
  held = marked others s [] s.ready v;
  header = omega arith;
  unread = unread;
  begun = λ e. absurd (omega (arith, e));
  idle = λ e. none_held;
}

-- A message that goes on.
pub going : (others : ℕ) (s : Decoder) → IsOpen others s → 0 < s.remaining → IsDecoder others s
going others s v lt = record {
  held = v.held;
  header = omega (arith, v.full);
  unread = v.unread;
  begun = λ e. lt;
  idle = λ e. absurd (omega (arith, e, v.full));
}

pub settle-Sound :
    (others n : ℕ) (found : Bytes) (s : Decoder) (rest : Bytes)
    → IsOpen others s
    → length rest < n
    → Sound others n (settle found s rest)
unfolding settle
settle-Sound others n found s rest v lt =
    let P = Sound others n in
    choose_by P (s.remaining == 0) _ _
      (λ e.
        choose_by P (not (s.phase == 0) || not (s.shift == 0) || not (length s.groups == 0)) _ _
          (λ f. invalid-Sound others n s rest v.held.share v.held.within)
          (λ f.
            choose_by P (not s.multi) _ _
              (λ g.
                whole-Sound others n (record s { header = []; ready = true }) rest
                  (record { held = marked others s [] true v.held; header = refl; ready = refl }))
              (λ g.
                let end = over others s v.held v.unread (v.held.streams (ground (arith, g))) in
                choose P (length found == 0) _ _ (on-Sound others n _ rest lt end)
                  (payload-Sound others n found _ rest end))))
      (λ e.
        let more = going others s v (ground (arith, e)) in
        choose P (length found == 0) _ _ (on-Sound others n s rest lt more)
          (payload-Sound others n found s rest more))

-- A step that reads a number.
unfoldable pub Kept : ℕ → Checked → Type 0
Kept others c =
    (c.0.total ≡ others + c.0.reserved)
    × (c.0.total ≤ buffer_limit)
    × (c.1 ≡ true → IsOpen others c.0)

pub refuse-Kept :
    (others : ℕ) (s : Decoder)
    → s.total ≡ others + s.reserved
    → s.total ≤ buffer_limit
    → Kept others (s, false)
unfolding Kept
refuse-Kept others s e le = (e, le, λ f. absurd (cc f))

pub accept-Kept : (others : ℕ) (s : Decoder) → IsOpen others s → Kept others (s, true)
unfolding Kept
accept-Kept others s v = (v.held.share, v.held.within, λ f. v)

pub retag :
    (others : ℕ) (s : Decoder) (field wire phase left : ℕ) (groups : List ℕ) (chunks : List Chunk)
    → IsOpen others s
    → (phase ≡ 2 → (0 < left) × (left ≤ s.remaining))
    → length groups ≤ 64
    → IsOpen others (record s {
      field = field;
      wire = wire;
      phase = phase;
      field_remaining = left;
      groups = groups;
      chunks = chunks;
    })
retag others s field wire phase left groups chunks v fits deep = record {
  held = record {
    share = v.held.share;
    within = v.held.within;
    small = v.held.small;
    contents = fits;
    depth = deep;
    shifted = v.held.shifted;
    number = v.held.number;
    streams = v.held.streams;
    working = v.held.working;
  };
  full = v.full;
  unread = v.unread;
}

end_group-Kept :
    (others : ℕ) (gs : List ℕ) (s : Decoder)
    → IsOpen others s
    → length gs ≤ 64
    → Kept others (end_group gs s)
unfolding end_group
end_group-Kept others [] s v le = refuse-Kept others s v.held.share v.held.within
end_group-Kept others (g ∷ gs) s v le =
    choose (Kept others) (g == s.field) _ _
      (accept-Kept others _ (
        retag others s s.field s.wire s.phase s.field_remaining gs s.chunks v v.held.contents
          (omega arith)))
      (refuse-Kept others s v.held.share v.held.within)

pub on_tag-Kept :
    (others value : ℕ) (s : Decoder) → IsOpen others s → s.phase ≡ 0 → Kept others (on_tag value s)
unfolding on_tag
on_tag-Kept others value s v idle =
    let P = Kept others in
    let field : ℕ = value / 8 in
    let wire : ℕ = value % 8 in
    let fixed : ℕ = if value % 8 == 1 then 8 else 4 in
    let deep = v.held.depth in
    choose P _ _ _ (refuse-Kept others s v.held.share v.held.within) (
      choose P (wire == 0) _ _
        (accept-Kept others _ (
          retag others s field wire 3 s.field_remaining s.groups s.chunks v
            (λ (e : 3 ≡ 2). absurd (omega (arith, e))) deep))
        (choose P (wire == 2) _ _
          (accept-Kept others _ (
            retag others s field wire 1 s.field_remaining s.groups s.chunks v
              (λ (e : 1 ≡ 2). absurd (omega (arith, e))) deep))
          (choose P (wire == 1 || wire == 5) _ _
            (choose_by P (ltb s.remaining fixed) _ _
              (λ e. refuse-Kept others _ v.held.share v.held.within)
              (λ e. accept-Kept others _ (
                retag others s field wire 2 fixed s.groups s.chunks v
                  (λ f. (ground arith, ground (arith, e))) deep)))
            (choose P (wire == 3) _ _
              (choose_by P (length s.groups == 64) _ _
                (λ e. refuse-Kept others _ v.held.share v.held.within)
                (λ e. accept-Kept others _ (
                  retag others s field wire s.phase s.field_remaining (field ∷ s.groups) s.chunks v
                    v.held.contents (ground (arith, e, deep)))))
              (choose P (wire == 4) _ _
                (end_group-Kept others s.groups (record s { field = field; wire = wire })
                  (retag others s field wire s.phase s.field_remaining s.groups s.chunks v
                    v.held.contents deep)
                  deep)
                (refuse-Kept others _ v.held.share v.held.within))))))
