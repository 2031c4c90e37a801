-- ===== src/Grpc/Rounds.antt =====
-- The rounds of `core_grpc_decode` in src/grpc.c keep the bounds of the decoder.
use vless_core_cli.Prelude.{
  ℕ, ◌+◌, ◌-◌, ◌*◌, ◌%◌, ◌^◌, ◌≤◌, ◌<◌, min, Bool, ◌&&◌, ◌||◌, List, [], ◌∷◌, ltb, leb, ◌==◌,
  if◌then◌else◌, take, drop, length, Bytes, sub_size, ◌≡◌, refl, ◌≢◌, arith, length-drop, choose,
  choose_by, choose_option,
}
use native.Mathlib.Nat.{mul-le-mul_right, mod-le, mod-lt}
use native.Mathlib.Numerals.{towards_suc}
use vless_core_cli.Grpc.{
  Chunk, Decoder, release_message, append_data, refused, stop, invalid, settle, contents_round,
  on_length, on_number, number_round, body_round, Checked,
}
use vless_core_cli.Grpc.Bounds.{
  IsOpen, Leaves, Sound, sub_size_lem, invalid-Sound, on-Sound, going, settle-Sound, Kept,
  refuse-Kept, accept-Kept, retag, on_tag-Kept,
}

on_length-Kept :
    (others value : ℕ) (s : Decoder) → IsOpen others s → Kept others (on_length value s)
unfolding on_length
on_length-Kept others value s v =
    choose_by (Kept others) (ltb s.remaining value) _ _
      (λ e. refuse-Kept others s v.held.share v.held.within)
      (λ e. accept-Kept others _ (
        retag others s s.field s.wire (if value == 0 then 0 else 2) value s.groups _ v
          (λ f. (ground (arith, f), ground (arith, e))) v.held.depth))

on_number-Kept :
    (others value : ℕ) (s : Decoder) → IsOpen others s → Kept others (on_number value s)
unfolding on_number
on_number-Kept others value s v =
    choose_by (Kept others) (s.phase == 0) _ _
      (λ e. on_tag-Kept others value s v (ground (arith, e)))
      (λ e. choose (Kept others) (s.phase == 1) _ _ (on_length-Kept others value s v) (
        accept-Kept others _ (
          retag others s s.field s.wire 0 s.field_remaining s.groups s.chunks v
            (λ (f : 0 ≡ 2). absurd (omega (arith, f))) v.held.depth)))

checked-Sound :
    (others n : ℕ) (c : Checked) (rest : Bytes)
    → Kept others c
    → length rest < n
    → Sound others n (if c.1 then settle [] c.0 rest else invalid c.0 rest)
unfolding Kept
checked-Sound others n c rest k lt =
    choose_by (Sound others n) c.1 _ _ (λ e. settle-Sound others n [] c.0 rest (k.2 e) lt)
      (λ e. invalid-Sound others n c.0 rest k.0 k.1)

wider : (v b m : ℕ) → v < 2 ^ m → (v + b % 128 * 2 ^ m) % 2 ^ 64 < 2 ^ (m + 7)
wider v b m lt =
    let shift : 2 ^ (m + 7) ≡ 128 * 2 ^ m = simp towards_suc (omega arith) in
    let digit : b % 128 * 2 ^ m ≤ 127 * 2 ^ m =
      mul-le-mul_right (2 ^ m)
        (let lt : b % 128 < 128 = mod-lt b (omega arith) in omega (arith, lt)) in
    omega (arith, shift, digit, mod-le (v + b % 128 * 2 ^ m) (2 ^ 64))

-- The decoder with one byte less to come, in a number.
shorter :
    (others : ℕ) (s : Decoder) (varint shift : ℕ)
    → IsOpen others s
    → 0 < s.remaining
    → s.phase ≢ 2
    → shift ≤ 70
    → varint < 2 ^ shift
    → IsOpen others
        (record s { remaining = sub_size s.remaining 1; varint = varint; shift = shift })
shorter others s varint shift v lt other le fits = record {
  held = record {
    share = v.held.share;
    within = v.held.within;
    small = omega (arith, sub_size_lem s.remaining 1 lt v.held.small, v.held.small);
    contents = λ e. absurd (other e);
    depth = v.held.depth;
    shifted = le;
    number = fits;
    streams = v.held.streams;
    working = v.held.working;
  };
  full = v.full;
  unread = v.unread;
}

number_round-Sound :
    (others n : ℕ) (s : Decoder) (byte : ℕ) (rest : Bytes)
    → IsOpen others s
    → 0 < s.remaining
    → s.phase ≢ 2
    → length rest < n
    → Sound others n (number_round s byte rest)
unfolding number_round
number_round-Sound others n s byte rest v lt other less =
    let P = Sound others n in
    let value : ℕ = (s.varint + byte % 128 * 2 ^ s.shift) % 2 ^ 64 in
    choose_by P (ltb 63 s.shift || s.shift == 63 && leb 2 byte) _ _
      (λ e.
        invalid-Sound others n (record s { remaining = sub_size s.remaining 1 }) rest v.held.share
          v.held.within)
      (λ e.
        choose P (leb 128 byte) _ _
          (settle-Sound others n [] _ rest
            (shorter others s value (s.shift + 7) v lt other (ground (arith, e))
              (wider s.varint byte s.shift v.held.number))
            less)
          (checked-Sound others n _ rest
            (on_number-Kept others value _
              (shorter others s 0 0 v lt other (omega arith) (omega arith)))
            less))

-- A part of the contents is read.
passed :
    (others : ℕ) (s : Decoder) (size : ℕ) (chunks : List Chunk)
    → IsOpen others s
    → s.phase ≡ 2
    → size ≤ s.field_remaining
    → IsOpen others (record s {
      field_remaining = s.field_remaining - size;
      remaining = sub_size s.remaining size;
      phase = if s.field_remaining - size == 0 then 0 else s.phase;
      chunks = chunks;
    })
passed others s size chunks v e le =
    let (some_left, fits) = v.held.contents e in
    let less = sub_size_lem s.remaining size (omega (arith, fits, le)) v.held.small in
    record {
      held = record {
        share = v.held.share;
        within = v.held.within;
        small = omega (arith, less, v.held.small);
        contents = λ f. (ground (arith, f, e), omega (arith, less, fits, le));
        depth = v.held.depth;
        shifted = v.held.shifted;
        number = v.held.number;
        streams = v.held.streams;
        working = v.held.working;
      };
      full = v.full;
      unread = v.unread;
    }

no_memory-Sound :
    (others n : ℕ) (s : Decoder) (rest : Bytes)
    → IsOpen others s
    → Sound others n (stop refused (release_message (record s { failed = 3 })) rest)
unfolding Sound Leaves
no_memory-Sound others n s rest v = (
  omega (
    arith,
    v.held.share,
    sub_size_lem s.total s.reserved (omega (arith, v.held.share)) v.held.within,
  ),
  refl,
  λ (z : 3 ≡ 0). absurd (omega (arith, z)),
)

contents_round-Sound :
    (granted : ℕ → Bool) (others n : ℕ) (s : Decoder) (buf : Bytes)
    → IsOpen others s
    → s.phase ≡ 2
    → 0 < length buf
    → length buf ≤ n
    → Sound others n (contents_round granted s buf)
unfolding contents_round
contents_round-Sound granted others n s buf v e some_bytes le =
    let P = Sound others n in
    let size : ℕ = min s.field_remaining (length buf) in
    let (some_left, fits) = v.held.contents e in
    let less : length (drop size buf) < n =
      omega (arith, length-drop size buf, some_left, some_bytes, le) in
    let t = passed others s size s.chunks v e (omega arith) in
    choose P (length s.groups == 0 && s.field == 1 && s.wire == 2) _ _
      (choose P s.multi _ _ (settle-Sound others n _ _ _ t less) (
        choose_option P
          (append_data granted (length (drop size buf)) s.field_remaining s.chunks (take size buf))
          _ _ (no_memory-Sound others n s buf v)
          (λ chunks.
            settle-Sound others n [] _ _ (passed others s size chunks v e (omega arith)) less)))
      (settle-Sound others n [] _ _ t less)

pub body_round-Sound :
    (granted : ℕ → Bool) (others n : ℕ) (s : Decoder) (buf : Bytes)
    → IsOpen others s
    → 0 < s.remaining
    → 0 < n
    → length buf ≤ n
    → Sound others n (body_round granted s buf)
unfolding body_round
body_round-Sound granted others n s [] v more lt le =
    on-Sound others n s [] (omega arith) (going others s v more)
body_round-Sound granted others n s (b ∷ bs) v more lt le =
    choose_by (Sound others n) (s.phase == 2) _ _
      (λ e. contents_round-Sound granted others n s (b ∷ bs) v (ground (arith, e)) (omega arith) le)
      (λ e. number_round-Sound others n s b bs v more (ground (arith, e)) (omega arith))
