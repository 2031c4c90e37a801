-- ===== src/Grpc/Messages.antt =====
-- The loop of `core_grpc_decode` in src/grpc.c ends, and keeps the decoder's bounds.
use vless_core_cli.Prelude.{
  ℕ, zero, suc, ◌+◌, ◌-◌, ◌≤◌, ◌<◌, min, Bool, true, false, ◌||◌, not, [], ◌∷◌, ◌++◌, Option, none,
  some, ltb, ◌==◌, get_or, take, drop, length, Bytes, add_size, sub_size, ◌≡◌, refl, sym, ◌⊎◌, inl,
  inr, arith, length-append, length-take, length-drop, word32, choose, choose_by,
}
use vless_core_cli.Grpc.{
  message_limit, buffer_limit, Decoder, Outcome, refused, Step, on, stop, begin_message,
  message_round, message_loop, decode,
}
use vless_core_cli.Grpc.Bounds.{
  IsHeld, IsOpen, IsDecoder, IsReady, Leaves, Sound, sub_size_lem, invalid-Sound, marked, on-Sound,
  whole-Sound, over,
}
use vless_core_cli.Grpc.Rounds.{body_round-Sound}

-- A message that begins, with the bytes it reserves.
opened :
    (others : ℕ) (s : Decoder) (size reserved total : ℕ)
    → IsHeld others s
    → length s.header ≡ 5
    → s.ready ≡ false
    → size ≤ message_limit
    → total ≡ others + reserved
    → total ≤ buffer_limit
    → (s.multi ≡ true → reserved ≡ 0)
    → IsOpen others (record s {
      remaining = size;
      phase = 0;
      shift = 0;
      varint = 0;
      groups = [];
      reserved = reserved;
      total = total;
    })
opened others s size reserved total v full unread le share within streams = record {
  held = record {
    share = share;
    within = within;
    small = le;
    contents = λ (e : 0 ≡ 2). absurd (omega (arith, e));
    depth = omega arith;
    shifted = omega arith;
    number = omega arith;
    streams = streams;
    working = v.working;
  };
  full = full;
  unread = unread;
}

no_room-Sound :
    (others n : ℕ) (s : Decoder) (rest : Bytes)
    → s.total ≡ others + s.reserved
    → s.reserved ≡ 0
    → Sound others n (stop refused (record s { failed = 2 }) rest)
unfolding Sound Leaves
no_room-Sound others n s rest e f =
    (omega (arith, e, f), f, λ (z : 2 ≡ 0). absurd (omega (arith, z)))

-- The room that is checked is there.
room_left :
    (total size : ℕ)
    → total ≤ buffer_limit
    → ltb (sub_size buffer_limit total) size ≡ false
    → (add_size total size ≡ total + size) × (total + size ≤ buffer_limit)
room_left total size le h =
    let left : buffer_limit - total ≡ sub_size buffer_limit total =
      sym (sub_size_lem buffer_limit total le (omega arith)) in
    let fits : size ≤ sub_size buffer_limit total = ground (arith, h) in
    (omega (arith, left, fits, le), omega (arith, left, fits, le))

begin_message-Sound :
    (granted : ℕ → Bool) (others n : ℕ) (s : Decoder) (rest : Bytes)
    → IsHeld others s
    → length s.header ≡ 5
    → s.ready ≡ false
    → s.reserved ≡ 0
    → length rest < n
    → Sound others n (begin_message granted s rest)
unfolding begin_message
begin_message-Sound granted others n s rest v full unread empty lt =
    let P = Sound others n in
    let size : ℕ =
      word32 (get_or s.header 1 0) (get_or s.header 2 0) (get_or s.header 3 0)
        (get_or s.header 4 0) in
    choose_by P (not (get_or s.header 0 0 == 0) || ltb message_limit size) _ _
      (λ e. invalid-Sound others n (record s { remaining = size }) rest v.share v.within)
      (λ e.
        let le : size ≤ message_limit = ground (arith, e) in
        let t =
          opened others s size s.reserved s.total v full unread le v.share v.within v.streams in
        choose_by P (size == 0) _ _
          (λ f.
            choose P s.multi _ _ (on-Sound others n _ rest lt (over others _ t.held unread empty)) (
              whole-Sound others n _ rest
                (record { held = marked others _ [] true t.held; header = refl; ready = refl })))
          (λ f.
            let more : 0 < size = ground (arith, f) in
            choose_by P s.multi _ _
              (λ g. body_round-Sound granted others n _ rest t more (omega arith) (omega arith))
              (λ g.
                choose_by P (ltb (sub_size buffer_limit s.total) size) _ _
                  (λ h.
                    no_room-Sound others n
                      (record s { remaining = size; phase = 0; shift = 0; varint = 0; groups = [] })
                      rest v.share empty)
                  (λ h.
                    let (sum, fits) = room_left s.total size v.within h in
                    body_round-Sound granted others n _ rest
                      (opened others s size size (add_size s.total size) v full unread le
                        (omega (arith, sum, v.share, empty)) (omega (arith, sum, fits))
                        (λ k. absurd (cc (g, k))))
                      more (omega arith) (omega arith)))))

message_round-Sound :
    (granted : ℕ → Bool) (others : ℕ) (s : Decoder) (b : ℕ) (bs : Bytes)
    → IsDecoder others s
    → Sound others (suc (length bs)) (message_round granted s (b ∷ bs))
unfolding message_round
message_round-Sound granted others s b bs v =
    let n : ℕ = suc (length bs) in
    let buf : Bytes = b ∷ bs in
    let P = Sound others n in
    let size : ℕ = min (5 - length s.header) (length buf) in
    let header : Bytes = s.header ++ take size buf in
    let long : length header ≡ length s.header + size =
      omega (arith, length-append s.header (take size buf), length-take size buf) in
    let behind : length (drop size buf) ≡ length buf - size = length-drop size buf in
    choose_by P (ltb (length s.header) 5) _ _
      (λ e.
        let short : length s.header < 5 = ground (arith, e) in
        let less : length (drop size buf) < n = omega (arith, behind, short) in
        choose_by P (ltb (length header) 5) _ _
          (λ f. on-Sound others n _ _ less (record {
            held = marked others s header s.ready v.held;
            header = omega (arith, long);
            unread = v.unread;
            begun = λ g. absurd (ground (arith, f, g));
            idle = λ g. v.idle short;
          }))
          (λ f.
            begin_message-Sound granted others n (record s { header = header }) _
              (marked others s header s.ready v.held) (ground (arith, f, long)) v.unread
              (v.idle short) less))
      (λ e.
        let full : length s.header ≡ 5 = ground (arith, e, v.header) in
        body_round-Sound granted others n s buf
          (record { held = v.held; full = full; unread = v.unread }) (v.begun full) (omega arith)
          (omega arith))

-- What a call gives.
unfoldable pub Ends : ℕ → Option (Outcome × Decoder × Bytes) → Type 0
Ends others none = ⊥
Ends others (some (result, t, rest)) = Leaves others result t

step-Ends :
    (others n : ℕ) (next : Decoder → Bytes → Option (Outcome × Decoder × Bytes)) (r : Step)
    → ((t : Decoder) (rest : Bytes)
        → length rest < n
        → IsDecoder others t
        → Ends others (next t rest))
    → Sound others n r
    → Ends others (elim r [ on t rest ↦ next t rest | stop result t rest ↦ some (result, t, rest) ])
unfolding Sound Ends
step-Ends others n next (on t rest) more h = more t rest h.0 h.1
step-Ends others n next (stop result t rest) more h = h

message_loop-Ends :
    (granted : ℕ → Bool) (others n : ℕ) (s : Decoder) (buf : Bytes)
    → IsDecoder others s
    → length buf ≤ n
    → Ends others (message_loop granted n s buf)
unfolding message_loop Ends Leaves
message_loop-Ends granted others n s [] v le = v
message_loop-Ends granted others zero s (b ∷ bs) v le = absurd (omega arith)
message_loop-Ends granted others (suc n) s (b ∷ bs) v le =
    step-Ends others (suc (length bs)) (λ t rest. message_loop granted n t rest)
      (message_round granted s (b ∷ bs))
      (λ t rest less u. message_loop-Ends granted others n t rest u (omega (arith, less, le)))
      (message_round-Sound granted others s b bs v)

-- Between two calls: a message is not over, or not read, or there was a failure.
abbrev pub IsUsable : ℕ → Decoder → Type 0
IsUsable others s = IsDecoder others s ⊎ (IsReady others s ⊎ Leaves others refused s)

-- On a decoder between two calls, and any input, `core_grpc_decode` comes to an end, and leaves a
-- decoder that its result describes. The bytes that the other decoders reserved stay reserved, the sum
-- stays within its limit, and after a failure none of it is for this decoder.
pub decode-Ends :
    (granted : ℕ → Bool) (others : ℕ) (s : Decoder) (buf : Bytes)
    → IsUsable others s
    → Ends others (decode granted s buf)
unfolding decode Ends Leaves
decode-Ends granted others s buf (inl v) =
    let sane : not (s.failed == 0) ≡ false = ground (arith, v.held.working) in
    choose_by (Ends others) (not (s.failed == 0)) _ _ (λ e. absurd (cc (e, sane)))
      (λ e.
        choose_by (Ends others) s.ready _ _ (λ f. absurd (cc (f, v.unread)))
          (λ f. message_loop-Ends granted others (length buf) s buf v (omega arith)))
decode-Ends granted others s buf (inr (inl v)) =
    let sane : not (s.failed == 0) ≡ false = ground (arith, v.held.working) in
    choose_by (Ends others) (not (s.failed == 0)) _ _ (λ e. absurd (cc (e, sane)))
      (λ e. choose_by (Ends others) s.ready _ _ (λ f. v) (λ f. absurd (cc (f, v.ready))))
decode-Ends granted others s buf (inr (inr v)) =
    choose_by (Ends others) (not (s.failed == 0)) _ _ (λ e. v)
      (λ e. absurd (v.2 (ground (arith, e))))
