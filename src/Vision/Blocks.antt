-- ===== src/Vision/Blocks.antt =====
-- A padded stream of src/vision.c is read back.
use vless_core_cli.Prelude.{
  same_bytes, drop-append_self, take-append_self, ℕ, zero, suc, ◌+◌, ◌-◌, ◌*◌, ◌/◌, ◌%◌, ◌≤◌, ◌<◌,
  Bool, true, false, ◌||◌, List, [], ◌∷◌, ◌++◌, Option, some, ◌==◌, take, length, Bytes, ◌≡◌, refl,
  sym, ap, ◌∙◌, arith, append-nil, append_assoc, length-append, take_front, drop_front, long_enough,
}
use vless_core_cli.Vision.{
  cmd_continue, cmd_direct, Unpad, unpad_init, await_header, header_byte, read_block_header, Feed,
  stop, again, smaller, flush, end_block, skip_padding, take_content, block_round, feed_round,
  feed_loop, unpad_feed,
}

-- A block of the wire: its command, content and padding.
pub record Block : Type 0 where
  pub command : ℕ
  pub content : Bytes
  pub padding : Bytes

pub record IsBlock (b : Block) : Type 0 where
  pub content : length b.content < 65536
  pub padding : length b.padding < 65536

abbrev pub block_bytes : Block → Bytes
block_bytes b =
    b.command
    ∷ length b.content / 256
    ∷ length b.content % 256
    ∷ length b.padding / 256
    ∷ length b.padding % 256
    ∷ (b.content ++ b.padding)

read_header_done :
    (u : Unpad) (rest : Bytes) → u.command_left ≡ 0 → read_block_header u rest ≡ (u, rest)
unfolding read_block_header
read_header_done u [] h = refl
read_header_done u (x ∷ rest) h = rw h refl

read_header_five :
    (u : Unpad) (a b c d e : ℕ) (rest : Bytes)
    → read_block_header (await_header u) (a ∷ b ∷ c ∷ d ∷ e ∷ rest) ≡ (
      record u {
        idle = false;
        command_left = 0;
        content_left = b * 256 + c;
        padding_left = d * 256 + e;
        current = a;
      },
      rest,
    )
unfolding read_block_header header_byte
read_header_five u a b c d e rest = read_header_done _ rest refl

-- The state behind a block.
abbrev after : Unpad → Block → Unpad
after u b = record u {
  idle = false;
  command_left = 0;
  content_left = 0;
  padding_left = 0;
  current = b.command;
}

-- The state behind the last block.
abbrev ended : Unpad → Block → Unpad
ended u b = record (after u b) { completed = true; idle = true }

block_left : (b : Block) (rest : Bytes) → length (block_bytes b ++ rest) == 0 ≡ false
block_left b rest = ground arith

block_longer :
    (b : Block) (rest : Bytes) (n : ℕ) → length (block_bytes b ++ rest) ≤ suc n → length rest ≤ n
block_longer b rest n h = omega (arith, length-append (b.content ++ b.padding) rest)

same_bytes_self : (xs : Bytes) → same_bytes xs xs ≡ true
same_bytes_self [] = refl
same_bytes_self (x ∷ xs) = ground (arith, same_bytes_self xs)

smaller_front : (xs ys : Bytes) → smaller (length (xs ++ ys)) (length xs) ≡ length xs
smaller_front xs ys = ground (arith, length-append xs ys)

less_itself : (n : ℕ) → n - n ≡ 0
less_itself n = omega arith

-- The blocks of a stream that goes on.
abbrev pub stream : List Block → Bytes
stream [] = []
stream (b ∷ bs) = block_bytes b ++ stream bs

abbrev pub contents : List Block → Bytes
contents [] = []
contents (b ∷ bs) = b.content ++ contents bs

abbrev pub AreBlocks : List Block → Type 0
AreBlocks [] = Unit
AreBlocks (b ∷ bs) = (b.command ≡ cmd_continue) × IsBlock b × AreBlocks bs

module _ (room : ℕ → Bool) (roomy : (n : ℕ) → room n ≡ true) where
  skip_padding_whole :
      (u : Unpad) (padding rest out : Bytes) (direct : Bool)
      → skip_padding room (record {
        unpad = record u { content_left = 0; padding_left = length padding };
        left = padding ++ rest;
        out = out;
        direct = direct;
      })
        ≡ end_block room (record {
          unpad = record u { content_left = 0; padding_left = 0 };
          left = rest;
          out = out;
          direct = direct;
        })
  unfolding skip_padding
  skip_padding_whole u padding rest out direct =
      rw (smaller_front padding rest, less_itself (length padding), drop-append_self padding rest)
        refl

  take_content_whole :
      (u : Unpad) (content padding rest out : Bytes) (direct : Bool)
      → take_content room (record {
        unpad = record u { content_left = length content; padding_left = length padding };
        left = content ++ (padding ++ rest);
        out = out;
        direct = direct;
      })
        ≡ end_block room (record {
          unpad = record u { content_left = 0; padding_left = 0 };
          left = rest;
          out = out ++ content;
          direct = direct;
        })
  unfolding take_content
  take_content_whole u [] padding rest out direct =
      rw (append-nil out) (skip_padding_whole u padding rest out direct)
  take_content_whole u (x ∷ content) padding rest out direct =
      let xs = x ∷ content in
      let some_left : length xs == 0 ≡ false = ground arith in
      rw
        (
          some_left,
          smaller_front xs (padding ++ rest),
          roomy (length out + length (take (length xs) (xs ++ (padding ++ rest)))),
          take-append_self xs (padding ++ rest),
          take_content,
        )
        (rw
          (
            smaller_front xs (padding ++ rest),
            less_itself (length xs),
            drop-append_self xs (padding ++ rest),
          )
          (skip_padding_whole u padding rest (out ++ xs) direct))

  -- The whole of a block, when all of it is there.
  block_round_whole :
      (u : Unpad) (b : Block) (rest out : Bytes) (direct : Bool)
      → IsBlock b
      → block_round room (record {
        unpad = await_header u;
        left = block_bytes b ++ rest;
        out = out;
        direct = direct;
      })
        ≡ end_block room
            (record { unpad = after u b; left = rest; out = out ++ b.content; direct = direct })
  unfolding block_round
  block_round_whole u b rest out direct v =
      let whole =
        read_header_five u b.command (length b.content / 256) (length b.content % 256)
          (length b.padding / 256) (length b.padding % 256) ((b.content ++ b.padding) ++ rest) in
      let content : length b.content / 256 * 256 + length b.content % 256 ≡ length b.content =
        omega arith in
      let padding : length b.padding / 256 * 256 + length b.padding % 256 ≡ length b.padding =
        omega arith in
      rw (whole, block_round)
        (rw (content, padding, append_assoc b.content b.padding rest)
          (take_content_whole (record u { idle = false; command_left = 0; current = b.command })
            b.content b.padding rest out direct))

  -- The last block, and what follows it with no padding.
  last_round :
      (u : Unpad) (b : Block) (raw out : Bytes) (direct : Bool)
      → IsBlock b
      → (b.command == cmd_continue) ≡ false
      → (g : Feed) × (block_round room (record {
        unpad = await_header u;
        left = block_bytes b ++ raw;
        out = out;
        direct = direct;
      })
          ≡ stop g)
        × (g.out ≡ out ++ (b.content ++ raw))
        × (g.left ≡ [])
        × (g.unpad.current ≡ b.command)
        × (g.unpad.idle ≡ true)
        × (g.direct ≡ (direct || b.command == cmd_direct))
  unfolding end_block flush
  last_round u b [] out direct v h =
      let g : Feed = record {
        unpad = ended u b;
        left = [];
        out = out ++ b.content;
        direct = direct || b.command == cmd_direct;
      } in
      (
        g,
        block_round_whole u b [] out direct v ∙ rw (h, end_block) refl,
        ap (λ (t : Bytes). out ++ t) (sym (append-nil b.content)),
        refl,
        refl,
        refl,
        refl,
      )
  last_round u b (x ∷ raw) out direct v h =
      let rest = x ∷ raw in
      let out' = out ++ b.content in
      let g : Feed = record {
        unpad = ended u b;
        left = [];
        out = out' ++ rest;
        direct = direct || b.command == cmd_direct;
      } in
      let some_left : length rest == 0 ≡ false = ground arith in
      (
        g,
        block_round_whole u b rest out direct v
            ∙ rw (h, some_left, end_block) (rw (roomy (length out' + length rest), flush) refl),
        append_assoc out b.content rest,
        refl,
        refl,
        refl,
        refl,
      )

  -- A block that is not the last.
  next_round :
      (u : Unpad) (b : Block) (rest out : Bytes) (direct : Bool)
      → IsBlock b
      → b.command ≡ cmd_continue
      → block_round room (record {
        unpad = await_header u;
        left = block_bytes b ++ rest;
        out = out;
        direct = direct;
      })
        ≡ again (record {
          unpad = await_header (record u { completed = true; current = cmd_continue });
          left = rest;
          out = out ++ b.content;
          direct = direct;
        })
  unfolding end_block
  next_round u b rest out direct v h =
      let first : b.command == cmd_continue ≡ true = ground arith in
      block_round_whole u b rest out direct v ∙ rw (h, end_block) refl

  -- What the loop gives back of a stream.
  Read : Bytes → Block → Bool → Option Feed → Type 0
  Read out b direct r =
      (g : Feed) × (r ≡ some g)
      × (g.out ≡ out)
      × (g.left ≡ [])
      × (g.unpad.current ≡ b.command)
      × (g.unpad.idle ≡ true)
      × (g.direct ≡ (direct || b.command == cmd_direct))

  stream_left :
      (bs : List Block) (b : Block) (raw : Bytes)
      → length (stream bs ++ (block_bytes b ++ raw)) == 0 ≡ false
  stream_left [] b raw = ground arith
  stream_left (c ∷ bs) b raw = ground arith

  feed_loop-stream :
      (n : ℕ) (u : Unpad) (bs : List Block) (b : Block) (raw out : Bytes) (direct : Bool)
      → AreBlocks bs
      → IsBlock b
      → (b.command == cmd_continue) ≡ false
      → length (stream bs ++ (block_bytes b ++ raw)) ≤ n
      → Read (out ++ (contents bs ++ (b.content ++ raw))) b direct (
          feed_loop room n (record {
            unpad = await_header u;
            left = stream bs ++ (block_bytes b ++ raw);
            out = out;
            direct = direct;
          }))
  unfolding Read feed_loop feed_round
  feed_loop-stream zero u [] b raw out direct vs v h le = absurd (omega arith)
  feed_loop-stream zero u (c ∷ bs) b raw out direct vs v h le = absurd (omega arith)
  feed_loop-stream (suc n) u [] b raw out direct vs v h le =
      let (g, e, o, l, c, i, d) = last_round u b raw out direct v h in
      (g, rw (block_left b raw, e, feed_loop) refl, o, l, c, i, d)
  feed_loop-stream (suc n) u (c ∷ bs) b raw out direct vs v h le =
      let rest = stream bs ++ (block_bytes b ++ raw) in
      let e = next_round u c rest out direct vs.1 vs.0 in
      let whole = append_assoc (block_bytes c) (stream bs) (block_bytes b ++ raw) in
      let short : length rest ≤ n =
        block_longer c rest n (omega (arith, le, ap (λ (t : Bytes). length t) whole)) in
      let (g, f, o, l, k, i, d) =
        feed_loop-stream n (record u { completed = true; current = cmd_continue }) bs b raw
          (out ++ c.content) direct vs.2 v h short in
      (
        g,
        rw (stream_left (c ∷ bs) b raw, feed_loop) (rw whole (rw (e, feed_loop) f)),
        o
            ∙ append_assoc out c.content (contents bs ++ (b.content ++ raw))
            ∙ ap (λ (t : Bytes). out ++ t)
                (sym (append_assoc c.content (contents bs) (b.content ++ raw))),
        l,
        k,
        i,
        d,
      )

  -- The loop starts with the UUID, and goes on as behind it.
  first_loop :
      (uuid : Bytes) (bs : List Block) (b : Block) (raw : Bytes) (n : ℕ)
      → length uuid ≡ 16
      → feed_loop room (suc n) (record {
        unpad = unpad_init uuid;
        left = uuid ++ (stream bs ++ (block_bytes b ++ raw));
        out = [];
        direct = false;
      })
        ≡ feed_loop room (suc n) (record {
          unpad = await_header (unpad_init uuid);
          left = stream bs ++ (block_bytes b ++ raw);
          out = [];
          direct = false;
        })
  unfolding feed_loop feed_round
  first_loop uuid bs b raw n h =
      let rest = stream bs ++ (block_bytes b ++ raw) in
      let long = long_enough 16 uuid rest h in
      let some_left : length (uuid ++ rest) == 0 ≡ false = ground arith in
      rw
        (
          some_left,
          long,
          stream_left bs b raw,
          take_front 16 uuid rest h,
          drop_front 16 uuid rest h,
          same_bytes_self uuid,
          feed_loop,
        )
        refl

  -- With memory for every buffer, one call on the UUID, blocks that go on, a last block that ends the
  -- padding or makes the stream direct, and anything behind it, gives the contents of the blocks and
  -- what is behind, says whether the stream is direct, and keeps nothing back.
  pub unpad_feed-stream :
      (uuid : Bytes) (bs : List Block) (b : Block) (raw : Bytes)
      → length uuid ≡ 16
      → AreBlocks bs
      → IsBlock b
      → (b.command == cmd_continue) ≡ false
      → (f : Feed) × (unpad_feed room
            (unpad_init uuid)
            (uuid ++ (stream bs ++ (block_bytes b ++ raw)))
          ≡ some f)
        × (f.out ≡ contents bs ++ (b.content ++ raw))
        × (f.unpad.stash ≡ [])
        × (f.direct ≡ (b.command == cmd_direct))
  unfolding unpad_feed Read
  unpad_feed-stream [] bs b raw n vs v h = absurd (omega arith)
  unpad_feed-stream (x ∷ xs) bs b raw n vs v h =
      let uuid = x ∷ xs in
      let rest = stream bs ++ (block_bytes b ++ raw) in
      let (f, e, o, l, c, i, d) =
        feed_loop-stream (length (uuid ++ rest)) (unpad_init uuid) bs b raw [] false vs v h
          (omega (arith, length-append uuid rest)) in
      let some_input : length (uuid ++ rest) == 0 ≡ false = ground arith in
      let first = first_loop uuid bs b raw (length (xs ++ rest)) n in
      (
        record f { unpad = record f.unpad { stash = f.left } },
        rw (some_input, roomy (0 + length (uuid ++ rest)), unpad_feed) (rw (first ∙ e) refl),
        o,
        l,
        d,
      )
