-- ===== src/Vision.antt =====
-- src/vision.c and include/vision.h: the padding of XTLS Vision, and its removal.
pub mod Blocks
pub mod Tls
pub mod Wrap
use vless_core_cli.Prelude.{
  same_bytes, ℕ, zero, suc, ◌+◌, ◌-◌, ◌*◌, ◌/◌, ◌%◌, ◌^◌, ◌≤◌, ◌<◌, min, max, Bool, true, false,
  ◌&&◌, ◌||◌, not, List, [], ◌∷◌, ◌++◌, Option, none, some, ltb, leb, ◌==◌, if◌then◌else◌,
  get_elem?, get_or, set, take, drop, length, Bytes, size_max, add_size, sub_size, ◌≡◌, refl, sym,
  ap, ap₂, ◌∙◌, ◌≢◌, ◌↔◌, ◌⊎◌, inl, inr, arith, Bool-cases, Option-cases, append-nil, append_assoc,
  length-append, length-take, length-drop, bit, word16, word24, word32, map, take-append-drop,
  take_front, drop_front, long_enough,
}

-- `CMD_CONTINUE`, `CMD_END` and `CMD_DIRECT`
abbrev pub cmd_continue : ℕ
cmd_continue = 0

abbrev pub cmd_end : ℕ
cmd_end = 1

abbrev pub cmd_direct : ℕ
cmd_direct = 2

-- `vision_unpad_t`, less the capacity of the stash. `idle` says that the three counters are -1, which
-- they are together; they are not read then.
pub record Unpad : Type 0 where
  pub uuid : Bytes
  pub idle : Bool
  pub command_left : ℕ
  pub content_left : ℕ
  pub padding_left : ℕ
  pub current : ℕ
  pub completed : Bool
  pub stash : Bytes

-- `vision_unpad_init`
abbrev pub unpad_init : Bytes → Unpad
unpad_init uuid = record {
  uuid = uuid;
  idle = true;
  command_left = 0;
  content_left = 0;
  padding_left = 0;
  current = 0;
  completed = false;
  stash = [];
}

-- `vision_unpad_complete`
unfoldable pub unpad_complete : Unpad → Bool
unpad_complete u =
    length u.stash == 0
    && (u.idle
        || (u.content_left == 0 && u.padding_left == 0 && u.command_left == 5 && u.completed))

abbrev pub padding_ended : Unpad → Bool
padding_ended u = u.current == cmd_end || u.current == cmd_direct

-- `vision_unpad_is_raw`
unfoldable pub unpad_is_raw : Unpad → Bool
unfolding unpad_complete
unpad_is_raw u = unpad_complete u && padding_ended u

-- The state in which the five bytes of a block's header are to come.
abbrev pub await_header : Unpad → Unpad
await_header u = record u { idle = false; command_left = 5; content_left = 0; padding_left = 0 }

-- One byte of the header. The low byte of a length is 0 before it comes.
unfoldable pub header_byte : Unpad → ℕ → Unpad
header_byte u b =
    let v = record u { command_left = u.command_left - 1 } in
    if u.command_left == 5
    then record v { current = b }
    else if u.command_left == 4
    then record v { content_left = b * 256 }
    else if u.command_left == 3
    then record v { content_left = u.content_left + b }
    else if u.command_left == 2
    then record v { padding_left = b * 256 }
    else if u.command_left == 1
    then record v { padding_left = u.padding_left + b }
    else v

-- `while (ctx->remaining_command > 0)`, on what is left of the stash
unfoldable pub read_block_header : Unpad → Bytes → Unpad × Bytes
read_block_header u [] = (u, [])
read_block_header u (b ∷ rest) =
    let later = read_block_header (header_byte u b) rest in
    if u.command_left == 0 then (u, b ∷ rest) else later

-- A state, what is left of the stash, the output, and `*switch_to_direct`.
pub record Feed : Type 0 where
  pub unpad : Unpad
  pub left : Bytes
  pub out : Bytes
  pub direct : Bool

-- What a round of the loop does.
pub data Round : Type 0 where
  failed : Round
  stop : Feed → Round
  again : Feed → Round

abbrev pub smaller : ℕ → ℕ → ℕ
smaller n m = if ltb m n then m else n

-- `core_relay_buffer_append`: `room` says whether there is memory for so many bytes.
module _ (room : ℕ → Bool) where
  abbrev pub append_out : Bytes → Bytes → Option Bytes
  append_out out bytes = if room (length out + length bytes) then some (out ++ bytes) else none

  -- The rest of the stash goes out as it is.
  unfoldable pub flush : Feed → Round
  flush f = elim (append_out f.out f.left) [
    | none ↦ failed
    | some out ↦ stop (record f { out = out; left = [] })
  ]

  -- The end of a block.
  unfoldable pub end_block : Feed → Round
  end_block f =
      let u = record f.unpad { completed = true } in
      let ended = record u { idle = true; command_left = 0; content_left = 0; padding_left = 0 } in
      let g = record f { unpad = ended; direct = f.direct || u.current == cmd_direct } in
      if u.current == cmd_continue
      then again (record f { unpad = await_header u })
      else if length f.left == 0
      then stop g
      else flush g

  -- The padding, and the end of the block behind it.
  unfoldable pub skip_padding : Feed → Round
  skip_padding f =
      let u = f.unpad in
      let skip = if u.content_left == 0 then smaller (length f.left) u.padding_left else 0 in
      let v = record u { padding_left = u.padding_left - skip } in
      let g = record f { unpad = v; left = drop skip f.left } in
      if v.content_left == 0 && v.padding_left == 0 then end_block g else again g

  -- The content, and the padding behind it.
  unfoldable pub take_content : Feed → Round
  take_content f =
      let u = f.unpad in
      let n = smaller (length f.left) u.content_left in
      if u.content_left == 0 then skip_padding f else elim (append_out f.out (take n f.left)) [
        | none ↦ failed
        | some out ↦ skip_padding (record f {
          unpad = record u { content_left = u.content_left - n };
          left = drop n f.left;
          out = out;
        })
      ]

  -- The header of a block, and its body once the header is read.
  unfoldable pub block_round : Feed → Round
  block_round f =
      let (u, rest) = read_block_header f.unpad f.left in
      let g = record f { unpad = u; left = rest } in
      if u.command_left == 0 then take_content g else stop g

  -- One round of the loop over the stash.
  unfoldable pub feed_round : Feed → Round
  feed_round f =
      let u = f.unpad in
      let remain = length f.left in
      if not u.idle
      then block_round f
      else if not (padding_ended u) && ltb remain 16 && same_bytes f.left (take remain u.uuid)
      then stop f
      else if padding_ended u || ltb remain 16 || not (same_bytes (take 16 f.left) u.uuid)
      then flush f
      else block_round
          (record f { unpad = record (await_header u) { current = 0 }; left = drop 16 f.left })

  -- The loop, on fuel: none also stands for a loop that has more rounds.
  unfoldable pub feed_loop : ℕ → Feed → Option Feed
  feed_loop zero f = if length f.left == 0 then some f else none
  feed_loop (suc n) f =
      if length f.left == 0
      then some f
      else elim (feed_round f) [ failed ↦ none | stop g ↦ some g | again g ↦ feed_loop n g ]

  -- `vision_unpad_feed_buffer`: the state, the output and `*switch_to_direct`, if it returns 0.
  unfoldable pub unpad_feed : Unpad → Bytes → Option Feed
  unpad_feed u input = elim (if length input == 0 then some u.stash else append_out u.stash input) [
    | none ↦ none
    | some stash ↦
        elim (feed_loop (length stash)
          (record { unpad = u; left = stash; out = []; direct = false })) [
            | none ↦ none
            | some f ↦ some (record f { unpad = record f.unpad { stash = f.left } })
          ]
  ]
