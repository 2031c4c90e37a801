-- ===== src/Examples/Visions.antt =====
-- Runs of src/vision.c.
use vless_core_cli.Prelude.{
  choose_left, ℕ, zero, suc, Bool, true, false, List, [], ◌∷◌, ◌++◌, none, some, leb, if◌then◌else◌,
  length, Bytes, ◌≡◌, refl, ap, inl, arith,
}
use vless_core_cli.Prelude.Loops.{read_loop}
use mathlib.Core.Path.{subst}
use vless_core_cli.Vision.{cmd_continue, cmd_end, cmd_direct, unpad_init, Feed, unpad_feed}
use vless_core_cli.Vision.Blocks.{Block, block_bytes, stream, unpad_feed-stream}
use vless_core_cli.Vision.Tls.Records.{
  Wrap, Observed, store, observe_tls, record_round, read_record_header, disable,
}
use vless_core_cli.Vision.Tls.Sound.{IsSound}
use vless_core_cli.Vision.Tls.Total.{observe_tls-IsSound}
use vless_core_cli.Vision.Wrap.{
  Random, number, wrap_init, wrap_payload, bootstrap, build_block, block_of, padding_len,
  wrap_chunk, wrap_observed, command_for,
}
use vless_core_cli.Vision.Wrap.Session.{Wire}
use vless_core_cli.Vision.Wrap.Success.{Answers, wrap_chunk_succeeds}
use vless_core_cli.Vision.Wrap.Payloads.{session-unpad, wrap_init-Wire, wrap_payload-Wire}

abbrev plenty : ℕ → Bool
plenty n = true

abbrev some_uuid : Bytes
some_uuid = 1 ∷ 2 ∷ 3 ∷ 4 ∷ 5 ∷ 6 ∷ 7 ∷ 8 ∷ 9 ∷ 10 ∷ 11 ∷ 12 ∷ 13 ∷ 14 ∷ 15 ∷ 16 ∷ []

abbrev zeros : ℕ → Bytes
zeros zero = []
zeros (suc n) = 0 ∷ zeros n

zeros-length : (n : ℕ) → length (zeros n) ≡ n
zeros-length zero = refl
zeros-length (suc n) = ap (λ m. suc m) (zeros-length n)

same : {a b : Bytes} → some a ≡ some b → a ≡ b
same e = cc

-- A source that draws the lowest number and fills with zeros.
abbrev plain : Random
plain = record {
  range = λ low high. if leb low high then some low else none;
  fill = λ n. some (zeros n);
  range_bounds = λ low high n e. (ground (arith, e), ground (arith, e));
  fill_length = λ n b e. subst (λ x. length x ≡ n) (same e) (zeros-length n);
}

abbrev last_block : Block
last_block = record { command = cmd_direct; content = 7 ∷ 8 ∷ []; padding = 0 ∷ [] }

abbrev first_block : Block
first_block = record { command = cmd_continue; content = 5 ∷ []; padding = [] }

unpad_feed-stream_example :
    (f : Feed) × (unpad_feed plenty
        (unpad_init some_uuid)
        (some_uuid ++ (stream (first_block ∷ []) ++ (block_bytes last_block ++ (9 ∷ []))))
      ≡ some f)
    × (f.out ≡ 5 ∷ 7 ∷ 8 ∷ 9 ∷ [])
    × (f.unpad.stash ≡ [])
    × (f.direct ≡ true)
unpad_feed-stream_example =
    unpad_feed-stream plenty (λ n. refl) some_uuid (first_block ∷ []) last_block (9 ∷ []) refl
      (refl, record { content = omega arith; padding = omega arith }, tt)
      (record { content = omega arith; padding = omega arith }) refl

abbrev new_wrap : Wrap
new_wrap = wrap_init (number 1) some_uuid

new_wrap-IsSound : IsSound new_wrap
new_wrap-IsSound on =
    ((inl (omega arith), inl (omega arith)), (inl (omega arith), inl (omega arith)))

observe_tls-IsSound_example :
    (o : Observed) × (observe_tls false new_wrap (22 ∷ 3 ∷ 1 ∷ 0 ∷ 4 ∷ 20 ∷ 0 ∷ [])
      ≡ some (store false new_wrap o))
    × IsSound (store false new_wrap o)
observe_tls-IsSound_example =
    observe_tls-IsSound false new_wrap (22 ∷ 3 ∷ 1 ∷ 0 ∷ 4 ∷ 20 ∷ 0 ∷ []) new_wrap-IsSound

-- Two payloads that are no TLS: the first ends the padding, the second goes as it is.
abbrev two_payloads : List Bytes
two_payloads = (0x41 ∷ 0x42 ∷ []) ∷ (0x43 ∷ []) ∷ []

abbrev bootstrap_block : Block
bootstrap_block = record { command = cmd_continue; content = []; padding = zeros 900 }

abbrev end_block' : Block
end_block' = record { command = cmd_end; content = 0x41 ∷ 0x42 ∷ []; padding = zeros 898 }

abbrev sent_wire : Bytes
sent_wire = some_uuid ++ (block_bytes bootstrap_block ++ (block_bytes end_block' ++ (0x43 ∷ [])))

abbrev random_plain : ℕ → ℕ → Random
random_plain n k = plain

session-unpad_example :
    (f : Feed) × (unpad_feed plenty (unpad_init some_uuid) sent_wire ≡ some f)
    × (f.out ≡ 0x41 ∷ 0x42 ∷ 0x43 ∷ [])
    × (f.unpad.stash ≡ [])
unfolding bootstrap build_block block_of padding_len wrap_payload wrap_chunk wrap_observed
    command_for observe_tls read_loop record_round read_record_header disable
session-unpad_example =
    session-unpad plenty some_uuid random_plain (number 1) two_payloads _ sent_wire plenty refl
      (λ n. refl) refl refl

wrap_payload-Wire_example :
    Wire some_uuid
      (record new_wrap {
        packets_left = 0;
        padding_active = false;
        uuid_sent = true;
        flags = record (new_wrap.flags) { tls_disabled = true };
        client_tls = record (new_wrap.client_tls) { record_bytes = 0x41 ∷ 0x42 ∷ [] };
      })
      (some_uuid ++ block_bytes end_block')
      (0x41 ∷ 0x42 ∷ [])
unfolding build_block block_of padding_len wrap_payload wrap_chunk wrap_observed command_for
    observe_tls read_loop record_round read_record_header disable
wrap_payload-Wire_example =
    wrap_payload-Wire plenty some_uuid (λ k. plain) new_wrap _ (0x41 ∷ 0x42 ∷ [])
      (some_uuid ++ block_bytes end_block') [] [] (wrap_init-Wire plenty some_uuid (number 1)) refl

plain-Answers : Answers plain
plain-Answers = record {
  range = λ low high le. (low, choose_left (leb low high) _ _ (ground (arith, le)));
  fill = λ n. (zeros n, refl);
}

wrap_chunk_succeeds_example :
    (t : Wrap) × (bytes : Bytes) × (wrap_chunk plenty plain new_wrap (0x41 ∷ 0x42 ∷ [])
      ≡ some (t, bytes))
    × IsSound t
wrap_chunk_succeeds_example =
    wrap_chunk_succeeds plenty (λ n. refl) plain plain-Answers new_wrap (0x41 ∷ 0x42 ∷ [])
      new_wrap-IsSound (omega arith)
