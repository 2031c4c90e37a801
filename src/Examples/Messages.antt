-- ===== src/Examples/Messages.antt =====
-- Runs of src/grpc.c: a message in two pieces, its chunks, and headers.
use vless_core_cli.Prelude.{
  true, false, List, [], ◌∷◌, ◌++◌, Option, none, some, take, drop, Bytes, ◌≡◌, refl, ◌↔◌, inl,
  arith, length, ◌<◌, ◌≤◌, codes,
}
use vless_core_cli.Hpack.Fields.{Headers, no_headers}
use vless_core_cli.Grpc.{
  Chunk, Decoder, Outcome, waits, whole_message, refused, append_data, read_chunks, decode, fresh,
}
use vless_core_cli.Grpc.Bounds.{IsDecoder}
use vless_core_cli.Grpc.Messages.{Ends, decode-Ends}
use vless_core_cli.Grpc.Chunks.{contents, AreChunks, append_data-contents, read_chunks-contents}
use vless_core_cli.Grpc.Trailers.{response_headers, accepted, IsAccepted, response_headers_iff}
use vless_core_cli.Grpc.Parameters.{parameter_number, digits_loop, parameter_number_iff}
use vless_core_cli.Cli.Numbers.{AreDigits, decimal}

-- Another decoder holds 100 bytes.
abbrev start : Decoder
start = fresh false 100

start-IsDecoder : IsDecoder 100 start
start-IsDecoder = record {
  held = record {
    share = refl;
    within = omega arith;
    small = omega arith;
    contents = λ (e : 0 ≡ 2). absurd (omega (arith, e));
    depth = omega arith;
    shifted = omega arith;
    number = omega arith;
    streams = λ e. refl;
    working = refl;
  };
  header = omega arith;
  unread = refl;
  begun = λ (e : 0 ≡ 5). absurd (omega (arith, e));
  idle = λ e. refl;
}

abbrev message : Bytes
message = 0 ∷ 0 ∷ 0 ∷ 0 ∷ 4 ∷ 10 ∷ 2 ∷ 65 ∷ 66 ∷ []

abbrev outcome : Option (Outcome × Decoder × Bytes) → Option Outcome
outcome none = none
outcome (some (result, t, rest)) = some result

decode_test : outcome (decode (λ n. true) start message) ≡ some whole_message
unfolding decode
decode_test = refl

decode_cut_test : outcome (decode (λ n. true) start (take 7 message)) ≡ some waits
unfolding decode
decode_cut_test = refl

decode_long_test : outcome (decode (λ n. true) start (0 ∷ 2 ∷ 0 ∷ 0 ∷ 0 ∷ [])) ≡ some refused
unfolding decode
decode_long_test = refl

decode-Ends_example : Ends 100 (decode (λ n. true) start message)
decode-Ends_example = decode-Ends (λ n. true) 100 start message (inl start-IsDecoder)

abbrev chunks : List Chunk
chunks = record { start = 1; data_bytes = 1 ∷ 2 ∷ []; capacity = 3 } ∷ []

chunks-AreChunks : AreChunks chunks
chunks-AreChunks = (omega arith, omega arith, tt)

append_data-contents_example :
    (ds : List Chunk) × (append_data (λ n. true) 0 5 chunks (3 ∷ 4 ∷ []) ≡ some ds)
    × (contents ds ≡ contents chunks ++ 3 ∷ 4 ∷ [])
    × AreChunks ds
append_data-contents_example =
    append_data-contents 0 5 chunks (3 ∷ 4 ∷ []) chunks-AreChunks (omega arith)

read_chunks-contents_example :
    ((read_chunks 1 chunks).0 ≡ take 1 (contents chunks))
    × (contents (read_chunks 1 chunks).1 ≡ drop 1 (contents chunks))
    × AreChunks (read_chunks 1 chunks).1
read_chunks-contents_example = read_chunks-contents 1 chunks chunks-AreChunks

-- The first headers of a response.
abbrev headers : Headers
headers = record no_headers { status = 200; content_type_seen = 1; grpc_content_type = true }

response_headers_test : response_headers headers true false ≡ accepted
unfolding response_headers
response_headers_test = refl

response_headers_iff_example :
    (response_headers headers true false ≡ accepted) ↔ IsAccepted headers true false
response_headers_iff_example = response_headers_iff headers true false

parameter_number_test : parameter_number (codes "4294967306") 1 262144 ≡ none
unfolding parameter_number digits_loop
parameter_number_test = refl

parameter_number_iff_example : (parameter_number (codes "0512") 1 262144 ≡ some 512) ↔ (
    (0 < length (codes "0512"))
    × AreDigits (codes "0512")
    × (decimal 0 (codes "0512") ≡ 512)
    × (1 ≤ 512)
    × (512 ≤ 262144))
parameter_number_iff_example = parameter_number_iff (codes "0512") 1 262144 512 (omega arith)
