-- ===== src/Examples/Table.antt =====
-- Runs of src/hpack.c: insertions into the dynamic table.
use vless_core_cli.Prelude.{
  true, [], ◌∷◌, ◌++◌, none, some, ◌≡◌, ◌≤◌, refl, arith, length, size_max,
}
use vless_core_cli.Prelude.Loops.{Ended}
use vless_core_cli.Hpack.{Decoder, init, insert, resize, lookup}
use vless_core_cli.Hpack.{decode_int}
use vless_core_cli.Hpack.Integers.{encode_int, groups, decode_int-encode_int}
use vless_core_cli.Hpack.Bounds.{IsTable, insert-IsTable, lookup-insert}
use vless_core_cli.Hpack.Huffman.{decode_huffman, huffman_bits, all_bits}
use vless_core_cli.Hpack.Code.{
  code_of, codes_of, ones, decode_huffman-codes_of, huffman_bits-codes_of,
}
use vless_core_cli.Hpack.Decode.{decode}
use vless_core_cli.Hpack.Walks.{IsWalk, decode-Ended}

init-IsTable : IsTable init
init-IsTable = record { total = refl; sized = tt; within = omega arith; limited = omega arith }

-- One entry, `x: yz`.
abbrev one : Decoder
one = (insert init (0x78 ∷ []) (0x79 ∷ 0x7a ∷ []) true).1

insert_test : one.size ≡ 35
unfolding insert
insert_test = refl

-- A smaller maximum evicts the entry.
resize_test :
    resize one 10 ≡ some (record { entries = []; size = 0; maximum = 10; initialized = true })
unfolding insert resize
resize_test = refl

resize_large_test : resize one 5000 ≡ none
unfolding resize
resize_large_test = refl

one-IsTable : IsTable one
one-IsTable = insert-IsTable init (0x78 ∷ []) (0x79 ∷ 0x7a ∷ []) true init-IsTable

one_maximum : one.maximum ≡ 4096
unfolding insert
one_maximum = refl

lookup-insert_example : lookup [] (insert one (0x61 ∷ []) [] true).1 1 ≡ some (0x61 ∷ [], [])
lookup-insert_example = lookup-insert [] one (0x61 ∷ []) [] one-IsTable (omega (arith, one_maximum))

-- The example C.1.2 of RFC 7541: 1337 with a prefix of 5 bits.
encode_int_test : encode_int 5 0 1337 ≡ 31 ∷ 154 ∷ 10 ∷ []
unfolding groups
encode_int_test = refl

decode_int_example : decode_int 5 (encode_int 5 0 1337 ++ (7 ∷ [])) ≡ some (1337, 7 ∷ [])
decode_int_example =
    decode_int-encode_int 5 0 1337 (7 ∷ []) (omega arith) (omega arith) (omega arith)

-- `a` and three ones, in one byte.
decode_huffman_test : decode_huffman (31 ∷ []) ≡ some (97 ∷ [])
unfolding decode_huffman
decode_huffman_test = refl

a_bits : all_bits (31 ∷ []) ≡ codes_of (97 ∷ []) ++ ones 3
unfolding code_of
a_bits = refl

decode_huffman-codes_of_example : decode_huffman (31 ∷ []) ≡ some (97 ∷ [])
decode_huffman-codes_of_example =
    decode_huffman-codes_of (97 ∷ []) (31 ∷ []) 3 (omega arith, tt) (omega arith) a_bits

a_width : length (codes_of (97 ∷ [])) ≤ size_max
unfolding code_of
a_width = omega arith

huffman_bits-codes_of_example : huffman_bits (97 ∷ []) ≡ length (codes_of (97 ∷ []))
huffman_bits-codes_of_example = huffman_bits-codes_of (97 ∷ []) (omega arith, tt) a_width

-- A block that ends in the middle of a field.
decode-Ended_example :
    Ended IsWalk IsWalk (decode (λ n m. true) one (136 ∷ 64 ∷ 1 ∷ 97 ∷ 1 ∷ 98 ∷ 190 ∷ 64 ∷ 9 ∷ []))
decode-Ended_example =
    decode-Ended (λ n m. true) one (136 ∷ 64 ∷ 1 ∷ 97 ∷ 1 ∷ 98 ∷ 190 ∷ 64 ∷ 9 ∷ [])
      (λ e. one-IsTable)
