-- ===== src/Hpack/Huffman.antt =====
-- src/hpack.c: the Huffman code of HPACK, and its strings.
use vless_core_cli.Prelude.{
  ℕ, ◌+◌, ◌-◌, ◌*◌, ◌/◌, ◌%◌, ◌^◌, Bool, ◌&&◌, ◌||◌, not, [], ◌∷◌, ◌++◌, Option, none, some, ltb,
  leb, ◌==◌, if◌then◌else◌, get_or, take, drop, length, Bytes, size_max, contains,
}
use vless_core_cli.Hpack.{decode_int}

-- `counts`
abbrev pub counts : Bytes
counts =
    0 ∷ 0 ∷ 0 ∷ 0 ∷ 0 ∷ 10 ∷ 26 ∷ 32 ∷ 6 ∷ 0 ∷ 5 ∷ 3 ∷ 2 ∷ 6 ∷ 2 ∷ 3 ∷ 0 ∷ 0 ∷ 0 ∷ 3 ∷ 8 ∷ 13 ∷ 26
    ∷ 29 ∷ 12 ∷ 4 ∷ 15 ∷ 19 ∷ 29 ∷ 0 ∷ 4 ∷ []

-- `symbols`
abbrev pub symbols : Bytes
symbols =
    48 ∷ 49 ∷ 50 ∷ 97 ∷ 99 ∷ 101 ∷ 105 ∷ 111 ∷ 115 ∷ 116 ∷ 32 ∷ 37 ∷ 45 ∷ 46 ∷ 47 ∷ 51 ∷ 52 ∷ 53
    ∷ 54 ∷ 55 ∷ 56 ∷ 57 ∷ 61 ∷ 65 ∷ 95 ∷ 98 ∷ 100 ∷ 102 ∷ 103 ∷ 104 ∷ 108 ∷ 109 ∷ 110 ∷ 112 ∷ 114
    ∷ 117 ∷ 58 ∷ 66 ∷ 67 ∷ 68 ∷ 69 ∷ 70 ∷ 71 ∷ 72 ∷ 73 ∷ 74 ∷ 75 ∷ 76 ∷ 77 ∷ 78 ∷ 79 ∷ 80 ∷ 81 ∷ 82
    ∷ 83 ∷ 84 ∷ 85 ∷ 86 ∷ 87 ∷ 89 ∷ 106 ∷ 107 ∷ 113 ∷ 118 ∷ 119 ∷ 120 ∷ 121 ∷ 122 ∷ 38 ∷ 42 ∷ 44
    ∷ 59 ∷ 88 ∷ 90 ∷ 33 ∷ 34 ∷ 40 ∷ 41 ∷ 63 ∷ 39 ∷ 43 ∷ 124 ∷ 35 ∷ 62 ∷ 0 ∷ 36 ∷ 64 ∷ 91 ∷ 93 ∷ 126
    ∷ 94 ∷ 125 ∷ 60 ∷ 96 ∷ 123 ∷ 92 ∷ 195 ∷ 208 ∷ 128 ∷ 130 ∷ 131 ∷ 162 ∷ 184 ∷ 194 ∷ 224 ∷ 226
    ∷ 153 ∷ 161 ∷ 167 ∷ 172 ∷ 176 ∷ 177 ∷ 179 ∷ 209 ∷ 216 ∷ 217 ∷ 227 ∷ 229 ∷ 230 ∷ 129 ∷ 132 ∷ 133
    ∷ 134 ∷ 136 ∷ 146 ∷ 154 ∷ 156 ∷ 160 ∷ 163 ∷ 164 ∷ 169 ∷ 170 ∷ 173 ∷ 178 ∷ 181 ∷ 185 ∷ 186 ∷ 187
    ∷ 189 ∷ 190 ∷ 196 ∷ 198 ∷ 228 ∷ 232 ∷ 233 ∷ 1 ∷ 135 ∷ 137 ∷ 138 ∷ 139 ∷ 140 ∷ 141 ∷ 143 ∷ 147
    ∷ 149 ∷ 150 ∷ 151 ∷ 152 ∷ 155 ∷ 157 ∷ 158 ∷ 165 ∷ 166 ∷ 168 ∷ 174 ∷ 175 ∷ 180 ∷ 182 ∷ 183 ∷ 188
    ∷ 191 ∷ 197 ∷ 231 ∷ 239 ∷ 9 ∷ 142 ∷ 144 ∷ 145 ∷ 148 ∷ 159 ∷ 171 ∷ 206 ∷ 215 ∷ 225 ∷ 236 ∷ 237
    ∷ 199 ∷ 207 ∷ 234 ∷ 235 ∷ 192 ∷ 193 ∷ 200 ∷ 201 ∷ 202 ∷ 205 ∷ 210 ∷ 213 ∷ 218 ∷ 219 ∷ 238 ∷ 240
    ∷ 242 ∷ 243 ∷ 255 ∷ 203 ∷ 204 ∷ 211 ∷ 212 ∷ 214 ∷ 221 ∷ 222 ∷ 223 ∷ 241 ∷ 244 ∷ 245 ∷ 246 ∷ 247
    ∷ 248 ∷ 250 ∷ 251 ∷ 252 ∷ 253 ∷ 254 ∷ 2 ∷ 3 ∷ 4 ∷ 5 ∷ 6 ∷ 7 ∷ 8 ∷ 11 ∷ 12 ∷ 14 ∷ 15 ∷ 16 ∷ 17
    ∷ 18 ∷ 19 ∷ 20 ∷ 21 ∷ 23 ∷ 24 ∷ 25 ∷ 26 ∷ 27 ∷ 28 ∷ 29 ∷ 30 ∷ 31 ∷ 127 ∷ 220 ∷ 249 ∷ 10 ∷ 13
    ∷ 22 ∷ 256 ∷ []

-- A place in the code: the bits so far as a number, the first code of that many bits, and the symbols
-- with fewer bits.
pub record Node : Type 0 where
  pub code : ℕ
  pub first : ℕ
  pub base : ℕ
  pub bits : ℕ

abbrev pub root : Node
root = record { code = 0; first = 0; base = 0; bits = 0 }

-- A bit: none is an error, and there is a symbol where the bit ends a code.
unfoldable pub huffman_step : Node → ℕ → Option (Node × Option ℕ)
huffman_step n b =
    let code : ℕ = (n.code * 2 + b) % 2 ^ 32 in
    let bits : ℕ = n.bits + 1 in
    let count = get_or counts bits 0 in
    let symbol = get_or symbols (n.base + (code - n.first)) 0 in
    if leb n.first code && ltb (code - n.first) count
    then if symbol == 256 then none else some (root, some symbol)
    else if bits == 30
    then none
    else some (
      record {
        code = code;
        first = (n.first + count) * 2 % 2 ^ 32;
        base = n.base + count;
        bits = bits;
      },
      none,
    )

abbrev pub told : Option ℕ → Bytes → Bytes
told none text = text
told (some symbol) text = symbol ∷ text

-- The symbols of some bits, and the place behind them.
unfoldable pub huffman_loop : Node → Bytes → Option (Bytes × Node)
unfolding huffman_step
huffman_loop n [] = some ([], n)
huffman_loop n (b ∷ bs) = elim (huffman_step n b) [
  | none ↦ none
  | some (m, emitted) ↦ elim (huffman_loop m bs) [
    | none ↦ none
    | some (text, last) ↦ some (told emitted text, last)
  ]
]

-- The bits of a byte, from the highest.
abbrev pub byte_bits : ℕ → Bytes
byte_bits b =
    b / 128 % 2
    ∷ b / 64 % 2
    ∷ b / 32 % 2
    ∷ b / 16 % 2
    ∷ b / 8 % 2
    ∷ b / 4 % 2
    ∷ b / 2 % 2
    ∷ b % 2
    ∷ []

abbrev pub all_bits : Bytes → Bytes
all_bits [] = []
all_bits (b ∷ bs) = byte_bits b ++ all_bits bs

-- `core_hpack_decode_huffman`: the whole text. The bits that are left over must be at most seven ones.
unfoldable pub decode_huffman : Bytes → Option Bytes
unfolding huffman_loop
decode_huffman buf = elim (huffman_loop root (all_bits buf)) [
  | none ↦ none
  | some (text, n) ↦ if ltb 7 n.bits || not (n.code == 2 ^ n.bits - 1) then none else some text
]

-- The bits of a symbol in `core_hpack_huffman_bits`: the counts and the symbols from a width on.
abbrev pub width_of : ℕ → ℕ → Bytes → Bytes → ℕ
width_of symbol width [] rest = 0
width_of symbol width (count ∷ more) rest =
    let later = width_of symbol (width + 1) more (drop count rest) in
    if contains symbol (take count rest) then width else later

-- The number of bits for a symbol; 0 without a code for it.
unfoldable pub symbol_width : ℕ → ℕ
symbol_width symbol = width_of symbol 1 (drop 1 counts) symbols

abbrev pub bits_from : ℕ → Bytes → ℕ
bits_from total [] = total
bits_from total (c ∷ cs) =
    let width = symbol_width c in
    let rest = bits_from (total + width) cs in
    if width == 0 || ltb (size_max - width) total then size_max else rest

-- `core_hpack_huffman_bits`
unfoldable pub huffman_bits : Bytes → ℕ
huffman_bits text = bits_from 0 text

-- What a capacity keeps of a text, less its final NUL.
abbrev pub kept : ℕ → Bytes → Bytes
kept cap text = take (cap - 1) text

-- The text behind the length in `core_hpack_read_string`: what is stored, how long the text is, and the
-- bytes behind it.
unfoldable pub string_body : Bool → ℕ → ℕ → Bytes → Option (Bytes × ℕ × Bytes)
unfolding decode_huffman
string_body huffman cap size rest =
    if ltb (length rest) size
    then none
    else if huffman
    then elim (decode_huffman (take size rest)) [
      | none ↦ none
      | some text ↦ some (kept cap text, length text, drop size rest)
    ]
    else some (kept cap (take size rest), size, drop size rest)

-- `core_hpack_read_string`
unfoldable pub read_string : ℕ → Bytes → Option (Bytes × ℕ × Bytes)
unfolding decode_int string_body
read_string cap buf = elim (decode_int 7 buf) [
  | none ↦ none
  | some (size, rest) ↦ string_body (leb 128 (get_or buf 0 0)) cap size rest
]

-- `read_allocated_string`: `granted` says whether there is memory for so many bytes, with so many bytes of
-- the block left.
unfoldable pub read_allocated : (ℕ → ℕ → Bool) → Bytes → Option (Bytes × Bytes)
unfolding read_string
read_allocated granted buf = elim (read_string 0 buf) [
  | none ↦ none
  | some (nothing, decoded, behind) ↦
      if ltb 65536 decoded || not (granted (length buf) (decoded + 1))
      then none
      else elim (read_string (decoded + 1) buf) [
        | none ↦ none
        | some (text, actual, rest) ↦ if actual == decoded then some (text, rest) else none
      ]
]
