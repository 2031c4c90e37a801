-- ===== src/Utils.antt =====
-- src/utils.c: hexadecimal text, UUIDs, and the escapes of a request target. A C string is the list of
-- its bytes before the NUL, so that no byte of it is 0.
pub mod Hex
pub mod Spelling
pub mod Target
pub mod Escapes
use vless_core_cli.Prelude.{
  ℕ, zero, suc, ◌+◌, ◌-◌, ◌*◌, ◌/◌, ◌%◌, ◌^◌, ◌≤◌, ◌<◌, min, max, Bool, true, false, ◌&&◌, ◌||◌,
  not, List, [], ◌∷◌, ◌++◌, Option, none, some, ltb, leb, ◌==◌, if◌then◌else◌, get_elem?, get_or,
  set, take, drop, length, Bytes, size_max, add_size, sub_size, ◌≡◌, refl, sym, ap, ap₂, ◌∙◌, ◌≢◌,
  ◌↔◌, ◌⊎◌, inl, inr, arith, Bool-cases, Option-cases, append-nil, append_assoc, length-append,
  length-take, length-drop, bit, word16, word24, word32, map, take-append-drop,
}

abbrev pub between : ℕ → ℕ → ℕ → Bool
between low high n = leb low n && leb n high

-- `hex_value`
unfoldable pub hex_value : ℕ → Option ℕ
hex_value c =
    let lower = if between 65 90 c then c + 32 else c in
    if between 48 57 c
    then some (c - 48)
    else if between 97 102 lower
    then some (10 + (lower - 97))
    else none

-- `isxdigit`
abbrev pub is_hex_digit : ℕ → Bool
is_hex_digit c = between 48 57 c || between 65 70 c || between 97 102 c

-- `(uint8_t)((hi << 4) | lo)`, for digits
unfoldable pub hex_pair : ℕ → ℕ → Option ℕ
unfolding hex_value
hex_pair high low = elim (hex_value high) [
  | none ↦ none
  | some h ↦ elim (hex_value low) [ none ↦ none | some l ↦ some (h * 16 + l) ]
]

-- The loop of `hex_to_bytes`, and the second one of `parse_uuid`; there is an even number of digits.
unfoldable pub hex_pairs : Bytes → Option Bytes
unfolding hex_pair
hex_pairs [] = some []
hex_pairs (a ∷ []) = none
hex_pairs (a ∷ b ∷ rest) = elim (hex_pair a b) [
  | none ↦ none
  | some byte ↦ elim (hex_pairs rest) [ none ↦ none | some bytes ↦ some (byte ∷ bytes) ]
]

-- `hex_to_bytes`
unfoldable pub hex_to_bytes : Bytes → ℕ → Option Bytes
unfolding hex_pairs
hex_to_bytes hex cap =
    if not (length hex % 2 == 0)
    then none
    else if ltb cap (length hex / 2)
    then none
    else hex_pairs hex

-- The first loop of `parse_uuid`; `used` is the array `compact` as far as it is filled.
unfoldable pub compact : Bytes → Bytes → Option Bytes
compact used [] = if length used == 32 then some used else none
compact used (c ∷ rest) =
    let skipped = compact used rest in
    let taken = compact (used ++ (c ∷ [])) rest in
    if c == 45
    then skipped
    else if not (is_hex_digit c) || leb 32 (length used)
    then none
    else taken

-- `parse_uuid`
unfoldable pub parse_uuid : Bytes → Option Bytes
unfolding compact hex_pairs
parse_uuid s = elim (compact [] s) [ none ↦ none | some digits ↦ hex_pairs digits ]

-- The escape `%` with two digits in `percent_decode`: the byte, if it is not 0.
unfoldable pub escape_value : ℕ → ℕ → Option ℕ
unfolding hex_pair
escape_value a b =
    if not (is_hex_digit a) || not (is_hex_digit b)
    then none
    else elim (hex_pair a b) [ none ↦ none | some v ↦ if v == 0 then none else some v ]

abbrev pub prepend : ℕ → Option Bytes → Option Bytes
prepend c none = none
prepend c (some out) = some (c ∷ out)

-- What `percent_decode` writes for a byte that is no `%`.
abbrev pub plain : ℕ → ℕ
plain c = if c == 43 then 32 else c

-- The loop of `percent_decode`, with `used` bytes written.
unfoldable pub percent_loop : ℕ → ℕ → Bytes → Option Bytes
unfolding escape_value
percent_loop cap used [] = some []
percent_loop cap used (c ∷ []) =
    if leb cap (used + 1) then none else if c == 37 then none else some (plain c ∷ [])
percent_loop cap used (c ∷ a ∷ []) =
    let rest = percent_loop cap (used + 1) (a ∷ []) in
    if leb cap (used + 1) then none else if c == 37 then none else prepend (plain c) rest
percent_loop cap used (c ∷ a ∷ b ∷ rest) =
    let behind = percent_loop cap (used + 1) rest in
    let next = percent_loop cap (used + 1) (a ∷ b ∷ rest) in
    if leb cap (used + 1)
    then none
    else if c == 37
    then elim (escape_value a b) [ none ↦ none | some v ↦ prepend v behind ]
    else prepend (plain c) next

-- `percent_decode`
unfoldable pub percent_decode : Bytes → ℕ → Option Bytes
unfolding percent_loop
percent_decode input cap = if cap == 0 then none else percent_loop cap 0 input

-- The bytes of "-._~!$&'()*+,;=:@/?".
abbrev pub marks : Bytes
marks =
    45 ∷ 46 ∷ 95 ∷ 126 ∷ 33 ∷ 36 ∷ 38 ∷ 39 ∷ 40 ∷ 41 ∷ 42 ∷ 43 ∷ 44 ∷ 59 ∷ 61 ∷ 58 ∷ 64 ∷ 47 ∷ 63
    ∷ []

-- `strchr` at a byte that is not 0
abbrev pub contains : Bytes → ℕ → Bool
contains [] c = false
contains (x ∷ xs) c = x == c || contains xs c

-- `request_byte`
unfoldable pub request_byte : ℕ → Bool
request_byte c = between 97 122 c || between 65 90 c || between 48 57 c || contains marks c

-- The test of an escape in the first loop of `core_request_target`.
unfoldable pub escape_allowed : ℕ → ℕ → Bool
unfolding hex_value
escape_allowed a b = elim (hex_value a) [
  | none ↦ false
  | some h ↦ elim (hex_value b) [
    | none ↦ false
    | some l ↦ not (h == 0 && l == 0) && not (h == 0 && (l == 10 || l == 13))
  ]
]

-- The first loop of `core_request_target`: the size of the output, if it fits.
unfoldable pub target_size : ℕ → ℕ → Bytes → Option ℕ
target_size cap size [] = some size
target_size cap size (c ∷ []) =
    let required = if request_byte c then 1 else 3 in
    if c == 13 || c == 10 || c == 37 || ltb (sub_size (cap - 1) size) required
    then none
    else some (size + required)
target_size cap size (c ∷ a ∷ []) =
    let required = if request_byte c then 1 else 3 in
    let rest = target_size cap (size + required) (a ∷ []) in
    if c == 13 || c == 10 || c == 37 || ltb (sub_size (cap - 1) size) required then none else rest
target_size cap size (c ∷ a ∷ b ∷ rest) =
    let required = if request_byte c then 1 else 3 in
    let behind = target_size cap (size + 3) rest in
    let next = target_size cap (size + required) (a ∷ b ∷ rest) in
    if c == 13 || c == 10
    then none
    else if c == 37
    then (if not (escape_allowed a b) || ltb (sub_size (cap - 1) size) 3 then none else behind)
    else if ltb (sub_size (cap - 1) size) required
    then none
    else next

-- A digit of `hex`
abbrev pub hex_digit : ℕ → ℕ
hex_digit d = if ltb d 10 then 48 + d else 55 + d

-- A byte that is no `%` in the second loop.
unfoldable pub target_byte : ℕ → Bytes
target_byte c = if request_byte c then c ∷ [] else 37 ∷ hex_digit (c / 16) ∷ hex_digit (c % 16) ∷ []

-- The second loop of `core_request_target`; behind a `%` there are two bytes.
unfoldable pub target_write : Bytes → Bytes
target_write [] = []
target_write (c ∷ []) = target_byte c
target_write (c ∷ a ∷ []) = target_byte c ++ target_write (a ∷ [])
target_write (c ∷ a ∷ b ∷ rest) =
    let behind = target_write rest in
    let next = target_write (a ∷ b ∷ rest) in
    if c == 37 then c ∷ a ∷ b ∷ behind else target_byte c ++ next

-- `core_request_target`
unfoldable pub request_target : Bytes → ℕ → Option Bytes
request_target input cap =
    if cap == 0
    then none
    else elim (target_size cap 0 input) [ none ↦ none | some size ↦ some (target_write input) ]
