-- ===== src/Trojan/RoundTrip.antt =====
-- The request of src/trojan.c fits its buffer, and a server reads it back.
use vless_core_cli.Prelude.{
  ℕ, ◌/◌, ◌%◌, ◌≤◌, ◌&&◌, not, [], ◌∷◌, ◌++◌, Option, none, some, ltb, ◌==◌, if◌then◌else◌, take,
  drop, length, Bytes, ◌≡◌, ◌⊎◌, word16,
}
use vless_core_cli.Utils.{hex_pairs}

abbrev tail : ℕ → Bytes
tail port = port / 256 % 256 ∷ port % 256 ∷ 13 ∷ 10 ∷ []

-- A request of the protocol, as a server reads it.
pub record Request : Type 0 where
  pub hash : Bytes
  pub type : ℕ
  pub address : Bytes
  pub port : ℕ

-- The port and the last line end.
pub read_port : Bytes → ℕ → Bytes → Bytes → Option (Request × Bytes)
read_port hash type address (hi ∷ lo ∷ cr ∷ lf ∷ rest) =
    if cr == 13 && lf == 10
    then some (record { hash = hash; type = type; address = address; port = word16 hi lo }, rest)
    else none
read_port hash type address _ = none

-- `n` bytes of the address.
pub read_address : Bytes → ℕ → ℕ → Bytes → Option (Request × Bytes)
unfolding read_port
read_address hash type n rest =
    if ltb (length rest) n then none else read_port hash type (take n rest) (drop n rest)

pub read_name : Bytes → Bytes → Option (Request × Bytes)
unfolding read_address
read_name hash [] = none
read_name hash (n ∷ rest) = read_address hash 3 n rest

-- The line end behind the hash, the command and the type.
pub read_type : Bytes → Bytes → Option (Request × Bytes)
unfolding read_address read_name
read_type hash (cr ∷ lf ∷ command ∷ type ∷ rest) =
    if not (cr == 13 && lf == 10 && command == 1)
    then none
    else if type == 1
    then read_address hash 1 4 rest
    else if type == 4
    then read_address hash 4 16 rest
    else if type == 3
    then read_name hash rest
    else none
read_type hash _ = none

-- The hash in 56 digits, and the rest.
pub read_request : Bytes → Option (Request × Bytes)
unfolding read_type
read_request input = elim (hex_pairs (take 56 input)) [
  | none ↦ none
  | some hash ↦ read_type hash (drop 56 input)
]

-- The type of an address, and its length.
abbrev IsSized : ℕ → Bytes → Type 0
IsSized type address =
    ((type ≡ 1) × (length address ≡ 4))
    ⊎ (((type ≡ 4) × (length address ≡ 16)) ⊎ ((type ≡ 3) × (length address ≤ 255)))

abbrev behind_hash : ℕ → Bytes → ℕ → Bytes → Bytes
behind_hash type address port more =
    13
    ∷ 10
    ∷ 1
    ∷ type % 256
    ∷ ((if type == 3 then length address % 256 ∷ [] else []) ++ (address ++ (tail port ++ more)))
