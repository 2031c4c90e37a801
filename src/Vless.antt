-- ===== src/Vless.antt =====
-- src/vless.c: the VLESS request and the response header.
pub mod Pieces
pub mod Layout
pub mod RoundTrip
use vless_core_cli.Prelude.{
  ◌>>=◌, ℕ, zero, suc, ◌+◌, ◌-◌, ◌*◌, ◌/◌, ◌%◌, ◌^◌, ◌≤◌, ◌<◌, min, max, Bool, true, false, ◌&&◌,
  ◌||◌, not, List, [], ◌∷◌, ◌++◌, Option, none, some, ltb, leb, ◌==◌, if◌then◌else◌, get_elem?,
  get_or, set, take, drop, length, Bytes, size_max, add_size, sub_size, ◌≡◌, refl, sym, ap, ap₂,
  ◌∙◌, ◌≢◌, ◌↔◌, ◌⊎◌, inl, inr, arith, Bool-cases, Option-cases, append-nil, append_assoc,
  length-append, length-take, length-drop, bit, word16, word24, word32, map, take-append-drop,
}

-- `vless_response_t`
pub record Response : Type 0 where
  pub header_bytes : ℕ
  pub addon_bytes : ℕ
  pub complete : Bool

-- A call of `vless_consume_response` that does not return -1: the new state, and what was not
-- consumed of the input.
abbrev pub Consumed : Type 0
Consumed = Option (Response × Bytes)

-- `while (state->header_bytes < 2 && *consumed < length)`
unfoldable pub read_header : Response → Bytes → Consumed
read_header s [] = some (s, [])
read_header s (byte ∷ rest) =
    if not (ltb s.header_bytes 2)
    then some (s, byte ∷ rest)
    else (let next = record s {
      addon_bytes = if s.header_bytes == 1 then byte else s.addon_bytes;
      header_bytes = s.header_bytes + 1;
    } in
        let later = read_header next rest in
        if s.header_bytes == 0 && not (byte == 0) then none else later)

-- The addons are skipped.
unfoldable pub skip_addons : Response → Bytes → Response × Bytes
skip_addons s input =
    let skip = if ltb (length input) s.addon_bytes then length input else s.addon_bytes in
    (
      record s { addon_bytes = s.addon_bytes - skip; complete = s.addon_bytes - skip == 0 },
      drop skip input,
    )

abbrev pub after_header : Response × Bytes → Response × Bytes
after_header (s, rest) = if ltb s.header_bytes 2 then (s, rest) else skip_addons s rest

-- `vless_consume_response`, at pointers that are not NULL. It returns `complete`, or 0 while the
-- header is not read.
unfoldable pub consume_response : Response → Bytes → Consumed
unfolding read_header skip_addons
consume_response s input = elim (read_header s input) [
  | none ↦ none
  | some p ↦ some (after_header p)
]

-- `append` and `append_byte`, on the bytes written so far.
unfoldable pub append : ℕ → Bytes → Bytes → Option Bytes
append cap written bytes =
    if ltb cap (length written + length bytes) then none else some (written ++ bytes)

-- `inet_pton` for the two families: the address, if the text is one.
pub record Resolver : Type 0 where
  pub ipv4 : Bytes → Option Bytes
  pub ipv6 : Bytes → Option Bytes
  pub ipv4_length : (t a : Bytes) → ipv4 t ≡ some a → length a ≡ 4
  pub ipv6_length : (t a : Bytes) → ipv6 t ≡ some a → length a ≡ 16

-- The fields of `vless_config_t` that the request reads.
pub record Config : Type 0 where
  pub uuid : Bytes
  pub flow : Bytes

-- The addons: a protobuf field 1 that holds the flow.
unfoldable pub addons_of : Bytes → Bytes
addons_of flow = if ltb 0 (length flow) then 0x0a ∷ length flow % 256 ∷ flow else []

module _ (dns : Resolver) (cap : ℕ) where
  open dns use {ipv4, ipv6}

  -- The address behind the port.
  unfoldable pub append_address : Bytes → Bytes → Option Bytes
  append_address off host = elim (ipv4 host) [
    | some a ↦ do off ← append cap off (0x01 ∷ []); append cap off a
    | none ↦ elim (ipv6 host) [
      | some a ↦ do off ← append cap off (0x03 ∷ []); append cap off a
      | none ↦
          if length host == 0 || ltb 255 (length host)
          then none
          else append cap off (0x02 ∷ []) >>= λ off.
              append cap off (length host % 256 ∷ []) >>= λ off. append cap off host
    ]
  ]

  -- `vless_build_request`: the packet, if it returns 0.
  unfoldable pub build_request : Config → Bytes → ℕ → Option Bytes
  build_request cfg host port = do
    off ← append cap [] (0x00 ∷ [])
    off ← append cap off cfg.uuid
    addons ← (if ltb 64 (length cfg.flow) then none else some (addons_of cfg.flow))
    off ← append cap off (length addons % 256 ∷ [])
    off ← append cap off addons
    off ← append cap off (0x01 ∷ [])
    off ← append cap off (port / 256 % 256 ∷ [])
    off ← append cap off (port % 256 ∷ [])
    append_address off host
