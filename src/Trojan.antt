-- ===== src/Trojan.antt =====
-- src/trojan.c: the Trojan request. The hash of the password is an argument.
pub mod RoundTrip
use vless_core_cli.Prelude.{
  ℕ, zero, suc, ◌+◌, ◌-◌, ◌*◌, ◌/◌, ◌%◌, ◌^◌, ◌≤◌, ◌<◌, min, max, Bool, true, false, ◌&&◌, ◌||◌,
  not, List, [], ◌∷◌, ◌++◌, Option, none, some, ltb, leb, ◌==◌, if◌then◌else◌, get_elem?, get_or,
  set, take, drop, length, Bytes, size_max, add_size, sub_size, ◌≡◌, refl, sym, ap, ap₂, ◌∙◌, ◌≢◌,
  ◌↔◌, ◌⊎◌, inl, inr, arith, Bool-cases, Option-cases, append-nil, append_assoc, length-append,
  length-take, length-drop, bit, word16, word24, word32, map, take-append-drop,
}
use vless_core_cli.Prelude.Results.{Errno, einval, enobufs}
use vless_core_cli.Vless.{Resolver}
use vless_core_cli.Utils.{contains}

-- The bytes of "/:?#@[]\".
abbrev pub separators : Bytes
separators = 47 ∷ 58 ∷ 63 ∷ 35 ∷ 64 ∷ 91 ∷ 93 ∷ 92 ∷ []

-- The loop over a host name, which tests each byte.
unfoldable pub is_name : Bytes → Bool
is_name [] = true
is_name (c ∷ rest) = not (leb c 0x20 || c == 0x7f || contains separators c) && is_name rest

-- `type` and the bytes of the address; `none` for EINVAL.
unfoldable pub destination : Resolver → Bytes → Option (ℕ × Bytes)
unfolding is_name
destination dns host = elim (dns.ipv4 host) [
  | some a ↦ some (1, a)
  | none ↦ elim (dns.ipv6 host) [
    | some a ↦ some (4, a)
    | none ↦ if ltb 255 (length host) || not (is_name host) then none else some (3, host)
  ]
]

-- A digit of `hex`
abbrev pub lower_digit : ℕ → ℕ
lower_digit d = if ltb d 10 then 48 + d else 87 + d

-- The loop over the hash.
unfoldable pub hash_text : Bytes → Bytes
hash_text [] = []
hash_text (b ∷ bs) = lower_digit (b / 16) ∷ lower_digit (b % 16) ∷ hash_text bs

-- What is written, from the hash to the last line end.
unfoldable pub written : Bytes → ℕ → Bytes → ℕ → Bytes
unfolding hash_text
written hash type address port =
    hash_text hash
    ++ (13
        ∷ 10
        ∷ 1
        ∷ type % 256
        ∷ ((if type == 3 then length address % 256 ∷ [] else [])
            ++ (address ++ (port / 256 % 256 ∷ port % 256 ∷ 13 ∷ 10 ∷ []))))

-- `core_trojan_request`, at an output, a hash and a host that are not NULL.
unfoldable pub request : Resolver → ℕ → Bytes → Bytes → ℕ → Errno ⊎ Bytes
request dns cap hash host port =
    if length host == 0 || port == 0 then inl einval else elim (destination dns host) [
      | none ↦ inl einval
      | some (type, address) ↦
          let needed = 64 + length address + (if type == 3 then 1 else 0) in
          if ltb cap needed then inl enobufs else inr (written hash type address port)
    ]
