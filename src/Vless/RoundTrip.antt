-- ===== src/Vless/RoundTrip.antt =====
-- A reader of VLESS requests, and what it makes of the output of `vless_build_request`.
use vless_core_cli.Prelude.{
  take_front, drop_front, long_enough, ℕ, ◌/◌, ◌%◌, ◌≤◌, ◌<◌, false, ◌||◌, not, [], ◌∷◌, ◌++◌,
  Option, none, some, ltb, ◌==◌, if◌then◌else◌, take, drop, length, Bytes, ◌≡◌, refl, sym, ◌∙◌, inl,
  inr, arith, Bool-cases, Option-cases, append_assoc, word16, take-append_self, drop-append_self,
}
use mathlib.Core.Path.{subst}
use vless_core_cli.Vless.{Resolver, Config, build_request}
use vless_core_cli.Vless.Layout.{
  Address, v4, v6, domain, address_of, address_bytes, flow_addons, layout, fitted,
  build_request_lem, address_v4, address_v6, address_none, address_domain,
}

-- A request as the server reads it.
pub record Request : Type 0 where
  pub uuid : Bytes
  pub addons : Bytes
  pub port : ℕ
  pub address : Address

read_domain : Bytes → Option (Address × Bytes)
read_domain [] = none
read_domain (n ∷ rest) =
    if ltb (length rest) n then none else some (domain (take n rest), drop n rest)

read_address : Bytes → Option (Address × Bytes)
unfolding read_domain
read_address [] = none
read_address (kind ∷ rest) =
    if kind == 1
    then (if ltb (length rest) 4 then none else some (v4 (take 4 rest), drop 4 rest))
    else if kind == 3
    then (if ltb (length rest) 16 then none else some (v6 (take 16 rest), drop 16 rest))
    else if kind == 2
    then read_domain rest
    else none

-- Command 1 (TCP), the port and the address.
read_target : Bytes → Bytes → Bytes → Option (Request × Bytes)
unfolding read_address
read_target uuid addons (command ∷ hi ∷ lo ∷ rest) =
    if command == 1
    then elim (read_address rest) [
      | none ↦ none
      | some (a, left) ↦
          some (record { uuid = uuid; addons = addons; port = word16 hi lo; address = a }, left)
    ]
    else none
read_target uuid addons _ = none

read_addons : Bytes → Bytes → Option (Request × Bytes)
unfolding read_target
read_addons uuid [] = none
read_addons uuid (n ∷ rest) =
    if ltb (length rest) n then none else read_target uuid (take n rest) (drop n rest)

-- Version 0, the 16 bytes of the UUID, the addons and the target.
pub read_request : Bytes → Option (Request × Bytes)
unfolding read_addons
read_request [] = none
read_request (version ∷ rest) =
    if not (version == 0) || ltb (length rest) 16
    then none
    else read_addons (take 16 rest) (drop 16 rest)

-- The address has the length that its kind promises.
abbrev IsSized : Address → Type 0
IsSized (v4 a) = length a ≡ 4
IsSized (v6 a) = length a ≡ 16
IsSized (domain d) = length d ≤ 255

read_address-bytes :
    (a : Address) (more : Bytes)
    → IsSized a
    → read_address (address_bytes a ++ more) ≡ some (a, more)
unfolding read_address
read_address-bytes (v4 a) more h =
    rw (long_enough 4 a more h, take_front 4 a more h, drop_front 4 a more h)
read_address-bytes (v6 a) more h =
    rw (long_enough 16 a more h, take_front 16 a more h, drop_front 16 a more h)
read_address-bytes (domain d) more h =
    let e : length d % 256 ≡ length d = omega arith in
    rw (e, long_enough (length d) d more refl, take-append_self d more, drop-append_self d more)

length-flow_addons : (flow : Bytes) → length flow ≤ 64 → length (flow_addons flow) ≤ 66
length-flow_addons [] h = omega arith
length-flow_addons (c ∷ cs) h = omega (arith, h)

read_request-layout :
    (cfg : Config) (port : ℕ) (a : Address) (more : Bytes)
    → length cfg.uuid ≡ 16
    → length cfg.flow ≤ 64
    → port < 65536
    → IsSized a
    → read_request (layout cfg port a ++ more)
      ≡ some (
        record { uuid = cfg.uuid; addons = flow_addons cfg.flow; port = port; address = a },
        more,
      )
unfolding read_request
read_request-layout cfg port a more hu hf hp ha =
    let b = flow_addons cfg.flow in
    let n : length b % 256 ≡ length b = omega (arith, length-flow_addons cfg.flow hf) in
    let w : word16 (port / 256 % 256) (port % 256) ≡ port = omega arith in
    rw
      (
        append_assoc cfg.uuid _ more,
        long_enough 16 cfg.uuid _ hu,
        take_front 16 cfg.uuid _ hu,
        drop_front 16 cfg.uuid _ hu,
      )
      (rw
        (
          read_addons,
          n,
          append_assoc b _ more,
          long_enough (length b) b _ refl,
          take-append_self b _,
          drop-append_self b _,
        )
        (rw (read_target, read_address-bytes a more ha, w)))

some_inj : {a b : Address} → some a ≡ some b → a ≡ b
some_inj e = cc

address_of-IsSized :
    (dns : Resolver) (host : Bytes) {a : Address} → address_of dns host ≡ some a → IsSized a
address_of-IsSized dns host {a} e = elim (Option-cases (dns.ipv4 host)) [
  | inr (b, p) ↦
      let same : v4 b ≡ a = some_inj (sym (address_v4 dns host p) ∙ e) in
      subst IsSized same (dns.ipv4_length host b p)
  | inl p ↦ elim (Option-cases (dns.ipv6 host)) [
    | inr (b, q) ↦
        let same : v6 b ≡ a = some_inj (sym (address_v6 dns host p q) ∙ e) in
        subst IsSized same (dns.ipv6_length host b q)
    | inl q ↦ elim (Bool-cases (length host == 0 || ltb 255 (length host))) [
      | inl t ↦ cc (address_none dns host p q t, e)
      | inr t ↦
          let same : domain host ≡ a = some_inj (sym (address_domain dns host p q t) ∙ e) in
          subst IsSized same (ground arith)
    ]
  ]
]

built :
    (dns : Resolver) (cap : ℕ) (cfg : Config) (host : Bytes) (port : ℕ) {a : Address}
    {packet : Bytes}
    → length cfg.uuid ≡ 16
    → ltb 64 (length cfg.flow) ≡ false
    → address_of dns host ≡ some a
    → build_request dns cap cfg host port ≡ some packet
    → packet ≡ layout cfg port a
built dns cap cfg host port {a} {packet} hu t e h =
    let whole = sym h ∙ build_request_lem dns cap cfg host port in
    let fits : some packet ≡ fitted cap cfg port (some a) = rw (t, e) at whole in
    ground (arith, fits)

-- What `vless_build_request` writes for a UUID of 16 bytes and a port of 16 bits, the server reads
-- back whatever follows: the UUID, the addons with the flow, the port and the address that the host
-- names.
pub read_request-build_request :
    (dns : Resolver) (cap : ℕ) (cfg : Config) (host : Bytes) (port : ℕ) (more : Bytes)
    {packet : Bytes}
    → length cfg.uuid ≡ 16
    → port < 65536
    → build_request dns cap cfg host port ≡ some packet
    → (a : Address) × (address_of dns host ≡ some a)
      × (read_request (packet ++ more)
          ≡ some (
            record { uuid = cfg.uuid; addons = flow_addons cfg.flow; port = port; address = a },
            more,
          ))
read_request-build_request dns cap cfg host port more {packet} hu hp h =
    elim (Bool-cases (ltb 64 (length cfg.flow))) [
      | inl t ↦ absurd (ground (arith, build_request_lem dns cap cfg host port))
      | inr t ↦ elim (Option-cases (address_of dns host)) [
        | inl e ↦ absurd (ground (arith, e, build_request_lem dns cap cfg host port))
        | inr (a, e) ↦
            let sized = address_of-IsSized dns host e in
            let same : packet ≡ layout cfg port a = built dns cap cfg host port hu t e h in
            (a, e, rw same (read_request-layout cfg port a more hu (ground arith) hp sized))
      ]
    ]
