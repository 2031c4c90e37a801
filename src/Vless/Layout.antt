-- ===== src/Vless/Layout.antt =====
-- `vless_build_request` of src/vless.c against the layout of the request and a reader of it.
use vless_core_cli.Prelude.{
  ℕ, suc, ◌+◌, ◌≤◌, ◌/◌, ◌%◌, true, false, ◌||◌, [], ◌∷◌, ◌++◌, Option, none, some, ltb, ◌==◌,
  if◌then◌else◌, length, Bytes, ◌≡◌, refl, sym, ap, ◌∙◌, inl, inr, arith, Bool-cases, Option-cases,
  append_assoc, length-append, ◌>>=◌,
}
use mathlib.Core.Path.{fun_ext}
use vless_core_cli.Vless.{append, Resolver, Config, addons_of, append_address, build_request}

abbrev pub Kleisli : Type 0
Kleisli = Bytes → Option Bytes

-- Two writes are one.
fuse_writes :
    (cap : ℕ) (off xs ys : Bytes) (k : Kleisli)
    → (append cap off xs >>= λ o. append cap o ys >>= k) ≡ (append cap off (xs ++ ys) >>= k)
unfolding append
fuse_writes cap off xs ys k = elim (Bool-cases (ltb cap (length off + length xs))) [
  | inl e ↦
      let whole : ltb cap (length off + length (xs ++ ys)) ≡ true =
        ground (arith, length-append xs ys) in
      rw (e, whole)
  | inr e ↦
      let same : length (off ++ xs) + length ys ≡ length off + length (xs ++ ys) =
        omega (arith, length-append xs ys, length-append off xs) in
      rw (e, same, append_assoc)
]

fuse_writes_last :
    (cap : ℕ) (off xs ys : Bytes)
    → (append cap off xs >>= λ o. append cap o ys) ≡ append cap off (xs ++ ys)
unfolding append
fuse_writes_last cap off xs ys = elim (Bool-cases (ltb cap (length off + length xs))) [
  | inl e ↦
      let whole : ltb cap (length off + length (xs ++ ys)) ≡ true =
        ground (arith, length-append xs ys) in
      rw (e, whole)
  | inr e ↦
      let same : length (off ++ xs) + length ys ≡ length off + length (xs ++ ys) =
        omega (arith, length-append xs ys, length-append off xs) in
      rw (e, same, append_assoc)
]

-- The address of a request: an IPv4 address, an IPv6 address or a domain.
pub data Address : Type 0 where
  v4 v6 domain : Bytes → Address

-- The address that a host names, if it can be sent.
abbrev pub address_of : Resolver → Bytes → Option Address
address_of dns host = elim (dns.ipv4 host) [
  | some a ↦ some (v4 a)
  | none ↦ elim (dns.ipv6 host) [
    | some a ↦ some (v6 a)
    | none ↦ if length host == 0 || ltb 255 (length host) then none else some (domain host)
  ]
]

abbrev pub address_bytes : Address → Bytes
address_bytes (v4 a) = 1 ∷ a
address_bytes (v6 a) = 3 ∷ a
address_bytes (domain d) = 2 ∷ length d % 256 ∷ d

abbrev append_given : ℕ → Bytes → Option Address → Option Bytes
append_given cap off none = none
append_given cap off (some a) = append cap off (address_bytes a)

pub address_none :
    (dns : Resolver) (host : Bytes)
    → dns.ipv4 host ≡ none
    → dns.ipv6 host ≡ none
    → (length host == 0 || ltb 255 (length host)) ≡ true
    → address_of dns host ≡ none
address_none dns host e f t = rw (e, address_of) (rw f (rw t))

pub address_domain :
    (dns : Resolver) (host : Bytes)
    → dns.ipv4 host ≡ none
    → dns.ipv6 host ≡ none
    → (length host == 0 || ltb 255 (length host)) ≡ false
    → address_of dns host ≡ some (domain host)
address_domain dns host e f t = rw (e, address_of) (rw f (rw t))

pub address_v4 :
    (dns : Resolver) (host : Bytes) {a : Bytes}
    → dns.ipv4 host ≡ some a
    → address_of dns host ≡ some (v4 a)
address_v4 dns host e = rw (e, address_of)

pub address_v6 :
    (dns : Resolver) (host : Bytes) {a : Bytes}
    → dns.ipv4 host ≡ none
    → dns.ipv6 host ≡ some a
    → address_of dns host ≡ some (v6 a)
address_v6 dns host e f = rw (e, address_of) (rw f)

append_address_lem :
    (dns : Resolver) (cap : ℕ) (off host : Bytes)
    → append_address dns cap off host ≡ append_given cap off (address_of dns host)
unfolding append_address
append_address_lem dns cap off host = elim (Option-cases (dns.ipv4 host)) [
  | inr (a, e) ↦
      rw (e, append_address)
        (fuse_writes_last cap off (1 ∷ []) a
          ∙ sym (ap (append_given cap off) (address_v4 dns host e)))
  | inl e ↦ elim (Option-cases (dns.ipv6 host)) [
    | inr (a, f) ↦
        rw (e, append_address)
          (rw f (
            fuse_writes_last cap off (3 ∷ []) a
            ∙ sym (ap (append_given cap off) (address_v6 dns host e f))))
    | inl f ↦ elim (Bool-cases (length host == 0 || ltb 255 (length host))) [
      | inl t ↦
          rw (e, append_address)
            (rw f (rw t (ap (append_given cap off) (sym (address_none dns host e f t)))))
      | inr t ↦
          rw (e, append_address)
            (rw f (
              rw t (
                fuse_writes cap off (2 ∷ []) (length host % 256 ∷ []) (λ o. append cap o host)
                ∙ fuse_writes_last cap off (2 ∷ length host % 256 ∷ []) host
                ∙ sym (ap (append_given cap off) (address_domain dns host e f t)))))
    ]
  ]
]

-- The addons of a flow: none, or a field 1 of bytes in the encoding of Protocol Buffers, which is the
-- tag 0x0a, the length and the flow.
abbrev pub flow_addons : Bytes → Bytes
flow_addons [] = []
flow_addons (c ∷ cs) = 0x0a ∷ length (c ∷ cs) ∷ c ∷ cs

pub addons_of-flow_addons : (flow : Bytes) → length flow ≤ 64 → addons_of flow ≡ flow_addons flow
unfolding addons_of
addons_of-flow_addons [] le = refl
addons_of-flow_addons (c ∷ cs) le =
    let some_bytes : ltb 0 (suc (length cs)) ≡ true = ground arith in
    let short : suc (length cs) % 256 ≡ suc (length cs) = omega (arith, le) in
    rw (some_bytes, short) refl

-- The layout of a request.
abbrev pub layout : Config → ℕ → Address → Bytes
layout cfg port a =
    0
    ∷ (cfg.uuid
        ++ (length (flow_addons cfg.flow) % 256
            ∷ (flow_addons cfg.flow ++ (1 ∷ port / 256 % 256 ∷ port % 256 ∷ address_bytes a))))

bind_none : (m : Option Bytes) → ◌>>=◌ {B = Bytes} m (λ o. none) ≡ none
bind_none none = refl
bind_none (some o) = refl

-- All before the address, as the calls of `append` join it.
abbrev front : Config → ℕ → Bytes
front cfg port =
    ((((0 ∷ cfg.uuid) ++ (length (flow_addons cfg.flow) % 256 ∷ [])) ++ flow_addons cfg.flow)
      ++ (1 ∷ []))
    ++ (port / 256 % 256 ∷ [])
    ++ (port % 256 ∷ [])

front-layout :
    (cfg : Config) (port : ℕ) (a : Address) → front cfg port ++ address_bytes a ≡ layout cfg port a
front-layout cfg port a = simp append_assoc

-- The layout, if it fits.
abbrev pub fitted : ℕ → Config → ℕ → Option Address → Option Bytes
fitted cap cfg port none = none
fitted cap cfg port (some a) =
    if ltb cap (length (layout cfg port a)) then none else some (layout cfg port a)

append_first :
    (cap : ℕ) (xs : Bytes) → append cap [] xs ≡ (if ltb cap (length xs) then none else some xs)
unfolding append
append_first cap xs = ground arith

append_given-fitted :
    (cap : ℕ) (cfg : Config) (port : ℕ) (a : Option Address)
    → (append cap [] (front cfg port) >>= λ o. append_given cap o a) ≡ fitted cap cfg port a
append_given-fitted cap cfg port none = bind_none (append cap [] (front cfg port))
append_given-fitted cap cfg port (some a) =
    fuse_writes_last cap [] (front cfg port) (address_bytes a)
    ∙ ap (append cap []) (front-layout cfg port a)
    ∙ append_first cap (layout cfg port a)

address_last :
    (dns : Resolver) (cap : ℕ) (cfg : Config) (host : Bytes) (port : ℕ)
    → (append cap [] (front cfg port) >>= λ o. append_address dns cap o host)
      ≡ fitted cap cfg port (address_of dns host)
address_last dns cap cfg host port =
    ap (λ (k : Kleisli). append cap [] (front cfg port) >>= k)
      (fun_ext {g = λ o. append_given cap o (address_of dns host)}
        (λ o. append_address_lem dns cap o host))
    ∙ append_given-fitted cap cfg port (address_of dns host)

-- `vless_build_request` writes exactly the layout, and fails exactly if the flow has more than 64
-- bytes, the host is no address and no domain of 1 to 255 bytes, or the buffer is too small.
pub build_request_lem :
    (dns : Resolver) (cap : ℕ) (cfg : Config) (host : Bytes) (port : ℕ)
    → build_request dns cap cfg host port
      ≡ (if ltb 64 (length cfg.flow) then none else fitted cap cfg port (address_of dns host))
unfolding build_request
build_request_lem dns cap cfg host port = elim (Bool-cases (ltb 64 (length cfg.flow))) [
  | inl e ↦ rw e (fuse_writes cap [] (0 ∷ []) cfg.uuid (λ o. none) ∙ bind_none _)
  | inr e ↦
      let addons = addons_of-flow_addons cfg.flow (ground (arith, e)) in
      rw e (
        rw addons (
          fuse_writes cap [] (0 ∷ []) cfg.uuid _
          ∙ fuse_writes cap [] (0 ∷ cfg.uuid) (length (flow_addons cfg.flow) % 256 ∷ []) _
          ∙ fuse_writes cap [] _ (flow_addons cfg.flow) _
          ∙ fuse_writes cap [] _ (1 ∷ []) _
          ∙ fuse_writes cap [] _ (port / 256 % 256 ∷ []) _
          ∙ fuse_writes cap [] _ (port % 256 ∷ []) _
          ∙ address_last dns cap cfg host port))
]
