-- ===== src/Routing.antt =====
-- src/routing.c and include/routing.h: the rules that say where a connection goes.
pub mod Parse
pub mod Decide
pub mod First
pub mod Valid
pub mod Whole
use vless_core_cli.Prelude.{
  codes, same_bytes, ℕ, zero, suc, ◌+◌, ◌-◌, ◌*◌, ◌/◌, ◌%◌, ◌^◌, ◌≤◌, ◌<◌, min, max, Bool, true,
  false, ◌&&◌, ◌||◌, not, List, [], ◌∷◌, ◌++◌, Option, none, some, ltb, leb, ◌==◌, if◌then◌else◌,
  get_elem?, get_or, set, take, drop, length, Bytes, size_max, add_size, sub_size, ◌≡◌, refl, sym,
  ap, ap₂, ◌∙◌, ◌≢◌, ◌↔◌, ◌⊎◌, inl, inr, arith, Bool-cases, Option-cases, append-nil, append_assoc,
  length-append, length-take, length-drop, bit, word16, word24, word32, map, take-append-drop,
  take_front, drop_front, long_enough,
}
use vless_core_cli.Vless.{Resolver}
use vless_core_cli.Vision.Wrap.{Parsed, number, no_number, below_zero}

-- `route_action_t` and `route_match_t`
pub data Action : Type 0 where
  action_proxy action_direct action_block : Action

pub data Match : Type 0 where
  match_domain match_suffix match_cidr match_port : Match

-- `routing_rule_t` and `routing_config_t`
pub record Rule : Type 0 where
  pub action : Action
  pub kind : Match
  pub value : Bytes
  pub port_first : ℕ
  pub port_last : ℕ

pub record RoutingConfig : Type 0 where
  pub enabled : Bool
  pub bypass_lan : Bool
  pub default_action : Action
  pub rules : List Rule

-- `routing_config_init`
abbrev pub config_init : RoutingConfig
config_init = record {
  enabled = false;
  bypass_lan = true;
  default_action = action_proxy;
  rules = [];
}

abbrev pub to_lower : ℕ → ℕ
to_lower c = if leb 65 c && leb c 90 then c + 32 else c

-- `copy_lower`, into `cap` bytes
abbrev pub copy_lower : ℕ → Bytes → Bytes
copy_lower cap text = map to_lower (take (cap - 1) text)

-- `parse_action` and `parse_match`
unfoldable pub parse_action : Bytes → Option Action
parse_action t =
    if same_bytes t (codes "proxy")
    then some action_proxy
    else if same_bytes t (codes "direct")
    then some action_direct
    else if same_bytes t (codes "block")
    then some action_block
    else none

unfoldable pub parse_match : Bytes → Option Match
parse_match t =
    if same_bytes t (codes "domain")
    then some match_domain
    else if same_bytes t (codes "suffix")
    then some match_suffix
    else if same_bytes t (codes "cidr")
    then some match_cidr
    else if same_bytes t (codes "port")
    then some match_port
    else none

-- `strchr`: what stands before the first such byte, and behind it.
abbrev pub cut : ℕ → Bytes → Option (Bytes × Bytes)
cut mark [] = none
cut mark (c ∷ cs) =
    let rest = cut mark cs in
    if c == mark then some ([], cs) else elim rest [ none ↦ none | some (a, b) ↦ some (c ∷ a, b) ]

-- `strtol` on a whole text is an argument, `Parsed` its result.
abbrev pub port_range : Parsed → Parsed → Option (ℕ × ℕ)
port_range (number a) (number b) =
    if a == 0 || ltb 65535 a || b == 0 || ltb 65535 b || ltb b a then none else some (a, b)
port_range _ _ = none

-- `parse_port_range`
unfoldable pub parse_port_range : (Bytes → Parsed) → Bytes → Option (ℕ × ℕ)
parse_port_range strtol value = if leb 32 (length value) then none else elim (cut 0x2d value) [
  | none ↦ port_range (strtol value) (strtol value)
  | some (a, b) ↦ port_range (strtol a) (strtol b)
]

-- The digits behind the slash.
abbrev pub prefix_bits : ℕ → ℕ → Bytes → Option ℕ
prefix_bits maximum bits [] = some bits
prefix_bits maximum bits (d ∷ ds) =
    let value = d - 48 in
    let rest = prefix_bits maximum (bits * 10 + value) ds in
    if ltb d 48 || ltb 57 d then none else if ltb ((maximum - value) / 10) bits then none else rest

-- A network: whether it is one of IPv6, its address, and the length of its prefix.
pub record Network : Type 0 where
  pub six : Bool
  pub address : Bytes
  pub prefix : ℕ

abbrev pub network_of : Bool → Bytes → Option Bytes → Option Network
network_of six address none =
    some (record { six = six; address = address; prefix = if six then 128 else 32 })
network_of six address (some digits) =
    if length digits == 0 then none else elim (prefix_bits (if six then 128 else 32) 0 digits) [
      | none ↦ none
      | some bits ↦ some (record { six = six; address = address; prefix = bits })
    ]

unfoldable pub cidr_of : Resolver → Bytes → Option Bytes → Option Network
cidr_of dns text digits = elim (dns.ipv4 text) [
  | some a ↦ network_of false a digits
  | none ↦ elim (dns.ipv6 text) [ some a ↦ network_of true a digits | none ↦ none ]
]

-- `parse_cidr`
unfoldable pub parse_cidr : Resolver → Bytes → Option Network
parse_cidr dns value = if leb 54 (length value) then none else elim (cut 0x2f value) [
  | none ↦ cidr_of dns value none
  | some (text, digits) ↦ cidr_of dns text (some digits)
]

abbrev pub domain_byte : ℕ → Bool
domain_byte c =
    (leb 48 c && leb c 57)
    || (leb 65 c && leb c 90)
    || (leb 97 c && leb c 122)
    || c == 0x2d
    || c == 0x5f
    || c == 0x2e

-- The loop of `valid_domain`, at the byte before.
abbrev pub domain_rest : ℕ → Bytes → Bool
domain_rest previous [] = true
domain_rest previous (c ∷ cs) =
    domain_byte c && not (c == 0x2e && previous == 0x2e) && domain_rest c cs

-- `valid_domain`
unfoldable pub valid_domain : Bytes → Bool
valid_domain d =
    not (length d == 0)
    && leb (length d) 253
    && not (get_or d 0 0 == 0x2e)
    && not (get_or d (length d - 1) 0 == 0x2e)
    && domain_rest 0 d

-- The comparison of `ip_in_cidr`
unfoldable pub in_network : Bytes → Bytes → ℕ → Bool
in_network address network prefix =
    let full = prefix / 8 in
    let left = prefix % 8 in
    let unit = 2 ^ (8 - left) in
    same_bytes (take full address) (take full network)
    && (left == 0 || get_or address full 0 / unit * unit == get_or network full 0 / unit * unit)

-- `ip_in_cidr`
unfoldable pub ip_in_cidr : Resolver → Bytes → Bytes → Bool
ip_in_cidr dns host cidr = elim (parse_cidr dns cidr) [
  | none ↦ false
  | some n ↦ elim (if n.six then dns.ipv6 host else dns.ipv4 host) [
    | none ↦ false
    | some address ↦ in_network address n.address n.prefix
  ]
]

-- `is_local_address`
unfoldable pub is_local_address : Resolver → Bytes → Bool
is_local_address dns host =
    ip_in_cidr dns host (codes "10.0.0.0/8")
    || ip_in_cidr dns host (codes "100.64.0.0/10")
    || ip_in_cidr dns host (codes "127.0.0.0/8")
    || ip_in_cidr dns host (codes "169.254.0.0/16")
    || ip_in_cidr dns host (codes "172.16.0.0/12")
    || ip_in_cidr dns host (codes "192.168.0.0/16")
    || ip_in_cidr dns host (codes "224.0.0.0/4")
    || ip_in_cidr dns host (codes "::1/128")
    || ip_in_cidr dns host (codes "fc00::/7")
    || ip_in_cidr dns host (codes "fe80::/10")

-- `domain_suffix_match`
unfoldable pub domain_suffix_match : Bytes → Bytes → Bool
domain_suffix_match host suffix =
    let skip = length host - length suffix in
    not (ltb (length host) (length suffix))
    && same_bytes (drop skip host) suffix
    && (length host == length suffix || get_or host (skip - 1) 0 == 0x2e)
