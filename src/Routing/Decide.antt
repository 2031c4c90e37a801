-- ===== src/Routing/Decide.antt =====
-- src/routing.c: the decision for a connection, and which rule makes it.
use vless_core_cli.Prelude.{
  same_bytes, codes, ℕ, ◌+◌, Bool, true, false, ◌&&◌, ◌||◌, not, List, [], ◌∷◌, Option, none, some,
  leb, ◌==◌, if◌then◌else◌, length, Bytes,
}
use vless_core_cli.Vless.{Resolver}
use vless_core_cli.Routing.{
  Action, action_proxy, action_direct, action_block, match_domain, match_suffix, match_cidr,
  match_port, Rule, RoutingConfig, copy_lower, valid_domain, ip_in_cidr, is_local_address,
  domain_suffix_match,
}

-- `*matched_rule`: -1, -2 and -3, or the index.
pub data Matched : Type 0 where
  no_rule local_rule resolver_rule : Matched
  rule_at : ℕ → Matched

-- What `routing_decide` gives: the action, the rule, and the domain it has matched.
pub record Decision : Type 0 where
  pub action : Action
  pub rule : Matched
  pub domain : Bytes

-- What is asked: the target, its port, and the domain that was observed, if one was.
pub record Target : Type 0 where
  pub host : Bytes
  pub port : ℕ
  pub observed : Option Bytes

module _ (dns : Resolver) where
  unfoldable pub is_ip : Bytes → Bool
  is_ip host = elim (dns.ipv4 host) [
    | some a ↦ true
    | none ↦ elim (dns.ipv6 host) [ some a ↦ true | none ↦ false ]
  ]

  abbrev pub plain_domain : Target → Bytes
  plain_domain t = if is_ip t.host then [] else copy_lower 256 t.host

  -- `domain`
  unfoldable pub domain_of : Target → Bytes
  domain_of t = elim t.observed [
    | none ↦ plain_domain t
    | some d ↦ if valid_domain d then copy_lower 256 d else plain_domain t
  ]

  -- `matches`
  unfoldable pub rule_matches : Target → Rule → Bool
  rule_matches t r = elim r.kind [
    | match_port ↦ leb r.port_first t.port && leb t.port r.port_last
    | match_cidr ↦ is_ip t.host && ip_in_cidr dns t.host r.value
    | match_domain ↦ not (length (domain_of t) == 0) && same_bytes (domain_of t) r.value
    | match_suffix ↦ not (length (domain_of t) == 0) && domain_suffix_match (domain_of t) r.value
  ]

  -- The loop of `routing_decide`, from the rule with that index on.
  unfoldable pub find_rule : Target → ℕ → List Rule → Option (Action × ℕ)
  find_rule t i [] = none
  find_rule t i (r ∷ rules) =
      let rest = find_rule t (i + 1) rules in if rule_matches t r then some (r.action, i) else rest

  -- What holds where no rule matches.
  unfoldable pub default_of : RoutingConfig → Target → Action × Matched
  default_of c t =
      if t.port == 53 && same_bytes t.host (codes "8.8.8.8")
      then (action_proxy, resolver_rule)
      else (c.default_action, no_rule)

  -- `routing_decide`, with a target that is not NULL
  unfoldable pub decide : RoutingConfig → Target → Decision
  decide c t =
      let (action, rule) = default_of c t in
      if not c.enabled
      then record { action = action_proxy; rule = no_rule; domain = [] }
      else if c.bypass_lan && is_ip t.host && is_local_address dns t.host
      then record { action = action_direct; rule = local_rule; domain = domain_of t }
      else elim (find_rule t 0 c.rules) [
        | some (a, i) ↦ record { action = a; rule = rule_at i; domain = domain_of t }
        | none ↦ record { action = action; rule = rule; domain = domain_of t }
      ]

abbrev pub has_domain : List Rule → Bool
has_domain [] = false
has_domain (r ∷ rules) =
    let here : Bool = elim r.kind [ match_domain ↦ true | match_suffix ↦ true | _ ↦ false ] in
    here || has_domain rules

-- `routing_has_domain_rules`
unfoldable pub has_domain_rules : RoutingConfig → Bool
has_domain_rules c = c.enabled && has_domain c.rules

-- `routing_action_name`
abbrev pub action_name : Action → Bytes
action_name action_direct = codes "direct"
action_name action_block = codes "block"
action_name action_proxy = codes "proxy"
