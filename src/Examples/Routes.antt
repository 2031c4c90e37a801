-- ===== src/Examples/Routes.antt =====
-- Runs of src/routing.c.
use vless_core_cli.Prelude.{
  codes, ℕ, ◌+◌, ◌-◌, ◌*◌, ◌≤◌, true, false, ◌&&◌, List, [], ◌∷◌, none, some, leb, if◌then◌else◌,
  length, Bytes, ◌≡◌, refl, ◌⊎◌, arith,
}
use vless_core_cli.Vless.{Resolver}
use vless_core_cli.Vision.Wrap.{Parsed, number, no_number}
use vless_core_cli.Routing.{
  action_proxy, action_direct, action_block, Rule, RoutingConfig, match_port, match_suffix,
  is_local_address, parse_action, parse_match, parse_port_range, valid_domain, domain_suffix_match,
  in_network,
}
use vless_core_cli.Routing.Parse.{
  config_parse, parse_fields, parse_rules, parse_rule, rule_of, checked_rule,
}
use vless_core_cli.Routing.Decide.{
  rule_at, Target, is_ip, domain_of, rule_matches, find_rule, default_of, decide,
}
use vless_core_cli.Routing.First.{IsFirst, IsDefault, decide_lem}
use vless_core_cli.Routing.Valid.{AreValid}
use vless_core_cli.Routing.Whole.{config_parse-IsValid}

abbrev names_only : Resolver
names_only = record {
  ipv4 = λ t. none;
  ipv6 = λ t. none;
  ipv4_length = λ t a h. absurd (ground arith);
  ipv6_length = λ t a h. absurd (ground arith);
}

abbrev digits_from : ℕ → Bytes → Parsed
digits_from n [] = number n
digits_from n (d ∷ ds) =
    let rest = digits_from (n * 10 + (d - 48)) ds in
    if leb 48 d && leb d 57 then rest else no_number

abbrev decimal : Bytes → Parsed
decimal [] = no_number
decimal (d ∷ ds) = digits_from 0 (d ∷ ds)

abbrev port_rule : Rule
port_rule = record {
  action = action_block;
  kind = match_port;
  value = codes "25-26";
  port_first = 25;
  port_last = 26;
}

abbrev suffix_rule : Rule
suffix_rule = record {
  action = action_direct;
  kind = match_suffix;
  value = codes "a.test";
  port_first = 0;
  port_last = 0;
}

abbrev two_rules : RoutingConfig
two_rules = record {
  enabled = true;
  bypass_lan = true;
  default_action = action_proxy;
  rules = port_rule ∷ suffix_rule ∷ [];
}

config_parse_test :
    config_parse names_only decimal (codes "1;proxy;1;block,port,25-26;direct,suffix,A.test")
    ≡ some two_rules
unfolding config_parse parse_fields parse_rules parse_rule rule_of checked_rule parse_action
    parse_match parse_port_range valid_domain
config_parse_test = refl

config_parse-IsValid_example : (2 ≤ 48) × AreValid names_only decimal (port_rule ∷ suffix_rule ∷ [])
config_parse-IsValid_example =
    config_parse-IsValid names_only decimal
      (codes "1;proxy;1;block,port,25-26;direct,suffix,A.test") two_rules config_parse_test

abbrev web : Target
web = record { host = codes "www.a.test"; port = 443; observed = none }

decide_test :
    decide names_only two_rules web
    ≡ record { action = action_direct; rule = rule_at 1; domain = codes "www.a.test" }
unfolding decide default_of is_ip is_local_address domain_of rule_matches find_rule
    domain_suffix_match
decide_test = refl

-- 10.1.2.3 lies in 10.0.0.0/9, and 10.129.2.3 does not.
in_network_test : in_network (10 ∷ 1 ∷ 2 ∷ 3 ∷ []) (10 ∷ 0 ∷ 0 ∷ 0 ∷ []) 9 ≡ true
unfolding in_network
in_network_test = refl

outside_test : in_network (10 ∷ 129 ∷ 2 ∷ 3 ∷ []) (10 ∷ 0 ∷ 0 ∷ 0 ∷ []) 9 ≡ false
unfolding in_network
outside_test = refl

decide_lem_example :
    ((before : List Rule) × (r : Rule) × (after : List Rule) × IsFirst names_only web
        two_rules.rules before r after
      × (decide names_only two_rules web ≡ record {
        action = r.action;
        rule = rule_at (length before);
        domain = domain_of names_only web;
      }))
    ⊎ IsDefault names_only web two_rules
unfolding is_ip
decide_lem_example = decide_lem names_only web two_rules refl refl
