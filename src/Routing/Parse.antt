-- ===== src/Routing/Parse.antt =====
-- src/routing.c: the reading of a routing configuration.
use vless_core_cli.Prelude.{
  same_bytes, codes, ℕ, Bool, true, false, List, [], ◌∷◌, ◌++◌, Option, none, some, ltb, leb, ◌==◌,
  if◌then◌else◌, length, Bytes,
}
use vless_core_cli.Vless.{Resolver}
use vless_core_cli.Vision.Wrap.{Parsed}
use vless_core_cli.Routing.{
  match_cidr, match_port, Rule, RoutingConfig, config_init, copy_lower, parse_action, parse_match,
  cut, parse_port_range, parse_cidr, valid_domain,
}

-- The pieces between such bytes, of which `strtok_r` gives those that are not empty.
abbrev pub pieces : ℕ → Bytes → List Bytes
pieces mark [] = [] ∷ []
pieces mark (c ∷ cs) = elim (pieces mark cs) [
  | [] ↦ []
  | p ∷ ps ↦ if c == mark then [] ∷ (p ∷ ps) else (c ∷ p) ∷ ps
]

abbrev pub tokens : List Bytes → List Bytes
tokens [] = []
tokens (p ∷ ps) = let rest = tokens ps in if length p == 0 then rest else p ∷ rest

-- A flag, "0" or "1".
abbrev pub flag_of : Bytes → Option Bool
flag_of t =
    if same_bytes t (codes "1")
    then some true
    else if same_bytes t (codes "0")
    then some false
    else none

module _ (dns : Resolver) (strtol : Bytes → Parsed) where
  -- The value of a rule, checked as its kind asks.
  unfoldable pub checked_rule : Rule → Option Rule
  checked_rule r = elim r.kind [
    | match_port ↦ elim (parse_port_range strtol r.value) [
      | none ↦ none
      | some (a, b) ↦ some (record r { port_first = a; port_last = b })
    ]
    | match_cidr ↦ elim (parse_cidr dns r.value) [ none ↦ none | some n ↦ some r ]
    | _ ↦ if valid_domain r.value then some r else none
  ]

  -- A rule from its three fields.
  unfoldable pub rule_of : Bytes → Bytes → Bytes → Option Rule
  rule_of first second value = elim (parse_action first) [
    | none ↦ none
    | some action ↦ elim (parse_match second) [
      | none ↦ none
      | some kind ↦
          if leb 256 (length value)
          then none
          else checked_rule (record {
            action = action;
            kind = kind;
            value = copy_lower 256 value;
            port_first = 0;
            port_last = 0;
          })
    ]
  ]

  -- A token of the loop of `routing_config_parse`
  unfoldable pub parse_rule : Bytes → Option Rule
  parse_rule token = elim (cut 0x2c token) [
    | none ↦ none
    | some (first, rest) ↦ elim (cut 0x2c rest) [
      | none ↦ none
      | some (second, value) ↦ if length value == 0 then none else rule_of first second value
    ]
  ]

  -- The loop, with the rules so far.
  unfoldable pub parse_rules : List Rule → List Bytes → Option (List Rule)
  parse_rules rules [] = some rules
  parse_rules rules (token ∷ more) =
      if leb 48 (length rules)
      then none
      else elim (parse_rule token) [ none ↦ none | some r ↦ parse_rules (rules ++ (r ∷ [])) more ]

  unfoldable pub parse_fields : List Bytes → Option RoutingConfig
  parse_fields (a ∷ b ∷ c ∷ more) = elim (flag_of a) [
    | none ↦ none
    | some enabled ↦ elim (parse_action b) [
      | none ↦ none
      | some action ↦ elim (flag_of c) [
        | none ↦ none
        | some bypass ↦ elim (parse_rules [] more) [
          | none ↦ none
          | some rules ↦ some (record {
            enabled = enabled;
            bypass_lan = bypass;
            default_action = action;
            rules = rules;
          })
        ]
      ]
    ]
  ]
  parse_fields _ = none

  -- `routing_config_parse`, where there is memory for the copy
  unfoldable pub config_parse : Bytes → Option RoutingConfig
  config_parse text =
      if length text == 0
      then some config_init
      else if ltb 8191 (length text)
      then none
      else parse_fields (tokens (pieces 0x3b text))
