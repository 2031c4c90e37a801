-- ===== src/Routing/Whole.antt =====
-- src/routing.c: a configuration that was read has at most 48 rules, and each is one of its kind.
use vless_core_cli.Prelude.{
  choose_left, choose_right, ◌≤◌, List, [], ◌∷◌, ◌++◌, none, some, ltb, leb, ◌==◌, length, Bytes,
  ◌≡◌, refl, sym, ◌∙◌, inl, inr, arith, Bool-cases, Option-cases, length-append,
}
use mathlib.Core.Path.{subst}
use vless_core_cli.Vless.{Resolver}
use vless_core_cli.Vision.Wrap.{Parsed}
use vless_core_cli.Routing.{Rule, RoutingConfig, config_init, parse_action, cut}
use vless_core_cli.Routing.Parse.{
  pieces, tokens, flag_of, rule_of, parse_rule, parse_rules, parse_fields, config_parse,
}
use vless_core_cli.Routing.Valid.{Fits, AreValid, rule_of-Fits}

config_injective : {a b : RoutingConfig} → some a ≡ some b → a ≡ b
config_injective e = cc

rules_injective : {a b : List Rule} → some a ≡ some b → a ≡ b
rules_injective e = cc

module _ (dns : Resolver) (strtol : Bytes → Parsed) where
  parse_rule-Fits :
      (token : Bytes) (s : Rule) → parse_rule dns strtol token ≡ some s → Fits dns strtol s.kind s
  unfolding parse_rule
  parse_rule-Fits token s e = elim (Option-cases (cut 0x2c token)) [
    | inl f ↦
        let gone : parse_rule dns strtol token ≡ none = rw (f, parse_rule) refl in cc (gone, e)
    | inr ((first, rest), f) ↦ elim (Option-cases (cut 0x2c rest)) [
      | inl g ↦
          let gone : parse_rule dns strtol token ≡ none = rw (f, parse_rule) (rw g refl) in
          cc (gone, e)
      | inr ((second, value), g) ↦ elim (Bool-cases (length value == 0)) [
        | inl z ↦
            let gone : parse_rule dns strtol token ≡ none = rw (f, parse_rule) (rw g (rw z refl)) in
            cc (gone, e)
        | inr z ↦
            let found : parse_rule dns strtol token ≡ rule_of dns strtol first second value =
              rw (f, parse_rule) (rw g (rw z refl)) in
            rule_of-Fits dns strtol first second value s (sym found ∙ e)
      ]
    ]
  ]

  AreValid-append_one :
      (rules : List Rule) (r : Rule)
      → AreValid dns strtol rules
      → Fits dns strtol r.kind r
      → AreValid dns strtol (rules ++ (r ∷ []))
  AreValid-append_one [] r v f = (f, tt)
  AreValid-append_one (x ∷ xs) r (f', v) f = (f', AreValid-append_one xs r v f)

  parse_rules-AreValid :
      (rules : List Rule) (more : List Bytes) (all : List Rule)
      → length rules ≤ 48
      → AreValid dns strtol rules
      → parse_rules dns strtol rules more ≡ some all
      → (length all ≤ 48) × AreValid dns strtol all
  unfolding parse_rules
  parse_rules-AreValid rules [] all few v e =
      let same = rules_injective e in
      (subst (λ (x : List Rule). length x ≤ 48) same few, subst (λ x. AreValid dns strtol x) same v)
  parse_rules-AreValid rules (token ∷ more) all few v e =
      elim (Bool-cases (leb 48 (length rules))) [
        | inl z ↦
            let gone : parse_rules dns strtol rules (token ∷ more) ≡ none = choose_left _ _ _ z in
            cc (gone, e)
        | inr z ↦ elim (Option-cases (parse_rule dns strtol token)) [
          | inl f ↦
              let gone : parse_rules dns strtol rules (token ∷ more) ≡ none =
                choose_right _ _ _ z ∙ rw f refl in
              cc (gone, e)
          | inr (r, f) ↦
              let found : parse_rules dns strtol rules (token ∷ more)
                  ≡ parse_rules dns strtol (rules ++ (r ∷ [])) more =
                choose_right _ _ _ z ∙ rw f refl in
              parse_rules-AreValid (rules ++ (r ∷ [])) more all
                (ground (arith, z, length-append rules (r ∷ [])))
                (AreValid-append_one rules r v (parse_rule-Fits token r f)) (sym found ∙ e)
        ]
      ]

  abbrev IsValid : RoutingConfig → Type 0
  IsValid c = (length c.rules ≤ 48) × AreValid dns strtol c.rules

  parse_fields-IsValid :
      (fields : List Bytes) (c : RoutingConfig)
      → parse_fields dns strtol fields ≡ some c
      → IsValid c
  unfolding parse_fields
  parse_fields-IsValid [] c e = cc e
  parse_fields-IsValid (a ∷ []) c e = cc e
  parse_fields-IsValid (a ∷ b ∷ []) c e = cc e
  parse_fields-IsValid (a ∷ b ∷ d ∷ more) c e = elim (Option-cases (flag_of a)) [
    | inl f ↦
        let gone : parse_fields dns strtol (a ∷ b ∷ d ∷ more) ≡ none = rw (f, parse_fields) refl in
        cc (gone, e)
    | inr (enabled, f) ↦ elim (Option-cases (parse_action b)) [
      | inl g ↦
          let gone : parse_fields dns strtol (a ∷ b ∷ d ∷ more) ≡ none =
            rw (f, parse_fields) (rw g refl) in
          cc (gone, e)
      | inr (action, g) ↦ elim (Option-cases (flag_of d)) [
        | inl h ↦
            let gone : parse_fields dns strtol (a ∷ b ∷ d ∷ more) ≡ none =
              rw (f, parse_fields) (rw g (rw h refl)) in
            cc (gone, e)
        | inr (bypass, h) ↦ elim (Option-cases (parse_rules dns strtol [] more)) [
          | inl k ↦
              let gone : parse_fields dns strtol (a ∷ b ∷ d ∷ more) ≡ none =
                rw (f, parse_fields) (rw g (rw h (rw k refl))) in
              cc (gone, e)
          | inr (rules, k) ↦
              let found : parse_fields dns strtol (a ∷ b ∷ d ∷ more)
                  ≡ some (record {
                    enabled = enabled;
                    bypass_lan = bypass;
                    default_action = action;
                    rules = rules;
                  }) =
                rw (f, parse_fields) (rw g (rw h (rw k refl))) in
              subst (λ x. IsValid x) (config_injective (sym found ∙ e))
                (parse_rules-AreValid [] more rules (omega arith) tt k)
        ]
      ]
    ]
  ]

  -- A configuration that `routing_config_parse` has read from any text has at most 48 rules; a port rule
  -- has a range within 1 to 65535 that is not empty, the text of a network rule is read as a network,
  -- and that of a domain or suffix rule is a domain.
  pub config_parse-IsValid :
      (text : Bytes) (c : RoutingConfig)
      → config_parse dns strtol text ≡ some c
      → (length c.rules ≤ 48) × AreValid dns strtol c.rules
  unfolding config_parse
  config_parse-IsValid text c e = elim (Bool-cases (length text == 0)) [
    | inl z ↦
        let found : config_parse dns strtol text ≡ some config_init = choose_left _ _ _ z in
        subst (λ x. IsValid x) (config_injective (sym found ∙ e)) (omega arith, tt)
    | inr z ↦ elim (Bool-cases (ltb 8191 (length text))) [
      | inl y ↦
          let gone : config_parse dns strtol text ≡ none =
            choose_right _ _ _ z ∙ choose_left _ _ _ y in
          cc (gone, e)
      | inr y ↦
          let found : config_parse dns strtol text
              ≡ parse_fields dns strtol (tokens (pieces 0x3b text)) =
            choose_right _ _ _ z ∙ choose_right _ _ _ y in
          parse_fields-IsValid (tokens (pieces 0x3b text)) c (sym found ∙ e)
    ]
  ]
