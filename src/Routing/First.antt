-- ===== src/Routing/First.antt =====
-- src/routing.c: the first rule that matches makes the decision.
use vless_core_cli.Prelude.{
  choose_right, codes, same_bytes, same_bytes_iff, ◌==◌, ℕ, suc, ◌+◌, true, false, ◌&&◌, not, List,
  [], ◌∷◌, ◌++◌, none, some, length, ◌≡◌, refl, ap, ◌∙◌, ◌⊎◌, inl, inr, arith, Bool-cases,
}
use vless_core_cli.Vless.{Resolver}
use vless_core_cli.Routing.{Action, action_proxy, Rule, RoutingConfig, is_local_address}
use vless_core_cli.Routing.Decide.{
  rule_at, Decision, Matched, resolver_rule, no_rule, Target, is_ip, domain_of, rule_matches,
  find_rule, default_of, decide,
}

module _ (dns : Resolver) (t : Target) where
  abbrev pub NoneMatch : List Rule → Type 0
  NoneMatch [] = Unit
  NoneMatch (r ∷ rules) = (rule_matches dns t r ≡ false) × NoneMatch rules

  -- The rules are some that do not match, one that does, and others.
  abbrev pub IsFirst : List Rule → List Rule → Rule → List Rule → Type 0
  IsFirst rules before r after =
      (rules ≡ before ++ (r ∷ after)) × NoneMatch before × (rule_matches dns t r ≡ true)

  find_rule-IsFirst :
      (i : ℕ) (rules : List Rule)
      → ((before : List Rule) × (r : Rule) × (after : List Rule) × IsFirst rules before r after
          × (find_rule dns t i rules ≡ some (r.action, i + length before)))
        ⊎ (NoneMatch rules × (find_rule dns t i rules ≡ none))
  unfolding find_rule
  find_rule-IsFirst i [] = inr (tt, refl)
  find_rule-IsFirst i (r ∷ rules) = elim (Bool-cases (rule_matches dns t r)) [
    | inl z ↦
        let start : i ≡ i + length {A = Rule} [] = omega arith in
        inl ([], r, rules, (refl, tt, z), rw z (ap (λ n. some (r.action, n)) start))
    | inr z ↦ elim (find_rule-IsFirst (i + 1) rules) [
      | inr (none_match, e) ↦ inr ((z, none_match), rw (z, e) refl)
      | inl (before, s, after, (whole, none_match, y), e) ↦
          let place : i + 1 + length before ≡ i + suc (length before) = omega arith in
          inl (
            r ∷ before,
            s,
            after,
            (ap (λ x. r ∷ x) whole, (z, none_match), y),
            rw (z, e) (ap (λ n. some (s.action, n)) place),
          )
    ]
  ]

  -- The target is the resolver 8.8.8.8 at port 53.
  abbrev pub IsResolver : Type 0
  IsResolver = (t.port ≡ 53) × (t.host ≡ codes "8.8.8.8")

  -- What is decided with no rule that matches.
  pub record IsDefault (c : RoutingConfig) : Type 0 where
    pub none_match : NoneMatch c.rules
    pub outcome :
        (IsResolver
          × (decide dns c t
              ≡ record { action = action_proxy; rule = resolver_rule; domain = domain_of dns t }))
        ⊎ ((¬ IsResolver)
            × (decide dns c t
                ≡ record { action = c.default_action; rule = no_rule; domain = domain_of dns t }))

  default_of_lem :
      (c : RoutingConfig)
      → (IsResolver × (default_of dns c t ≡ (action_proxy, resolver_rule)))
        ⊎ ((¬ IsResolver) × (default_of dns c t ≡ (c.default_action, no_rule)))
  unfolding default_of
  default_of_lem c = elim (Bool-cases (t.port == 53)) [
    | inr f ↦ inr ((λ r. absurd (ground (arith, f, r.0))), rw f refl)
    | inl f ↦ elim (Bool-cases (same_bytes t.host (codes "8.8.8.8"))) [
      | inl e ↦
          inl ((ground (arith, f), (same_bytes_iff t.host (codes "8.8.8.8")).0 e), rw (f, e) refl)
      | inr e ↦
          inr (
            (λ r. absurd (cc (e, (same_bytes_iff t.host (codes "8.8.8.8")).1 r.1))),
            rw (f, e) refl,
          )
    ]
  ]

  abbrev decision : Action × Matched → Decision
  decision p = record { action = p.0; rule = p.1; domain = domain_of dns t }

  -- Where the rules are asked, which is for an enabled configuration and a target that is not a local
  -- address that bypasses it: the first rule that matches gives the action, and the decision says its
  -- index; if none matches, the default action is taken, but the resolver 8.8.8.8 at port 53 goes by
  -- proxy.
  pub decide_lem :
      (c : RoutingConfig)
      → c.enabled ≡ true
      → (c.bypass_lan && is_ip dns t.host && is_local_address dns t.host) ≡ false
      → ((before : List Rule) × (r : Rule) × (after : List Rule) × IsFirst c.rules before r after
          × (decide dns c t ≡ record {
            action = r.action;
            rule = rule_at (length before);
            domain = domain_of dns t;
          }))
        ⊎ IsDefault c
  unfolding decide
  decide_lem c on far = elim (find_rule-IsFirst 0 c.rules) [
    | inr (none_match, e) ↦
        let by_default : decide dns c t ≡ decision (default_of dns c t) =
          choose_right _ _ _ (ap (λ x. not x) on) ∙ choose_right _ _ _ far ∙ rw e refl in
        elim (default_of_lem c) [
          | inl (here, f) ↦
              inr (record {
                none_match = none_match;
                outcome = inl (here, by_default ∙ ap decision f);
              })
          | inr (other, f) ↦ inr (record {
            none_match = none_match;
            outcome = inr (other, by_default ∙ ap decision f);
          })
        ]
    | inl (before, r, after, first, e) ↦
        let start : 0 + length before ≡ length before = omega arith in
        let found = e ∙ ap (λ n. some (r.action, n)) start in
        inl (
          before,
          r,
          after,
          first,
          choose_right _ _ _ (ap (λ x. not x) on) ∙ choose_right _ _ _ far ∙ rw found refl,
        )
  ]
