-- ===== src/Routing/Valid.antt =====
-- src/routing.c: what a routing configuration that was read is like.
use vless_core_cli.Prelude.{
  choose_left, choose_right, ℕ, ◌≤◌, ◌<◌, true, ◌||◌, List, [], ◌∷◌, Option, none, some, ltb, leb,
  ◌==◌, if◌then◌else◌, length, Bytes, ◌≡◌, refl, sym, ◌∙◌, inl, inr, arith, Bool-cases,
  Option-cases,
}
use mathlib.Core.Path.{subst}
use vless_core_cli.Vless.{Resolver}
use vless_core_cli.Vision.Wrap.{Parsed, number, no_number, below_zero}
use vless_core_cli.Routing.{
  Action, Match, match_domain, match_suffix, match_cidr, match_port, Rule, Network, copy_lower,
  parse_action, parse_match, cut, port_range, parse_port_range, parse_cidr, valid_domain,
}
use vless_core_cli.Routing.Parse.{checked_rule, rule_of}

ports : {a b c d : ℕ} → ◌≡◌ {A = Option (ℕ × ℕ)} (some (a, b)) (some (c, d)) → (a ≡ c) × (b ≡ d)
ports e = (cc e, cc e)

port_range-bounds :
    (a b : Parsed) (first last : ℕ)
    → port_range a b ≡ some (first, last)
    → (0 < first) × (first ≤ last) × (last ≤ 65535)
port_range-bounds (number a) (number b) first last e =
    elim (Bool-cases (a == 0 || ltb 65535 a || b == 0 || ltb 65535 b || ltb b a)) [
      | inl z ↦
          let gone : port_range (number a) (number b) ≡ none = choose_left _ _ _ z in cc (gone, e)
      | inr z ↦
          let same : port_range (number a) (number b) ≡ some (a, b) = choose_right _ _ _ z in
          let (x, y) = ports (sym same ∙ e) in
          (ground (arith, x, z), ground (arith, x, y, z), ground (arith, y, z))
    ]
port_range-bounds (number a) no_number first last e = cc e
port_range-bounds (number a) below_zero first last e = cc e
port_range-bounds no_number b first last e = cc e
port_range-bounds below_zero b first last e = cc e

rule_injective : {a b : Rule} → some a ≡ some b → a ≡ b
rule_injective e = cc

module _ (dns : Resolver) (strtol : Bytes → Parsed) where
  -- What a rule of each kind has to be.
  abbrev pub Fits : Match → Rule → Type 0
  Fits match_port r = (0 < r.port_first) × (r.port_first ≤ r.port_last) × (r.port_last ≤ 65535)
  Fits match_cidr r = (n : Network) × (parse_cidr dns r.value ≡ some n)
  Fits match_domain r = valid_domain r.value ≡ true
  Fits match_suffix r = valid_domain r.value ≡ true

  abbrev pub AreValid : List Rule → Type 0
  AreValid [] = Unit
  AreValid (r ∷ rules) = Fits r.kind r × AreValid rules

  range_of :
      (value : Bytes) (a b : ℕ)
      → parse_port_range strtol value ≡ some (a, b)
      → (0 < a) × (a ≤ b) × (b ≤ 65535)
  unfolding parse_port_range
  range_of value a b e = elim (Bool-cases (leb 32 (length value))) [
    | inl z ↦ let gone : parse_port_range strtol value ≡ none = choose_left _ _ _ z in cc (gone, e)
    | inr z ↦ elim (Option-cases (cut 0x2d value)) [
      | inl f ↦
          let found : parse_port_range strtol value ≡ port_range (strtol value) (strtol value) =
            choose_right _ _ _ z ∙ rw f refl in
          port_range-bounds (strtol value) (strtol value) a b (sym found ∙ e)
      | inr ((x, y), f) ↦
          let found : parse_port_range strtol value ≡ port_range (strtol x) (strtol y) =
            choose_right _ _ _ z ∙ rw f refl in
          port_range-bounds (strtol x) (strtol y) a b (sym found ∙ e)
    ]
  ]

  -- A rule before its ports are read.
  abbrev fresh : Action → Match → Bytes → Rule
  fresh action kind value = record {
    action = action;
    kind = kind;
    value = value;
    port_first = 0;
    port_last = 0;
  }

  named-Fits :
      (r s : Rule)
      → (if valid_domain r.value then some r else none) ≡ some s
      → (r ≡ s) × (valid_domain r.value ≡ true)
  named-Fits r s e = elim (Bool-cases (valid_domain r.value)) [
    | inl z ↦ (rule_injective (sym (choose_left _ _ _ z) ∙ e), z)
    | inr z ↦
        let gone : (if valid_domain r.value then some r else none) ≡ none = choose_right _ _ _ z in
        cc (gone, e)
  ]

  checked_rule-Fits :
      (action : Action) (kind : Match) (value : Bytes) (s : Rule)
      → checked_rule dns strtol (fresh action kind value) ≡ some s
      → Fits s.kind s
  unfolding checked_rule
  checked_rule-Fits action match_domain value s e =
      let (same, ok) = named-Fits (fresh action match_domain value) s e in
      subst (λ x. Fits x.kind x) same ok
  checked_rule-Fits action match_suffix value s e =
      let (same, ok) = named-Fits (fresh action match_suffix value) s e in
      subst (λ x. Fits x.kind x) same ok
  checked_rule-Fits action match_cidr value s e = elim (Option-cases (parse_cidr dns value)) [
    | inl f ↦
        let gone : checked_rule dns strtol (fresh action match_cidr value) ≡ none =
          rw (f, checked_rule) refl in
        cc (gone, e)
    | inr (n, f) ↦
        let found : checked_rule dns strtol (fresh action match_cidr value)
            ≡ some (fresh action match_cidr value) =
          rw (f, checked_rule) refl in
        subst (λ x. Fits x.kind x) (rule_injective (sym found ∙ e)) (n, f)
  ]
  checked_rule-Fits action match_port value s e =
      elim (Option-cases (parse_port_range strtol value)) [
        | inl f ↦
            let gone : checked_rule dns strtol (fresh action match_port value) ≡ none =
              rw (f, checked_rule) refl in
            cc (gone, e)
        | inr ((a, b), f) ↦
            let found : checked_rule dns strtol (fresh action match_port value)
                ≡ some (record (fresh action match_port value) { port_first = a; port_last = b }) =
              rw (f, checked_rule) refl in
            subst (λ x. Fits x.kind x) (rule_injective (sym found ∙ e)) (range_of value a b f)
      ]

  pub rule_of-Fits :
      (first second value : Bytes) (s : Rule)
      → rule_of dns strtol first second value ≡ some s
      → Fits s.kind s
  unfolding rule_of
  rule_of-Fits first second value s e = elim (Option-cases (parse_action first)) [
    | inl f ↦
        let gone : rule_of dns strtol first second value ≡ none = rw (f, rule_of) refl in
        cc (gone, e)
    | inr (action, f) ↦ elim (Option-cases (parse_match second)) [
      | inl g ↦
          let gone : rule_of dns strtol first second value ≡ none = rw (f, rule_of) (rw g refl) in
          cc (gone, e)
      | inr (kind, g) ↦ elim (Bool-cases (leb 256 (length value))) [
        | inl z ↦
            let gone : rule_of dns strtol first second value ≡ none =
              rw (f, rule_of) (rw g (rw z refl)) in
            cc (gone, e)
        | inr z ↦
            let found : rule_of dns strtol first second value
                ≡ checked_rule dns strtol (fresh action kind (copy_lower 256 value)) =
              rw (f, rule_of) (rw g (rw z refl)) in
            checked_rule-Fits action kind (copy_lower 256 value) s (sym found ∙ e)
      ]
    ]
  ]
