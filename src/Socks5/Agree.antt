-- ===== src/Socks5/Agree.antt =====
-- The client of src/socks5_upstream.c and the server of src/socks5.c agree on the target.
use vless_core_cli.Prelude.{
  ℕ, ◌%◌, ◌<◌, true, [], ◌∷◌, ◌++◌, none, some, length, Bytes, ◌≡◌, refl, sym, ap, ◌∙◌, inl, inr,
  arith, Bool-cases, Option-cases, append_assoc,
}
use mathlib.Core.Path.{subst}
use vless_core_cli.Vless.{Resolver}
use vless_core_cli.Socks5.{
  Conn, domain_valid, Printer, contains_zero, read_request, negotiate_target,
}
use vless_core_cli.Socks5.Upstream.{Login, has_auth, hello, connect_request}
use vless_core_cli.Socks5.Reads.{
  Carries, Gives, port_bytes, negotiate-hello, read_request-IPv4, read_request-IPv6,
  read_request-domain,
}

-- What the server hands on as the host.
abbrev pub shown : Resolver → Printer → Bytes → Bytes
shown dns printer host = elim (dns.ipv4 host) [
  | some a ↦ printer.ntop4 a
  | none ↦ elim (dns.ipv6 host) [ some a ↦ printer.ntop6 a | none ↦ host ]
]

some_injective : {a b : Bytes} → some a ≡ some b → a ≡ b
some_injective e = cc

module _ (printer : Printer) (cap : ℕ) (dns : Resolver) where
  read_request-connect :
      (c : Conn) (host request more : Bytes) (port : ℕ)
      → connect_request dns host port ≡ some request
      → length (shown dns printer host) < cap
      → 0 < port
      → port < 65536
      → Carries c (request ++ more)
      → Gives (read_request printer cap c) (shown dns printer host) port more c.output
  unfolding connect_request
  read_request-connect c host request more port h fits p q v = elim (Option-cases (dns.ipv4 host)) [
    | inr (a, e) ↦
        let same : 5 ∷ 1 ∷ 0 ∷ 1 ∷ (a ++ port_bytes port) ≡ request =
          some_injective (sym (rw (e, connect_request) refl) ∙ h) in
        let bytes : Carries c (5 ∷ 1 ∷ 0 ∷ 1 ∷ (a ++ (port_bytes port ++ more))) =
          subst (λ t. Carries c t)
            (ap (λ t. t ++ more) (sym same)
              ∙ ap (λ t. 5 ∷ 1 ∷ 0 ∷ 1 ∷ t) (append_assoc a (port_bytes port) more))
            v in
        let seen : shown dns printer host ≡ printer.ntop4 a = rw (e, shown) refl in
        rw seen (
          read_request-IPv4 printer cap c a more port (dns.ipv4_length host a e)
            (subst (λ t. length t < cap) seen fits) p q bytes)
    | inl e ↦ elim (Option-cases (dns.ipv6 host)) [
      | inr (a, f) ↦
          let same : 5 ∷ 1 ∷ 0 ∷ 4 ∷ (a ++ port_bytes port) ≡ request =
            some_injective (sym (rw (e, connect_request) (rw f refl)) ∙ h) in
          let bytes : Carries c (5 ∷ 1 ∷ 0 ∷ 4 ∷ (a ++ (port_bytes port ++ more))) =
            subst (λ t. Carries c t)
              (ap (λ t. t ++ more) (sym same)
                ∙ ap (λ t. 5 ∷ 1 ∷ 0 ∷ 4 ∷ t) (append_assoc a (port_bytes port) more))
              v in
          let seen : shown dns printer host ≡ printer.ntop6 a = rw (e, shown) (rw f refl) in
          rw seen (
            read_request-IPv6 printer cap c a more port (dns.ipv6_length host a f)
              (subst (λ t. length t < cap) seen fits) p q bytes)
      | inl f ↦ elim (Bool-cases (domain_valid host)) [
        | inr bad ↦
            let gone : connect_request dns host port ≡ none =
              rw (e, connect_request) (rw f (rw bad refl)) in
            cc (gone, h)
        | inl ok ↦
            let same : 5 ∷ 1 ∷ 0 ∷ 3 ∷ length host % 256 ∷ (host ++ port_bytes port) ≡ request =
              some_injective (sym (rw (e, connect_request) (rw f (rw ok refl))) ∙ h) in
            let bytes : Carries c
                (5 ∷ 1 ∷ 0 ∷ 3 ∷ length host % 256 ∷ (host ++ (port_bytes port ++ more))) =
              subst (λ t. Carries c t)
                (ap (λ t. t ++ more) (sym same)
                  ∙ ap (λ t. 5 ∷ 1 ∷ 0 ∷ 3 ∷ length host % 256 ∷ t)
                      (append_assoc host (port_bytes port) more))
                v in
            let seen : shown dns printer host ≡ host = rw (e, shown) (rw f refl) in
            rw seen (
              read_request-domain printer cap c host more port ok
                (subst (λ t. length t < cap) seen fits) p q bytes)
      ]
    ]
  ]

  negotiate-request :
      (c : Conn) (methods host request more : Bytes) (port : ℕ)
      → connect_request dns host port ≡ some request
      → length (shown dns printer host) < cap
      → 0 < port
      → port < 65536
      → 0 < length methods
      → contains_zero methods ≡ true
      → Carries c (5 ∷ length methods ∷ (methods ++ (request ++ more)))
      → Gives
          (negotiate_target printer cap c)
          (shown dns printer host)
          port
          more
          (c.output ++ (5 ∷ 0 ∷ []))
  negotiate-request c methods host request more port h fits p q some_methods z w =
      let some_cap : 0 < cap = ground (arith, fits) in
      let (d, e, u, o) =
        negotiate-hello printer cap c methods (request ++ more) some_cap some_methods z w in
      let (d', e', u', o') = read_request-connect d host request more port h fits p q u in
      (d', e ∙ e', u', o' ∙ o)

  -- A server of src/socks5.c with room for the host, on a stream cut into any pieces that carries
  -- the hello of a client of src/socks5_upstream.c, its request for a host and a port other than 0,
  -- and more, gives the host as it shows it and the port, leaves the rest unread, and has sent that
  -- it selects the method without authentication.
  pub negotiate-connect :
      (l : Login) (c : Conn) (host request more : Bytes) (port : ℕ)
      → connect_request dns host port ≡ some request
      → length (shown dns printer host) < cap
      → 0 < port
      → port < 65536
      → Carries c (hello l ++ (request ++ more))
      → Gives
          (negotiate_target printer cap c)
          (shown dns printer host)
          port
          more
          (c.output ++ (5 ∷ 0 ∷ []))
  negotiate-connect l c host request more port h fits p q v = elim (Bool-cases (has_auth l)) [
    | inl a ↦
        let says : hello l ≡ 5 ∷ 2 ∷ 2 ∷ 0 ∷ [] = rw a refl in
        negotiate-request c (2 ∷ 0 ∷ []) host request more port h fits p q (omega arith) refl
          (subst (λ t. Carries c (t ++ (request ++ more))) says v)
    | inr a ↦
        let says : hello l ≡ 5 ∷ 1 ∷ 0 ∷ [] = rw a refl in
        negotiate-request c (0 ∷ []) host request more port h fits p q (omega arith) refl
          (subst (λ t. Carries c (t ++ (request ++ more))) says v)
  ]
