-- ===== src/Examples/Trojans.antt =====
-- Runs of src/trojan.c: a request to a domain.
use vless_core_cli.Prelude.{[], ◌∷◌, none, Bytes, ◌≡◌, refl, inl, arith}
use vless_core_cli.Prelude.Results.{einval, enobufs}
use vless_core_cli.Vless.{Resolver}
use vless_core_cli.Trojan.{destination, is_name, request}

-- No host is a numeric address.
abbrev no_addresses : Resolver
no_addresses = record {
  ipv4 = λ t. none;
  ipv6 = λ t. none;
  ipv4_length = λ t a h. absurd (ground arith);
  ipv6_length = λ t a h. absurd (ground arith);
}

abbrev digest : Bytes
digest =
    1 ∷ 2 ∷ 3 ∷ 4 ∷ 5 ∷ 6 ∷ 7 ∷ 8 ∷ 9 ∷ 10 ∷ 11 ∷ 12 ∷ 13 ∷ 14 ∷ 15 ∷ 16 ∷ 17 ∷ 18 ∷ 19 ∷ 20 ∷ 21
    ∷ 22 ∷ 23 ∷ 24 ∷ 25 ∷ 26 ∷ 27 ∷ 255 ∷ []

abbrev site : Bytes
site = 0x61 ∷ 0x2e ∷ 0x62 ∷ []

request_small_test : request no_addresses 67 digest site 443 ≡ inl enobufs
unfolding request destination is_name
request_small_test = refl

-- A host with a slash is refused.
request_name_test : request no_addresses 68 digest (0x61 ∷ 0x2f ∷ []) 443 ≡ inl einval
unfolding request destination is_name
request_name_test = refl
