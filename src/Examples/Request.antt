-- ===== src/Examples/Request.antt =====
-- Runs of src/vless.c: a request to a domain, and a response header in two pieces.
use vless_core_cli.Prelude.{true, [], ◌∷◌, ◌++◌, none, some, Bytes, ◌≡◌, refl, arith}
use vless_core_cli.Vless.{
  append, append_address, consume_response, Resolver, Config, addons_of, build_request,
}
use vless_core_cli.Vless.Pieces.{start, consume_twice, consume_twice_lem}
use vless_core_cli.Vless.Layout.{Address, address_of, fitted, build_request_lem}
use vless_core_cli.Vless.RoundTrip.{read_request, read_request-build_request}

-- No host is a numeric address.
abbrev names_only : Resolver
names_only = record {
  ipv4 = λ t. none;
  ipv6 = λ t. none;
  ipv4_length = λ t a h. absurd (ground arith);
  ipv6_length = λ t a h. absurd (ground arith);
}

abbrev user : Config
user = record {
  uuid = 1 ∷ 2 ∷ 3 ∷ 4 ∷ 5 ∷ 6 ∷ 7 ∷ 8 ∷ 9 ∷ 10 ∷ 11 ∷ 12 ∷ 13 ∷ 14 ∷ 15 ∷ 16 ∷ [];
  flow = [];
}

abbrev host : Bytes
host = 0x61 ∷ 0x2e ∷ 0x62 ∷ []

abbrev packet : Bytes
packet =
    0 ∷ 1 ∷ 2 ∷ 3 ∷ 4 ∷ 5 ∷ 6 ∷ 7 ∷ 8 ∷ 9 ∷ 10 ∷ 11 ∷ 12 ∷ 13 ∷ 14 ∷ 15 ∷ 16 ∷ 0 ∷ 1 ∷ 1 ∷ 187 ∷ 2
    ∷ 3 ∷ host

build_request_test : build_request names_only 64 user host 443 ≡ some packet
unfolding build_request append append_address addons_of
build_request_test = refl

small_buffer_test : build_request names_only 25 user host 443 ≡ none
unfolding build_request append append_address addons_of
small_buffer_test = refl

consume_response_test :
    consume_response start (0 ∷ 1 ∷ 5 ∷ 6 ∷ [])
    ≡ some (record { header_bytes = 2; addon_bytes = 0; complete = true }, 6 ∷ [])
unfolding consume_response
consume_response_test = refl

consume_twice_example :
    consume_twice start (0 ∷ 1 ∷ []) (5 ∷ 6 ∷ []) ≡ consume_response start (0 ∷ 1 ∷ 5 ∷ 6 ∷ [])
consume_twice_example = consume_twice_lem start (0 ∷ 1 ∷ []) (5 ∷ 6 ∷ [])

build_request_example :
    build_request names_only 64 user host 443 ≡ fitted 64 user 443 (address_of names_only host)
build_request_example = build_request_lem names_only 64 user host 443

read_request_example :
    (a : Address) × (address_of names_only host ≡ some a)
    × (read_request (packet ++ (9 ∷ []))
        ≡ some (record { uuid = user.uuid; addons = []; port = 443; address = a }, 9 ∷ []))
unfolding addons_of
read_request_example =
    read_request-build_request names_only 64 user host 443 (9 ∷ []) refl (omega arith)
      build_request_test
