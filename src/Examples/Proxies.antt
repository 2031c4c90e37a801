-- ===== src/Examples/Proxies.antt =====
-- Runs of src/socks5.c and src/socks5_upstream.c.
use vless_core_cli.Prelude.{true, [], ◌∷◌, none, some, Bytes, ◌≡◌, refl, arith}
use vless_core_cli.Vless.{Resolver}
use vless_core_cli.Socks5.{
  Conn, read_exact, write_exact, domain_bytes, domain_valid, Printer, read_request, read_methods,
  negotiate_target, command_unsupported,
}
use vless_core_cli.Socks5.Upstream.{
  Login, ready, connect_request, log_in, use_method, authenticate, read_tail, read_address_tail,
  read_connected, send_connect, upstream_connect,
}
use vless_core_cli.Socks5.Reads.{Gives}
use vless_core_cli.Socks5.Agree.{negotiate-connect}

abbrev names_only : Resolver
names_only = record {
  ipv4 = λ t. none;
  ipv6 = λ t. none;
  ipv4_length = λ t a h. absurd (ground arith);
  ipv6_length = λ t a h. absurd (ground arith);
}

abbrev no_text : Printer
no_text = record { ntop4 = λ a. []; ntop6 = λ a. [] }

abbrev nobody : Login
nobody = record { user = []; pass = [] }

abbrev somebody : Login
somebody = record { user = 0x75 ∷ []; pass = 0x70 ∷ [] }

abbrev host : Bytes
host = 0x61 ∷ 0x2e ∷ 0x62 ∷ []

abbrev request : Bytes
request = 5 ∷ 1 ∷ 0 ∷ 3 ∷ 3 ∷ 0x61 ∷ 0x2e ∷ 0x62 ∷ 1 ∷ 187 ∷ []

-- The stream of a client, cut inside the request.
abbrev client : Conn
client = record {
  input =
      (5 ∷ 1 ∷ 0 ∷ 5 ∷ 1 ∷ []) ∷ (0 ∷ 3 ∷ 3 ∷ 0x61 ∷ 0x2e ∷ 0x62 ∷ 1 ∷ []) ∷ (187 ∷ 9 ∷ []) ∷ [];
  output = [];
  writable = true;
}

connect_request_test : connect_request names_only host 443 ≡ some request
unfolding connect_request domain_valid domain_bytes
connect_request_test = refl

negotiate-connect_example :
    Gives (negotiate_target no_text 10 client) host 443 (9 ∷ []) (5 ∷ 0 ∷ [])
negotiate-connect_example =
    negotiate-connect no_text 10 names_only nobody client host request (9 ∷ []) 443
      connect_request_test (omega arith) (omega arith) (omega arith)
      (record {
        pieces = (omega arith, (omega arith, (omega arith, tt)));
        carries = refl;
        writable = refl;
      })

-- The client logs in and connects; the server's answers come a byte short of their ends.
abbrev server : Conn
server = record {
  input = (5 ∷ 2 ∷ 1 ∷ []) ∷ (0 ∷ 5 ∷ 0 ∷ 0 ∷ 1 ∷ 127 ∷ []) ∷ (0 ∷ 0 ∷ 1 ∷ 0 ∷ 80 ∷ 7 ∷ []) ∷ [];
  output = [];
  writable = true;
}

upstream_connect_test :
    upstream_connect names_only somebody host 443 server
    ≡ ready (record {
      input = (7 ∷ []) ∷ [];
      output = 5 ∷ 2 ∷ 2 ∷ 0 ∷ 1 ∷ 1 ∷ 0x75 ∷ 1 ∷ 0x70 ∷ request;
      writable = true;
    })
unfolding upstream_connect authenticate use_method log_in send_connect connect_request
    read_connected read_address_tail read_tail read_exact write_exact domain_valid domain_bytes
upstream_connect_test = refl

-- A command other than to connect is told apart.
bind_test :
    (negotiate_target no_text 10
      (record { input = (5 ∷ 1 ∷ 0 ∷ 5 ∷ 2 ∷ 0 ∷ 1 ∷ []) ∷ []; output = []; writable = true })).0
    ≡ command_unsupported
unfolding negotiate_target read_methods read_request read_exact write_exact
bind_test = refl
