-- ===== src/Socks5/Upstream.antt =====
-- src/socks5_upstream.c: the client side of SOCKS5, to the server that a connection goes through.
use vless_core_cli.Prelude.{
  ℕ, ◌+◌, ◌/◌, ◌%◌, Bool, ◌&&◌, ◌||◌, not, List, [], ◌∷◌, ◌++◌, Option, none, some, ltb, ◌==◌,
  if◌then◌else◌, get_or, take, length, Bytes,
}
use vless_core_cli.Vless.{Resolver}
use vless_core_cli.Socks5.{Conn, read_exact, write_exact, domain_valid}

-- `socks5_user` and `socks5_pass`
pub record Login : Type 0 where
  pub user : Bytes
  pub pass : Bytes

-- What a part of the handshake gives: the code of the failure, or the connection.
pub data Answer : Type 0 where
  refused : ℕ → Answer
  ready : Conn → Answer

abbrev pub has_auth : Login → Bool
has_auth l = not (length l.user == 0) || not (length l.pass == 0)

abbrev pub hello : Login → Bytes
hello l = if has_auth l then 5 ∷ 2 ∷ 2 ∷ 0 ∷ [] else 5 ∷ 1 ∷ 0 ∷ []

-- `auth`
abbrev pub auth_packet : Login → Bytes
auth_packet l = 1 ∷ length l.user % 256 ∷ (l.user ++ (length l.pass % 256 ∷ l.pass))

-- The login, once the server asks for it.
unfoldable pub log_in : Login → Conn → Answer
log_in l c =
    if length l.user == 0 || ltb 255 (length l.user) || ltb 255 (length l.pass)
    then refused 1
    else elim (write_exact c (auth_packet l)) [
      | none ↦ refused 1
      | some d ↦ elim (read_exact 2 d.input) [
        | none ↦ refused 1
        | some (b, left) ↦
            if not (get_or b 0 0 == 1)
            then refused 1
            else if not (get_or b 1 0 == 0)
            then refused 2
            else ready (record d { input = left })
      ]
    ]

-- The method that the server selects.
unfoldable pub use_method : Login → Conn → Bytes → Answer
use_method l c b =
    let method = get_or b 1 0 in
    if not (get_or b 0 0 == 5)
    then refused 1
    else if method == 0xff
    then refused 2
    else if method == 0
    then ready c
    else if not (method == 2) || not (has_auth l)
    then refused 1
    else log_in l c

-- `socks5_authenticate`
unfoldable pub authenticate : Login → Conn → Answer
authenticate l c = elim (write_exact c (hello l)) [
  | none ↦ refused 1
  | some d ↦ elim (read_exact 2 d.input) [
    | none ↦ refused 1
    | some (b, left) ↦ use_method l (record d { input = left }) b
  ]
]

-- `req`, for a target that can be sent
unfoldable pub connect_request : Resolver → Bytes → ℕ → Option Bytes
connect_request dns host port =
    let tail = port / 256 % 256 ∷ port % 256 ∷ [] in
    elim (dns.ipv4 host) [
      | some a ↦ some (5 ∷ 1 ∷ 0 ∷ 1 ∷ (a ++ tail))
      | none ↦ elim (dns.ipv6 host) [
        | some a ↦ some (5 ∷ 1 ∷ 0 ∷ 4 ∷ (a ++ tail))
        | none ↦
            if not (domain_valid host)
            then none
            else some (5 ∷ 1 ∷ 0 ∷ 3 ∷ length host % 256 ∷ (host ++ tail))
      ]
    ]

-- The `tail` bytes in `socks5_read_address_tail`, of which the first `name` are a domain.
unfoldable pub read_tail : List Bytes → ℕ → ℕ → Option (List Bytes)
read_tail input tail name = elim (read_exact tail input) [
  | none ↦ none
  | some (b, left) ↦ if not (name == 0) && not (domain_valid (take name b)) then none else some left
]

-- `socks5_read_address_tail`
unfoldable pub read_address_tail : List Bytes → ℕ → Option (List Bytes)
read_address_tail input type =
    if type == 1
    then read_tail input 6 0
    else if type == 4
    then read_tail input 18 0
    else if type == 3
    then elim (read_exact 1 input) [
      | none ↦ none
      | some (b, left) ↦
          if get_or b 0 0 == 0
          then none
          else if ltb 260 (get_or b 0 0 + 2)
          then none
          else read_tail left (get_or b 0 0 + 2) (get_or b 0 0)
    ]
    else none

-- The answer to the request.
unfoldable pub read_connected : Conn → Answer
read_connected c = elim (read_exact 4 c.input) [
  | none ↦ refused 1
  | some (b, left) ↦
      if not (get_or b 0 0 == 5) || not (get_or b 2 0 == 0) || ltb 8 (get_or b 1 0)
      then refused 1
      else elim (read_address_tail left (get_or b 3 0)) [
        | none ↦ refused 1
        | some rest ↦
            if not (get_or b 1 0 == 0)
            then refused (get_or b 1 0)
            else ready (record c { input = rest })
      ]
]

-- `socks5_send_connect`
unfoldable pub send_connect : Resolver → Bytes → ℕ → Conn → Answer
send_connect dns host port c = elim (connect_request dns host port) [
  | none ↦ refused 1
  | some request ↦ elim (write_exact c request) [ none ↦ refused 1 | some d ↦ read_connected d ]
]

-- `socks5_upstream_connect`, on the connection that `core_dial_host` gives
unfoldable pub upstream_connect : Resolver → Login → Bytes → ℕ → Conn → Answer
upstream_connect dns l host port c =
    if not (domain_valid host) || port == 0 then refused 1 else elim (authenticate l c) [
      | refused code ↦ refused code
      | ready d ↦ send_connect dns host port d
    ]
