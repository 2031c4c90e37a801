-- ===== src/Socks5.antt =====
-- src/socks5.c: the server side of SOCKS5, over a connection that gives its bytes in pieces.
pub mod Upstream
pub mod Pieces
pub mod Reads
pub mod Agree
use vless_core_cli.Prelude.{
  ℕ, zero, suc, ◌+◌, ◌-◌, ◌*◌, ◌/◌, ◌%◌, ◌^◌, ◌≤◌, ◌<◌, min, max, Bool, true, false, ◌&&◌, ◌||◌,
  not, List, [], ◌∷◌, ◌++◌, Option, none, some, ltb, leb, ◌==◌, if◌then◌else◌, get_elem?, get_or,
  set, take, drop, length, Bytes, size_max, add_size, sub_size, ◌≡◌, refl, sym, ap, ap₂, ◌∙◌, ◌≢◌,
  ◌↔◌, ◌⊎◌, inl, inr, arith, Bool-cases, Option-cases, append-nil, append_assoc, length-append,
  length-take, length-drop, bit, word16, word24, word32, map, take-append-drop, take_front,
  drop_front, long_enough,
}

-- What `core_recv` and `core_send` work on: the pieces that are to come until the end of the stream,
-- what has been sent, and whether the peer takes more.
pub record Conn : Type 0 where
  pub input : List Bytes
  pub output : Bytes
  pub writable : Bool

-- `read_exact`: the bytes, and the pieces behind them. `core_recv` gives at most one piece, and 0 at
-- the end.
unfoldable pub read_exact : ℕ → List Bytes → Option (Bytes × List Bytes)
read_exact zero pieces = some ([], pieces)
read_exact (suc n) [] = none
read_exact (suc n) (piece ∷ pieces) =
    let rest = read_exact (suc n - length piece) pieces in
    if length piece == 0
    then none
    else if ltb (suc n) (length piece)
    then some (take (suc n) piece, drop (suc n) piece ∷ pieces)
    else elim rest [ none ↦ none | some (bytes, left) ↦ some (piece ++ bytes, left) ]

-- `write_exact`
unfoldable pub write_exact : Conn → Bytes → Option Conn
write_exact c bytes =
    if not (length bytes == 0) && not c.writable
    then none
    else some (record c { output = c.output ++ bytes })

-- The loop of `socks5_domain_valid`
unfoldable pub domain_bytes : Bytes → Bool
domain_bytes [] = true
domain_bytes (c ∷ rest) = not (leb c 0x20 || c == 0x7f) && domain_bytes rest

-- `socks5_domain_valid`
unfoldable pub domain_valid : Bytes → Bool
unfolding domain_bytes
domain_valid d = not (length d == 0) && leb (length d) 255 && domain_bytes d

-- The values of `errno` that `socks5_error_reply` tells apart.
pub data Failure : Type 0 where
  denied net_unreachable host_unreachable refused_connection bad_family other_failure : Failure

-- `socks5_error_reply`
abbrev pub error_reply : Failure → ℕ
error_reply denied = 2
error_reply net_unreachable = 3
error_reply host_unreachable = 4
error_reply refused_connection = 5
error_reply bad_family = 8
error_reply other_failure = 1

-- What `negotiate_target` returns: -1, the three other codes, or 0 with the host and the port.
pub data Negotiated : Type 0 where
  broken rejected command_unsupported address_unsupported : Negotiated
  target : Bytes → ℕ → Negotiated

-- `socks5_request_reply`
abbrev pub request_reply : Negotiated → ℕ
request_reply command_unsupported = 7
request_reply address_unsupported = 8
request_reply _ = 1

-- The texts of `inet_ntop` for the two families.
pub record Printer : Type 0 where
  pub ntop4 : Bytes → Bytes
  pub ntop6 : Bytes → Bytes

abbrev pub contains_zero : Bytes → Bool
contains_zero [] = false
contains_zero (x ∷ xs) = x == 0 || contains_zero xs

-- The results, with the pieces left over and what was sent.
abbrev pub Served : Type 0
Served = Negotiated × Conn

abbrev pub first_of : Bytes → ℕ
first_of b = get_or b 0 0

module _ (printer : Printer) (cap : ℕ) where
  -- The port, behind a host that is stored.
  unfoldable pub read_port : Conn → Bytes → Served
  read_port c host = elim (read_exact 2 c.input) [
    | none ↦ (broken, c)
    | some (b, left) ↦
        let port = word16 (get_or b 0 0) (get_or b 1 0) in
        (if port == 0 then broken else target host port, record c { input = left })
  ]

  -- `inet_ntop` with the capacity of the host.
  unfoldable pub read_address : Conn → ℕ → (Bytes → Bytes) → Served
  read_address c size print = elim (read_exact size c.input) [
    | none ↦ (broken, c)
    | some (b, left) ↦
        if leb cap (length (print b))
        then (broken, record c { input = left })
        else read_port (record c { input = left }) (print b)
  ]

  unfoldable pub read_name : Conn → ℕ → Served
  read_name c size = elim (read_exact size c.input) [
    | none ↦ (broken, c)
    | some (host, left) ↦
        if not (domain_valid host)
        then (broken, record c { input = left })
        else read_port (record c { input = left }) host
  ]

  unfoldable pub read_domain : Conn → Served
  read_domain c = elim (read_exact 1 c.input) [
    | none ↦ (broken, c)
    | some (b, left) ↦
        if first_of b == 0 || ltb cap (first_of b + 1)
        then (broken, record c { input = left })
        else read_name (record c { input = left }) (first_of b)
  ]

  -- The request, from its four first bytes on.
  unfoldable pub read_request : Conn → Served
  read_request c = elim (read_exact 4 c.input) [
    | none ↦ (broken, c)
    | some (b, left) ↦
        let d = record c { input = left } in
        let type = get_or b 3 0 in
        if not (get_or b 0 0 == 5) || not (get_or b 2 0 == 0)
        then (broken, d)
        else if not (get_or b 1 0 == 1)
        then (command_unsupported, d)
        else if type == 1
        then read_address d 4 printer.ntop4
        else if type == 3
        then read_domain d
        else if type == 4
        then read_address d 16 printer.ntop6
        else (address_unsupported, d)
  ]

  -- The methods, and the answer to them.
  unfoldable pub read_methods : Conn → ℕ → Served
  read_methods c count = elim (read_exact count c.input) [
    | none ↦ (broken, c)
    | some (methods, left) ↦
        let d = record c { input = left } in
        let no_auth = contains_zero methods in
        elim (write_exact d (5 ∷ (if no_auth then 0 else 0xff) ∷ [])) [
          | none ↦ (broken, d)
          | some e ↦ if no_auth then read_request e else (rejected, e)
        ]
  ]

  -- `negotiate_target`, at a host and a port that are not NULL
  unfoldable pub negotiate_target : Conn → Served
  negotiate_target c = if cap == 0 then (broken, c) else elim (read_exact 2 c.input) [
    | none ↦ (broken, c)
    | some (hello, left) ↦
        let d = record c { input = left } in
        if not (first_of hello == 5) || get_or hello 1 0 == 0
        then (broken, d)
        else read_methods d (get_or hello 1 0)
  ]

-- `resp` of `socks5_send_failure`, and with 0 of `socks5_send_success`
abbrev pub reply_bytes : ℕ → Bytes
reply_bytes rep = 5 ∷ rep ∷ 0 ∷ 1 ∷ 0 ∷ 0 ∷ 0 ∷ 0 ∷ 0 ∷ 0 ∷ []

-- `socks5_send_failure`, less its deadline, and `socks5_send_success`
unfoldable pub send_reply : Conn → ℕ → Option Conn
send_reply c rep = write_exact c (reply_bytes rep)
