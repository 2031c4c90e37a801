-- ===== src/Socks5/Reads.antt =====
-- What the server of src/socks5.c gives for a well-formed hello and request, on a stream in any pieces.
use vless_core_cli.Prelude.{
  ℕ, ◌+◌, ◌/◌, ◌%◌, ◌≤◌, ◌<◌, true, false, ◌||◌, [], ◌∷◌, ◌++◌, ltb, leb, ◌==◌, length, Bytes, ◌≡◌,
  refl, arith, word16,
}
use vless_core_cli.Socks5.{
  Conn, write_exact, domain_valid, target, Printer, contains_zero, Served, read_port, read_address,
  read_name, read_domain, read_request, read_methods, negotiate_target,
}
use vless_core_cli.Socks5.Pieces.{flat, ArePieces, read_exact-flat}

-- A stream that carries these bytes, with a peer that takes what is sent.
pub record Carries (c : Conn) (bytes : Bytes) : Type 0 where
  pub pieces : ArePieces c.input
  pub carries : flat c.input ≡ bytes
  pub writable : c.writable ≡ true

-- The server gave the target, and left the rest of the stream.
abbrev pub Gives : Served → Bytes → ℕ → Bytes → Bytes → Type 0
Gives r host port rest output =
    (d : Conn) × (r ≡ (target host port, d)) × Carries d rest × (d.output ≡ output)

abbrev pub port_bytes : ℕ → Bytes
port_bytes port = port / 256 % 256 ∷ port % 256 ∷ []

domain_valid-length :
    (host : Bytes) → domain_valid host ≡ true → (0 < length host) × (length host ≤ 255)
unfolding domain_valid
domain_valid-length host e = (ground (arith, e), ground (arith, e))

module _ (printer : Printer) (cap : ℕ) where
  read_port-Gives :
      (c : Conn) (host more : Bytes) (port : ℕ)
      → 0 < port
      → port < 65536
      → Carries c (port_bytes port ++ more)
      → Gives (read_port printer cap c host) host port more c.output
  unfolding read_port
  read_port-Gives c host more port p q v =
      let (left, e, w, f) =
        read_exact-flat c.input 2 (port_bytes port) more v.pieces v.carries refl in
      let back : word16 (port / 256 % 256) (port % 256) ≡ port = omega arith in
      let nonzero : port == 0 ≡ false = ground arith in
      (
        record c { input = left },
        rw (e, read_port) (rw (back, nonzero) refl),
        record { pieces = w; carries = f; writable = v.writable },
        refl,
      )

  read_address-Gives :
      (c : Conn) (print : Bytes → Bytes) (a more : Bytes) (size port : ℕ)
      → length a ≡ size
      → length (print a) < cap
      → 0 < port
      → port < 65536
      → Carries c (a ++ (port_bytes port ++ more))
      → Gives (read_address printer cap c size print) (print a) port more c.output
  unfolding read_address
  read_address-Gives c print a more size port l fits p q v =
      let (left, e, w, f) =
        read_exact-flat c.input size a (port_bytes port ++ more) v.pieces v.carries l in
      let room : leb cap (length (print a)) ≡ false = ground arith in
      let (d, g, u, o) =
        read_port-Gives (record c { input = left }) (print a) more port p q
          (record { pieces = w; carries = f; writable = v.writable }) in
      (d, rw (e, read_address) (rw room g), u, o)

  read_domain-Gives :
      (c : Conn) (host more : Bytes) (port : ℕ)
      → domain_valid host ≡ true
      → length host ≤ 255
      → 0 < length host
      → length host < cap
      → 0 < port
      → port < 65536
      → Carries c (length host % 256 ∷ (host ++ (port_bytes port ++ more)))
      → Gives (read_domain printer cap c) host port more c.output
  unfolding read_domain read_name
  read_domain-Gives c host more port ok short some_bytes fits p q v =
      let size : length host % 256 ≡ length host = omega arith in
      let (left, e, w, f) =
        read_exact-flat c.input 1 (length host % 256 ∷ []) (host ++ (port_bytes port ++ more))
          v.pieces v.carries refl in
      let (left', e', w', f') =
        read_exact-flat left (length host) host (port_bytes port ++ more) w f refl in
      let (d, g, u, o) =
        read_port-Gives (record c { input = left' }) host more port p q
          (record { pieces = w'; carries = f'; writable = v.writable }) in
      let room : (length host == 0 || ltb cap (length host + 1)) ≡ false = ground arith in
      (d, rw (e, read_domain) (rw (size, room) (rw (e', read_name) (rw ok g))), u, o)

  -- The methods of a hello that offers no authentication.
  pub negotiate-hello :
      (c : Conn) (methods rest : Bytes)
      → 0 < cap
      → 0 < length methods
      → contains_zero methods ≡ true
      → Carries c (5 ∷ length methods ∷ (methods ++ rest))
      → (d : Conn) × (negotiate_target printer cap c ≡ read_request printer cap d)
        × Carries d rest
        × (d.output ≡ c.output ++ (5 ∷ 0 ∷ []))
  unfolding negotiate_target read_methods write_exact
  negotiate-hello c methods rest some_cap some_methods z v =
      let n = length methods in
      let (left, e, w, f) =
        read_exact-flat c.input 2 (5 ∷ n ∷ []) (methods ++ rest) v.pieces v.carries refl in
      let (left', e', w', f') = read_exact-flat left n methods rest w f refl in
      let room : cap == 0 ≡ false = ground arith in
      let nonzero : n == 0 ≡ false = ground arith in
      (
        record c { input = left'; output = c.output ++ (5 ∷ 0 ∷ []) },
        rw (room, e, negotiate_target)
            (rw (nonzero) (rw (e', read_methods) (rw (v.writable) (rw z refl)))),
        record { pieces = w'; carries = f'; writable = v.writable },
        refl,
      )

  -- The four first bytes of a request for a connection.
  pub read_request-IPv4 :
      (c : Conn) (a more : Bytes) (port : ℕ)
      → length a ≡ 4
      → length (printer.ntop4 a) < cap
      → 0 < port
      → port < 65536
      → Carries c (5 ∷ 1 ∷ 0 ∷ 1 ∷ (a ++ (port_bytes port ++ more)))
      → Gives (read_request printer cap c) (printer.ntop4 a) port more c.output
  unfolding read_request
  read_request-IPv4 c a more port l fits p q v =
      let tail = a ++ (port_bytes port ++ more) in
      let (left, e, w, f) =
        read_exact-flat c.input 4 (5 ∷ 1 ∷ 0 ∷ 1 ∷ []) tail v.pieces v.carries refl in
      let (d, g, u, o) =
        read_address-Gives (record c { input = left }) printer.ntop4 a more 4 port l fits p q
          (record { pieces = w; carries = f; writable = v.writable }) in
      (d, rw (e, read_request) g, u, o)

  pub read_request-IPv6 :
      (c : Conn) (a more : Bytes) (port : ℕ)
      → length a ≡ 16
      → length (printer.ntop6 a) < cap
      → 0 < port
      → port < 65536
      → Carries c (5 ∷ 1 ∷ 0 ∷ 4 ∷ (a ++ (port_bytes port ++ more)))
      → Gives (read_request printer cap c) (printer.ntop6 a) port more c.output
  unfolding read_request
  read_request-IPv6 c a more port l fits p q v =
      let tail = a ++ (port_bytes port ++ more) in
      let (left, e, w, f) =
        read_exact-flat c.input 4 (5 ∷ 1 ∷ 0 ∷ 4 ∷ []) tail v.pieces v.carries refl in
      let (d, g, u, o) =
        read_address-Gives (record c { input = left }) printer.ntop6 a more 16 port l fits p q
          (record { pieces = w; carries = f; writable = v.writable }) in
      (d, rw (e, read_request) g, u, o)

  pub read_request-domain :
      (c : Conn) (host more : Bytes) (port : ℕ)
      → domain_valid host ≡ true
      → length host < cap
      → 0 < port
      → port < 65536
      → Carries c (5 ∷ 1 ∷ 0 ∷ 3 ∷ length host % 256 ∷ (host ++ (port_bytes port ++ more)))
      → Gives (read_request printer cap c) host port more c.output
  unfolding read_request
  read_request-domain c host more port ok fits p q v =
      let tail = length host % 256 ∷ (host ++ (port_bytes port ++ more)) in
      let (left, e, w, f) =
        read_exact-flat c.input 4 (5 ∷ 1 ∷ 0 ∷ 3 ∷ []) tail v.pieces v.carries refl in
      let (some_bytes, short) = domain_valid-length host ok in
      let (d, g, u, o) =
        read_domain-Gives (record c { input = left }) host more port ok short some_bytes fits p q
          (record { pieces = w; carries = f; writable = v.writable }) in
      (d, rw (e, read_request) g, u, o)
