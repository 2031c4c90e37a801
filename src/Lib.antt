-- ===== src/Lib.antt =====
-- Verification of vless-core-cli, a client for VLESS and related protocols in C.
--
-- The parts that are modelled are the ones that hold the program's own rules: who may hold how much
-- buffer memory, which frames and messages a peer may send, and what the client writes. Bytes are
-- numbers below 256 in lists, `size_t` has 64 bits, and where the source can wrap around the
-- definitions do.
--
-- * BufferBudget (src/buffer_budget.c, include/buffer_budget.h): the static counters, the budgets of
--   the callers and the list of waiters are the record `Ledger`; each function is a function from a
--   ledger to a ledger, and a budget is named by its index in place of its address. Both locks are
--   held for a whole operation or for its notification, so a call is one step. Whether `malloc` and
--   `realloc` give memory is an argument.
-- * Http2 (src/http2.c, include/http2.h): `validate_frame` is `core_http2_validate_frame`, with a
--   function for each case of its `switch`; Http2.Response has `core_http2_response_headers` and
--   `core_http2_response_data`. Http2.Alps has `core_http2_alps_parse`, of which both loops run on the
--   length of the input as fuel: a frame takes nine bytes of it, and a field two.
-- * Vless (src/vless.c, include/vless.h): `build_request` and `consume_response`. The function
--   `inet_pton` is the parameter `Resolver`, of which only the length of an address is assumed.
-- * Hpack (src/hpack.c, include/hpack.h): Hpack has the integers and the dynamic table, whose entries
--   stand newest first, as in the array of the source. Hpack.Huffman has the Huffman code and the
--   strings; a place in the code is a record, and the bits of the input are a list. Hpack.Fields is
--   `emit_header`, a step for each of its parts, and Hpack.Decode is `core_hpack_decode`, a round of its
--   loop as a function. Each round takes a byte, and the length of the block is fuel enough. Memory is
--   an argument: it may be refused at any place of the block, whether it is that of a budget or not.
-- * Grpc (src/grpc.c, include/grpc.h): Grpc has the decoder of messages. A header in part is the list of
--   its bytes, the open groups are a list with the innermost first, and `grpc_reserved`, which all decoders
--   share, is a field of the state; it is changed under its lock, so a change is one step. The loop runs
--   on the length of the input, of which each round takes a byte. Grpc.Media has the content type that
--   Hpack.Fields asks for, Grpc.Trailers the checks of the headers that Hpack.Decode noted, and
--   Grpc.Parameters what a configuration sets.
-- * Cli (src/cli_args.c, include/cli_args.h): the startup arguments. An argument is the list of its bytes,
--   none for a null pointer; the set of the options that were seen is a list of their numbers, and an
--   error is a constructor with the name of its option. The loop runs on the number of arguments.
-- * WebSocket (src/websocket.c, include/websocket.h): the decoder of frames. WebSocket has the check
--   of UTF-8, `frame_header` and `frame_end`; WebSocket.Decode has `core_ws_decode`, a round of its
--   loop as a function, and the loop on fuel. Each round takes a byte, and the length of the input is
--   fuel enough. Where the source says how much it consumed, the model returns what is left. A call that
--   fails keeps what its last round changed: `utf8_stop` and `refused_header` say where the check of
--   text and of a header stop.
-- * Utils (src/utils.c): hexadecimal text, UUIDs, percent escapes and request targets. A C string is
--   the list of its bytes, and the escapes are read by the shape of what is left of the list. The
--   functions of the C library are those of the C locale.
-- * Deadline (src/deadline.c, include/deadline.h): the deadline of a thread, over a clock that each
--   function takes as an argument. The thread key is not modelled.
-- * Trojan (src/trojan.c): the request. The address comes from the same `Resolver` as that of Vless, and
--   the hash of the password, which OpenSSL computes, is an argument.
-- * Vision (src/vision.c, include/vision.h): Vision has the removal of padding, Vision.Tls the reader of
--   TLS hellos, Vision.Tls.Records the messages and records around them (`vision_observe_tls`), and
--   Vision.Wrap the padding. A buffer of the reader with its count is the list of the bytes in use, and
--   the flags of `vision_wrap_t` that an observation changes are a record of their own. The loops run
--   on the length of the input, `read_loop` for all three of the reader; each round takes a byte, which
--   is proved with their invariant. Memory, `strtol` and the random numbers are arguments.
-- * Socks5 (src/socks5.c, include/socks5.h) and Socks5.Upstream (src/socks5_upstream.c): both sides of the
--   handshake. A connection is the list of the pieces that `core_recv` is to give, and what was sent.
--   `read_exact` recurs on the pieces. `inet_pton` is `Resolver`, and `inet_ntop` is `Printer`.
-- * Routing (src/routing.c, include/routing.h): Routing.Parse reads a configuration, and Routing.Decide
--   decides for a connection. Texts are lists of bytes other than 0; `inet_pton` is `Resolver`, and
--   `strtol` on a whole text is an argument. The mask of a prefix is a division by a power of 2.
--
-- The program's other parts are not modelled: the transports, the HTTP/2 pool and the TLS layer, which
-- are threads and sockets over the parts above and OpenSSL; the protocols VMess and Shadowsocks and the
-- encryption of VLESS; the parsing of links, and JSON. Of the files above, these are not: the direct
-- connections and the control socket of the routing, the bounds on the buffers of Vision, the deadlines
-- around SOCKS5 and the texts of its errors, the erasure of freed memory in gRPC, the upgrade response
-- and the configuration of WebSocket, base64 and paths in the utilities, and the nested scopes of
-- deadlines.
pub mod Prelude
pub mod BufferBudget
pub mod Cli
pub mod Deadline
pub mod Grpc
pub mod Hpack
pub mod Http2
pub mod Routing
pub mod Socks5
pub mod Trojan
pub mod Utils
pub mod Vision
pub mod Vless
pub mod WebSocket
pub mod Examples
