-- ===== src/Lib.antt =====
-- GPTi84-Plus: a Pico that speaks the TI link protocol to a calculator, bridges its string
-- variables to a desktop over TCP, and pages the reply of a language model back to it.
--
-- The way of a question: the calculator sends Str1 and Str2; src/transfer.py receives them packet
-- by packet over src/packet.py and src/wire.py; src/bridge.py decodes their tokens
-- (src/tokens.py), pairs them and sends one frame; tools/relay_server.py parses the frame, asks
-- the model, lays the reply out as pages of 16 by 7 characters and frames them; src/bridge.py
-- splits the frame and pushes every page and then their number to the calculator. The frames go
-- over TCP, or over a WebSocket that tools/ws_bridge.py passes on to the relay and reports to
-- tools/console.py.
--
-- The files:
-- - Base and its children hold what all parts share: Boolean tests and measured lists over the
--   native numbers, bytes, texts with Python's rstrip, split, join and str.
-- - Link is the link as the Pico sees it: the answers of the bit-level calls still to come and the
--   bits sent, with the actions on it. An action answers `none` where the source returns None or
--   False.
-- - Wire (src/wire.py): recv_byte and send_byte over recv_bit and send_bit, which are answers of
--   the environment there. Wire/Lines is what lies below: send_bit and recv_bit as state machines
--   on the two open-collector lines, a step for each access of a pin; Wire/Lines/Handshake is
--   about both of them together, in any order of their steps, and Wire/Lines/Exchange about one
--   bit after the other, as send_byte and recv_byte run them.
-- - Command and Packet (src/packet.py): the command bytes, checksum, packet_bytes, send_packet and
--   recv_packet.
-- - VarTypes (src/vartypes.py): names, headers and the encoding of numbers, with VarTypes/Real for
--   the texts of numbers; a ValueError is `none`.
-- - Transfer (src/transfer.py): recv_var, send_var, delete_var, req_var and _respond_to_req as
--   actions on the link; Transfer/Listen is listen_loop, Transfer/Shortcuts the functions at the
--   end of the file.
-- - Tokens (src/tokens.py): the tables, tokens_to_ascii, ascii_to_tokens and
--   ascii_to_tokens_lossy.
-- - Bridge (src/bridge.py): the two frames, Bridge/Pair with the pair buffer and on_var,
--   Bridge/Push with the push of a reply, Bridge/Retry with the retries of the connects,
--   Bridge/Supervisor with the loop of run, whose turn puts listen_loop, the pair buffer, the
--   FrameReader and the push together.
-- - Relay (tools/relay_server.py): Relay/Wrap is _ascii_clamp and _rewrap_line, Relay/Layout is
--   _layout_pages, Relay/Frame is _parse_pair and _llm_reply_pages with the model call as a
--   parameter, Relay/Model the pages that are taken from its answer, Relay/Server is FramedHandler
--   with the state that its threads share.
-- - Diag (src/diag.py): ready_check and probe_rts_reply as actions on the link, over Wire/Reads,
--   the loops that return what they have got.
-- - Net (src/net.py): Net/Stream is a socket as the list of the answers to the reads to come, with
--   the loop that tops up a buffer; Net/Framing the length-prefixed frames, Net/Reader the
--   FrameReader, Net/WebSocket the writing half of WSClient, Net/WebSocket/Pump its parser, recv
--   and close, and Net/WebSocket/Upgrade the request and the response of the handshake.
-- - WsBridge (tools/ws_bridge.py): one connection between a WebSocket and the relay's socket,
--   WsBridge/Turns both directions in any order, WsBridge/EchoTrip the bridge with the relay
--   behind it, WsBridge/Reports its events at the console, WsBridge/Preview their texts.
-- - Console (tools/console.py): the store, ingest and the pages; Console/Queues the queues by
--   their numbers, Console/Streams the requests one after the other, with Console/Streams/Delivery
--   about what a stream sees and Console/Pages about a client that pages.
-- - Bastok (tools/bastok.py): the keyword table and tokenize.
-- - Container (tools/bastok.py, tools/extract_8xp.py): make_8xp and parse_8xp.
-- - E2e (tools/build_e2e.py): which script main writes, and what the scripts do; E2e/Compare is
--   the comparison at the end of the round trip, E2e/File a program file on its whole way, and
--   E2e/Serve the server of reqtest.
-- - Chat puts the parts together: Chat/Sizes has the sizes of the frames, Chat/Trip the way from
--   the pair buffer over the relay to the pushes, and Chat/Turn one whole turn of the supervisor.
--
-- State: the link of the DBUS actions, the pair buffer with the socket and the frames sent, and
-- the caller's state of listen_loop. Characters are their codes. The calculator is the list of
-- answers on the link, a socket the list of answers to its reads and writes, and the network
-- decides which sends raise an OSError. The table of the console is the list of its rows, and its
-- SQL is what the statements say; an await that does not wait is no step.
--
-- Fuel: listen_loop runs on fuel; more fuel than the link has answers to come is enough when a
-- timeout is set. The loop over the slices of a word takes at least one character a round, so the
-- length of the word is enough; each round of tokenize takes a character of the source at least,
-- so its length is enough. The loop of sendall takes four bytes of its buffer a round, so the
-- length of the buffer is enough. A step of the WebSocket parser after which it goes on takes a
-- byte or ends a frame whose body it awaited, so twice the bytes to come and three are enough. A
-- round of the relay's handler takes the four bytes of a length at least, so the bytes to come and
-- one are enough, and the same holds of the frames that a turn of the supervisor pushes; its
-- listen_loop gets the answers to come and one. The handshake of the WebSocket runs for the rounds
-- that its deadline allows, and a theorem about it asks for as many as the header has bytes.
--
-- Not modelled: log output, pauses and the clock (a timeout is an answer `none` of the link),
-- Ctrl-C, the LED, Wi-Fi, TLS and the blocking recv of src/net.py, the relay's accepting socket
-- and its standard input, the HTTP call of the model, a handler whose reads are interleaved with
-- those of another connection, the HTML page of the console, the text of the scripts that the
-- build writes, and the programs that run on the calculator. encode_real is modelled for natural
-- numbers below 10^14.
pub mod Base
pub mod Bastok
pub mod Bridge
pub mod Chat
pub mod Command
pub mod Console
pub mod Container
pub mod Diag
pub mod E2e
pub mod Link
pub mod Net
pub mod Packet
pub mod Relay
pub mod Tokens
pub mod Transfer
pub mod VarTypes
pub mod Wire
pub mod WsBridge
