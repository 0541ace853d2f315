-- ===== src/WsBridge.antt =====
-- tools/ws_bridge.py: one connection between a WebSocket and the relay's TCP socket, and the events
-- that it reports. The two directions run in one thread and hand over at their waits, so that a
-- turn of the one or of the other is a step. The websockets library decides which messages come and
-- which sends raise.
pub mod Turns
pub mod EchoTrip
pub mod Reports
pub mod Preview
mod Tests
use gpti84_plus.Base.{
  ℕ, ◌/◌, ◌%◌, ◌+◌, ◌-◌, List, [], ◌∷◌, ◌++◌, Option, none, some, Bool, true, false, ◌&&◌, ltb, leb,
  if◌then◌else◌, length, take, drop, map,
}
use gpti84_plus.Base.Bytes.{Bytes, codes}
use gpti84_plus.Base.Text.{decimal}
use gpti84_plus.Net.Stream.{Answer, Fill, filled, starved, ended, failed, fill}
use gpti84_plus.Net.Framing.{from_be32}
use gpti84_plus.Console.{Field, null, value, Body}

abbrev pub preview_bytes : ℕ
preview_bytes = 64

abbrev pub hex_digit : ℕ → ℕ
hex_digit d = if ltb d 10 then b'0' + d else b'a' + d - 10

-- `binascii.hexlify`
pub hexlify : Bytes → Bytes
hexlify [] = []
hexlify (b ∷ bs) = hex_digit (b / 16) ∷ hex_digit (b % 16) ∷ hexlify bs

abbrev pub shown : ℕ → ℕ
shown b = if leb 0x20 b && ltb b 0x7F then b else b'.'

pub preview : Bytes → Bytes × Bytes
unfolding hexlify
preview bytes =
    let snippet = take preview_bytes bytes in
    let dots = if ltb preview_bytes (length bytes) then codes "..." else [] in
    (hexlify snippet ++ dots, map shown snippet ++ dots)

-- The arguments of an `emit`.
pub record Emit : Type 0 where
  pub direction : Bytes
  pub size : ℕ
  pub data_bytes : Option Bytes
  pub note : Option Bytes

abbrev pub previewed : Option Bytes → Option Bytes → Bytes × Bytes
previewed (some d) _ = preview d
previewed none (some n) = ([], n)
previewed none none = ([], [])

abbrev pub nullable : Option Bytes → Field Bytes
nullable none = null
nullable (some n) = value n

-- What is posted at a time.
unfoldable pub payload : Bytes → ℕ → Emit → Body
unfolding preview
payload conn_id now e =
    let texts = previewed e.data_bytes e.note in
    record {
      ts_ms = value now;
      direction = value e.direction;
      size = value e.size;
      preview_hex = value texts.0;
      preview_ascii = value texts.1;
      conn_id = value conn_id;
      note = nullable e.note;
    }

-- A frame with its header and without, or why there is none.
pub data Read : Type 0 where
  frame : Bytes → Bytes → List Answer → Read
  incomplete waits broken : Read

abbrev pub body_read : Bytes → Fill → Read
body_read hdr (filled body ans) = frame (hdr ++ body) body ans
body_read hdr (starved body ans) = waits
body_read hdr (ended body ans) = incomplete
body_read hdr (failed body ans) = broken

abbrev pub header_read : Fill → Read
header_read (filled hdr ans) = body_read hdr (fill (from_be32 hdr) [] ans)
header_read (starved hdr ans) = waits
header_read (ended hdr ans) = incomplete
header_read (failed hdr ans) = broken

pub read_frame : List Answer → Read
unfolding fill
read_frame ans = header_read (fill 4 [] ans)

-- The reading loop goes on, has returned, or waits for bytes that do not come.
pub data Loop : Type 0 where
  reading returned waiting : Loop

-- What the relay's socket still answers, what was sent to the WebSocket and written to the socket,
-- the events, the loop over the frames, whether an error has ended the connection, whether the
-- socket was closed, and with which code the WebSocket was.
pub record Session : Type 0 where
  pub answers : List Answer
  pub to_ws : List Bytes
  pub to_tcp : List Bytes
  pub emits : List Emit
  pub loop : Loop
  pub over : Bool
  pub writer_closed : Bool
  pub close_code : Option ℕ

pub data Message : Type 0 where
  text binary : Bytes → Message

abbrev pub emit : Bytes → ℕ → Option Bytes → Option Bytes → Session → Session
emit d n bytes note s = record s {
  emits = s.emits ++ (record { direction = d; size = n; data_bytes = bytes; note = note } ∷ []);
}

-- `msg[4:] if len(msg) >= 4 else msg`
abbrev pub body_of : Bytes → Bytes
body_of msg = if leb 4 (length msg) then drop 4 msg else msg

-- One message of `_ws_to_tcp`; the `drain` may raise.
pub ws_to_tcp : Bool → Message → Session → Session
ws_to_tcp raises (text t) s = s
ws_to_tcp raises (binary msg) s =
    let written = record s { to_tcp = s.to_tcp ++ (msg ∷ []) } in
    if raises
    then record written { over = true }
    else emit (codes "c2s") (length (body_of msg)) (some (body_of msg)) none written

abbrev pub pass_on : Bool → Read → Session → Session
pass_on raises (frame whole body ans) s =
    if raises
    then record s { answers = ans; over = true }
    else emit (codes "s2c") (length body) (some body) none
        (record s { answers = ans; to_ws = s.to_ws ++ (whole ∷ []) })
pass_on raises incomplete s = record s { loop = returned }
pass_on raises waits s = record s { loop = waiting }
pass_on raises broken s = record s { over = true }

abbrev pub read_turn : Bool → Loop → Session → Session
read_turn raises reading s = pass_on raises (read_frame s.answers) s
read_turn raises returned s = s
read_turn raises waiting s = s

-- One round of `_tcp_to_ws`; the `send` may raise.
pub tcp_to_ws : Bool → Session → Session
unfolding read_frame
tcp_to_ws raises s = read_turn raises s.loop s

pub data Turn : Type 0 where
  from_ws : Bool → Message → Turn
  from_tcp : Bool → Turn

abbrev pub turn : Turn → Session → Session
turn (from_ws raises msg) s = ws_to_tcp raises msg s
turn (from_tcp raises) s = tcp_to_ws raises s

-- `asyncio.gather` of the two, up to the first error; what the other one does behind it is left out.
pub gather : List Turn → Session → Session
unfolding ws_to_tcp tcp_to_ws
gather [] s = s
gather (t ∷ ts) s = if s.over then s else gather ts (turn t s)

abbrev pub opening : List Answer → Session
opening ans = record {
  answers = ans;
  to_ws = [];
  to_tcp = [];
  emits = [];
  loop = reading;
  over = false;
  writer_closed = false;
  close_code = none;
}

-- The `finally` block.
abbrev pub hang_up : Session → Session
hang_up s =
    emit (codes "close") 0 none (some (codes "ws closed")) (record s { writer_closed = true })

abbrev pub handle_dialled : Option Bytes → List Turn → Session → Session
handle_dialled (some err) ts s =
    let told = emit (codes "info") 0 none (some (codes "relay dial failed: " ++ err)) s in
    record told { close_code = some 1011 }
handle_dialled none ts s = hang_up (gather ts s)

-- A connection of a peer; `err` is the error of a dial that fails.
pub handle : Bytes → ℕ → Bytes → Option Bytes → List Answer → List Turn → Session
unfolding decimal gather
handle host port path err ans ts =
    let from =
      codes "ws open from " ++ host ++ codes ":" ++ decimal port ++ codes " path=" ++ path in
    handle_dialled err ts (emit (codes "open") 0 none (some from) (opening ans))
