-- ===== src/Net/WebSocket/Upgrade.antt =====
-- `WSClient._do_handshake` of src/net.py: the request, and the reading of the response byte by byte.
-- The key is drawn by the caller, and the deadline is the number of rounds that it allows.
pub mod Delivery
mod Tests
use gpti84_plus.Base.{
  ℕ, zero, suc, ◌+◌, List, [], ◌∷◌, ◌++◌, Option, none, some, Bool, true, false, ltb, if◌then◌else◌,
  length, take, drop,
}
use gpti84_plus.Base.Bytes.{Bytes, codes, same_bytes}
use gpti84_plus.Base.Text.Find.{find_text}
use gpti84_plus.Net.Stream.{Answer, chunk, nothing, os_error}
use gpti84_plus.Net.WebSocket.{Wire, hdr2, Client}

abbrev pub crlf : Bytes
crlf = 13 ∷ 10 ∷ []

-- The end of a header.
abbrev pub blank_line : Bytes
blank_line = 13 ∷ 10 ∷ 13 ∷ 10 ∷ []

-- `if client_id: lines.append(...)`
abbrev credential : Bytes → Option Bytes → Bytes
credential name none = []
credential name (some []) = []
credential name (some (c ∷ cs)) = crlf ++ name ++ (c ∷ cs)

pub request : Bytes → Bytes → Bytes → Option Bytes → Option Bytes → Bytes
request key host path client_id client_secret =
    codes "GET "
    ++ path
    ++ codes " HTTP/1.1"
    ++ crlf
    ++ codes "Host: "
    ++ host
    ++ crlf
    ++ codes "Upgrade: websocket"
    ++ crlf
    ++ codes "Connection: Upgrade"
    ++ crlf
    ++ codes "Sec-WebSocket-Key: "
    ++ key
    ++ crlf
    ++ codes "Sec-WebSocket-Version: 13"
    ++ credential (codes "CF-Access-Client-Id: ") client_id
    ++ credential (codes "CF-Access-Client-Secret: ") client_secret
    ++ blank_line

-- `sock.read(1)`: a byte, `None`, the end of the stream, or an error; with what stays in the socket.
pub data One : Type 0 where
  byte : ℕ → List Answer → One
  later eof : List Answer → One
  broken : One

abbrev pub read_one : List Answer → One
read_one [] = later []
read_one (nothing ∷ ans) = later ans
read_one (os_error e ∷ ans) = broken
read_one (chunk [] ∷ ans) = eof ans
read_one (chunk (c ∷ []) ∷ ans) = byte c ans
read_one (chunk (c ∷ d ∷ cs) ∷ ans) = byte c (chunk (d ∷ cs) ∷ ans)

-- What was read when the header is whole, or the `OSError` that is raised.
pub data Head : Type 0 where
  whole : Bytes → List Answer → Head
  timeout peer_closed too_large raised : Head

abbrev pub has_end : Bytes → Bool
has_end buf = is_some (find_text blank_line buf)
  where
    is_some : Option ℕ → Bool
    is_some none = false
    is_some (some k) = true

abbrev pub extended : (Bytes → List Answer → Head) → Bytes → One → Head
extended more buf (byte c ans) =
    let rest = more (buf ++ (c ∷ [])) ans in
    if ltb 4096 (length (buf ++ (c ∷ []))) then too_large else rest
extended more buf (later ans) = more buf ans
extended more buf (eof ans) = peer_closed
extended more buf broken = raised

-- `while b"\r\n\r\n" not in buf:`
pub read_head : ℕ → Bytes → List Answer → Head
unfolding find_text
read_head zero buf ans = if has_end buf then whole buf ans else timeout
read_head (suc r) buf ans =
    let rest = extended (λ b a. read_head r b a) buf (read_one ans) in
    if has_end buf then whole buf ans else rest

abbrev pub up_to : Option ℕ → Bytes → Bytes
up_to none text = text
up_to (some k) text = take k text

-- What stands between the first space and the next.
abbrev pub second_word : Option ℕ → Bytes → Option Bytes
second_word none line = none
second_word (some k) line =
    let rest = drop (suc k) line in some (up_to (find_text (codes " ") rest) rest)

abbrev pub is_101 : Option Bytes → Bool
is_101 none = false
is_101 (some word) = same_bytes word (codes "101")

-- The status line has `101` as its second word.
pub is_switching : Bytes → Bool
unfolding find_text
is_switching head =
    let status_line = up_to (find_text crlf head) head in
    is_101 (second_word (find_text (codes " ") status_line) status_line)

-- The bytes behind the header, or the `OSError`.
pub data Upgraded : Type 0 where
  leftover : Bytes → List Answer → Upgraded
  failed : Head → Upgraded
  bad_status : Bytes → Upgraded

-- The buffer holds the end of the header here.
abbrev pub split_head : Option ℕ → Bytes → List Answer → Upgraded
split_head none buf ans = failed raised
split_head (some end) buf ans =
    if is_switching (take end buf)
    then leftover (drop (end + 4) buf) ans
    else bad_status (take 200 (take end buf))

abbrev pub with_head : Head → Upgraded
with_head (whole buf ans) = split_head (find_text blank_line buf) buf ans
with_head timeout = failed timeout
with_head peer_closed = failed peer_closed
with_head too_large = failed too_large
with_head raised = failed raised

-- The answers behind the request, up to the frames.
pub do_handshake : ℕ → List Answer → Upgraded
unfolding read_head is_switching
do_handshake rounds ans = with_head (read_head rounds [] ans)

-- The client of a connection, with the request that was written; `raises` are the errors of the
-- writes to come.
abbrev pub new_client : List Bool → Bytes → Bytes → List Answer → Client
new_client raises sent rest ans = record {
  wire = record { answers = ans; raises = raises; written = sent ∷ []; drawn = 0 };
  send_buf = [];
  recv_buf = [];
  prepend = rest;
  frame_state = hdr2;
  frame_partial = [];
  b1 = 0;
  n = 0;
  frame_body = [];
  closed = false;
}

abbrev pub connected : List Bool → Bytes → Upgraded → Option Client
connected raises sent (leftover rest ans) = some (new_client raises sent rest ans)
connected raises sent (failed why) = none
connected raises sent (bad_status head) = none

-- `connect`, from the upgrade on.
pub connect :
    List Bool
    → ℕ
    → Bytes
    → Bytes
    → Bytes
    → Option Bytes
    → Option Bytes
    → List Answer
    → Option Client
unfolding request do_handshake
connect raises rounds key host path client_id client_secret ans =
    connected raises (request key host path client_id client_secret) (do_handshake rounds ans)
