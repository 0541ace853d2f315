-- ===== src/Relay/Server.antt =====
-- `FramedHandler` of tools/relay_server.py, with the active client and the workers that answer. A
-- socket is the list of the answers to its reads, as in Net/Stream; it blocks, so that behind the
-- end of the list the handler waits, and neither `nothing` nor EAGAIN is among them.
pub mod Frames
pub mod Replies
pub mod EchoTrip
pub mod Ends
mod Tests
use gpti84_plus.Base.{
  ℕ, zero, suc, ◌+◌, List, [], ◌∷◌, ◌++◌, Option, none, some, Bool, true, false, not, ◌&&◌, ltb,
  ◌==◌, if◌then◌else◌, length,
}
use gpti84_plus.Base.Bytes.{Bytes, codes}
use gpti84_plus.Net.Stream.{Answer, Fill, filled, starved, ended, failed, fill, bytes_of}
use gpti84_plus.Net.Framing.{from_be32, framed}
use gpti84_plus.Relay.Frame.{encode_replace}

-- How the handler ends: the peer has closed before a header is whole, an oversize frame, a body cut short,
-- an error of the socket. `blocked` is a handler that still waits.
pub data Ended : Type 0 where
  closed oversize short_read broken blocked out_of_fuel : Ended

-- What is shared by the threads: the active client, the workers that have not answered (each with
-- its socket and its payload), which of the `sendall` calls to come raise an error (behind the end
-- none does), and what was sent to which socket.
pub record Server : Type 0 where
  pub active : Option ℕ
  pub workers : List (ℕ × Bytes)
  pub raises : List Bool
  pub out : List (ℕ × Bytes)

abbrev pub send_answer : List Bool → ℕ → Bytes → Server → Server
send_answer [] i bs s = record s { out = s.out ++ ((i, bs) ∷ []) }
send_answer (false ∷ rs) i bs s = record s { raises = rs; out = s.out ++ ((i, bs) ∷ []) }
send_answer (true ∷ rs) i bs s = record s { raises = rs }

-- `sock.sendall(struct.pack(">I", len(reply)) + reply)`, with its `OSError` caught.
unfoldable pub send_reply : ℕ → Bytes → Server → Server
send_reply i reply s = send_answer s.raises i (framed reply) s

unfoldable pub set_active : ℕ → Server → Server
set_active i s = record s { active = some i }

abbrev send_to : Option ℕ → Bytes → Server → Server
send_to none payload s = s
send_to (some i) payload s = send_reply i payload s

-- A line of the standard input.
pub send_to_active : Bytes → Server → Server
unfolding send_reply
send_to_active payload s = send_to s.active payload s

-- `body.decode("ascii")` does not raise.
abbrev pub is_ascii : Bytes → Bool
is_ascii [] = true
is_ascii (c ∷ cs) = ltb c 0x80 && is_ascii cs

-- A frame, or the end of the handler; with what the socket still answers.
pub data ReadFrame : Type 0 where
  frame : Bytes → List Answer → ReadFrame
  stop : Ended → ReadFrame

abbrev pub body_of : Fill → ReadFrame
body_of (filled body ans) = frame body ans
body_of (starved body ans) = stop blocked
body_of (ended body ans) = stop short_read
body_of (failed body ans) = stop broken

abbrev pub header_of : Fill → ReadFrame
header_of (filled hdr ans) =
    if ltb 1048576 (from_be32 hdr) then stop oversize else body_of (fill (from_be32 hdr) [] ans)
header_of (starved hdr ans) = stop blocked
header_of (ended hdr ans) = stop closed
header_of (failed hdr ans) = stop broken

-- The two `_read_exact` calls, with the size limit between them.
unfoldable pub read_frame : List Answer → ReadFrame
unfolding fill
read_frame ans = header_of (fill 4 [] ans)

module _ (echo_mode llm_mode : Bool) where
  -- What a frame is answered with.
  unfoldable pub on_body : ℕ → Bytes → Server → Server
  unfolding send_reply encode_replace
  on_body i body s =
      if echo_mode && is_ascii body
      then send_reply i (encode_replace (codes "echo: " ++ body)) s
      else if llm_mode && is_ascii body
      then record s { workers = s.workers ++ ((i, body) ∷ []) }
      else s

  abbrev pub after_frame :
      (Server → List Answer → Ended × Server) → ℕ → Server → ReadFrame → Ended × Server
  after_frame more i s (frame body ans) = more (on_body i body s) ans
  after_frame more i s (stop e) = (e, s)

  -- `while True:` of `handle`.
  unfoldable pub serve : ℕ → ℕ → Server → List Answer → Ended × Server
  unfolding read_frame on_body
  serve zero i s ans = (out_of_fuel, s)
  serve (suc f) i s ans = after_frame (λ t rest. serve f i t rest) i s (read_frame ans)

  abbrev leave_active : Option ℕ → ℕ → Server → Server
  leave_active none i s = s
  leave_active (some j) i s = if j == i then record s { active = none } else s

  -- The `finally` block, which a handler that still waits has not reached.
  abbrev pub leave : ℕ → Ended × Server → Ended × Server
  leave i (blocked, s) = (blocked, s)
  leave i (out_of_fuel, s) = (out_of_fuel, s)
  leave i (e, s) = (e, leave_active s.active i s)

  -- The handler of the connection `i`. A frame takes four bytes at least, so the bytes to come and
  -- one are enough rounds.
  unfoldable pub handle : ℕ → Server → List Answer → Ended × Server
  unfolding serve set_active
  handle i s ans = leave i (serve (suc (length (bytes_of ans))) i (set_active i s) ans)

abbrev pub keep_worker :
    ℕ × Bytes → Option ((ℕ × Bytes) × List (ℕ × Bytes)) → Option ((ℕ × Bytes) × List (ℕ × Bytes))
keep_worker w none = none
keep_worker w (some (v, ws)) = some (v, w ∷ ws)

-- The worker that ends next, with the workers that stay.
abbrev pub take_worker : ℕ → List (ℕ × Bytes) → Option ((ℕ × Bytes) × List (ℕ × Bytes))
take_worker n [] = none
take_worker zero (w ∷ ws) = some (w, ws)
take_worker (suc n) (w ∷ ws) = keep_worker w (take_worker n ws)

module _ (reply_pages : Bytes → Bytes) where
  abbrev pub answered : Server → Option ((ℕ × Bytes) × List (ℕ × Bytes)) → Server
  answered s none = s
  answered s (some ((i, payload), ws)) =
      send_reply i (reply_pages payload) (record s { workers = ws })

  -- A worker thread ends: its reply is sent. Workers end in any order.
  unfoldable pub run_worker : ℕ → Server → Server
  unfolding send_reply
  run_worker n s = answered s (take_worker n s.workers)
