-- ===== src/Net/Tests.antt =====
-- The network code at concrete inputs.
use gpti84_plus.Base.{inl, ℕ, ◌≡◌, ◌≢◌, ◌%◌, refl, List, [], ◌∷◌, ◌++◌, false, arith}
use gpti84_plus.Base.Bytes.{Bytes}
use gpti84_plus.Net.Stream.{Answer, chunk, nothing, os_error, bytes_of}
use gpti84_plus.Net.Reader.{new_reader}
use gpti84_plus.Net.Reader.Laws.{taken, new_reader-IsReady}
use gpti84_plus.Net.Reader.Polls.{polls, Splits, polls-Splits}
use gpti84_plus.Net.Reader.Progress.{AllChunks}
use gpti84_plus.Net.WebSocket.{hdr2, Client}
use gpti84_plus.Net.WebSocket.Coalesce.{sound}
use gpti84_plus.Net.WebSocket.Pump.Recv.{bytes, out_of_fuel, recv}
use gpti84_plus.Net.WebSocket.Pump.Within.{idle}
use gpti84_plus.Net.WebSocket.Pump.Controls.{ping, after_controls, recv-after_controls}
use gpti84_plus.Net.WebSocket.Pump.Ends.{recv-ends}

-- Two frames, HI and an empty one, cut up, with a pause in the length and an EAGAIN in the payload.
abbrev pieces : List Answer
pieces =
    chunk (0 ∷ 0 ∷ [])
    ∷ nothing
    ∷ chunk (0 ∷ 2 ∷ b'H' ∷ [])
    ∷ os_error 11
    ∷ chunk (b'I' ∷ 0 ∷ [])
    ∷ chunk (0 ∷ 0 ∷ 0 ∷ [])
    ∷ []

polls-Splits_example :
    Splits
      (taken new_reader ++ bytes_of pieces)
      (polls 4 new_reader pieces).got
      (taken (polls 4 new_reader pieces).reader ++ bytes_of (polls 4 new_reader pieces).left)
polls-Splits_example = polls-Splits 4 new_reader pieces new_reader-IsReady

-- The polls above return both payloads.
pieces_got : (polls 4 new_reader pieces).got ≡ ((b'H' ∷ b'I' ∷ []) ∷ [] ∷ [])
unfolding polls
pieces_got = refl

abbrev no_pauses : List Answer
no_pauses =
    chunk (0 ∷ 0 ∷ []) ∷ chunk (0 ∷ 2 ∷ b'H' ∷ b'I' ∷ 0 ∷ []) ∷ chunk (0 ∷ 0 ∷ 0 ∷ 9 ∷ []) ∷ []

abbrev ramp : ℕ → Bytes
ramp k = k % 256 ∷ 77 ∷ 0 ∷ 255 ∷ []

abbrev hi : Bytes
hi = b'H' ∷ b'I' ∷ []

abbrev client : List Answer → Client
client ans = record {
  wire = sound ans [] 5;
  send_buf = [];
  recv_buf = [];
  prepend = [];
  frame_state = hdr2;
  frame_partial = [];
  b1 = 0;
  n = 0;
  frame_body = [];
  closed = false;
}

-- A ping, and a text that comes in two chunks.
abbrev ping_hi : List Answer
ping_hi = chunk (0x89 ∷ 1 ∷ 7 ∷ 0x81 ∷ 2 ∷ []) ∷ chunk (b'H' ∷ []) ∷ chunk (b'I' ∷ []) ∷ []

recv-ends_example : (recv ramp 4 (client ping_hi)).0 ≢ out_of_fuel
recv-ends_example = recv-ends ramp 4 (client ping_hi)

-- A ping in front of a text, HI, which is cut in its payload, and a byte of the next frame.
abbrev ping_then_hi : List Answer
ping_then_hi = chunk (0x89 ∷ 1 ∷ 7 ∷ 0x81 ∷ []) ∷ chunk (2 ∷ b'H' ∷ []) ∷ chunk (b'I' ∷ 9 ∷ []) ∷ []

recv-after_controls_example :
    (ans : List Answer) × (recv ramp 1 (idle (client []) ping_then_hi []) ≡ (
      bytes (b'H' ∷ []),
      idle (after_controls ramp (client []) (ping (7 ∷ []) ∷ [])) ans (b'I' ∷ []),
    ))
    × (bytes_of ans ≡ 9 ∷ [])
    × AllChunks ans
recv-after_controls_example =
    recv-after_controls ramp (ping (7 ∷ []) ∷ []) (client []) 1 1 hi (9 ∷ []) ping_then_hi refl
      (inl refl) tt refl (omega arith, tt) (omega arith) (omega arith)
