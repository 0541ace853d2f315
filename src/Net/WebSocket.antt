-- ===== src/Net/WebSocket.antt =====
-- The writing half of `WSClient` of src/net.py: messages, their masks, and `sendall`. The random
-- masks are a parameter, and the network decides which writes raise an error.
pub mod Unmask
pub mod Writes
pub mod Pump
pub mod Coalesce
pub mod RoundTrip
pub mod Upgrade
use Prim.Native.Nat.{bit_xor}
use gpti84_plus.Base.{
  ℕ, zero, suc, ◌+◌, ◌/◌, ◌%◌, ◌^◌, List, [], ◌∷◌, ◌++◌, Option, none, some, Bool, true, false, ltb,
  if◌then◌else◌, length, get_or, take, drop,
}
use gpti84_plus.Base.Bytes.{Bytes}
use gpti84_plus.Net.Stream.{Answer}
use gpti84_plus.Net.Framing.{from_be32}

-- The socket below the client: the answers of the reads to come, which of the writes to come raise
-- an error (behind the end none does), what was written, and the number of masks drawn.
pub record Wire : Type 0 where
  pub answers : List Answer
  pub raises : List Bool
  pub written : List Bytes
  pub drawn : ℕ

pub data FrameState : Type 0 where
  hdr2 ext16 ext64 body_state : FrameState

pub record Client : Type 0 where
  pub wire : Wire
  pub send_buf : Bytes
  pub recv_buf : Bytes
  pub prepend : Bytes
  pub frame_state : FrameState
  pub frame_partial : Bytes
  pub b1 : ℕ
  pub n : ℕ
  pub frame_body : Bytes
  pub closed : Bool

abbrev write_answer : List Bool → Bytes → Wire → Bool × Wire
write_answer [] bs w = (true, record w { written = w.written ++ (bs ∷ []) })
write_answer (false ∷ rs) bs w = (true, record w { raises = rs; written = w.written ++ (bs ∷ []) })
write_answer (true ∷ rs) bs w = (false, record w { raises = rs })

-- `self.sock.write(bs)`; `false` is an `OSError`.
pub write : Bytes → Wire → Bool × Wire
write bs w = write_answer w.raises bs w

-- FIN, the opcode, MASK and the length. `0x80 | x` is a sum, since the bit is not set in `x`.
unfoldable pub message_header : ℕ → ℕ → Bytes
message_header opcode n =
    if ltb n 126
    then (0x80 + opcode % 16) ∷ (0x80 + n) ∷ []
    else if ltb n 65536
    then (0x80 + opcode % 16) ∷ 0xFE ∷ n / 256 % 256 ∷ n % 256 ∷ []
    else (0x80 + opcode % 16)
      ∷ 0xFF
      ∷ n / 2 ^ 56 % 256
      ∷ n / 2 ^ 48 % 256
      ∷ n / 2 ^ 40 % 256
      ∷ n / 2 ^ 32 % 256
      ∷ n / 2 ^ 24 % 256
      ∷ n / 2 ^ 16 % 256
      ∷ n / 2 ^ 8 % 256
      ∷ n % 256
      ∷ []

-- `payload[i] ^ mask[i & 3]`, from the position `i` on
unfoldable pub apply_mask : Bytes → ℕ → Bytes → Bytes
apply_mask mask i [] = []
apply_mask mask i (c ∷ cs) = bit_xor c (get_or mask (i % 4) 0) ∷ apply_mask mask (suc i) cs

-- The action behind a write that did not raise.
abbrev and_then : (Wire → Bool × Wire) → Bool × Wire → Bool × Wire
and_then f (true, w) = f w
and_then f (false, w) = (false, w)

abbrev write_body : Bytes → Wire → Bool × Wire
write_body [] w = (true, w)
write_body (c ∷ cs) w = write (c ∷ cs) w

module _ (masks : ℕ → Bytes) where
  pub send_message : Bytes → ℕ → Wire → Bool × Wire
  unfolding write
  send_message payload opcode w =
      let mask = masks w.drawn in
      and_then (write_body (apply_mask mask 0 payload))
        (write (message_header opcode (length payload) ++ mask) (record w { drawn = suc w.drawn }))

  abbrev with_wire : (Client → Bool × Client) → Client → Bool × Wire → Bool × Client
  with_wire f c (true, w) = f (record c { wire = w })
  with_wire f c (false, w) = (false, record c { wire = w })

  -- The loop of `sendall`. A round takes four bytes at least, so the length of the buffer is enough.
  pub drain : ℕ → Client → Bool × Client
  unfolding send_message
  drain zero c = (true, c)
  drain (suc f) c =
      let total = 4 + from_be32 c.send_buf in
      let rest =
        with_wire (drain f) (record c { send_buf = drop total c.send_buf })
          (send_message (take total c.send_buf) 0x2 c.wire) in
      if ltb (length c.send_buf) 4
      then (true, c)
      else if ltb (length c.send_buf) total
      then (true, c)
      else rest

  pub sendall : Bytes → Client → Bool × Client
  unfolding drain
  sendall bs c =
      let c' : Client = record c { send_buf = c.send_buf ++ bs } in
      if c.closed then (false, c) else drain (length c'.send_buf) c'
