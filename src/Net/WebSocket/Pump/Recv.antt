-- ===== src/Net/WebSocket/Pump/Recv.antt =====
-- `recv` of a `WSClient` in non-blocking mode, and `close`. In blocking mode `recv` waits without a
-- limit, and is not modelled.
use gpti84_plus.Base.{
  ℕ, zero, suc, ◌+◌, ◌*◌, [], ◌∷◌, Bool, true, false, if◌then◌else◌, length, take, drop,
}
use gpti84_plus.Base.Bytes.{Bytes}
use gpti84_plus.Net.Stream.{bytes_of}
use gpti84_plus.Net.WebSocket.{Client, send_message}
use gpti84_plus.Net.WebSocket.Pump.{
  progress, no_data, closed_by_peer, raised, Stepped, pump_one_step,
}

-- The bytes (none of them is the end of the stream), `None`, or an error.
pub data Received : Type 0 where
  bytes : Bytes → Received
  not_now : Received
  error : Received
  out_of_fuel : Received

abbrev hand_out : ℕ → Client → Received × Client
hand_out n c = (bytes (take n c.recv_buf), record c { recv_buf = drop n c.recv_buf })

module _ (masks : ℕ → Bytes) where
  abbrev pub after_step : (Client → Received × Client) → Stepped → Received × Client
  after_step more (progress, c) = more c
  after_step more (no_data, c) = (not_now, c)
  after_step more (closed_by_peer, c) = (bytes [], c)
  after_step more (raised, c) = (error, c)

  abbrev pub unless_data : ℕ → Bytes → (Client → Received × Client) → Client → Received × Client
  unless_data n [] more c = more c
  unless_data n (b ∷ bs) more c = hand_out n c

  -- `while not self._recv_buf: r = self._pump_one_step(); ...`
  unfoldable pub pump_loop : ℕ → ℕ → Client → Received × Client
  pump_loop zero n c = (out_of_fuel, c)
  pump_loop (suc f) n c =
      unless_data n c.recv_buf (λ s. after_step (λ t. pump_loop f n t) (pump_one_step masks s)) c

  -- The bytes that the parser can still take.
  abbrev pub available : Client → ℕ
  available c = length c.frame_partial + (length c.prepend + length (bytes_of c.wire.answers))

  -- A step takes a byte, or it ends a frame.
  abbrev pub enough : Client → ℕ
  enough c = 2 * available c + 3

  abbrev pub if_open : Bool → (Client → Received × Client) → Client → Received × Client
  if_open true more c = (bytes [], c)
  if_open false more c = more c

  unfoldable pub recv : ℕ → Client → Received × Client
  unfolding pump_loop
  recv n c = unless_data n c.recv_buf (λ s. if_open s.closed (λ t. pump_loop (enough t) n t) s) c

  -- What `close` does before it closes the socket itself.
  pub close : Client → Client
  unfolding send_message
  close c =
      if c.closed
      then c
      else record c { wire = (send_message masks [] 0x8 c.wire).1; closed = true }
