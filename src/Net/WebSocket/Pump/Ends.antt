-- ===== src/Net/WebSocket/Pump/Ends.antt =====
-- The fuel of `recv`: a step takes a byte, or it ends a frame.
use gpti84_plus.Base.{ℕ, zero, suc, ◌≤◌, ◌<◌, ◌≢◌, [], ◌∷◌, Bool, true, false, arith}
use mathlib.Core.Path.{subst}
use gpti84_plus.Base.Bytes.{Bytes}
use gpti84_plus.Net.WebSocket.{Client, FrameState, hdr2, ext16, ext64, body_state}
use gpti84_plus.Net.WebSocket.Pump.{
  progress, no_data, closed_by_peer, raised, Stepped, pump_one_step,
}
use gpti84_plus.Net.WebSocket.Pump.Recv.{
  Received, bytes, not_now, error, out_of_fuel, after_step, unless_data, pump_loop, enough, if_open,
  recv,
}
use gpti84_plus.Net.WebSocket.Pump.Falls.{weight, cost, Falls, pump_one_step-Falls}

module _ (masks : ℕ → Bytes) where
  -- A result that `recv` can have.
  abbrev Ends : Received → Type 0
  Ends (bytes b) = Unit {0}
  Ends not_now = Unit {0}
  Ends error = Unit {0}
  Ends out_of_fuel = ⊥

  Ends-fuel : (r : Received) → Ends r → r ≢ out_of_fuel
  Ends-fuel r e p = subst Ends p e

  unless_data-Ends :
      (n : ℕ) (buf : Bytes) (more : Client → Received × Client) (c : Client)
      → Ends (more c).0
      → Ends (unless_data masks n buf more c).0
  unless_data-Ends n [] more c e = e
  unless_data-Ends n (b ∷ bs) more c e = tt

  after_step-Ends :
      (k : ℕ) (more : Client → Received × Client) (r : Stepped)
      → Falls masks k r
      → ((d : Client) → cost masks d < k → Ends (more d).0)
      → Ends (after_step masks more r).0
  after_step-Ends k more (progress, c) lt h = h c lt
  after_step-Ends k more (no_data, c) t h = tt
  after_step-Ends k more (closed_by_peer, c) t h = tt
  after_step-Ends k more (raised, c) t h = tt

  pump_loop-Ends : (f n : ℕ) (c : Client) → cost masks c < f → Ends (pump_loop masks f n c).0
  unfolding pump_loop
  pump_loop-Ends zero n c lt = absurd (omega arith)
  pump_loop-Ends (suc f) n c lt =
      unless_data-Ends n c.recv_buf
        (λ s. after_step masks (λ t. pump_loop masks f n t) (pump_one_step masks s)) c
        (after_step-Ends (cost masks c) (λ t. pump_loop masks f n t) (pump_one_step masks c)
          (pump_one_step-Falls masks c) (λ d less. pump_loop-Ends f n d (omega arith)))

  weight-le : (s : FrameState) → weight s ≤ 1
  weight-le hdr2 = omega arith
  weight-le ext16 = omega arith
  weight-le ext64 = omega arith
  weight-le body_state = omega arith

  if_open-Ends :
      (b : Bool) (more : Client → Received × Client) (c : Client)
      → Ends (more c).0
      → Ends (if_open masks b more c).0
  if_open-Ends true more c e = tt
  if_open-Ends false more c e = e

  -- In non-blocking mode, `recv` comes to an end whatever the socket answers: its loop runs out of
  -- the bytes that have arrived before it runs out of `enough` steps.
  pub recv-ends : (n : ℕ) (c : Client) → (recv masks n c).0 ≢ out_of_fuel
  unfolding recv
  recv-ends n c = Ends-fuel (recv masks n c).0 (
      unless_data-Ends n c.recv_buf
        (λ s. if_open masks s.closed (λ t. pump_loop masks (enough masks t) n t) s) c
        (if_open-Ends c.closed (λ t. pump_loop masks (enough masks t) n t) c
          (pump_loop-Ends (enough masks c) n c (omega (arith, weight-le c.frame_state)))))
