-- ===== src/Relay/Server/Ends.antt =====
-- The rounds of `handle` of the relay: a frame takes four bytes at least.
use gpti84_plus.Base.{
  ℕ, zero, suc, ◌+◌, ◌≤◌, ◌<◌, ◌≢◌, List, [], Bool, ltb, length, Bool-cases, inl, inr, arith,
}
use mathlib.Core.Path.{subst}
use gpti84_plus.Net.Stream.{Answer, Fill, filled, starved, ended, failed, fill, bytes_of}
use gpti84_plus.Net.Framing.{from_be32}
use gpti84_plus.Net.WebSocket.Pump.Takes.{TakesFill, fill-TakesFill}
use gpti84_plus.Relay.Server.{
  Ended, closed, oversize, short_read, broken, blocked, out_of_fuel, Server, ReadFrame, frame, stop,
  body_of, header_of, read_frame, set_active, on_body, after_frame, serve, leave, handle,
}

-- A result that the handler can have.
abbrev Ends : Ended → Type 0
Ends out_of_fuel = ⊥
Ends e = Unit {0}

-- A frame leaves fewer bytes than `n`.
abbrev Shrinks : ℕ → ReadFrame → Type 0
Shrinks n (frame body ans) = length (bytes_of ans) < n
Shrinks n (stop e) = Ends e

body_of-Shrinks :
    (n want total : ℕ) (s : Fill) → TakesFill want total s → total < n → Shrinks n (body_of s)
body_of-Shrinks n want total (filled b ans) (le, e) lt = omega arith
body_of-Shrinks n want total (starved b ans) t lt = tt
body_of-Shrinks n want total (ended b ans) t lt = tt
body_of-Shrinks n want total (failed b ans) t lt = tt

header_of-Shrinks :
    (n total : ℕ) (s : Fill) → TakesFill 4 total s → total ≤ n → Shrinks n (header_of s)
header_of-Shrinks n total (filled b ans) (le, e) fits =
    elim (Bool-cases (ltb 1048576 (from_be32 b))) [
      | inl t ↦ rw t tt
      | inr t ↦ rw t (
          body_of-Shrinks n (from_be32 b) (0 + length (bytes_of ans)) (fill (from_be32 b) [] ans)
            (fill-TakesFill (from_be32 b) [] ans) (omega arith))
    ]
header_of-Shrinks n total (starved b ans) t fits = tt
header_of-Shrinks n total (ended b ans) t fits = tt
header_of-Shrinks n total (failed b ans) t fits = tt

read_frame-Shrinks : (ans : List Answer) → Shrinks (length (bytes_of ans)) (read_frame ans)
unfolding read_frame
read_frame-Shrinks ans =
    header_of-Shrinks (length (bytes_of ans)) (0 + length (bytes_of ans)) (fill 4 [] ans)
      (fill-TakesFill 4 [] ans) (omega arith)

module _ (echo_mode llm_mode : Bool) (i : ℕ) where
  after_frame-Ends :
      (n : ℕ) (more : Server → List Answer → Ended × Server) (s : Server) (r : ReadFrame)
      → Shrinks n r
      → ((t : Server) (rest : List Answer) → length (bytes_of rest) < n → Ends (more t rest).0)
      → Ends (after_frame echo_mode llm_mode more i s r).0
  after_frame-Ends n more s (frame body ans) lt h = h (on_body echo_mode llm_mode i body s) ans lt
  after_frame-Ends n more s (stop e) t h = t

  serve-Ends :
      (f : ℕ) (s : Server) (ans : List Answer)
      → length (bytes_of ans) < f
      → Ends (serve echo_mode llm_mode f i s ans).0
  unfolding serve
  serve-Ends zero s ans lt = absurd (omega arith)
  serve-Ends (suc f) s ans lt =
      after_frame-Ends (length (bytes_of ans)) (λ t rest. serve echo_mode llm_mode f i t rest) s
        (read_frame ans) (read_frame-Shrinks ans) (λ t rest less. serve-Ends f t rest (omega arith))

  leave-Ends : (r : Ended × Server) → Ends r.0 → Ends (leave echo_mode llm_mode i r).0
  leave-Ends (blocked, s) e = tt
  leave-Ends (out_of_fuel, s) e = e
  leave-Ends (closed, s) e = tt
  leave-Ends (oversize, s) e = tt
  leave-Ends (short_read, s) e = tt
  leave-Ends (broken, s) e = tt

  -- The handler of a connection never runs out of rounds, whatever the socket answers: it ends, or it
  -- waits for bytes that have not come.
  pub handle-ends :
      (s : Server) (ans : List Answer) → (handle echo_mode llm_mode i s ans).0 ≢ out_of_fuel
  unfolding handle
  handle-ends s ans p = subst Ends p (
      leave-Ends (serve echo_mode llm_mode (suc (length (bytes_of ans))) i (set_active i s) ans)
        (serve-Ends (suc (length (bytes_of ans))) (set_active i s) ans (omega arith)))
