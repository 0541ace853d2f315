-- ===== src/Transfer/Listen/Ends.antt =====
-- The end of `listen_loop`.
use gpti84_plus.Base.{
  ℕ, zero, suc, ◌≤◌, ◌<◌, ◌≡◌, ◌≢◌, refl, Option, none, some, Bool, true, false, not, ◌==◌, ltb,
  if◌then◌else◌, length, Bool-cases, inl, inr, arith,
}
use gpti84_plus.Base.Bytes.{Bytes}
use gpti84_plus.Command
use gpti84_plus.Link.{Link}
use gpti84_plus.Link.Waiting.{waiting}
use gpti84_plus.Packet.{Packet, recv_packet}
use gpti84_plus.Packet.Waiting.{send_packet-Takes, recv_packet-waiting_lt}
use gpti84_plus.Transfer.{is_opener, finish_recv_after_first_pkt, header_type, header_name}
use gpti84_plus.Transfer.Waiting.{finish_recv-Takes, respond_to_req-Takes}
use gpti84_plus.Transfer.Listen.{
  Config, After, again, idle, raised, Ending, out_of_fuel, type_passes, name_passes, call_on_var,
  deliver, acknowledge, is_filtered_req, answer_req, handle_other, handle_req, handle_packet, round,
  listen_round, listen_next, listen_loop,
}

module _ {S : Type 0} (c : Config S) where
  deliver-waiting :
      (s : S) (r : Option (Bytes × Bytes) × Link) → waiting (deliver c s r).1 ≤ waiting r.1
  unfolding deliver call_on_var
  deliver-waiting s (none, l) = omega arith
  deliver-waiting s (some (hdr, bs), l) = elim (Bool-cases (ltb (length hdr) 11)) [
    | inl e ↦ rw e (omega arith)
    | inr e ↦ rw e (
        passed (type_passes c.expected_type (header_type hdr))
          (name_passes c.name8 (header_name hdr)))
  ]
    where
      called :
          (o : Option (ℕ → Bytes → Bytes → Bytes → S → Bool × S))
          → waiting (call_on_var o hdr bs l s).1 ≤ waiting l
      called none = omega arith
      called (some f) = omega arith

      passed :
          (t n : Bool)
          → waiting
              (if not t
                then (again, l, s)
                else if not n
                then (again, l, s)
                else call_on_var c.on_var hdr bs l s).1
            ≤ waiting l
      passed false n = omega arith
      passed true false = omega arith
      passed true true = called c.on_var

  acknowledge-waiting : (p : Packet) (l : Link) (s : S) → waiting (acknowledge p l s).1 ≤ waiting l
  unfolding acknowledge
  acknowledge-waiting p l s = send_packet-Takes _ _ _ l

  answer_req-waiting :
      (on_req : ℕ → Bytes → Option Bytes) (p : Packet) (l : Link) (s : S)
      → waiting (answer_req c on_req p l s).1 ≤ waiting l
  unfolding answer_req
  answer_req-waiting on_req p l s = elim (Bool-cases (is_filtered_req c p.body)) [
    | inl e ↦ rw e (send_packet-Takes _ _ _ l)
    | inr e ↦ rw e (respond_to_req-Takes p.machine p.body on_req l)
  ]

  handle_other-waiting :
      (p : Packet) (l : Link) (s : S) → waiting (handle_other c p l s).1 ≤ waiting l
  unfolding handle_other
  handle_other-waiting p l s = elim (Bool-cases (is_opener p.cmd)) [
    | inl e ↦
        rw e (
          omega (arith, deliver-waiting s (finish_recv_after_first_pkt p l), finish_recv-Takes p l))
    | inr e ↦ rw e (acknowledge-waiting p l s)
  ]

  handle_req-waiting :
      (o : Option (ℕ → Bytes → Option Bytes)) (p : Packet) (l : Link) (s : S)
      → waiting (handle_req o c p l s).1 ≤ waiting l
  unfolding handle_req
  handle_req-waiting none p l s = handle_other-waiting p l s
  handle_req-waiting (some on_req) p l s = elim (Bool-cases (p.cmd == Command.req)) [
    | inl e ↦ rw e (answer_req-waiting on_req p l s)
    | inr e ↦ rw e (handle_other-waiting p l s)
  ]

  handle_packet-waiting :
      (p : Packet) (l : Link) (s : S) → waiting (handle_packet c p l s).1 ≤ waiting l
  unfolding handle_packet
  handle_packet-waiting p l s = elim (Bool-cases (p.cmd == Command.rdy)) [
    | inl e ↦ rw e (acknowledge-waiting p l s)
    | inr e ↦ rw e (handle_req-waiting c.on_req p l s)
  ]

  -- A round after which the loop goes on has taken an answer of the link.
  round-waiting :
      (s : S) (l : Link) (r : Option Packet × Link)
      → recv_packet l ≡ r
      → (round false c s r).0 ≡ again
      → waiting (round false c s r).1 < waiting l
  unfolding round
  round-waiting s l (none, m) heard e = cc
  round-waiting s l (some p, m) heard e =
      omega (arith, recv_packet-waiting_lt l heard, handle_packet-waiting p m s)

  next_ends :
      (loop : Link → S → Ending × Link × S) (r : After S)
      → (r.0 ≡ again → (loop r.1 r.2).0 ≢ out_of_fuel)
      → (listen_next loop r).0 ≢ out_of_fuel
  unfolding listen_next
  next_ends loop (again, l, s) h = h refl
  next_ends loop (idle, l, s) h = λ e. cc
  next_ends loop (raised, l, s) h = λ e. cc

  pub listen_loop-ends :
      (fuel : ℕ) (l : Link) (s : S)
      → waiting l < fuel
      → (listen_loop fuel false c l s).0 ≢ out_of_fuel
  unfolding listen_loop listen_round
  listen_loop-ends zero l s h = absurd (omega arith)
  listen_loop-ends (suc fuel) l s h =
      next_ends _ (round false c s (recv_packet l))
        (λ e. listen_loop-ends fuel _ _ (omega (arith, round-waiting s l (recv_packet l) refl e)))
