-- ===== src/Transfer/Listen/Keeps.antt =====
-- What `on_var` keeps of the caller's state is kept by the whole loop.
use gpti84_plus.Base.{
  ℕ, zero, suc, Option, none, some, Bool, true, false, not, ◌==◌, ltb, if◌then◌else◌, length,
}
use gpti84_plus.Base.Bytes.{Bytes}
use gpti84_plus.Command
use gpti84_plus.Link.{Link}
use gpti84_plus.Packet.{Packet, recv_packet}
use gpti84_plus.Transfer.{is_opener, finish_recv_after_first_pkt, header_type, header_name}
use gpti84_plus.Transfer.Listen.{
  Config, After, again, idle, raised, Ending, returned, raised_with, out_of_fuel, type_passes,
  name_passes, call_on_var, deliver, acknowledge, is_filtered_req, answer_req, handle_other,
  handle_req, handle_packet, round, listen_round, listen_next, listen_loop,
}

module _ {S : Type 0} (P : S → Type 0) where
  -- After a call that does not raise.
  abbrev pub Kept : Bool × S → Type 0
  Kept (true, s) = P s
  Kept (false, s) = Unit {0}

  -- A callback that keeps `P`, unless it raises.
  abbrev pub KeepsOnVar : Option (ℕ → Bytes → Bytes → Bytes → S → Bool × S) → Type 0
  KeepsOnVar none = Unit {0}
  KeepsOnVar (some f) = (t : ℕ) (n h b : Bytes) (s : S) → P s → Kept (f t n h b s)

  abbrev KeptAfter : After S → Type 0
  KeptAfter (again, l, s) = P s
  KeptAfter (idle, l, s) = P s
  KeptAfter (raised, l, s) = Unit {0}

  abbrev pub KeptEnding : Ending × Link × S → Type 0
  KeptEnding (returned, l, s) = P s
  KeptEnding (raised_with, l, s) = Unit {0}
  KeptEnding (out_of_fuel, l, s) = Unit {0}

  module _ (c : Config S) (h : KeepsOnVar c.on_var) where
    heeded :
        (l : Link) (r : Bool × S) → Kept r → KeptAfter ((if r.0 then again else raised), l, r.1)
    heeded l (true, s) k = k
    heeded l (false, s) k = tt

    call_on_var-KeptAfter :
        (f : Option (ℕ → Bytes → Bytes → Bytes → S → Bool × S)) (hdr bs : Bytes) (l : Link) (s : S)
        → KeepsOnVar f
        → P s
        → KeptAfter (call_on_var f hdr bs l s)
    unfolding call_on_var
    call_on_var-KeptAfter none hdr bs l s k p = p
    call_on_var-KeptAfter (some f) hdr bs l s k p =
        heeded l (f (header_type hdr) (header_name hdr) hdr bs s)
          (k (header_type hdr) (header_name hdr) hdr bs s p)

    branch : (b : Bool) (x y : After S) → KeptAfter x → KeptAfter y → KeptAfter (if b then x else y)
    branch true x y p q = p
    branch false x y p q = q

    deliver-KeptAfter :
        (s : S) (r : Option (Bytes × Bytes) × Link) → P s → KeptAfter (deliver c s r)
    unfolding deliver
    deliver-KeptAfter s (none, l) p = p
    deliver-KeptAfter s (some (hdr, bs), l) p = branch (ltb (length hdr) 11) _ _ p (
        branch (not (type_passes c.expected_type (header_type hdr))) _ _ p (
          branch (not (name_passes c.name8 (header_name hdr))) _ _ p
            (call_on_var-KeptAfter c.on_var hdr bs l s h p)))

    handle_other-KeptAfter :
        (q : Packet) (l : Link) (s : S) → P s → KeptAfter (handle_other c q l s)
    unfolding handle_other acknowledge
    handle_other-KeptAfter q l s p =
        branch (is_opener q.cmd) (deliver c s (finish_recv_after_first_pkt q l)) _
          (deliver-KeptAfter s (finish_recv_after_first_pkt q l) p) p

    handle_req-KeptAfter :
        (o : Option (ℕ → Bytes → Option Bytes)) (q : Packet) (l : Link) (s : S)
        → P s
        → KeptAfter (handle_req o c q l s)
    unfolding handle_req answer_req
    handle_req-KeptAfter none q l s p = handle_other-KeptAfter q l s p
    handle_req-KeptAfter (some f) q l s p =
        branch (q.cmd == Command.req) _ _ (branch (is_filtered_req c q.body) _ _ p p)
          (handle_other-KeptAfter q l s p)

    round-KeptAfter : (s : S) (r : Option Packet × Link) → P s → KeptAfter (round false c s r)
    unfolding round handle_packet acknowledge
    round-KeptAfter s (none, l) p = p
    round-KeptAfter s (some q, l) p =
        branch (q.cmd == Command.rdy) _ _ p (handle_req-KeptAfter c.on_req q l s p)

    next-KeptEnding :
        (loop : Link → S → Ending × Link × S) (r : After S)
        → KeptAfter r
        → ((l : Link) (s : S) → P s → KeptEnding (loop l s))
        → KeptEnding (listen_next loop r)
    unfolding listen_next
    next-KeptEnding loop (again, l, s) k more = more l s k
    next-KeptEnding loop (idle, l, s) k more = k
    next-KeptEnding loop (raised, l, s) k more = tt

    pub listen_loop-KeptEnding :
        (fuel : ℕ) (l : Link) (s : S) → P s → KeptEnding (listen_loop fuel false c l s)
    unfolding listen_loop listen_round
    listen_loop-KeptEnding zero l s p = tt
    listen_loop-KeptEnding (suc fuel) l s p =
        next-KeptEnding (λ l s. listen_loop fuel false c l s) (round false c s (recv_packet l))
          (round-KeptAfter s (recv_packet l) p) (λ l s k. listen_loop-KeptEnding fuel l s k)
