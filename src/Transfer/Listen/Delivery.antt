-- ===== src/Transfer/Listen/Delivery.antt =====
-- What `listen_loop` delivers to its callback.
use gpti84_plus.Base.{
  ℕ, suc, ◌≤◌, ◌≡◌, ◌∙◌, refl, List, [], ◌++◌, Option, none, some, Bool, true, false, ◌&&◌,
  le→ltb_false, length, arith,
}
use gpti84_plus.Base.Bytes.{Bytes, IsByte}
use gpti84_plus.Command
use gpti84_plus.Link.{Link, steady}
use gpti84_plus.Packet.{pc_id_for}
use gpti84_plus.Packet.Receive.{recv_packet_silent}
use gpti84_plus.Transfer.{finish_recv_after_first_pkt, header_type, header_name}
use gpti84_plus.Transfer.Steady.{IsBody, frame, packet, recv_full, rts_has_body}
use gpti84_plus.Transfer.Receive.{taking, finish_recv_steady}
use gpti84_plus.Transfer.Listen.{
  Config, again, idle, returned, type_passes, name_passes, call_on_var, deliver, handle_other,
  handle_req, handle_packet, round, listen_round, listen_loop,
}

-- What a calculator sends that delivers one variable, in front of what it sends then.
abbrev pub offer_then : ℕ → Bytes → Bytes → List (Option Bool) → List (Option Bool)
offer_then machine hdr bs rest = frame Command.rts hdr machine (
    frame Command.ack [] machine
      (frame Command.data_cmd bs machine (frame Command.eot [] machine rest)))

abbrev pub offer : ℕ → Bytes → Bytes → List (Option Bool)
offer machine hdr bs = offer_then machine hdr bs []

module _ {S : Type 0} (c : Config S) where
  -- An RTS is no REQ, so `on_req` has no say in it.
  handle_rts :
      (o : Option (ℕ → Bytes → Option Bytes)) (hdr : Bytes) (machine : ℕ) (l : Link) (s : S)
      → handle_req o c (packet Command.rts hdr machine) l s
        ≡ deliver c s (finish_recv_after_first_pkt (packet Command.rts hdr machine) l)
  unfolding handle_req handle_other
  handle_rts none hdr machine l s = refl
  handle_rts (some f) hdr machine l s = refl

  pub round_rts :
      (machine : ℕ) (hdr bs : Bytes) (rest : List (Option Bool)) (sent : List Bool) (s : S)
      → IsByte machine
      → IsBody hdr
      → IsBody bs
      → listen_round false c (steady (offer_then machine hdr bs rest) sent) s
        ≡ deliver c s (some (hdr, bs), steady rest (sent ++ taking (pc_id_for machine)))
  unfolding listen_round round handle_packet
  round_rts machine hdr bs rest sent s hm hh hb =
      rw
        (recv_full Command.rts machine hdr (omega arith) hm rts_has_body hh
          (frame Command.ack [] machine
            (frame Command.data_cmd bs machine (frame Command.eot [] machine rest)))
          sent)
        (handle_rts c.on_req hdr machine _ s
          ∙ rw (finish_recv_steady machine hm hdr bs rest sent hb))

  round_silent :
      (sent : List Bool) (s : S)
      → listen_round false c (steady [] sent) s ≡ (idle, steady [] sent, s)
  unfolding listen_round round
  round_silent sent s = rw (recv_packet_silent [] sent)

  -- One round that goes on, and a silent one.
  two_rounds :
      (fuel : ℕ) (incoming : List (Option Bool)) (sent sent' : List Bool) (s s' : S)
      → listen_round false c (steady incoming sent) s ≡ (again, steady [] sent', s')
      → listen_loop (suc (suc fuel)) false c (steady incoming sent) s
        ≡ (returned, steady [] sent', s')
  unfolding listen_loop
  two_rounds fuel incoming sent sent' s s' e = rw e (rw (round_silent sent' s'))

  -- A calculator sends one variable by RTS, ACK, DATA and EOT, and is silent after that. If the variable
  -- passes the filters, then `listen_loop` with a timeout calls `on_var` once, with the type and the name
  -- that stand in the header, the header and the data as they were sent; it answers by ACK, CTS and ACK;
  -- and it returns, with the state that the callback left.
  pub listen_loop_delivers :
      (on_var : ℕ → Bytes → Bytes → Bytes → S → Bool × S) (fuel machine : ℕ) (hdr bs : Bytes)
      (sent : List Bool) (s s' : S)
      → c.on_var ≡ some on_var
      → IsByte machine
      → IsBody hdr
      → IsBody bs
      → 11 ≤ length hdr
      → type_passes c.expected_type (header_type hdr) ≡ true
      → name_passes c.name8 (header_name hdr) ≡ true
      → on_var (header_type hdr) (header_name hdr) hdr bs s ≡ (true, s')
      → listen_loop (suc (suc fuel)) false c (steady (offer machine hdr bs) sent) s
        ≡ (returned, steady [] (sent ++ taking (pc_id_for machine)), s')
  unfolding deliver call_on_var
  listen_loop_delivers on_var fuel machine hdr bs sent s s' has hm hh hb long tp np call =
      two_rounds fuel _ sent _ s s' (
        round_rts machine hdr bs [] sent s hm hh hb
        ∙ rw (le→ltb_false (length hdr) 11 long) (rw tp (rw np (rw has (rw call)))))

  pub deliver_drops :
      (hdr bs : Bytes) (l : Link) (s : S)
      → type_passes c.expected_type (header_type hdr) && name_passes c.name8 (header_name hdr)
        ≡ false
      → deliver c s (some (hdr, bs), l) ≡ (again, l, s)
  unfolding deliver
  deliver_drops hdr bs l s off = ground arith

  -- A variable that does not pass the filters is taken from the calculator, and dropped: the callback
  -- is not called.
  pub listen_loop_filters :
      (fuel machine : ℕ) (hdr bs : Bytes) (sent : List Bool) (s : S)
      → IsByte machine
      → IsBody hdr
      → IsBody bs
      → type_passes c.expected_type (header_type hdr) && name_passes c.name8 (header_name hdr)
        ≡ false
      → listen_loop (suc (suc fuel)) false c (steady (offer machine hdr bs) sent) s
        ≡ (returned, steady [] (sent ++ taking (pc_id_for machine)), s)
  listen_loop_filters fuel machine hdr bs sent s hm hh hb off = two_rounds fuel _ sent _ s s (
      round_rts machine hdr bs [] sent s hm hh hb
      ∙ deliver_drops hdr bs (steady [] (sent ++ taking (pc_id_for machine))) s off)
