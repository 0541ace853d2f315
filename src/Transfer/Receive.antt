-- ===== src/Transfer/Receive.antt =====
-- `recv_var` and `finish_recv_after_first_pkt` on a steady link, and `send_var` against `recv_var`.
use gpti84_plus.Base.{
  ℕ, ◌≡◌, List, [], ◌++◌, append_assoc, Option, none, some, Bool, ◌==◌, if◌then◌else◌, arith,
  Bool-cases, inl, inr,
}
use gpti84_plus.Base.Bytes.{Bytes, IsByte}
use gpti84_plus.Command
use gpti84_plus.Link.{steady}
use gpti84_plus.Wire.Laws.{bits_of}
use gpti84_plus.Packet.{Packet, packet_bytes, pc_id_for}
use gpti84_plus.Packet.Send.{send_packet-steady}
use gpti84_plus.Transfer.{take_data, recv_eot, recv_var, finish_recv_after_first_pkt}
use gpti84_plus.Transfer.Steady.{
  IsBody, frame, packet, recv_bare, recv_full, expect_bare, expect_full, data_has_body,
  rts_has_body,
}

-- What the Pico sends while it takes a variable: ACK, CTS, and the ACK of the data.
abbrev pub taking : ℕ → List Bool
taking pc =
    bits_of (packet_bytes Command.ack [] pc)
    ++ (bits_of (packet_bytes Command.cts [] pc) ++ bits_of (packet_bytes Command.ack [] pc))

module _ (machine : ℕ) (hm : IsByte machine) where
  pub take_data-steady :
      (pc : ℕ) (bs : Bytes) (rest : List (Option Bool)) (sent : List Bool)
      → IsBody bs
      → take_data pc
          (steady (frame Command.ack [] machine (frame Command.data_cmd bs machine rest)) sent)
        ≡ (some bs, steady rest (sent ++ taking pc))
  unfolding take_data
  take_data-steady pc bs rest sent h = rw send_packet-steady (
      rw send_packet-steady (
        rw (expect_bare Command.ack machine (omega arith) hm) (
          rw (expect_full Command.data_cmd machine bs (omega arith) hm data_has_body h)
            (rw send_packet-steady (simp append_assoc)))))

  -- What is heard behind the DATA packet: the EOT of every calculator but the TI-82.
  abbrev pub eot_signal : List (Option Bool) → List (Option Bool)
  eot_signal rest = if machine == 0x82 then rest else frame Command.eot [] machine rest

  recv_eot-steady :
      (rest : List (Option Bool)) (sent : List Bool)
      → (o : Option Packet) × (recv_eot machine (steady (eot_signal rest) sent)
          ≡ (some o, steady rest sent))
  unfolding recv_eot
  recv_eot-steady rest sent = elim (Bool-cases (machine == 0x82)) [
    | inl e ↦ (none, rw e)
    | inr e ↦ (
      some (packet Command.eot [] machine),
      rw e (rw (recv_bare Command.eot machine (omega arith) hm)),
    )
  ]

  -- `recv_var` takes a variable that a calculator announces by RTS: it returns the header and the data
  -- as they were sent, answers ACK, CTS and ACK as the computer that the calculator expects, and reads
  -- the EOT of every calculator but the TI-82.
  pub recv_var-steady :
      (hdr bs : Bytes) (rest : List (Option Bool)) (sent : List Bool)
      → IsBody hdr
      → IsBody bs
      → recv_var (
          steady
            (frame Command.rts hdr machine
              (frame Command.ack [] machine (frame Command.data_cmd bs machine (eot_signal rest))))
            sent)
        ≡ (some (hdr, bs), steady rest (sent ++ taking (pc_id_for machine)))
  unfolding recv_var
  recv_var-steady hdr bs rest sent hh hb =
      let (o, e) = recv_eot-steady rest (sent ++ taking (pc_id_for machine)) in
      rw (recv_full Command.rts machine hdr (omega arith) hm rts_has_body hh)
        (rw (take_data-steady (pc_id_for machine) bs (eot_signal rest) sent hb) (rw e))

  -- Behind a first packet RTS, the listening Pico takes the variable in the same way, and takes an EOT
  -- from every calculator.
  pub finish_recv_steady :
      (hdr bs : Bytes) (rest : List (Option Bool)) (sent : List Bool)
      → IsBody bs
      → finish_recv_after_first_pkt (packet Command.rts hdr machine) (
          steady
            (frame Command.ack [] machine
              (frame Command.data_cmd bs machine (frame Command.eot [] machine rest)))
            sent)
        ≡ (some (hdr, bs), steady rest (sent ++ taking (pc_id_for machine)))
  unfolding finish_recv_after_first_pkt
  finish_recv_steady hdr bs rest sent hb =
      rw (take_data-steady (pc_id_for machine) bs (frame Command.eot [] machine rest) sent hb)
        (rw (recv_bare Command.eot machine (omega arith) hm))
