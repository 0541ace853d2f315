-- ===== src/Diag/Answers.antt =====
-- What the checks answer, on a link whose peer acknowledges every bit.
use gpti84_plus.Base.{
  ℕ, ◌<◌, List, [], ◌++◌, Option, some, Bool, false, ◌==◌, ◌≡◌, ◌∙◌, ◌⊎◌, inl, refl, ap,
  if◌then◌else◌, length, take, All, arith,
}
use gpti84_plus.Base.Bytes.{Bytes, IsByte}
use gpti84_plus.Command
use gpti84_plus.Link.{Link, Io, give_up, continue, ◌>>=◌, steady}
use gpti84_plus.Packet.{pc_id_for, packet_bytes, is_header_only, recv_packet}
use gpti84_plus.Packet.Send.{send_packet-steady}
use gpti84_plus.Packet.Receive.{recv_packet-packet_bytes, recv_packet_silent}
use gpti84_plus.Wire.Laws.{signal, bits_of}
use gpti84_plus.Wire.Reads.{recv_n_traced, recv_n_traced-recv_n, recv_n-take}
use gpti84_plus.Transfer.{proto_of, with_header}
use gpti84_plus.VarTypes.{make_var_header}
use gpti84_plus.Diag.{is_ack, ready_check, traced, probe_with_header, probe_rts_reply}

-- The check says whether the packet that comes back is an ACK; it has sent one RDY packet and read
-- that packet and nothing behind it.
pub ready_check-packet_bytes :
    (calc machine cmd : ℕ) (bs : Bytes) (rest : List (Option Bool)) (sent : List Bool)
    → IsByte machine
    → IsByte cmd
    → All IsByte bs
    → length bs < 65536
    → (bs ≡ []) ⊎ (is_header_only cmd ≡ false)
    → ready_check calc (steady (signal (packet_bytes cmd bs machine) rest) sent) ≡ (
      cmd == Command.ack,
      steady rest (sent ++ bits_of (packet_bytes Command.rdy [] (pc_id_for calc))),
    )
unfolding ready_check
ready_check-packet_bytes calc machine cmd bs rest sent hm hc h fits e = ap is_ack (
    ap (continue (λ _. recv_packet)) (send_packet-steady Command.rdy (pc_id_for calc) [] _ sent)
    ∙ recv_packet-packet_bytes [] (sent ++ bits_of (packet_bytes Command.rdy [] (pc_id_for calc)))
        machine cmd bs rest hm hc h fits e)

-- A peer that does not answer is not ready.
pub ready_check_silent :
    (calc : ℕ) (sent : List Bool) → (ready_check calc (steady [] sent)).0 ≡ false
unfolding ready_check
ready_check_silent calc sent =
    ap (λ r. (is_ack r).0)
      (ap (continue (λ _. recv_packet)) (send_packet-steady Command.rdy (pc_id_for calc) [] [] sent)
        ∙ recv_packet_silent [] (sent ++ bits_of (packet_bytes Command.rdy [] (pc_id_for calc))))

abbrev traced_reply : ℕ → Io Bytes
traced_reply n = do p ← recv_packet; if p.cmd == Command.ack then traced n else give_up

-- When the RTS is acknowledged, the probe returns the first bytes that follow, up to as many as it was
-- asked for, and all of them if the peer stops before.
pub probe_rts_reply-take :
    (calc machine type_id data_len n : ℕ) (name8 hdr bs : Bytes) (sent : List Bool)
    → IsByte machine
    → All IsByte bs
    → make_var_header data_len type_id name8 (proto_of calc) ≡ some hdr
    → (l : Link) × (probe_rts_reply type_id name8 data_len calc n
          (steady (signal (packet_bytes Command.ack [] machine) (signal bs [])) sent)
        ≡ some (some (take n bs), l))
unfolding probe_rts_reply
probe_rts_reply-take calc machine type_id data_len n name8 hdr bs sent hm h e =
    let pc = pc_id_for calc in
    let asked = sent ++ bits_of (packet_bytes Command.rts hdr pc) in
    let follow : List (Option Bool) = signal bs [] in
    let after = steady follow asked in
    (
      (recv_n_traced n [] after).1,
      ap
            (λ o.
              with_header (probe_with_header calc n) o
                (steady (signal (packet_bytes Command.ack [] machine) follow) sent))
            e
          ∙ ap (λ r. some r)
              (ap (continue (λ _. traced_reply n)) (send_packet-steady Command.rts pc hdr _ sent)
                ∙ ap (continue (λ p. if p.cmd == Command.ack then traced n else give_up)) (
                    recv_packet-packet_bytes [] asked machine Command.ack [] follow hm (omega arith)
                      tt (omega arith) (inl refl))
                ∙ ap (λ t. (some t, (recv_n_traced n [] after).1))
                    (ap (λ r. r.0) (recv_n_traced-recv_n n [] after)
                      ∙ recv_n-take n bs [] [] asked h)),
    )
