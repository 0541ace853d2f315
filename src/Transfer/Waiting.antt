-- ===== src/Transfer/Waiting.antt =====
-- The answers of the link that a transfer leaves.
use gpti84_plus.Base.{ℕ, Option, none, some, ◌==◌, [], ltb, length, arith}
use gpti84_plus.Base.Bytes.{Bytes}
use gpti84_plus.Command
use gpti84_plus.Link.{pure, give_up, continue}
use gpti84_plus.Link.Waiting.{Takes, Takes-bind, Takes-if}
use gpti84_plus.Packet.{Packet, pc_id_for, send_packet, recv_packet}
use gpti84_plus.Packet.Waiting.{send_packet-Takes, recv_packet-Takes}
use gpti84_plus.Transfer.{
  expect, take_data, is_opener, finish_recv_after_first_pkt, send_supply, send_requested,
  send_payload, respond_to_req,
}

expect-Takes : (c : ℕ) → Takes (expect c)
unfolding expect
expect-Takes c =
    Takes-bind recv_packet _ recv_packet-Takes
      (λ p. Takes-if (p.cmd == c) (pure p) give_up (λ l. omega arith) (λ l. omega arith))

take_data-Takes : (pc : ℕ) → Takes (take_data pc)
unfolding take_data
take_data-Takes pc = Takes-bind (send_packet _ _ _) _ (send_packet-Takes _ _ _) (λ _.
    Takes-bind (send_packet _ _ _) _ (send_packet-Takes _ _ _) (λ _.
      Takes-bind (expect _) _ (expect-Takes _) (λ _.
        Takes-bind (expect _) _ (expect-Takes _)
          (λ p. Takes-bind (send_packet _ _ _) _ (send_packet-Takes _ _ _) (λ _ l. omega arith)))))

pub finish_recv-Takes : (p : Packet) → Takes (finish_recv_after_first_pkt p)
unfolding finish_recv_after_first_pkt
finish_recv-Takes p =
    Takes-if (is_opener p.cmd)
      (λ l.
        continue (λ bs l. (some (p.body, bs), (recv_packet l).1))
          (take_data (pc_id_for p.machine) l))
      give_up
      (Takes-bind (take_data (pc_id_for p.machine)) _ (take_data-Takes _)
        (λ bs l. recv_packet-Takes l))
      (λ l. omega arith)

send_supply-Takes : (pc : ℕ) (payload : Bytes) → Takes (send_supply pc payload)
unfolding send_supply
send_supply-Takes pc payload = Takes-bind (send_packet _ _ _) _ (send_packet-Takes _ _ _) (λ _.
    Takes-bind (send_packet _ _ _) _ (send_packet-Takes _ _ _)
      (λ _. Takes-bind (expect _) _ (expect-Takes _) (λ _. send_packet-Takes _ _ _)))

send_requested-Takes :
    (pc : ℕ) (payload var_hdr : Bytes) → Takes (send_requested pc payload var_hdr)
unfolding send_requested
send_requested-Takes pc payload var_hdr =
    Takes-bind (send_packet _ _ _) _ (send_packet-Takes _ _ _) (λ _.
      Takes-bind (send_packet _ _ _) _ (send_packet-Takes _ _ _) (λ _.
        Takes-bind (expect _) _ (expect-Takes _) (λ _.
          Takes-bind recv_packet _ recv_packet-Takes (λ p.
            Takes-if (p.cmd == Command.skip) (pure tt) _ (λ l. omega arith)
              (Takes-if (p.cmd == Command.cts) (send_supply pc payload) give_up
                (send_supply-Takes pc payload) (λ l. omega arith))))))

send_payload-Takes :
    (pc : ℕ) (payload var_hdr : Option Bytes) → Takes (send_payload pc payload var_hdr)
unfolding send_payload
send_payload-Takes pc none var_hdr l = send_packet-Takes Command.skip [] pc l
send_payload-Takes pc (some payload) none l = omega arith
send_payload-Takes pc (some payload) (some var_hdr) l = send_requested-Takes pc payload var_hdr l

pub respond_to_req-Takes :
    (machine : ℕ) (hdr : Bytes) (on_req : ℕ → Bytes → Option Bytes)
    → Takes (respond_to_req machine hdr on_req)
unfolding respond_to_req
respond_to_req-Takes machine hdr on_req =
    Takes-if (ltb (length hdr) 11) give_up _ (λ l. omega arith) (send_payload-Takes _ _ _)
