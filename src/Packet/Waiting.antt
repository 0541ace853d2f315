-- ===== src/Packet/Waiting.antt =====
-- What sending and receiving a packet take of the link's answers.
use gpti84_plus.Base.{
  ℕ, zero, suc, ◌<◌, ◌≡◌, [], ◌∷◌, Option, none, some, Bool-cases, inl, inr, arith,
}
use gpti84_plus.Base.Bytes.{Bytes, word}
use gpti84_plus.Link.{Link, continue-eq_some}
use gpti84_plus.Link.Waiting.{waiting, Takes, Takes-bind, Takes-eq}
use gpti84_plus.Wire.{recv_byte, send_byte}
use gpti84_plus.Wire.Waiting.{recv_byte-Takes, recv_byte-waiting_lt, send_byte-Takes}
use gpti84_plus.Packet.{
  Packet, send_bytes, send_packet, recv_data, both, recv_checksum, recv_body, recv_rest,
  recv_packet, is_header_only,
}

send_bytes-Takes : (bs : Bytes) → Takes (send_bytes bs)
unfolding send_bytes
send_bytes-Takes [] l = omega arith
send_bytes-Takes (b ∷ bs) l =
    Takes-bind (send_byte b) (λ _. send_bytes bs) (send_byte-Takes b) (λ _. send_bytes-Takes bs) l

pub send_packet-Takes : (cmd : ℕ) (bs : Bytes) (machine : ℕ) → Takes (send_packet cmd bs machine)
unfolding send_packet
send_packet-Takes cmd bs machine = send_bytes-Takes _

recv_data-Takes : (n : ℕ) (out : Bytes) → Takes (recv_data n out)
unfolding recv_data
recv_data-Takes zero out l = omega arith
recv_data-Takes (suc n) out l = Takes-bind recv_byte _ recv_byte-Takes (λ b. recv_data-Takes n _) l

both-Takes : (lo hi : Option ℕ) → Takes (both lo hi)
unfolding both
both-Takes (some lo) (some hi) l = omega arith
both-Takes (some lo) none l = omega arith
both-Takes none hi l = omega arith

recv_checksum-Takes : Takes recv_checksum
unfolding recv_checksum
recv_checksum-Takes l = omega (
  arith,
  recv_byte-Takes l,
  recv_byte-Takes (recv_byte l).1,
  both-Takes (recv_byte l).0 (recv_byte (recv_byte l).1).0 (recv_byte (recv_byte l).1).1,
)

recv_body-Takes : (n : ℕ) → Takes (recv_body n)
unfolding recv_body
recv_body-Takes zero l = omega arith
recv_body-Takes (suc n) l =
    Takes-bind (recv_data (suc n) []) _ (recv_data-Takes (suc n) [])
      (λ bs. Takes-bind recv_checksum _ recv_checksum-Takes (λ got l. omega arith)) l

recv_rest-Takes : (machine cmd n : ℕ) → Takes (recv_rest machine cmd n)
unfolding recv_rest
recv_rest-Takes machine cmd n l = elim (Bool-cases (is_header_only cmd)) [
  | inl bare ↦ rw bare (omega arith)
  | inr full ↦ rw full (Takes-bind (recv_body n) _ (recv_body-Takes n) (λ c l. omega arith) l)
]

pub recv_packet-Takes : Takes recv_packet
unfolding recv_packet
recv_packet-Takes = Takes-bind recv_byte _ recv_byte-Takes (λ machine.
    Takes-bind recv_byte _ recv_byte-Takes (λ cmd.
      Takes-bind recv_byte _ recv_byte-Takes
        (λ lo. Takes-bind recv_byte _ recv_byte-Takes (λ hi. recv_rest-Takes machine cmd _))))

-- A packet that is received took at least one answer.
pub recv_packet-waiting_lt :
    (l : Link) {p : Packet} {m : Link} → recv_packet l ≡ (some p, m) → waiting m < waiting l
unfolding recv_packet
recv_packet-waiting_lt l e =
    let (machine, k1, first, e1) = continue-eq_some _ (recv_byte l) e in
    let (cmd, k2, second, e2) = continue-eq_some _ (recv_byte k1) e1 in
    let (lo, k3, third, e3) = continue-eq_some _ (recv_byte k2) e2 in
    let (hi, k4, fourth, e4) = continue-eq_some _ (recv_byte k3) e3 in
    omega (
      arith,
      recv_byte-waiting_lt l first,
      recv_byte-waiting_lt k1 second,
      recv_byte-waiting_lt k2 third,
      recv_byte-waiting_lt k3 fourth,
      Takes-eq (recv_rest machine cmd (word lo hi)) k4 (recv_rest-Takes machine cmd (word lo hi))
          e4,
    )
