-- ===== src/Wire/Waiting.antt =====
-- What the byte calls take of the link's answers.
use gpti84_plus.Base.{ℕ, zero, suc, ◌+◌, ◌*◌, ◌^◌, ◌<◌, ◌≡◌, some, Bool, arith}
use gpti84_plus.Link.{Link, continue-eq_some}
use gpti84_plus.Link.Waiting.{waiting, Takes, Takes-bind, Takes-eq}
use gpti84_plus.Wire.{
  recv_bit, send_bit, recv_bits, recv_byte, send_bits, send_byte, bit_at, bit_value,
}

recv_bit-Takes : Takes recv_bit
unfolding recv_bit
recv_bit-Takes l = ground arith

recv_bit-waiting_lt :
    (l : Link) {b : Bool} {m : Link} → recv_bit l ≡ (some b, m) → waiting m < waiting l
unfolding recv_bit
recv_bit-waiting_lt l e = ground arith

send_bit-Takes : (b : Bool) → Takes (send_bit b)
unfolding send_bit
send_bit-Takes b l = ground arith

recv_bits-Takes : (k i b : ℕ) → Takes (recv_bits k i b)
unfolding recv_bits
recv_bits-Takes zero i b l = omega arith
recv_bits-Takes (suc k) i b l =
    Takes-bind recv_bit _ recv_bit-Takes (λ bit. recv_bits-Takes k _ _) l

pub recv_byte-Takes : Takes recv_byte
unfolding recv_byte
recv_byte-Takes = recv_bits-Takes 8 0 0

recv_bits-waiting_lt :
    (k i b : ℕ) (l : Link) {r : ℕ} {m : Link}
    → recv_bits (suc k) i b l ≡ (some r, m)
    → waiting m < waiting l
unfolding recv_bits
recv_bits-waiting_lt k i b l e =
    let (bit, l1, first, later) = continue-eq_some _ (recv_bit l) e in
    omega (
      arith,
      recv_bit-waiting_lt l first,
      Takes-eq (recv_bits k (i + 1) (b + bit_value bit * 2 ^ i)) l1 (recv_bits-Takes k _ _) later,
    )

-- A byte that is received took at least one answer.
pub recv_byte-waiting_lt :
    (l : Link) {b : ℕ} {m : Link} → recv_byte l ≡ (some b, m) → waiting m < waiting l
unfolding recv_byte
recv_byte-waiting_lt l e = recv_bits-waiting_lt 7 0 0 l e

send_bits-Takes : (k i b : ℕ) → Takes (send_bits k i b)
unfolding send_bits
send_bits-Takes zero i b l = omega arith
send_bits-Takes (suc k) i b l =
    Takes-bind (send_bit (bit_at b i)) _ (send_bit-Takes _) (λ _. send_bits-Takes k _ b) l

pub send_byte-Takes : (b : ℕ) → Takes (send_byte b)
unfolding send_byte
send_byte-Takes b = send_bits-Takes 8 0 b
