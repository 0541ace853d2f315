-- ===== src/Wire.antt =====
-- The byte layer of src/wire.py: eight bits, lowest first, over the bit calls of the link.
pub mod Laws
pub mod Waiting
pub mod Lines
pub mod Reads
use gpti84_plus.Base.{
  ℕ, zero, suc, ◌+◌, ◌*◌, ◌/◌, ◌%◌, ◌^◌, List, [], ◌∷◌, ◌++◌, Option, none, some, Bool, true, false,
  ◌==◌,
}
use gpti84_plus.Link.{Link, Io, pure, give_up, continue, ◌>>=◌, ◌>>◌}

-- What the next `recv_bit` call answers.
recv_outcome : List (Option Bool) → Link → Option Bool × Link
recv_outcome [] l = (none, l)
recv_outcome (r ∷ rs) l = (r, record l { incoming = rs })

pub recv_bit : Io Bool
unfolding recv_outcome
recv_bit l = recv_outcome l.incoming l

-- The next `send_bit` call puts its bit on the line, and answers whether the peer took it.
send_outcome : List Bool → Link → Option (Unit {0}) × Link
send_outcome [] l = (some tt, l)
send_outcome (true ∷ rs) l = (some tt, record l { acks = rs })
send_outcome (false ∷ rs) l = (none, record l { acks = rs })

pub send_bit : Bool → Io (Unit {0})
unfolding send_outcome
send_bit b l = send_outcome l.acks (record l { sent = l.sent ++ (b ∷ []) })

abbrev pub bit_value : Bool → ℕ
bit_value true = 1
bit_value false = 0

-- `for i in range(8): ... b |= (bit << i)`, with `k` rounds left: bit `i` is not set yet.
pub recv_bits : ℕ → ℕ → ℕ → Io ℕ
recv_bits zero i b = pure b
recv_bits (suc k) i b = do bit ← recv_bit; recv_bits k (i + 1) (b + bit_value bit * 2 ^ i)

pub recv_byte : Io ℕ
unfolding recv_bits
recv_byte = recv_bits 8 0 0

-- `(b >> i) & 1`
abbrev pub bit_at : ℕ → ℕ → Bool
bit_at b i = (b / 2 ^ i) % 2 == 1

-- `for i in range(8): if not send_bit(...): return False`, with `k` rounds left.
send_bits : ℕ → ℕ → ℕ → Io (Unit {0})
send_bits zero i b = pure tt
send_bits (suc k) i b = do send_bit (bit_at b i); send_bits k (i + 1) b

pub send_byte : ℕ → Io (Unit {0})
unfolding send_bits
send_byte b = send_bits 8 0 b
