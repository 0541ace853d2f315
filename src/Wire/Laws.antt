-- ===== src/Wire/Laws.antt =====
-- `recv_byte` and `send_byte` against the eight bits of a byte.
use gpti84_plus.Base.{
  ℕ, zero, suc, ◌+◌, ◌*◌, ◌/◌, ◌%◌, ◌^◌, ◌<◌, ◌≡◌, refl, List, [], ◌∷◌, ◌++◌, append_assoc, Option,
  none, some, Bool, true, false, ◌==◌, arith,
}
use gpti84_plus.Base.Bytes.{Bytes, IsByte}
use gpti84_plus.Link.{Link, steady, continue-eq_some}
use gpti84_plus.Wire.{recv_bit, send_bit, recv_bits, recv_byte, send_byte, bit_value, bit_at}
use native.Mathlib.Numerals.{towards_suc}

-- The bits of a byte in the order of the wire.
abbrev pub byte_bits : ℕ → List Bool
byte_bits b =
    bit_at b 0
    ∷ bit_at b 1
    ∷ bit_at b 2
    ∷ bit_at b 3
    ∷ bit_at b 4
    ∷ bit_at b 5
    ∷ bit_at b 6
    ∷ bit_at b 7
    ∷ []

-- A byte as the answers of eight `recv_bit` calls.
abbrev pub heard : List Bool → List (Option Bool) → List (Option Bool)
heard [] rest = rest
heard (b ∷ bs) rest = some b ∷ heard bs rest

bit_value-test : (x : ℕ) → bit_value (x % 2 == 1) ≡ x % 2
bit_value-test x = ground arith

bits_sum :
    (b : ℕ)
    → IsByte b
    → 0
        + b / 1 % 2 * 1
        + b / 2 % 2 * 2
        + b / 4 % 2 * 4
        + b / 8 % 2 * 8
        + b / 16 % 2 * 16
        + b / 32 % 2 * 32
        + b / 64 % 2 * 64
        + b / 128 % 2 * 128
      ≡ b
bits_sum b h = omega arith

-- A byte sequence as the bits that it puts on the wire, and as what the receiver is answered.
abbrev pub bits_of : Bytes → List Bool
bits_of [] = []
bits_of (b ∷ bs) = byte_bits b ++ bits_of bs

abbrev pub signal : Bytes → List (Option Bool) → List (Option Bool)
signal [] rest = rest
signal (b ∷ bs) rest = heard (byte_bits b) (signal bs rest)

pub signal-append :
    (xs ys : Bytes) (rest : List (Option Bool))
    → signal (xs ++ ys) rest ≡ signal xs (signal ys rest)
signal-append [] ys rest = refl
signal-append (x ∷ xs) ys rest = rw (signal-append xs ys rest)

pub bits_of-append : (xs ys : Bytes) → bits_of (xs ++ ys) ≡ bits_of xs ++ bits_of ys
bits_of-append [] ys = refl
bits_of-append (x ∷ xs) ys = rw (bits_of-append xs ys)

pub heard-append :
    (xs ys : List Bool) (rest : List (Option Bool))
    → heard (xs ++ ys) rest ≡ heard xs (heard ys rest)
heard-append [] ys rest = refl
heard-append (x ∷ xs) ys rest = rw (heard-append xs ys rest)

-- Hearing the bits of a byte sequence is hearing the sequence.
pub heard-bits_of :
    (xs : Bytes) (rest : List (Option Bool)) → heard (bits_of xs) rest ≡ signal xs rest
heard-bits_of [] rest = refl
heard-bits_of (x ∷ xs) rest = rw (heard-bits_of xs rest)

-- `recv_byte` reads back the bits of a byte, lowest first, and nothing behind them.
pub recv_byte-heard :
    (b : ℕ) (rest : List (Option Bool)) (acks sent : List Bool)
    → IsByte b
    → recv_byte (record { incoming = heard (byte_bits b) rest; acks = acks; sent = sent })
      ≡ (some b, record { incoming = rest; acks = acks; sent = sent })
unfolding recv_byte recv_bit
recv_byte-heard b rest acks sent h = simp bit_value-test (rw (bits_sum b h))

add_shift : (i k : ℕ) → i + suc k ≡ i + 1 + k
add_shift i k = omega arith

pow_step : (i : ℕ) → 2 ^ (i + 1) ≡ 2 * 2 ^ i
pow_step i = simp towards_suc (omega arith)

bit_fits : (bit : Bool) (b i : ℕ) → b < 2 ^ i → b + bit_value bit * 2 ^ i < 2 ^ (i + 1)
bit_fits true b i h = omega (arith, pow_step i)
bit_fits false b i h = omega (arith, pow_step i)

recv_bits-lt :
    (k i b : ℕ) (l : Link) {r : ℕ} {l' : Link}
    → b < 2 ^ i
    → recv_bits k i b l ≡ (some r, l')
    → r < 2 ^ (i + k)
unfolding recv_bits
recv_bits-lt zero i b l h e = ground arith
recv_bits-lt (suc k) i b l h e =
    let (bit, m, _, later) = continue-eq_some _ (recv_bit l) e in
    rw (add_shift i k)
      (recv_bits-lt k (i + 1) (b + bit_value bit * 2 ^ i) m (bit_fits bit b i h) later)

-- What `recv_byte` returns is a byte.
pub recv_byte-IsByte : (l : Link) {b : ℕ} {l' : Link} → recv_byte l ≡ (some b, l') → IsByte b
unfolding recv_byte
recv_byte-IsByte l e = recv_bits-lt 8 0 0 l (omega arith) e

-- On a silent link `recv_byte` times out.
pub recv_byte_silent :
    (acks sent : List Bool)
    → recv_byte (record { incoming = []; acks = acks; sent = sent })
      ≡ (none, record { incoming = []; acks = acks; sent = sent })
unfolding recv_byte recv_bit
recv_byte_silent acks sent = refl

pub recv_byte_pause :
    (rest : List (Option Bool)) (acks sent : List Bool)
    → recv_byte (record { incoming = none ∷ rest; acks = acks; sent = sent })
      ≡ (none, record { incoming = rest; acks = acks; sent = sent })
unfolding recv_byte recv_bit
recv_byte_pause rest acks sent = refl

pub send_byte-steady :
    (b : ℕ) (incoming : List (Option Bool)) (sent : List Bool)
    → send_byte b (steady incoming sent) ≡ (some tt, steady incoming (sent ++ byte_bits b))
unfolding send_byte send_bit
send_byte-steady b incoming sent = simp append_assoc
