-- ===== src/Packet/Send.antt =====
-- What `send_packet` puts on the wire.
use gpti84_plus.Base.{
  ℕ, ◌+◌, ◌≡◌, refl, List, [], ◌∷◌, ◌++◌, append-nil, append_assoc, Option, some, Bool, length,
  ◌==◌, if◌then◌else◌, length-append, All, All-append, arith,
}
use gpti84_plus.Base.Bytes.{Bytes, IsByte}
use gpti84_plus.Link.{steady}
use gpti84_plus.Wire.Laws.{byte_bits, bits_of, send_byte-steady}
use gpti84_plus.Packet.{packet_bytes, send_bytes, send_packet}

pub send_bytes-steady :
    (bs : Bytes) (incoming : List (Option Bool)) (sent : List Bool)
    → send_bytes bs (steady incoming sent) ≡ (some tt, steady incoming (sent ++ bits_of bs))
unfolding send_bytes
send_bytes-steady [] incoming sent = rw append-nil
send_bytes-steady (b ∷ bs) incoming sent =
    rw (send_byte-steady b incoming sent)
      (rw (send_bytes-steady bs incoming (sent ++ byte_bits b)) (simp append_assoc))

-- With a peer that acknowledges every bit, `send_packet` puts exactly the bits of `packet_bytes` on
-- the wire, and succeeds.
pub send_packet-steady :
    (cmd machine : ℕ) (bs : Bytes) (incoming : List (Option Bool)) (sent : List Bool)
    → send_packet cmd bs machine (steady incoming sent)
      ≡ (some tt, steady incoming (sent ++ bits_of (packet_bytes cmd bs machine)))
unfolding send_packet
send_packet-steady cmd machine bs incoming sent = send_bytes-steady _ incoming sent

-- Every element of a packet is a byte, if its parts are.
pub packet_bytes-IsByte :
    (cmd machine : ℕ) (bs : Bytes)
    → IsByte cmd
    → IsByte machine
    → All IsByte bs
    → All IsByte (packet_bytes cmd bs machine)
unfolding packet_bytes
packet_bytes-IsByte cmd machine [] hc hm h = omega arith
packet_bytes-IsByte cmd machine (b ∷ bs) hc hm h =
    (hm, (hc, (omega arith, (omega arith, All-append IsByte (b ∷ bs) _ h (omega arith)))))

-- A packet with no body takes four bytes, and a body of `n` bytes takes `n + 6`.
pub length-packet_bytes :
    (cmd machine : ℕ) (bs : Bytes)
    → length (packet_bytes cmd bs machine) ≡ (if length bs == 0 then 4 else length bs + 6)
unfolding packet_bytes
length-packet_bytes cmd machine [] = refl
length-packet_bytes cmd machine (b ∷ bs) = rw length-append (ground arith)
