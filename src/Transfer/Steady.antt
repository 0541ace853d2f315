-- ===== src/Transfer/Steady.antt =====
-- Packets on a link whose peer acknowledges every bit: one equation for each call.
use gpti84_plus.Base.{
  ℕ, ◌<◌, ◌≡◌, inl, inr, refl, List, [], Option, some, Bool, false, ==_refl, length, All, arith,
}
use gpti84_plus.Base.Bytes.{Bytes, IsByte}
use gpti84_plus.Command
use gpti84_plus.Link.{steady}
use gpti84_plus.Wire.Laws.{signal}
use gpti84_plus.Packet.{Packet, packet_bytes, recv_packet, is_header_only}
use gpti84_plus.Packet.Receive.{recv_packet-packet_bytes}
use gpti84_plus.Transfer.{expect}

-- The bits of one packet in front of what is heard after it.
abbrev pub frame : ℕ → Bytes → ℕ → List (Option Bool) → List (Option Bool)
frame cmd bs machine rest = signal (packet_bytes cmd bs machine) rest

abbrev pub packet : ℕ → Bytes → ℕ → Packet
packet cmd bs machine = record { machine = machine; cmd = cmd; body = bs }

-- What fits the body of a packet.
abbrev pub IsBody : Bytes → Type 0
IsBody bs = All IsByte bs × (length bs < 65536)

pub recv_bare :
    (cmd machine : ℕ)
    → IsByte cmd
    → IsByte machine
    → (rest : List (Option Bool)) (sent : List Bool)
    → recv_packet (steady (frame cmd [] machine rest) sent)
      ≡ (some (packet cmd [] machine), steady rest sent)
recv_bare cmd machine hc hm rest sent =
    recv_packet-packet_bytes [] sent machine cmd [] rest hm hc tt (omega arith) (inl refl)

pub recv_full :
    (cmd machine : ℕ) (bs : Bytes)
    → IsByte cmd
    → IsByte machine
    → is_header_only cmd ≡ false
    → IsBody bs
    → (rest : List (Option Bool)) (sent : List Bool)
    → recv_packet (steady (frame cmd bs machine rest) sent)
      ≡ (some (packet cmd bs machine), steady rest sent)
recv_full cmd machine bs hc hm e (h, fits) rest sent =
    recv_packet-packet_bytes [] sent machine cmd bs rest hm hc h fits (inr e)

pub expect_bare :
    (cmd machine : ℕ)
    → IsByte cmd
    → IsByte machine
    → (rest : List (Option Bool)) (sent : List Bool)
    → expect cmd (steady (frame cmd [] machine rest) sent)
      ≡ (some (packet cmd [] machine), steady rest sent)
unfolding expect
expect_bare cmd machine hc hm rest sent =
    rw (recv_bare cmd machine hc hm rest sent) (rw (==_refl cmd))

pub expect_full :
    (cmd machine : ℕ) (bs : Bytes)
    → IsByte cmd
    → IsByte machine
    → is_header_only cmd ≡ false
    → IsBody bs
    → (rest : List (Option Bool)) (sent : List Bool)
    → expect cmd (steady (frame cmd bs machine rest) sent)
      ≡ (some (packet cmd bs machine), steady rest sent)
unfolding expect
expect_full cmd machine bs hc hm e h rest sent =
    rw (recv_full cmd machine bs hc hm e h rest sent) (rw (==_refl cmd))

pub data_has_body : is_header_only Command.data_cmd ≡ false
unfolding is_header_only
data_has_body = refl

pub var_has_body : is_header_only Command.var ≡ false
unfolding is_header_only
var_has_body = refl

pub rts_has_body : is_header_only Command.rts ≡ false
unfolding is_header_only
rts_has_body = refl

pub req_has_body : is_header_only Command.req ≡ false
unfolding is_header_only
req_has_body = refl
