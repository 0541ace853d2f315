-- ===== src/Packet/Tests.antt =====
-- Packets at concrete inputs.
use gpti84_plus.Base.{ℕ, ◌≡◌, refl, inr, [], ◌∷◌, some, arith}
use gpti84_plus.Command
use gpti84_plus.Wire.Laws.{signal}
use gpti84_plus.Packet.{packet_bytes, checksum, recv_packet, is_header_only}
use gpti84_plus.Packet.Checksum.{checksum_detects}
use gpti84_plus.Packet.Receive.{hearing, recv_packet-packet_bytes, recv_packet_any_checksum}

rts_bytes :
    packet_bytes Command.data_cmd (0x12 ∷ 0xFF ∷ []) 0x23
    ≡ 0x23 ∷ 0x15 ∷ 2 ∷ 0 ∷ 0x12 ∷ 0xFF ∷ 0x11 ∷ 1 ∷ []
unfolding packet_bytes checksum
rts_bytes = refl

checksum_detects_example : ◌≡◌ {A = ℕ} 7 7
checksum_detects_example = checksum_detects (1 ∷ []) (2 ∷ []) 7 7 (omega arith) (omega arith) refl

recv_packet-packet_bytes_example :
    recv_packet (hearing [] [] (signal (packet_bytes Command.data_cmd (0x12 ∷ 0xFF ∷ []) 0x73) []))
    ≡ (
      some (record { machine = 0x73; cmd = Command.data_cmd; body = 0x12 ∷ 0xFF ∷ [] }),
      hearing [] [] [],
    )
unfolding is_header_only
recv_packet-packet_bytes_example =
    recv_packet-packet_bytes [] [] 0x73 Command.data_cmd (0x12 ∷ 0xFF ∷ []) [] (omega arith)
      (omega arith) (omega arith) (omega arith) (inr refl)

-- The checksum should be 0x11 0x01.
recv_packet_any_checksum_example :
    recv_packet (hearing [] [] (signal (0x73 ∷ 0x15 ∷ 2 ∷ 0 ∷ 0x12 ∷ 0xFF ∷ 0xBA ∷ 0xD0 ∷ []) []))
    ≡ (some (record { machine = 0x73; cmd = 0x15; body = 0x12 ∷ 0xFF ∷ [] }), hearing [] [] [])
unfolding is_header_only
recv_packet_any_checksum_example =
    recv_packet_any_checksum [] [] 0x73 0x15 0xBA 0xD0 (0x12 ∷ 0xFF ∷ []) [] (omega arith)
      (omega arith) (omega arith) (omega arith) (omega arith) (omega arith) (cc) refl
