-- ===== src/Transfer/Tests.antt =====
-- Transfers at concrete inputs.
use gpti84_plus.Base.{ℕ, ◌≡◌, refl, [], ◌∷◌, Option, none, some, if◌then◌else◌, ◌==◌, arith}
use gpti84_plus.Base.Bytes.{Bytes}
use gpti84_plus.Command
use gpti84_plus.Link.{Link, steady}
use gpti84_plus.Wire.Laws.{heard}
use gpti84_plus.Packet.{pc_id_for}
use gpti84_plus.VarTypes.{make_var_header}
use gpti84_plus.Transfer.{send_var, recv_var, req_var, respond_to_req}
use gpti84_plus.Transfer.Steady.{frame}
use gpti84_plus.Transfer.SendVar.{send_var-steady, Sent, send_var-Sent}
use gpti84_plus.Transfer.Receive.{taking}
use gpti84_plus.Transfer.Loopback.{
  send_var-recv_var, answers, transfer, req_var-respond_to_req, request, supply,
}

-- The real variable A, and its header in an RTS packet to an 84+.
abbrev name_a : Bytes
name_a = b'A' ∷ 0 ∷ 0 ∷ 0 ∷ 0 ∷ 0 ∷ 0 ∷ 0 ∷ []

abbrev real_two : Bytes
real_two = 0 ∷ 0x80 ∷ 0x20 ∷ 0 ∷ 0 ∷ 0 ∷ 0 ∷ 0 ∷ 0 ∷ []

abbrev header_a : ℕ → Bytes
header_a size = size ∷ 0 ∷ 0 ∷ b'A' ∷ 0 ∷ 0 ∷ 0 ∷ 0 ∷ 0 ∷ 0 ∷ 0 ∷ 0 ∷ 0 ∷ []

header_a_made : make_var_header 9 0 name_a 83 ≡ some (header_a 9)
unfolding make_var_header
header_a_made = refl

-- The link of the successful exchange above.
abbrev answering : Link
answering =
    steady (frame Command.ack [] 0x73 (frame Command.cts [] 0x73 (frame Command.ack [] 0x73 []))) []

send_var-Sent_example : Sent 0x73 (header_a 9) real_two answering
send_var-Sent_example =
    send_var-Sent 0 0x73 name_a (header_a 9) real_two answering header_a_made
      (send_var-steady 0x73 0x73 real_two (omega arith) [] 0 name_a (header_a 9) [] header_a_made)

send_var-recv_var_example :
    (send_var 0 name_a real_two 0x73 (steady (heard (answers 0x73) []) [])
      ≡ some (some tt, steady [] (transfer 0x73 (header_a 9) real_two)))
    × (recv_var (steady (heard (transfer 0x73 (header_a 9) real_two) []) [])
        ≡ (some (header_a 9, real_two), steady [] (answers 0x73)))
send_var-recv_var_example =
    send_var-recv_var 0 0x73 name_a (header_a 9) real_two (omega arith) header_a_made (omega arith)
      (omega arith)

-- The callback holds one variable, the real A.
abbrev holds_a : ℕ → Bytes → Option Bytes
holds_a type_id name = if type_id == 0 then some real_two else none

req_var-respond_to_req_example :
    (req_var 0 name_a 0x73 (steady (heard (supply 0x23 (header_a 9) real_two) []) [])
      ≡ some (
        some (header_a 9, real_two),
        steady (frame Command.eot [] 0x23 []) (request 0x73 (header_a 0)),
      ))
    × (respond_to_req 0x23 (header_a 0) holds_a (steady (heard (taking 0x23) []) [])
        ≡ (some tt, steady [] (supply 0x23 (header_a 9) real_two)))
unfolding pc_id_for make_var_header
req_var-respond_to_req_example =
    req_var-respond_to_req 0 0x73 name_a (header_a 0) (header_a 9) real_two holds_a (omega arith)
      (omega arith) (omega arith) refl refl refl
