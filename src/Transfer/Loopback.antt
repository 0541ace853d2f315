-- ===== src/Transfer/Loopback.antt =====
-- Two Picos wired to one another: `send_var` against `recv_var`, and `req_var` against
-- `respond_to_req`. Each side hears exactly the bits that the other has sent.
use gpti84_plus.Base.{ℕ, ◌≤◌, ◌≡◌, ◌≢◌, List, [], ◌++◌, Option, some, Bool, ne→==_false, length}
use gpti84_plus.Base.Bytes.{Bytes}
use gpti84_plus.Command
use gpti84_plus.Link.{steady}
use gpti84_plus.Wire.Laws.{heard, bits_of, heard-append, heard-bits_of}
use gpti84_plus.Packet.{packet_bytes, pc_id_for}
use gpti84_plus.Packet.Machine.{pc_id_for-IsByte, pc_id_for-ne_ti82}
use gpti84_plus.VarTypes.{make_var_header}
use gpti84_plus.Transfer.{
  send_var, recv_var, req_var, respond_to_req, proto_of, header_type, header_name,
}
use gpti84_plus.Transfer.Steady.{IsBody, frame}
use gpti84_plus.Transfer.SendVar.{send_var-steady, closing}
use gpti84_plus.Transfer.Receive.{taking, recv_var-steady}
use gpti84_plus.Transfer.Request.{req_var-steady, respond_to_req-steady}

abbrev bare : ℕ → ℕ → Bytes
bare cmd machine = packet_bytes cmd [] machine

-- What the receiver of a `send_var` to `calc` sends back.
abbrev pub answers : ℕ → List Bool
answers calc = taking (pc_id_for (pc_id_for calc))

abbrev pub transfer : ℕ → Bytes → Bytes → List Bool
transfer calc hdr bs =
    bits_of (packet_bytes Command.rts hdr (pc_id_for calc))
    ++ (bits_of (packet_bytes Command.ack [] (pc_id_for calc))
        ++ (bits_of (packet_bytes Command.data_cmd bs (pc_id_for calc)) ++ closing calc))

-- A variable sent by `send_var`, to any calculator but a TI-82, arrives at a `recv_var` that hears what
-- `send_var` sends and is heard by it: both succeed, the receiver has the header and the data as they
-- were given, and neither leaves a bit unread.
pub send_var-recv_var :
    (type_id calc : ℕ) (name8 hdr bs : Bytes)
    → calc ≢ 0x82
    → make_var_header (length bs) type_id name8 (proto_of calc) ≡ some hdr
    → IsBody hdr
    → IsBody bs
    → (send_var type_id name8 bs calc (steady (heard (answers calc) []) [])
        ≡ some (some tt, steady [] (transfer calc hdr bs)))
      × (recv_var (steady (heard (transfer calc hdr bs) []) [])
          ≡ (some (hdr, bs), steady [] (answers calc)))
send_var-recv_var type_id calc name8 hdr bs ne made hh hb =
    let m = pc_id_for (pc_id_for calc) in
    let got = recv_var-steady (pc_id_for calc) (pc_id_for-IsByte calc) hdr bs [] [] hh hb in
    (
      simp (heard-append, heard-bits_of)
          (send_var-steady calc m bs (pc_id_for-IsByte _) [] type_id name8 hdr [] made),
      rw (ne→==_false calc 0x82 ne) (
          simp (heard-append, heard-bits_of)
            (rw (ne→==_false (pc_id_for calc) 0x82 (pc_id_for-ne_ti82 calc)) at got)),
    )

-- What `req_var` sends, and what the answering side sends back.
abbrev pub request : ℕ → Bytes → List Bool
request calc hdr =
    bits_of (packet_bytes Command.req hdr (pc_id_for calc)) ++ taking (pc_id_for calc)

abbrev pub supply : ℕ → Bytes → Bytes → List Bool
supply pc var_hdr bs =
    bits_of (packet_bytes Command.ack [] pc)
    ++ (bits_of (packet_bytes Command.var var_hdr pc)
        ++ (bits_of (packet_bytes Command.ack [] pc)
            ++ (bits_of (packet_bytes Command.data_cmd bs pc)
                ++ bits_of (packet_bytes Command.eot [] pc))))

-- A `req_var` whose REQ is answered by `respond_to_req` returns the payload that the callback holds
-- for that type and name, under the header that the answering side builds. The EOT that the answering
-- side sends at the end is left unread.
pub req_var-respond_to_req :
    (type_id calc : ℕ) (name8 hdr var_hdr bs : Bytes) (on_req : ℕ → Bytes → Option Bytes)
    → IsBody var_hdr
    → IsBody bs
    → 11 ≤ length hdr
    → make_var_header 0 type_id name8 (proto_of calc) ≡ some hdr
    → on_req (header_type hdr) (header_name hdr) ≡ some bs
    → make_var_header (length bs) (header_type hdr) (header_name hdr) (proto_of (pc_id_for calc))
      ≡ some var_hdr
    → let pc = pc_id_for (pc_id_for calc) in
      (req_var type_id name8 calc (steady (heard (supply pc var_hdr bs) []) [])
        ≡ some (some (var_hdr, bs), steady (frame Command.eot [] pc []) (request calc hdr)))
      × (respond_to_req (pc_id_for calc) hdr on_req (steady (heard (taking (pc_id_for calc)) []) [])
          ≡ (some tt, steady [] (supply pc var_hdr bs)))
req_var-respond_to_req type_id calc name8 hdr var_hdr bs on_req hv hb long made held answered =
    let pc = pc_id_for (pc_id_for calc) in
    let h0 = pc_id_for-IsByte calc in
    let h = pc_id_for-IsByte (pc_id_for calc) in
    (
      simp (heard-append, heard-bits_of)
          (req_var-steady pc h calc type_id name8 hdr var_hdr bs (frame Command.eot [] pc []) [] hv
            hb made),
      simp (heard-append, heard-bits_of)
          (respond_to_req-steady (pc_id_for calc) h0 hdr bs var_hdr on_req [] [] long held
            answered),
    )
