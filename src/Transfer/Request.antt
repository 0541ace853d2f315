-- ===== src/Transfer/Request.antt =====
-- `req_var` on a steady link, and `respond_to_req` as its peer.
use gpti84_plus.Base.{
  ℕ, ◌<◌, ◌≤◌, ◌≡◌, refl, List, [], ◌++◌, append_assoc, Option, none, some, Bool, lt→ltb,
  le→ltb_false, length, arith,
}
use gpti84_plus.Base.Bytes.{Bytes, IsByte}
use gpti84_plus.Command
use gpti84_plus.Link.{Link, steady}
use gpti84_plus.Wire.Laws.{bits_of}
use gpti84_plus.Packet.{packet_bytes, pc_id_for}
use gpti84_plus.Packet.Send.{send_packet-steady}
use gpti84_plus.VarTypes.{make_var_header}
use gpti84_plus.Transfer.{
  request_with_header, req_var, proto_of, respond_to_req, send_payload, send_requested, header_type,
  header_name,
}
use gpti84_plus.Transfer.Steady.{IsBody, frame, recv_bare, expect_bare, expect_full, var_has_body}
use gpti84_plus.Transfer.Receive.{taking, take_data-steady}

module _ (machine : ℕ) (hm : IsByte machine) where
  -- The calculator holds the variable: it acknowledges the REQ, and its VAR header and its data are
  -- returned as they were sent. The Pico sends REQ, ACK, CTS and ACK.
  pub req_var-steady :
      (calc type_id : ℕ) (name8 hdr var_hdr bs : Bytes) (rest : List (Option Bool))
      (sent : List Bool)
      → IsBody var_hdr
      → IsBody bs
      → make_var_header 0 type_id name8 (proto_of calc) ≡ some hdr
      → req_var type_id name8 calc (
          steady
            (frame Command.ack [] machine (
              frame Command.var var_hdr machine
                (frame Command.ack [] machine (frame Command.data_cmd bs machine rest))))
            sent)
        ≡ some (
          some (var_hdr, bs),
          steady rest (
              sent
              ++ (bits_of (packet_bytes Command.req hdr (pc_id_for calc))
                  ++ taking (pc_id_for calc))),
        )
  unfolding req_var request_with_header
  req_var-steady calc type_id name8 hdr var_hdr bs rest sent hv hb e = rw e (
      rw send_packet-steady (
        rw (recv_bare Command.ack machine (omega arith) hm) (
          rw (expect_full Command.var machine var_hdr (omega arith) hm var_has_body hv)
            (rw (take_data-steady machine hm (pc_id_for calc) bs rest _ hb) (simp append_assoc)))))

  -- The Pico holds the variable: it answers a REQ by ACK and VAR, and behind the calculator's ACK and
  -- CTS by ACK and DATA, and closes with an EOT behind the last ACK.
  pub respond_to_req-steady :
      (hdr payload var_hdr : Bytes) (on_req : ℕ → Bytes → Option Bytes) (rest : List (Option Bool))
      (sent : List Bool)
      → 11 ≤ length hdr
      → on_req (header_type hdr) (header_name hdr) ≡ some payload
      → make_var_header (length payload) (header_type hdr) (header_name hdr) (proto_of machine)
        ≡ some var_hdr
      → respond_to_req machine hdr on_req (
          steady
            (frame Command.ack [] machine
              (frame Command.cts [] machine (frame Command.ack [] machine rest)))
            sent)
        ≡ (
          some tt,
          steady rest (
              sent
              ++ (bits_of (packet_bytes Command.ack [] (pc_id_for machine))
                  ++ (bits_of (packet_bytes Command.var var_hdr (pc_id_for machine))
                      ++ (bits_of (packet_bytes Command.ack [] (pc_id_for machine))
                          ++ (bits_of (packet_bytes Command.data_cmd payload (pc_id_for machine))
                              ++ bits_of (packet_bytes Command.eot [] (pc_id_for machine))))))),
        )
  unfolding respond_to_req send_payload send_requested
  respond_to_req-steady hdr payload var_hdr on_req rest sent long held made =
      rw (le→ltb_false (length hdr) 11 long) (
        rw held (
          rw made (
            rw send_packet-steady (
              rw send_packet-steady (
                rw (expect_bare Command.ack machine (omega arith) hm) (
                  rw (recv_bare Command.cts machine (omega arith) hm) (
                    rw send_packet-steady (
                      rw send_packet-steady (
                        rw (expect_bare Command.ack machine (omega arith) hm)
                          (rw send_packet-steady (simp append_assoc)))))))))))

  -- A variable that is not there, by the callback's word, is refused by SKIP, which counts as a clean
  -- exchange.
  pub respond_to_req_missing :
      (hdr : Bytes) (on_req : ℕ → Bytes → Option Bytes) (incoming : List (Option Bool))
      (sent : List Bool)
      → 11 ≤ length hdr
      → on_req (header_type hdr) (header_name hdr) ≡ none
      → respond_to_req machine hdr on_req (steady incoming sent) ≡ (
        some tt,
        steady incoming (sent ++ bits_of (packet_bytes Command.skip [] (pc_id_for machine))),
      )
  unfolding respond_to_req send_payload
  respond_to_req_missing hdr on_req incoming sent long missing =
      rw (le→ltb_false (length hdr) 11 long) (rw missing (rw send_packet-steady refl))

  -- A REQ whose header is too short gets no answer at all.
  pub respond_to_req_short :
      (hdr : Bytes) (on_req : ℕ → Bytes → Option Bytes) (l : Link)
      → length hdr < 11
      → respond_to_req machine hdr on_req l ≡ (none, l)
  unfolding respond_to_req
  respond_to_req_short hdr on_req l short = rw (lt→ltb (length hdr) 11 short)

-- With a header that can be built, `req_var` raises no error.
pub req_var_made :
    (type_id calc : ℕ) (name8 hdr : Bytes) (l : Link)
    → make_var_header 0 type_id name8 (proto_of calc) ≡ some hdr
    → (r : Option (Bytes × Bytes) × Link) × (req_var type_id name8 calc l ≡ some r)
unfolding req_var
req_var_made type_id calc name8 hdr l e = rw e (_, refl)
