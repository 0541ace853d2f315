-- ===== src/Transfer/Listen/Requests.antt =====
-- A request that `listen_loop` hears.
use gpti84_plus.Base.{
  ℕ, ◌≤◌, ◌≡◌, ◌∙◌, refl, ap, List, [], ◌++◌, Option, some, Bool, true, false, ◌&&◌, le→ltb_false,
  length, arith,
}
use gpti84_plus.Base.Bytes.{Bytes, IsByte}
use gpti84_plus.Command
use gpti84_plus.Link.{steady}
use gpti84_plus.Wire.Laws.{bits_of}
use gpti84_plus.Packet.{packet_bytes, pc_id_for}
use gpti84_plus.Packet.Send.{send_packet-steady}
use gpti84_plus.VarTypes.{make_var_header}
use gpti84_plus.Transfer.{proto_of, header_type, header_name}
use gpti84_plus.Transfer.Steady.{IsBody, frame, packet, recv_full, req_has_body}
use gpti84_plus.Transfer.Request.{respond_to_req-steady}
use gpti84_plus.Transfer.Loopback.{supply}
use gpti84_plus.Transfer.Listen.{
  Config, again, type_passes, name_passes, is_filtered_req, answer_req, handle_req, handle_packet,
  round, listen_round,
}

-- What a calculator sends that asks for a variable and takes it.
abbrev pub asks : ℕ → Bytes → List (Option Bool) → List (Option Bool)
asks machine hdr rest = frame Command.req hdr machine (
    frame Command.ack [] machine (frame Command.cts [] machine (frame Command.ack [] machine rest)))

module _ {S : Type 0} (c : Config S) (on_req : ℕ → Bytes → Option Bytes) (forever : Bool) where
  round_req :
      (machine : ℕ) (hdr : Bytes) (rest : List (Option Bool)) (sent : List Bool) (s : S)
      → c.on_req ≡ some on_req
      → IsByte machine
      → IsBody hdr
      → listen_round forever c (steady (frame Command.req hdr machine rest) sent) s
        ≡ answer_req c on_req (packet Command.req hdr machine) (steady rest sent) s
  unfolding listen_round round handle_packet handle_req
  round_req machine hdr rest sent s has hm hh =
      rw (recv_full Command.req machine hdr (omega arith) hm req_has_body hh rest sent)
        (rw has refl)

  not_filtered :
      (hdr : Bytes)
      → type_passes c.expected_type (header_type hdr) && name_passes c.name8 (header_name hdr)
        ≡ true
      → is_filtered_req c hdr ≡ false
  unfolding is_filtered_req
  not_filtered hdr ok = ground arith

  -- The callback has the variable, and the filters let its type and name pass.
  pub listen_round_serves :
      (machine : ℕ) (hdr payload var_hdr : Bytes) (rest : List (Option Bool)) (sent : List Bool)
      (s : S)
      → c.on_req ≡ some on_req
      → IsByte machine
      → IsBody hdr
      → 11 ≤ length hdr
      → type_passes c.expected_type (header_type hdr) && name_passes c.name8 (header_name hdr)
        ≡ true
      → on_req (header_type hdr) (header_name hdr) ≡ some payload
      → make_var_header (length payload) (header_type hdr) (header_name hdr) (proto_of machine)
        ≡ some var_hdr
      → listen_round forever c (steady (asks machine hdr rest) sent) s
        ≡ (again, steady rest (sent ++ supply (pc_id_for machine) var_hdr payload), s)
  unfolding answer_req
  listen_round_serves machine hdr payload var_hdr rest sent s has hm hh long ok held made =
      round_req machine hdr _ sent s has hm hh
      ∙ rw (not_filtered hdr ok) (
          ap (λ r. (again, r.1, s))
            (respond_to_req-steady machine hm hdr payload var_hdr on_req rest sent long held made))

  -- A type or a name that does not pass the filters is refused.
  pub listen_round_refuses :
      (machine : ℕ) (hdr : Bytes) (rest : List (Option Bool)) (sent : List Bool) (s : S)
      → c.on_req ≡ some on_req
      → IsByte machine
      → IsBody hdr
      → 11 ≤ length hdr
      → type_passes c.expected_type (header_type hdr) && name_passes c.name8 (header_name hdr)
        ≡ false
      → listen_round forever c (steady (frame Command.req hdr machine rest) sent) s ≡ (
        again,
        steady rest (sent ++ bits_of (packet_bytes Command.skip [] (pc_id_for machine))),
        s,
      )
  unfolding answer_req is_filtered_req
  listen_round_refuses machine hdr rest sent s has hm hh long off =
      round_req machine hdr rest sent s has hm hh
      ∙ rw (le→ltb_false (length hdr) 11 long) (rw off (rw send_packet-steady refl))
