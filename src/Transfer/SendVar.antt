-- ===== src/Transfer/SendVar.antt =====
-- `send_var`: the whole exchange on a steady link, and what success and refusal mean.
use gpti84_plus.Base.{
  ℕ, ◌≡◌, ◌∙◌, refl, ap, List, [], ◌++◌, append-nil, append_assoc, Option, none, some, Bool, true,
  false, ◌==◌, if◌then◌else◌, length, arith, ==_iff, Bool-cases, inl, inr,
}
use mathlib.Core.Option.{some-injective}
use gpti84_plus.Base.Bytes.{Bytes, IsByte}
use gpti84_plus.Command
use gpti84_plus.Link.{Link, Io, pure, give_up, steady, continue-eq_some, guard-eq_some}
use gpti84_plus.Wire.Laws.{bits_of}
use gpti84_plus.Packet.{Packet, packet_bytes, pc_id_for, send_packet, recv_packet}
use gpti84_plus.Packet.Send.{send_packet-steady}
use gpti84_plus.VarTypes.{make_var_header}
use gpti84_plus.Transfer.{expect, send_data, send_with_header, send_var, proto_of, refuse}
use gpti84_plus.Transfer.Steady.{frame, recv_bare, expect_bare}

-- The EOT that closes a transfer, unless the calculator speaks the TI-82 protocol.
abbrev pub closing : ℕ → List Bool
closing calc_machine =
    if calc_machine == 0x82
    then []
    else bits_of (packet_bytes Command.eot [] (pc_id_for calc_machine))

module _ (calc machine : ℕ) (bs : Bytes) (hm : IsByte machine) (rest : List (Option Bool)) where
  send_data-steady :
      (sent : List Bool)
      → send_data calc (pc_id_for calc) bs (steady (frame Command.ack [] machine rest) sent) ≡ (
        some tt,
        steady rest (
            sent
            ++ (bits_of (packet_bytes Command.ack [] (pc_id_for calc))
                ++ (bits_of (packet_bytes Command.data_cmd bs (pc_id_for calc)) ++ closing calc))),
      )
  unfolding send_data
  send_data-steady sent = rw send_packet-steady (
      rw send_packet-steady (
        rw (recv_bare Command.ack machine (omega arith) hm) (elim (Bool-cases (calc == 0x82)) [
          | inl e ↦ rw e (simp (append-nil, append_assoc))
          | inr e ↦ rw e (rw send_packet-steady (simp append_assoc))
        ])))

  -- The exchange that succeeds. The calculator answers ACK, CTS and ACK; `send_var` has then put
  -- RTS with the header, ACK, DATA, and the closing EOT on the wire, in this order, and succeeds.
  pub send_var-steady :
      (type_id : ℕ) (name8 hdr : Bytes) (sent : List Bool)
      → make_var_header (length bs) type_id name8 (proto_of calc) ≡ some hdr
      → send_var type_id name8 bs calc (
          steady
            (frame Command.ack [] machine
              (frame Command.cts [] machine (frame Command.ack [] machine rest)))
            sent)
        ≡ some (
          some tt,
          steady rest (
              sent
              ++ (bits_of (packet_bytes Command.rts hdr (pc_id_for calc))
                  ++ (bits_of (packet_bytes Command.ack [] (pc_id_for calc))
                      ++ (bits_of (packet_bytes Command.data_cmd bs (pc_id_for calc))
                          ++ closing calc)))),
        )
  unfolding send_var send_with_header
  send_var-steady type_id name8 hdr sent e = rw e (
      rw send_packet-steady (
        rw (expect_bare Command.ack machine (omega arith) hm) (
          rw (recv_bare Command.cts machine (omega arith) hm)
            (rw send_data-steady (simp append_assoc)))))

  -- A calculator that answers ACK and then SKIP gets an ACK and no DATA packet, and `send_var` fails.
  pub send_var_skipped :
      (type_id : ℕ) (name8 hdr : Bytes) (sent : List Bool)
      → make_var_header (length bs) type_id name8 (proto_of calc) ≡ some hdr
      → send_var type_id name8 bs calc
          (steady (frame Command.ack [] machine (frame Command.skip [] machine rest)) sent)
        ≡ some (
          none,
          steady rest (
              sent
              ++ (bits_of (packet_bytes Command.rts hdr (pc_id_for calc))
                  ++ bits_of (packet_bytes Command.ack [] (pc_id_for calc)))),
        )
  unfolding send_var send_with_header
  send_var_skipped type_id name8 hdr sent e = rw e (
      rw send_packet-steady (
        rw (expect_bare Command.ack machine (omega arith) hm) (
          rw (recv_bare Command.skip machine (omega arith) hm)
            (rw send_packet-steady (simp append_assoc)))))

-- The call delivers a packet with this command, and leaves the link `m`.
abbrev pub Delivers : Link → ℕ → Link → Type 0
Delivers l cmd m = (p : Packet) × (recv_packet l ≡ (some p, m)) × (p.cmd ≡ cmd)

delivered :
    (cmd : ℕ) (l : Link) (q : Packet) (k : Link) {m : Link}
    → recv_packet l ≡ (some q, k)
    → (q.cmd == cmd) ≡ true
    → k ≡ m
    → Delivers l cmd m
delivered cmd l q k heard same e = (q, heard ∙ ap (λ x. (some q, x)) e, (==_iff q.cmd cmd).0 same)

expect-Delivers :
    (cmd : ℕ) (l : Link) {p : Packet} {m : Link} → expect cmd l ≡ (some p, m) → Delivers l cmd m
unfolding expect
expect-Delivers cmd l {p} {m} e =
    let (q, k, heard, later) = continue-eq_some _ (recv_packet l) e in
    let (same, done) = guard-eq_some (q.cmd == cmd) (pure q) k later in
    delivered cmd l q k heard same (cc done)

-- After a refusal there is no success.
answer-eq_some :
    (pc : ℕ) (skipped wanted : Bool) (next : Io (Unit {0})) (l : Link) {m : Link}
    → (if skipped then refuse pc else if wanted then next else give_up) l ≡ (some tt, m)
    → (wanted ≡ true) × (next l ≡ (some tt, m))
unfolding refuse
answer-eq_some pc true wanted next l e = cc
answer-eq_some pc false true next l e = (refl, e)
answer-eq_some pc false false next l e = cc

-- The steps that a successful `send_var` went through, with the link between them.
pub record Sent (calc : ℕ) (hdr bs : Bytes) (l : Link) : Type 0 where
  pub after_rts : Link
  pub after_ack : Link
  pub after_cts : Link
  pub after_answer : Link
  pub after_data : Link
  pub after_done : Link
  pub rts_sent : send_packet Command.rts hdr (pc_id_for calc) l ≡ (some tt, after_rts)
  pub ack_came : Delivers after_rts Command.ack after_ack
  pub cts_came : Delivers after_ack Command.cts after_cts
  pub ack_sent : send_packet Command.ack [] (pc_id_for calc) after_cts ≡ (some tt, after_answer)
  pub data_sent :
      send_packet Command.data_cmd bs (pc_id_for calc) after_answer ≡ (some tt, after_data)
  pub data_acked : Delivers after_data Command.ack after_done

-- `send_var` returns `True` only if, on any link, the calculator answered its RTS by ACK and CTS, and
-- its DATA by ACK, and took every bit of the three packets sent in between.
pub send_var-Sent :
    (type_id calc : ℕ) (name8 hdr bs : Bytes) (l : Link) {l' : Link}
    → make_var_header (length bs) type_id name8 (proto_of calc) ≡ some hdr
    → send_var type_id name8 bs calc l ≡ some (some tt, l')
    → Sent calc hdr bs l
unfolding send_var send_with_header send_data
send_var-Sent type_id calc name8 hdr bs l {l'} made e =
    let run = some-injective _ _ (rw made at e) in
    let (_, after_rts, rts_sent, e1) = continue-eq_some _ _ run in
    let (_, after_ack, ack_came, e2) = continue-eq_some _ _ e1 in
    let (c, after_cts, cts_came, e3) = continue-eq_some _ _ e2 in
    let (is_cts, e3') = answer-eq_some _ _ _ _ after_cts e3 in
    let (_, after_answer, ack_sent, e4) = continue-eq_some _ _ e3' in
    let (_, after_data, data_sent, e5) = continue-eq_some _ _ e4 in
    let (d, after_done, data_acked, e6) = continue-eq_some _ _ e5 in
    let (is_ack, _) = answer-eq_some _ _ _ _ after_done e6 in
    record {
      after_rts = after_rts;
      after_ack = after_ack;
      after_cts = after_cts;
      after_answer = after_answer;
      after_data = after_data;
      after_done = after_done;
      rts_sent = rts_sent;
      ack_came = expect-Delivers Command.ack after_rts ack_came;
      cts_came = delivered Command.cts after_ack c after_cts cts_came is_cts refl;
      ack_sent = ack_sent;
      data_sent = data_sent;
      data_acked = delivered Command.ack after_data d after_done data_acked is_ack refl;
    }

-- With a header that can be built, `send_var` raises no error.
pub send_var_made :
    (type_id calc : ℕ) (name8 bs hdr : Bytes) (l : Link)
    → make_var_header (length bs) type_id name8 (proto_of calc) ≡ some hdr
    → (r : Option (Unit {0}) × Link) × (send_var type_id name8 bs calc l ≡ some r)
unfolding send_var
send_var_made type_id calc name8 bs hdr l e = rw e (_, refl)
