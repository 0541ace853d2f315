-- ===== src/Diag.antt =====
-- src/diag.py: the check for the silent mode, and the probe of what follows a RTS. The monitors
-- that only print what the lines do are not modelled.
pub mod Answers
use gpti84_plus.Base.{ℕ, List, [], Option, none, some, Bool, true, false, ◌==◌, if◌then◌else◌}
use gpti84_plus.Base.Bytes.{Bytes}
use gpti84_plus.Command
use gpti84_plus.Link.{Link, Io, give_up, continue, ◌>>=◌, ◌>>◌}
use gpti84_plus.Packet.{Packet, pc_id_for, send_packet, recv_packet}
use gpti84_plus.Transfer.{Call, with_header, proto_of}
use gpti84_plus.VarTypes.{make_var_header}
use gpti84_plus.Wire.Reads.{recv_n_traced}

-- `RDY` is sent, and a packet comes back.
abbrev pub ask_ready : ℕ → Io Packet
ask_ready pc_machine = do send_packet Command.rdy [] pc_machine; recv_packet

abbrev pub is_ack : Option Packet × Link → Bool × Link
is_ack (none, l) = (false, l)
is_ack (some p, l) = (p.cmd == Command.ack, l)

pub ready_check : ℕ → Link → Bool × Link
ready_check calc_machine l = is_ack (ask_ready (pc_id_for calc_machine) l)

pub ready_check_82 : Link → Bool × Link
unfolding ready_check
ready_check_82 = ready_check 0x82

abbrev pub traced : ℕ → Io Bytes
traced n l = (some (recv_n_traced n [] l).0, (recv_n_traced n [] l).1)

abbrev pub probe_with_header : ℕ → ℕ → Bytes → Io Bytes
probe_with_header calc_machine traced_bytes hdr = do
  send_packet Command.rts hdr (pc_id_for calc_machine)
  p ← recv_packet
  if p.cmd == Command.ack then traced traced_bytes else give_up

pub probe_rts_reply : ℕ → Bytes → ℕ → ℕ → ℕ → Call Bytes
probe_rts_reply type_id name8 data_len calc_machine traced_bytes =
    with_header (probe_with_header calc_machine traced_bytes)
      (make_var_header data_len type_id name8 (proto_of calc_machine))
