-- ===== src/Transfer.antt =====
-- src/transfer.py: the variable transfers, each as an action on the link. Pauses, timeouts and log
-- output are not modelled: a timeout is an answer `none` of the link.
pub mod Steady
pub mod Waiting
mod Tests
pub mod SendVar
pub mod Receive
pub mod Request
pub mod Loopback
pub mod Listen
pub mod Shortcuts
use gpti84_plus.Base.{
  ℕ, List, [], ◌∷◌, ◌++◌, Option, none, some, Bool, true, false, ◌==◌, ltb, if◌then◌else◌, length,
  take, drop, get_or,
}
use gpti84_plus.Base.Bytes.{Bytes}
use gpti84_plus.Command
use gpti84_plus.Link.{Link, Io, pure, give_up, continue, ◌>>=◌, ◌>>◌, attempt}
use gpti84_plus.Packet.{Packet, pc_id_for, send_packet, recv_packet}
use gpti84_plus.VarTypes.{make_var_header}

-- `p = recv_packet(); if p is None: ...; if cmd != c: ...`
pub expect : ℕ → Io Packet
expect c = do p ← recv_packet; if p.cmd == c then pure p else give_up

-- `82 if calc_machine == 0x82 else 83`
abbrev pub proto_of : ℕ → ℕ
proto_of calc_machine = if calc_machine == 0x82 then 82 else 83

-- A call that builds a variable header first: `none` is the `ValueError` of `make_var_header`, which
-- is raised before anything is sent.
abbrev pub Call : Type 0 → Type 0
Call A = Link → Option (Option A × Link)

abbrev pub with_header : {A : Type 0} → (Bytes → Io A) → Option Bytes → Call A
with_header f none l = none
with_header f (some hdr) l = some (f hdr l)

-- ACK, CTS, then the calculator's ACK and its DATA packet, which is acknowledged.
pub take_data : ℕ → Io Bytes
unfolding expect
take_data pc_machine = do
  send_packet Command.ack [] pc_machine
  send_packet Command.cts [] pc_machine
  expect Command.ack
  p ← expect Command.data_cmd
  send_packet Command.ack [] pc_machine
  pure p.body

-- Any packet will do for the EOT, but a TI-82 sends none.
recv_eot : ℕ → Io (Option Packet)
recv_eot machine = if machine == 0x82 then pure none else (do p ← recv_packet; pure (some p))

is_opener : ℕ → Bool
is_opener cmd = if cmd == Command.rts then true else cmd == Command.var

pub recv_var : Io (Bytes × Bytes)
unfolding take_data recv_eot is_opener
recv_var = do
  p ← recv_packet
  if is_opener p.cmd
      then (do bs ← take_data (pc_id_for p.machine); recv_eot p.machine; pure (p.body, bs))
      else give_up

-- Here an EOT is optional on every machine.
pub finish_recv_after_first_pkt : Packet → Io (Bytes × Bytes)
unfolding take_data is_opener
finish_recv_after_first_pkt p =
    if is_opener p.cmd
    then (do bs ← take_data (pc_id_for p.machine); attempt recv_packet; pure (p.body, bs))
    else give_up

-- The calculator's refusal is acknowledged, and the transfer fails whether or not that arrives.
refuse : {A : Type 0} → ℕ → Io A
refuse pc_machine = do attempt (send_packet Command.ack [] pc_machine); give_up

-- `send_var` from its DATA packet on.
send_data : ℕ → ℕ → Bytes → Io (Unit {0})
unfolding refuse
send_data calc_machine pc_machine bs = do
  send_packet Command.ack [] pc_machine
  send_packet Command.data_cmd bs pc_machine
  p ← recv_packet
  if p.cmd == Command.skip
      then refuse pc_machine
      else if p.cmd == Command.ack
      then (if calc_machine == 0x82 then pure tt else send_packet Command.eot [] pc_machine)
      else give_up

send_with_header : ℕ → Bytes → Bytes → Io (Unit {0})
unfolding send_data refuse expect
send_with_header calc_machine bs hdr = do
  send_packet Command.rts hdr (pc_id_for calc_machine)
  expect Command.ack
  p ← recv_packet
  if p.cmd == Command.skip
      then refuse (pc_id_for calc_machine)
      else if p.cmd == Command.cts
      then send_data calc_machine (pc_id_for calc_machine) bs
      else give_up

pub send_var : ℕ → Bytes → Bytes → ℕ → Call (Unit {0})
unfolding send_with_header
send_var type_id name8 bs calc_machine =
    with_header (send_with_header calc_machine bs)
      (make_var_header (length bs) type_id name8 (proto_of calc_machine))

delete_with_header : ℕ → Bytes → Io (Unit {0})
unfolding expect
delete_with_header calc_machine hdr = do
  send_packet Command.del hdr (pc_id_for calc_machine)
  expect Command.ack
  expect Command.ack
  pure tt

pub delete_var : ℕ → Bytes → ℕ → Call (Unit {0})
unfolding delete_with_header
delete_var type_id name8 calc_machine =
    with_header (delete_with_header calc_machine)
      (make_var_header 0 type_id name8 (proto_of calc_machine))

request_with_header : ℕ → Bytes → Io (Bytes × Bytes)
unfolding refuse expect take_data
request_with_header calc_machine hdr = do
  send_packet Command.req hdr (pc_id_for calc_machine)
  p ← recv_packet
  if p.cmd == Command.skip
      then refuse (pc_id_for calc_machine)
      else if p.cmd == Command.ack
      then (do q ← expect Command.var; bs ← take_data (pc_id_for calc_machine); pure (q.body, bs))
      else give_up

pub req_var : ℕ → Bytes → ℕ → Call (Bytes × Bytes)
unfolding request_with_header
req_var type_id name8 calc_machine =
    with_header (request_with_header calc_machine)
      (make_var_header 0 type_id name8 (proto_of calc_machine))

-- The answer to the CTS, up to the EOT, which is sent under every protocol.
send_supply : ℕ → Bytes → Io (Unit {0})
unfolding expect
send_supply pc_machine payload = do
  send_packet Command.ack [] pc_machine
  send_packet Command.data_cmd payload pc_machine
  expect Command.ack
  send_packet Command.eot [] pc_machine

-- The answer to a REQ for a variable that is there.
send_requested : ℕ → Bytes → Bytes → Io (Unit {0})
unfolding send_supply
send_requested pc_machine payload var_hdr = do
  send_packet Command.ack [] pc_machine
  send_packet Command.var var_hdr pc_machine
  expect Command.ack
  p ← recv_packet
  if p.cmd == Command.skip
      then pure tt
      else if p.cmd == Command.cts
      then send_supply pc_machine payload
      else give_up

-- A name field of eight bytes always has a header, so the `ValueError` cannot occur here.
send_payload : ℕ → Option Bytes → Option Bytes → Io (Unit {0})
unfolding send_requested
send_payload pc_machine none var_hdr = do attempt (send_packet Command.skip [] pc_machine); pure tt
send_payload pc_machine (some payload) none = give_up
send_payload pc_machine (some payload) (some var_hdr) = send_requested pc_machine payload var_hdr

abbrev payload_size : Option Bytes → ℕ
payload_size none = 0
payload_size (some payload) = length payload

-- The type and the name in a header.
abbrev pub header_type : Bytes → ℕ
header_type hdr = get_or hdr 2 0

abbrev pub header_name : Bytes → Bytes
header_name hdr = take 8 (drop 3 hdr)

pub respond_to_req : ℕ → Bytes → (ℕ → Bytes → Option Bytes) → Io (Unit {0})
unfolding send_payload
respond_to_req machine hdr on_req =
    let payload = on_req (header_type hdr) (header_name hdr) in
    if ltb (length hdr) 11
    then give_up
    else send_payload (pc_id_for machine) payload (
        make_var_header (payload_size payload) (header_type hdr) (header_name hdr)
          (proto_of machine))
