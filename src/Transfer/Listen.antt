-- ===== src/Transfer/Listen.antt =====
-- `listen_loop` of src/transfer.py. Its callbacks act on a state of the caller's: `on_var` answers
-- `false` for an exception, which leaves the loop; `on_req` only looks up.
pub mod Ends
pub mod Delivery
pub mod Several
pub mod Requests
pub mod Keeps
mod Tests
use gpti84_plus.Base.{
  ℕ, zero, suc, ◌-◌, List, [], ◌∷◌, ◌++◌, Option, none, some, Bool, true, false, not, ◌&&◌, ◌==◌,
  ltb, if◌then◌else◌, length, replicate,
}
use gpti84_plus.Base.Bytes.{Bytes, same_bytes}
use gpti84_plus.Command
use gpti84_plus.Link.{Link}
use gpti84_plus.Packet.{Packet, pc_id_for, send_packet, recv_packet}
use gpti84_plus.Transfer.{
  is_opener, finish_recv_after_first_pkt, respond_to_req, header_type, header_name,
}

-- The `name` argument: `None`, a text, or the bytes of a name field.
pub data NameFilter : Type 0 where
  any_name : NameFilter
  text : Bytes → NameFilter
  field : Bytes → NameFilter

-- The field to compare with, if any; the outer `none` is the `ValueError`.
unfoldable pub filter_name8 : NameFilter → Option (Option Bytes)
filter_name8 any_name = some none
filter_name8 (text s) = some (some (s ++ replicate (8 - length s) 0))
filter_name8 (field f) = if length f == 8 then some (some f) else none

unfoldable pub type_passes : Option ℕ → ℕ → Bool
type_passes none got = true
type_passes (some t) got = got == t

unfoldable pub name_passes : Option Bytes → Bytes → Bool
name_passes none got = true
name_passes (some n) got = same_bytes got n

-- How one round of the loop ends.
pub data Round : Type 0 where
  again idle raised : Round

pub record Config (S : Type 0) : Type 0 where
  pub name8 : Option Bytes
  pub expected_type : Option ℕ
  pub on_var : Option (ℕ → Bytes → Bytes → Bytes → S → Bool × S)
  pub on_req : Option (ℕ → Bytes → Option Bytes)

-- The link and the caller's state after a round.
abbrev pub After : Type 0 → Type 0
After S = Round × Link × S

module _ {S : Type 0} where
  abbrev go_on : Link → S → After S
  go_on l s = (again, l, s)

  -- With no `on_var` the variable is only printed.
  pub call_on_var :
      Option (ℕ → Bytes → Bytes → Bytes → S → Bool × S) → Bytes → Bytes → Link → S → After S
  call_on_var none hdr bs l s = (again, l, s)
  call_on_var (some f) hdr bs l s =
      let r = f (header_type hdr) (header_name hdr) hdr bs s in
      ((if r.0 then again else raised), l, r.1)

  pub deliver : Config S → S → Option (Bytes × Bytes) × Link → After S
  unfolding call_on_var
  deliver c s (none, l) = (again, l, s)
  deliver c s (some (hdr, bs), l) =
      if ltb (length hdr) 11
      then (again, l, s)
      else if not (type_passes c.expected_type (header_type hdr))
      then (again, l, s)
      else if not (name_passes c.name8 (header_name hdr))
      then (again, l, s)
      else call_on_var c.on_var hdr bs l s

  -- The filter applies to a REQ whose header is long enough to hold a type and a name.
  is_filtered_req : Config S → Bytes → Bool
  is_filtered_req c body =
      not (ltb (length body) 11)
      && not
          (type_passes c.expected_type (header_type body) && name_passes c.name8 (header_name body))

  answer_req : Config S → (ℕ → Bytes → Option Bytes) → Packet → Link → S → After S
  unfolding is_filtered_req
  answer_req c on_req p l s =
      if is_filtered_req c p.body
      then go_on (send_packet Command.skip [] (pc_id_for p.machine) l).1 s
      else go_on (respond_to_req p.machine p.body on_req l).1 s

  -- A RDY, and any other opener that is not understood, is acknowledged.
  acknowledge : Packet → Link → S → After S
  acknowledge p l s = go_on (send_packet Command.ack [] (pc_id_for p.machine) l).1 s

  handle_other : Config S → Packet → Link → S → After S
  unfolding acknowledge deliver is_opener
  handle_other c p l s =
      if is_opener p.cmd then deliver c s (finish_recv_after_first_pkt p l) else acknowledge p l s

  handle_req : Option (ℕ → Bytes → Option Bytes) → Config S → Packet → Link → S → After S
  unfolding answer_req handle_other
  handle_req none c p l s = handle_other c p l s
  handle_req (some on_req) c p l s =
      if p.cmd == Command.req then answer_req c on_req p l s else handle_other c p l s

  pub handle_packet : Config S → Packet → Link → S → After S
  unfolding handle_req acknowledge
  handle_packet c p l s =
      if p.cmd == Command.rdy then acknowledge p l s else handle_req c.on_req c p l s

  -- A round that hears no packet ends the loop if a timeout is set.
  round : Bool → Config S → S → Option Packet × Link → After S
  unfolding handle_packet
  round forever c s (none, l) = if forever then (again, l, s) else (idle, l, s)
  round forever c s (some p, l) = handle_packet c p l s

  pub listen_round : Bool → Config S → Link → S → After S
  unfolding round
  listen_round forever c l s = round forever c s (recv_packet l)

-- How the loop ends: it returns, an exception leaves it, or the fuel is used up.
pub data Ending : Type 0 where
  returned raised_with out_of_fuel : Ending

module _ {S : Type 0} where
  pub listen_next : (Link → S → Ending × Link × S) → After S → Ending × Link × S
  listen_next loop (again, l, s) = loop l s
  listen_next loop (idle, l, s) = (returned, l, s)
  listen_next loop (raised, l, s) = (raised_with, l, s)

  -- `forever` stands for `timeout_ms=0`.
  pub listen_loop : ℕ → Bool → Config S → Link → S → Ending × Link × S
  unfolding listen_next
  listen_loop zero forever c l s = (out_of_fuel, l, s)
  listen_loop (suc fuel) forever c l s =
      listen_next (λ l s. listen_loop fuel forever c l s) (listen_round forever c l s)
