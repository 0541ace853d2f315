-- ===== src/Wire/Lines/Exchange.antt =====
-- One bit call after the other on both sides: the loops of `send_byte` and `recv_byte` on the lines.
mod Tests
pub mod Phases
pub mod Order
pub mod Hears
pub mod Sound
use gpti84_plus.Base.{List, [], ◌∷◌, ◌++◌, Bool, true, false, Option, none, some}
use gpti84_plus.Wire.Lines.{
  Sending, pulling, awaiting_ack, acked, giving_up, awaiting_release, sent, Receiving, looking,
  saw_tip, found, acking, letting_go, received, World, sender_moves, receiver_moves, start,
}

-- The bits that the sender has not got rid of, the one that `send_bit` is called with first, and the
-- bits that `recv_bit` has returned.
pub record Exchange : Type 0 where
  pub todo : List Bool
  pub got : List Bool
  pub world : World

abbrev pub opening : List Bool → Exchange
opening bits = record { todo = bits; got = []; world = start }

-- A `send_bit` that returned True is followed by the next; one that returned False is the last.
abbrev pub sender_goes_on : Bool → Bool → List Bool → Exchange → Sending → Exchange
sender_goes_on late b bs e (sent true) = record e {
  todo = bs;
  world = record e.world { sender = pulling };
}
sender_goes_on late b bs e (sent false) = e
sender_goes_on late b bs e pulling = record e { world = sender_moves b late e.world }
sender_goes_on late b bs e awaiting_ack = record e { world = sender_moves b late e.world }
sender_goes_on late b bs e acked = record e { world = sender_moves b late e.world }
sender_goes_on late b bs e giving_up = record e { world = sender_moves b late e.world }
sender_goes_on late b bs e awaiting_release = record e { world = sender_moves b late e.world }

abbrev sender_acts : Bool → List Bool → Exchange → Exchange
sender_acts late [] e = e
sender_acts late (b ∷ bs) e = sender_goes_on late b bs e e.world.sender

-- `for i in range(8): if not send_bit((b >> i) & 1, ...): return False`, one step
pub sender_turn : Bool → Exchange → Exchange
unfolding sender_moves
sender_turn late e = sender_acts late e.todo e

abbrev pub receiver_goes_on : Bool → Exchange → Receiving → Exchange
receiver_goes_on late e (received (some x)) = record e {
  got = e.got ++ (x ∷ []);
  world = record e.world { receiver = looking };
}
receiver_goes_on late e (received none) = e
receiver_goes_on late e looking = record e { world = receiver_moves late e.world }
receiver_goes_on late e (saw_tip t) = record e { world = receiver_moves late e.world }
receiver_goes_on late e (found x) = record e { world = receiver_moves late e.world }
receiver_goes_on late e (acking x) = record e { world = receiver_moves late e.world }
receiver_goes_on late e (letting_go x) = record e { world = receiver_moves late e.world }

-- `for i in range(8): bit = recv_bit(...); if bit is None: return None`, one step
pub receiver_turn : Bool → Exchange → Exchange
unfolding receiver_moves
receiver_turn late e = receiver_goes_on late e e.world.receiver

-- The sides move in any order, and a deadline may have passed at any time.
pub data Flow (bits : List Bool) : Exchange → Type 0 where
  here : Flow bits (opening bits)
  by_sender : {e : Exchange} (late : Bool) → Flow bits e → Flow bits (sender_turn late e)
  by_receiver : {e : Exchange} (late : Bool) → Flow bits e → Flow bits (receiver_turn late e)
