-- ===== src/Wire/Lines/Exchange/Phases.antt =====
-- How far the receiver is, against the sender: it has the same bits, one more or one less.
use gpti84_plus.Base.{Bool, true, false, ◌&&◌, refl, none, some, if◌then◌else◌}
use gpti84_plus.Wire.Lines.{
  Sending, pulling, awaiting_ack, acked, giving_up, awaiting_release, sent, send_step, Receiving,
  looking, saw_tip, found, acking, letting_go, received, recv_step,
}
use gpti84_plus.Wire.Lines.Agrees.{idle}
use gpti84_plus.Wire.Lines.Table.{Pairing, IsClosed}

-- The receiver has returned the bit that is being sent, and waits for the next.
abbrev pub releasing : Sending → Bool
releasing pulling = false
releasing awaiting_ack = false
releasing acked = false
releasing giving_up = false
releasing awaiting_release = true
releasing (sent ok) = true

abbrev pub ahead : Pairing
ahead b s r = releasing s && idle r

pub ahead-IsClosed : IsClosed ahead
unfolding send_step recv_step
ahead-IsClosed = refl

-- The receiver has returned the bit before, and its caller has not called it again.
abbrev pub unanswered : Sending → Bool
unanswered pulling = true
unanswered awaiting_ack = true
unanswered acked = false
unanswered giving_up = true
unanswered awaiting_release = false
unanswered (sent ok) = if ok then false else true

abbrev pub has_returned : Receiving → Bool
has_returned looking = false
has_returned (saw_tip t) = false
has_returned (found x) = false
has_returned (acking x) = false
has_returned (letting_go x) = false
has_returned (received none) = false
has_returned (received (some x)) = true

abbrev pub behind : Pairing
behind b s r = unanswered s && has_returned r

pub behind-IsClosed : IsClosed behind
unfolding send_step recv_step
behind-IsClosed = refl
