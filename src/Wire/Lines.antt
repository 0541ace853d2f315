-- ===== src/Wire/Lines.antt =====
-- The two open-collector lines, and the bit calls of src/wire.py as state machines on them. One step
-- is one access of a pin. `late` tells whether the deadline has passed when the code looks.
pub mod Handshake
pub mod Agrees
pub mod Table
pub mod Exchange
use gpti84_plus.Base.{Bool, true, false, not, ◌&&◌, ◌||◌, Option, none, some, if◌then◌else◌}

-- TIP is the line of a 0, RING that of a 1.
pub data Line : Type 0 where
  tip ring : Line

-- Which lines one side pulls low. A line that it does not pull is an input.
pub record Pins : Type 0 where
  pub tip_low : Bool
  pub ring_low : Bool

abbrev pub released : Pins
released = record { tip_low = false; ring_low = false }

abbrev pub pull_low : Line → Pins → Pins
pull_low tip p = record p { tip_low = true }
pull_low ring p = record p { ring_low = true }

abbrev pub release : Line → Pins → Pins
release tip p = record p { tip_low = false }
release ring p = record p { ring_low = false }

-- A line is high when no side pulls it.
abbrev pub level : Pins → Pins → Line → Bool
level p q tip = not (p.tip_low || q.tip_low)
level p q ring = not (p.ring_low || q.ring_low)

-- The line on which a bit is sent, and the line on which it is acknowledged.
abbrev pub own : Bool → Line
own false = tip
own true = ring

abbrev pub other : Bool → Line
other false = ring
other true = tip

-- Where `send_bit` stands: the next thing that it does.
pub data Sending : Type 0 where
  pulling awaiting_ack acked giving_up awaiting_release : Sending
  sent : Bool → Sending

-- `send_bit` of the bit `b`, one step.
pub send_step : Bool → Bool → (Line → Bool) → Sending → Pins → Sending × Pins
send_step b late high pulling p = (awaiting_ack, pull_low (own b) p)
send_step b late high awaiting_ack p =
    if high (other b) then (if late then (giving_up, p) else (awaiting_ack, p)) else (acked, p)
send_step b late high acked p = (awaiting_release, release (own b) p)
send_step b late high giving_up p = (sent false, release (own b) p)
send_step b late high awaiting_release p =
    if high (other b)
    then (sent true, p)
    else if late
    then (sent false, p)
    else (awaiting_release, p)
send_step b late high (sent ok) p = (sent ok, p)

-- Where `recv_bit` stands: TIP is read first, then RING.
pub data Receiving : Type 0 where
  looking : Receiving
  saw_tip found acking letting_go : Bool → Receiving
  received : Option Bool → Receiving

-- `recv_bit`, one step. The bit is the level of TIP that was read.
pub recv_step : Bool → (Line → Bool) → Receiving → Pins → Receiving × Pins
recv_step late high looking p = (saw_tip (high tip), p)
recv_step late high (saw_tip t) p =
    if t && high ring then (if late then (received none, p) else (looking, p)) else (found t, p)
recv_step late high (found x) p = (acking x, pull_low (other x) p)
recv_step late high (acking x) p = if high (own x) then (letting_go x, p) else (acking x, p)
recv_step late high (letting_go x) p = (received (some x), release (other x) p)
recv_step late high (received r) p = (received r, p)

-- Both sides of the link.
pub record World : Type 0 where
  pub sender : Sending
  pub s_pins : Pins
  pub receiver : Receiving
  pub r_pins : Pins

abbrev put_sender : World → Sending × Pins → World
put_sender w (s, p) = record w { sender = s; s_pins = p }

abbrev put_receiver : World → Receiving × Pins → World
put_receiver w (r, p) = record w { receiver = r; r_pins = p }

pub sender_moves : Bool → Bool → World → World
unfolding send_step
sender_moves b late w = put_sender w (send_step b late (level w.s_pins w.r_pins) w.sender w.s_pins)

pub receiver_moves : Bool → World → World
unfolding recv_step
receiver_moves late w =
    put_receiver w (recv_step late (level w.s_pins w.r_pins) w.receiver w.r_pins)

-- Both calls start with the lines released.
abbrev pub start : World
start = record { sender = pulling; s_pins = released; receiver = looking; r_pins = released }

-- The sides move in any order, and a deadline may have passed at any time.
pub data Reach (b : Bool) : World → Type 0 where
  here : Reach b start
  by_sender : {w : World} (late : Bool) → Reach b w → Reach b (sender_moves b late w)
  by_receiver : {w : World} (late : Bool) → Reach b w → Reach b (receiver_moves late w)
