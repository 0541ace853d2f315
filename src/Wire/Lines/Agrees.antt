-- ===== src/Wire/Lines/Agrees.antt =====
-- Which places of the two sides go together, and what they pull there.
use gpti84_plus.Base.{Bool, true, false, not, ◌||◌, ◌≡◌, refl, none, some}
use gpti84_plus.Wire.Lines.{
  Pins, released, pull_low, own, other, Sending, pulling, awaiting_ack, acked, giving_up,
  awaiting_release, sent, Receiving, looking, saw_tip, found, acking, letting_go, received,
}

abbrev pub same : Bool → Bool → Bool
same true b = b
same false b = not b

pub same-eq : (a b : Bool) → same a b ≡ true → a ≡ b
same-eq true true e = refl
same-eq false false e = refl
same-eq true false e = cc
same-eq false true e = cc

-- What the receiver can have seen of a bit `b` before it is pulled, while it is, while it is
-- acknowledged, once it is released, and when all is over.
abbrev pub idle : Receiving → Bool
idle looking = true
idle (saw_tip t) = t
idle (found x) = false
idle (acking x) = false
idle (letting_go x) = false
idle (received none) = true
idle (received (some x)) = false

abbrev seen : Bool → Receiving → Bool
seen b looking = true
seen b (saw_tip t) = t || not b
seen b (found x) = same x b
seen b (acking x) = same x b
seen b (letting_go x) = false
seen b (received none) = true
seen b (received (some x)) = false

abbrev acknowledges : Bool → Receiving → Bool
acknowledges b looking = false
acknowledges b (saw_tip t) = false
acknowledges b (found x) = false
acknowledges b (acking x) = same x b
acknowledges b (letting_go x) = false
acknowledges b (received r) = false

abbrev pub ended : Bool → Receiving → Bool
ended b looking = false
ended b (saw_tip t) = false
ended b (found x) = false
ended b (acking x) = false
ended b (letting_go x) = false
ended b (received none) = false
ended b (received (some x)) = same x b

abbrev lets_go : Bool → Receiving → Bool
lets_go b looking = false
lets_go b (saw_tip t) = false
lets_go b (found x) = false
lets_go b (acking x) = false
lets_go b (letting_go x) = same x b
lets_go b (received r) = false

abbrev takes : Bool → Receiving → Bool
takes b r = acknowledges b r || (lets_go b r || ended b r)

-- The places of the sender and of the receiver that go together.
abbrev pub agrees : Bool → Sending → Receiving → Bool
agrees b pulling r = idle r
agrees b awaiting_ack r = seen b r
agrees b acked r = acknowledges b r
agrees b giving_up r = seen b r
agrees b awaiting_release r = takes b r
agrees b (sent true) r = ended b r
agrees b (sent false) r = seen b r || takes b r

-- What each side pulls.
abbrev pub sender_pins : Bool → Sending → Pins
sender_pins b pulling = released
sender_pins b awaiting_ack = pull_low (own b) released
sender_pins b acked = pull_low (own b) released
sender_pins b giving_up = pull_low (own b) released
sender_pins b awaiting_release = released
sender_pins b (sent ok) = released

abbrev pub receiver_pins : Receiving → Pins
receiver_pins looking = released
receiver_pins (saw_tip t) = released
receiver_pins (found x) = released
receiver_pins (acking x) = pull_low (other x) released
receiver_pins (letting_go x) = pull_low (other x) released
receiver_pins (received r) = released
