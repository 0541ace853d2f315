-- ===== src/Wire/Lines/Handshake/Tests.antt =====
-- A bit on the lines, at concrete worlds.
use gpti84_plus.Base.{true, false, ◌≡◌, refl, some}
use gpti84_plus.Wire.Lines.{
  World, released, sent, received, start, Reach, here, by_sender, by_receiver, sender_moves,
  receiver_moves,
}
use gpti84_plus.Wire.Lines.Handshake.{turns, turns_complete}

abbrev whole : World
whole = turns 8 true start

whole_sent : whole.sender ≡ sent true
unfolding turns
whole_sent = refl

whole_received : whole.receiver ≡ received (some true)
unfolding turns
whole_received = refl

-- The receiver reads TIP, the sender pulls it, and the receiver reads RING.
abbrev crossed : World
crossed = receiver_moves false (sender_moves false false (receiver_moves false start))

crossed-Reach : Reach false crossed
crossed-Reach = by_receiver false (by_sender false (by_receiver false here))

turns_complete_example : turns 8 false crossed ≡ record {
  sender = sent true;
  s_pins = released;
  receiver = received (some false);
  r_pins = released;
}
unfolding sender_moves receiver_moves
turns_complete_example = turns_complete false crossed crossed-Reach refl refl
