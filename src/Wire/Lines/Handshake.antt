-- ===== src/Wire/Lines/Handshake.antt =====
-- What the two calls come to on the lines, whatever the order of their steps.
mod Tests
use gpti84_plus.Base.{
  ℕ, zero, suc, Bool, true, false, not, ◌&&◌, ◌≡◌, ◌∙◌, sym, ap, refl, List, [], ◌∷◌, Option, none,
  some, if◌then◌else◌,
}
use mathlib.Core.Path.{subst}
use gpti84_plus.Wire.Lines.{
  send_step, recv_step, Pins, released, Sending, pulling, awaiting_ack, acked, giving_up,
  awaiting_release, sent, send_step, Receiving, looking, saw_tip, found, acking, letting_go,
  received, recv_step, World, sender_moves, receiver_moves, start, Reach, here, by_sender,
  by_receiver,
}
use gpti84_plus.Wire.Lines.Agrees.{same-eq, agrees, ended, sender_pins, receiver_pins}
use gpti84_plus.Wire.Lines.Table.{
  IsClosed, Keeps, sender_moves-Keeps, receiver_moves-Keeps, for_all, bools, senders, receivers,
  at_bool, at_sender, at_receiver,
}

pub table : IsClosed agrees
unfolding send_step recv_step
table = refl

Reach-Keeps : {b : Bool} {w : World} → Reach b w → Keeps agrees b w
Reach-Keeps here = record { pair = refl; s_line = refl; r_line = refl }
Reach-Keeps {b} (by_sender {w} late h) = sender_moves-Keeps agrees table b late w (Reach-Keeps h)
Reach-Keeps {b} (by_receiver {w} late h) =
    receiver_moves-Keeps agrees table b late w (Reach-Keeps h)

-- Only the bit that is sent is received.
pub heard_at : (b x : Bool) (s : Sending) → agrees b s (received (some x)) ≡ true → x ≡ b
heard_at b x pulling e = cc
heard_at b x awaiting_ack e = cc
heard_at b x acked e = cc
heard_at b x giving_up e = cc
heard_at b x awaiting_release e = same-eq x b e
heard_at b x (sent true) e = same-eq x b e
heard_at b x (sent false) e = same-eq x b e

-- In whatever order the two sides move, and whichever deadlines pass, a bit that `recv_bit` returns
-- is the bit that `send_bit` was called with.
pub recv_bit_sound : (b x : Bool) (w : World) → Reach b w → w.receiver ≡ received (some x) → x ≡ b
recv_bit_sound b x w h e =
    let k = Reach-Keeps h in
    heard_at b x w.sender (subst (λ r. agrees b w.sender r ≡ true) e k.pair)

pub ended_at : (b : Bool) (r : Receiving) → ended b r ≡ true → r ≡ received (some b)
ended_at b looking e = cc
ended_at b (saw_tip t) e = cc
ended_at b (found x) e = cc
ended_at b (acking x) e = cc
ended_at b (letting_go x) e = cc
ended_at b (received none) e = cc
ended_at b (received (some x)) e = ap (λ y. received (some y)) (same-eq x b e)

-- If `send_bit` returns True, then `recv_bit` has already returned the bit, and no side pulls a line.
pub send_bit_sound :
    (b : Bool) (w : World)
    → Reach b w
    → w.sender ≡ sent true
    → (w.receiver ≡ received (some b)) × (w.s_pins ≡ released) × (w.r_pins ≡ released)
send_bit_sound b w h e =
    let k = Reach-Keeps h in
    let got = ended_at b w.receiver (subst (λ s. agrees b s w.receiver ≡ true) e k.pair) in
    (got, k.s_line ∙ ap (sender_pins b) e, k.r_line ∙ ap receiver_pins got)

-- The sides take turns, and no deadline passes.
pub turns : ℕ → Bool → World → World
unfolding sender_moves receiver_moves
turns zero b w = w
turns (suc n) b w = turns n b (receiver_moves false (sender_moves b false w))

-- `send_bit` has not given up, nor has `recv_bit`.
abbrev pub still_sending : Sending → Bool
still_sending pulling = true
still_sending awaiting_ack = true
still_sending acked = true
still_sending giving_up = false
still_sending awaiting_release = true
still_sending (sent ok) = ok

abbrev pub still_receiving : Receiving → Bool
still_receiving looking = true
still_receiving (saw_tip t) = true
still_receiving (found x) = true
still_receiving (acking x) = true
still_receiving (letting_go x) = true
still_receiving (received none) = false
still_receiving (received (some x)) = true

abbrev is_sent : Sending → Bool
is_sent pulling = false
is_sent awaiting_ack = false
is_sent acked = false
is_sent giving_up = false
is_sent awaiting_release = false
is_sent (sent ok) = ok

is_sent-eq : (s : Sending) → is_sent s ≡ true → s ≡ sent true
is_sent-eq pulling e = cc
is_sent-eq awaiting_ack e = cc
is_sent-eq acked e = cc
is_sent-eq giving_up e = cc
is_sent-eq awaiting_release e = cc
is_sent-eq (sent ok) e = ap sent e

abbrev world_at : Sending → Receiving → Bool → World
world_at s r b = record {
  sender = s;
  s_pins = sender_pins b s;
  receiver = r;
  r_pins = receiver_pins r;
}

abbrev finishes : Sending → Receiving → Bool → Bool
finishes s r b =
    if agrees b s r && (still_sending s && still_receiving r)
    then is_sent (turns 8 b (world_at s r b)).sender
    else true

all_finish : for_all (λ s. for_all (λ r. for_all (finishes s r) bools) receivers) senders ≡ true
unfolding turns
all_finish = refl

finish : (s : Sending) (r : Receiving) (b : Bool) → finishes s r b ≡ true
finish s r b = at_bool (finishes s r) b (
    at_receiver (λ r. for_all (finishes s r) bools) r
      (at_sender (λ s. for_all (λ r. for_all (finishes s r) bools) receivers) s all_finish))

pub Reach-turns : (n : ℕ) (b : Bool) (w : World) → Reach b w → Reach b (turns n b w)
unfolding turns
Reach-turns zero b w h = h
Reach-turns (suc n) b w h = Reach-turns n b _ (by_receiver false (by_sender false h))

world_known : (b : Bool) (w : World) → Keeps agrees b w → w ≡ world_at w.sender w.receiver b
world_known b w k =
    ap (λ p. record w { s_pins = p }) k.s_line
    ∙ ap (λ p. record w { s_pins = sender_pins b w.sender; r_pins = p }) k.r_line

-- The handshake never hangs: as long as neither side has given up, eight turns of both in which no
-- deadline passes are enough for `send_bit` to return True and `recv_bit` the bit, with both lines
-- released.
pub turns_complete :
    (b : Bool) (w : World)
    → Reach b w
    → still_sending w.sender ≡ true
    → still_receiving w.receiver ≡ true
    → turns 8 b w ≡ record {
      sender = sent true;
      s_pins = released;
      receiver = received (some b);
      r_pins = released;
    }
turns_complete b w h hs hr =
    let k = Reach-Keeps h in
    let runs : (if agrees b w.sender w.receiver
            && (still_sending w.sender && still_receiving w.receiver)
          then is_sent (turns 8 b (world_at w.sender w.receiver b)).sender
          else true)
        ≡ true =
      finish w.sender w.receiver b in
    let all_true : agrees b w.sender w.receiver
          && (still_sending w.sender && still_receiving w.receiver)
        ≡ true =
      rw k.pair (rw hs hr) in
    let ends =
      subst
        (λ t.
          (if t then is_sent (turns 8 b (world_at w.sender w.receiver b)).sender else true) ≡ true)
        all_true runs in
    let done =
      is_sent-eq _
        (subst (λ v. is_sent (turns 8 b v).sender ≡ true) (sym (world_known b w k)) ends) in
    let (got, s_line, r_line) = send_bit_sound b (turns 8 b w) (Reach-turns 8 b w h) done in
    ap (λ s. record (turns 8 b w) { sender = s }) done
    ∙ ap (λ p. record (turns 8 b w) { sender = sent true; s_pins = p }) s_line
    ∙ ap (λ r. record (turns 8 b w) { sender = sent true; s_pins = released; receiver = r }) got
    ∙ ap
        (λ p. record {
          sender = sent true;
          s_pins = released;
          receiver = received (some b);
          r_pins = p;
        })
        r_line
