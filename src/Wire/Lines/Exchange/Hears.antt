-- ===== src/Wire/Lines/Exchange/Hears.antt =====
-- What a move of the receiver does to its place against the sender, and what it has heard.
use gpti84_plus.Base.{
  List, [], ◌∷◌, ◌++◌, Bool, true, false, both, ◌≡◌, ◌≢◌, ◌∙◌, sym, ap, refl, Option, none, some,
  ◌⊎◌, inl, inr,
}
use mathlib.Core.Path.{subst}
use gpti84_plus.Wire.Lines.{
  Sending, pulling, awaiting_ack, acked, giving_up, awaiting_release, sent, Receiving, looking,
  saw_tip, Pins, level, found, acking, letting_go, received, World, put_receiver, recv_step,
  receiver_moves, start,
}
use gpti84_plus.Wire.Lines.Agrees.{agrees, idle, receiver_pins}
use gpti84_plus.Wire.Lines.Table.{receiver_moves-Keeps}
use gpti84_plus.Wire.Lines.Handshake.{table, heard_at}
use gpti84_plus.Wire.Lines.Exchange.{
  Exchange, opening, receiver_goes_on, receiver_turn, Flow, here, by_sender, by_receiver,
}
use gpti84_plus.Wire.Lines.Exchange.Phases.{
  ahead, ahead-IsClosed, releasing, unanswered, has_returned,
}
use gpti84_plus.Wire.Lines.Exchange.Order.{
  current, AtRest, Phase, level_with, ahead_of, behind_of, PhaseOf, next_AtRest, sender_turn-Phase,
}

-- No `recv_bit` has returned.
abbrev pub Busy : Receiving → Type 0
Busy r = (o : Option Bool) → r ≢ received o

pub receiver_cases :
    (r : Receiving)
    → ((o : Option Bool) × (r ≡ received o))
      ⊎ (Busy r
          × ((late : Bool) (e : Exchange)
              → receiver_goes_on late e r ≡ record e { world = receiver_moves late e.world }))
receiver_cases looking = inr (λ o e. cc, λ late e. refl)
receiver_cases (saw_tip t) = inr (λ o e. cc, λ late e. refl)
receiver_cases (found x) = inr (λ o e. cc, λ late e. refl)
receiver_cases (acking x) = inr (λ o e. cc, λ late e. refl)
receiver_cases (letting_go x) = inr (λ o e. cc, λ late e. refl)
receiver_cases (received o) = inl (o, refl)

put_receiver-sender : (w : World) (m : Receiving × Pins) → (put_receiver w m).sender ≡ w.sender
put_receiver-sender w (r, p) = refl

receiver_moves-sender : (late : Bool) (w : World) → (receiver_moves late w).sender ≡ w.sender
unfolding receiver_moves
receiver_moves-sender late w =
    put_receiver-sender w (recv_step late (level w.s_pins w.r_pins) w.receiver w.r_pins)

AtRest-sender : (bs : List Bool) (v w : World) → v.sender ≡ w.sender → AtRest bs w → AtRest bs v
AtRest-sender [] v w e h = e ∙ h
AtRest-sender (b ∷ bs) v w e h = tt

received_on :
    (late : Bool) (bits todo got : List Bool) (w : World)
    → Busy w.receiver
    → Phase bits todo got w
    → Phase bits todo got (receiver_moves late w)
received_on late bits todo got w busy (level_with done e g k h) =
    level_with done e g (receiver_moves-Keeps agrees table (current todo) late w k)
      (AtRest-sender todo (receiver_moves late w) w (receiver_moves-sender late w) h)
received_on late bits todo got w busy (ahead_of done e g k h) =
    ahead_of done e g (receiver_moves-Keeps ahead ahead-IsClosed (current todo) late w k) h
received_on late bits todo got w busy (behind_of x e k r h) = absurd (busy (some x) r)

-- Only a sender whose bit is acknowledged is heard.
releasing_at :
    (b x : Bool) (s : Sending) → agrees b s (received (some x)) ≡ true → releasing s ≡ true
releasing_at b x pulling e = cc
releasing_at b x awaiting_ack e = cc
releasing_at b x acked e = cc
releasing_at b x giving_up e = cc
releasing_at b x awaiting_release e = refl
releasing_at b x (sent ok) e = refl

looking_at : (b : Bool) (s : Sending) → unanswered s ≡ true → agrees b s looking ≡ true
looking_at b pulling e = refl
looking_at b awaiting_ack e = refl
looking_at b acked e = cc
looking_at b giving_up e = refl
looking_at b awaiting_release e = cc
looking_at b (sent true) e = cc
looking_at b (sent false) e = refl

-- `recv_bit` has returned a bit.
received_some :
    (x : Bool) (bits todo got : List Bool) (w : World)
    → w.receiver ≡ received (some x)
    → Phase bits todo got w
    → Phase bits todo (got ++ (x ∷ [])) (record w { receiver = looking })
received_some x bits [] got w r (level_with done e g k h) =
    let wrong = subst (λ s. agrees false s w.receiver ≡ true) h k.pair in
    cc (subst (λ r. agrees false pulling r ≡ true) r wrong)
received_some x bits (b ∷ bs) got w r (level_with done e g k h) =
    let pair = subst (λ r. agrees b w.sender r ≡ true) r k.pair in
    ahead_of done e
      (ap (λ l. l ++ (x ∷ [])) g ∙ ap (λ y. done ++ (y ∷ [])) (heard_at b x w.sender pair))
      (record {
        pair = rw (releasing_at b x w.sender pair) refl;
        s_line = k.s_line;
        r_line = k.r_line ∙ ap receiver_pins r;
      })
      tt
received_some x bits todo got w r (ahead_of done e g k h) =
    let quiet = (both (releasing w.sender) (idle w.receiver) k.pair).1 in
    cc (subst (λ r. idle r ≡ true) r quiet)
received_some x bits todo got w r (behind_of y e k q h) =
    let same : some y ≡ some x = cc (q, r) in
    level_with (got ++ (x ∷ [])) (ap (λ o. (got ++ (unwrap o ∷ [])) ++ todo) (sym same) ∙ e) refl
      (record {
        pair =
            looking_at (current todo) w.sender
              (both (unanswered w.sender) (has_returned w.receiver) k.pair).0;
        s_line = k.s_line;
        r_line = k.r_line ∙ ap receiver_pins r;
      })
      (AtRest-sender todo (record w { receiver = looking }) w refl h)
  where
    unwrap : Option Bool → Bool
    unwrap none = false
    unwrap (some x) = x

receiver_stops :
    (o : Option Bool) (late : Bool) (bits todo got : List Bool) (w : World)
    → w.receiver ≡ received o
    → Phase bits todo got w
    → PhaseOf bits
        (receiver_goes_on late (record { todo = todo; got = got; world = w }) (received o))
receiver_stops none late bits todo got w r p = p
receiver_stops (some x) late bits todo got w r p = received_some x bits todo got w r p

pub receiver_turn-Phase :
    (late : Bool) (bits : List Bool) (e : Exchange)
    → PhaseOf bits e
    → PhaseOf bits (receiver_turn late e)
unfolding receiver_turn
receiver_turn-Phase late bits e p = elim (receiver_cases e.world.receiver) [
  | inl (o, r) ↦
      subst (λ t. PhaseOf bits (receiver_goes_on late e t)) (sym r)
        (receiver_stops o late bits e.todo e.got e.world r p)
  | inr (busy, h) ↦
      subst (PhaseOf bits) (sym (h late e)) (received_on late bits e.todo e.got e.world busy p)
]

opening-Phase : (bits : List Bool) → PhaseOf bits (opening bits)
opening-Phase bits =
    level_with [] refl refl (record { pair = refl; s_line = refl; r_line = refl })
      (next_AtRest bits start)

pub Flow-Phase : {bits : List Bool} {e : Exchange} → Flow bits e → PhaseOf bits e
Flow-Phase {bits} here = opening-Phase bits
Flow-Phase {bits} (by_sender {e} late f) = sender_turn-Phase late bits e (Flow-Phase f)
Flow-Phase {bits} (by_receiver {e} late f) = receiver_turn-Phase late bits e (Flow-Phase f)

-- The bits that `recv_bit` has returned, the one included that its caller has not seen.
abbrev pub returned : Exchange → Receiving → List Bool
returned e (received (some x)) = e.got ++ (x ∷ [])
returned e (received none) = e.got
returned e looking = e.got
returned e (saw_tip t) = e.got
returned e (found x) = e.got
returned e (acking x) = e.got
returned e (letting_go x) = e.got

abbrev pub returned_bits : Exchange → List Bool
returned_bits e = returned e e.world.receiver
