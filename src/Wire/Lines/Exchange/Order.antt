-- ===== src/Wire/Lines/Exchange/Order.antt =====
-- The receiver is level with the sender, ahead or behind; what a move of the sender does to that.
use gpti84_plus.Base.{
  List, [], ◌∷◌, ◌++◌, append_assoc, Bool, true, false, both, ◌≡◌, ◌∙◌, sym, ap, refl, some, ◌⊎◌,
  inl, inr,
}
use mathlib.Core.Path.{subst}
use gpti84_plus.Wire.Lines.{
  Sending, pulling, awaiting_ack, acked, giving_up, awaiting_release, sent, Pins, level, received,
  World, put_sender, send_step, sender_moves,
}
use gpti84_plus.Wire.Lines.Agrees.{agrees, idle, sender_pins}
use gpti84_plus.Wire.Lines.Table.{Keeps, sender_moves-Keeps}
use gpti84_plus.Wire.Lines.Handshake.{table, ended_at}
use gpti84_plus.Wire.Lines.Exchange.{Exchange, sender_goes_on, sender_turn}
use gpti84_plus.Wire.Lines.Exchange.Phases.{
  ahead, ahead-IsClosed, releasing, behind, behind-IsClosed, unanswered, has_returned,
}

-- The bit that is being sent; behind the last one there is none, and the sender stays where it is.
abbrev pub current : List Bool → Bool
current [] = false
current (b ∷ bs) = b

abbrev pub AtRest : List Bool → World → Type 0
AtRest [] w = w.sender ≡ pulling
AtRest (b ∷ bs) w = Unit {0}

abbrev pub IsSending : List Bool → Type 0
IsSending [] = ⊥
IsSending (b ∷ bs) = Unit {0}

-- Of all bits, `done` are those whose `send_bit` has returned True.
pub data Phase (bits todo got : List Bool) (w : World) : Type 0 where
  level_with :
      (done : List Bool)
      → done ++ todo ≡ bits
      → got ≡ done
      → Keeps agrees (current todo) w
      → AtRest todo w
      → Phase bits todo got w
  ahead_of :
      (done : List Bool)
      → done ++ todo ≡ bits
      → got ≡ done ++ (current todo ∷ [])
      → Keeps ahead (current todo) w
      → IsSending todo
      → Phase bits todo got w
  behind_of :
      (x : Bool)
      → (got ++ (x ∷ [])) ++ todo ≡ bits
      → Keeps behind (current todo) w
      → w.receiver ≡ received (some x)
      → AtRest todo w
      → Phase bits todo got w

abbrev pub PhaseOf : List Bool → Exchange → Type 0
PhaseOf bits e = Phase bits e.todo e.got e.world

-- A sender that is in a call moves on the lines, and so does a receiver.
sender_cases :
    (s : Sending)
    → ((ok : Bool) × (s ≡ sent ok))
      ⊎ ((late b : Bool) (bs : List Bool) (e : Exchange)
          → sender_goes_on late b bs e s ≡ record e { world = sender_moves b late e.world })
sender_cases pulling = inr (λ late b bs e. refl)
sender_cases awaiting_ack = inr (λ late b bs e. refl)
sender_cases acked = inr (λ late b bs e. refl)
sender_cases giving_up = inr (λ late b bs e. refl)
sender_cases awaiting_release = inr (λ late b bs e. refl)
sender_cases (sent ok) = inl (ok, refl)

put_sender-receiver : (w : World) (m : Sending × Pins) → (put_sender w m).receiver ≡ w.receiver
put_sender-receiver w (s, p) = refl

sender_moves-receiver : (b late : Bool) (w : World) → (sender_moves b late w).receiver ≡ w.receiver
unfolding sender_moves
sender_moves-receiver b late w =
    put_sender-receiver w (send_step b late (level w.s_pins w.r_pins) w.sender w.s_pins)

pub next_AtRest : (bs : List Bool) (w : World) → AtRest bs (record w { sender = pulling })
next_AtRest [] w = refl
next_AtRest (b ∷ bs) w = tt

-- The sender moves on the lines.
sent_on :
    (late b : Bool) (bits bs got : List Bool) (w : World)
    → Phase bits (b ∷ bs) got w
    → Phase bits (b ∷ bs) got (sender_moves b late w)
sent_on late b bits bs got w (level_with done e g k h) =
    level_with done e g (sender_moves-Keeps agrees table b late w k) tt
sent_on late b bits bs got w (ahead_of done e g k h) =
    ahead_of done e g (sender_moves-Keeps ahead ahead-IsClosed b late w k) tt
sent_on late b bits bs got w (behind_of x e k r h) =
    behind_of x e (sender_moves-Keeps behind behind-IsClosed b late w k)
      (sender_moves-receiver b late w ∙ r) tt

-- A `send_bit` has returned True.
sent_true :
    (b : Bool) (bits bs got : List Bool) (w : World)
    → w.sender ≡ sent true
    → Phase bits (b ∷ bs) got w
    → Phase bits bs got (record w { sender = pulling })
sent_true b bits bs got w s (level_with done e g k h) =
    let r = ended_at b w.receiver (subst (λ s. agrees b s w.receiver ≡ true) s k.pair) in
    behind_of b (ap (λ l. (l ++ (b ∷ [])) ++ bs) g ∙ append_assoc done (b ∷ []) bs ∙ e)
      (record { pair = rw r refl; s_line = k.s_line ∙ ap (sender_pins b) s; r_line = k.r_line }) r
      (next_AtRest bs w)
sent_true b bits bs got w s (ahead_of done e g k h) =
    let (_, quiet) = both (releasing w.sender) (idle w.receiver) k.pair in
    level_with (done ++ (b ∷ [])) (append_assoc done (b ∷ []) bs ∙ e) g
      (record { pair = quiet; s_line = k.s_line ∙ ap (sender_pins b) s; r_line = k.r_line })
      (next_AtRest bs w)
sent_true b bits bs got w s (behind_of x e k r h) =
    let wrong = (both (unanswered w.sender) (has_returned w.receiver) k.pair).0 in
    cc (wrong, ap unanswered s)

sender_stops :
    (ok late b : Bool) (bits bs got : List Bool) (w : World)
    → w.sender ≡ sent ok
    → Phase bits (b ∷ bs) got w
    → PhaseOf bits
        (sender_goes_on late b bs (record { todo = b ∷ bs; got = got; world = w }) (sent ok))
sender_stops true late b bits bs got w s p = sent_true b bits bs got w s p
sender_stops false late b bits bs got w s p = p

pub sender_turn-Phase :
    (late : Bool) (bits : List Bool) (e : Exchange)
    → PhaseOf bits e
    → PhaseOf bits (sender_turn late e)
unfolding sender_turn
sender_turn-Phase late bits e p = go e.todo e.got e.world p
  where
    go :
        (t got : List Bool) (w : World)
        → Phase bits t got w
        → PhaseOf bits (sender_turn late (record { todo = t; got = got; world = w }))
    go [] got w p = p
    go (b ∷ bs) got w p = elim (sender_cases w.sender) [
      | inl (ok, s) ↦
          subst
            (λ t.
              PhaseOf bits
                (sender_goes_on late b bs (record { todo = b ∷ bs; got = got; world = w }) t))
            (sym s) (sender_stops ok late b bits bs got w s p)
      | inr h ↦
          subst (PhaseOf bits) (sym (h late b bs (record { todo = b ∷ bs; got = got; world = w })))
            (sent_on late b bits bs got w p)
    ]
