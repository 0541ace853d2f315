-- ===== src/Wire/Lines/Table.antt =====
-- Every move from a pair of places that go together leads to one.
use gpti84_plus.Base.{
  both, Bool, true, false, ◌&&◌, ◌≡◌, ◌∙◌, ap, List, [], ◌∷◌, All, none, some, if◌then◌else◌,
}
use mathlib.Core.Path.{subst}
use gpti84_plus.Wire.Lines.{
  Pins, level, Sending, pulling, awaiting_ack, acked, giving_up, awaiting_release, sent, send_step,
  Receiving, looking, saw_tip, found, acking, letting_go, received, recv_step, World, put_sender,
  put_receiver, sender_moves, receiver_moves,
}
use gpti84_plus.Wire.Lines.Agrees.{same, same-eq, sender_pins, receiver_pins}

abbrev same_pins : Pins → Pins → Bool
same_pins p q = same p.tip_low q.tip_low && same p.ring_low q.ring_low

same_pins-eq : (p q : Pins) → same_pins p q ≡ true → p ≡ q
same_pins-eq p q e =
    let (tips, rings) = both (same p.tip_low q.tip_low) (same p.ring_low q.ring_low) e in
    ap (λ t. record p { tip_low = t }) (same-eq p.tip_low q.tip_low tips)
    ∙ ap (λ r. record q { ring_low = r }) (same-eq p.ring_low q.ring_low rings)

abbrev pub for_all : {A : Type 0} → (A → Bool) → List A → Bool
for_all p [] = true
for_all p (x ∷ xs) = p x && for_all p xs

for_all-All :
    {A : Type 0} (p : A → Bool) (xs : List A) → for_all p xs ≡ true → All (λ x. p x ≡ true) xs
for_all-All p [] e = tt
for_all-All p (x ∷ xs) e = let (h, t) = both (p x) (for_all p xs) e in (h, for_all-All p xs t)

abbrev pub bools : List Bool
bools = false ∷ true ∷ []

abbrev pub senders : List Sending
senders =
    pulling ∷ awaiting_ack ∷ acked ∷ giving_up ∷ awaiting_release ∷ sent false ∷ sent true ∷ []

abbrev pub receivers : List Receiving
receivers =
    looking
    ∷ saw_tip false
    ∷ saw_tip true
    ∷ found false
    ∷ found true
    ∷ acking false
    ∷ acking true
    ∷ letting_go false
    ∷ letting_go true
    ∷ received none
    ∷ received (some false)
    ∷ received (some true)
    ∷ []

chosen_bool : (test : Bool → Bool) (x : Bool) → All (λ x. test x ≡ true) bools → test x ≡ true
chosen_bool test false h = h.0
chosen_bool test true h = h.1.0

chosen_sender :
    (test : Sending → Bool) (x : Sending) → All (λ x. test x ≡ true) senders → test x ≡ true
chosen_sender test pulling h = h.0
chosen_sender test awaiting_ack h = h.1.0
chosen_sender test acked h = h.1.1.0
chosen_sender test giving_up h = h.1.1.1.0
chosen_sender test awaiting_release h = h.1.1.1.1.0
chosen_sender test (sent false) h = h.1.1.1.1.1.0
chosen_sender test (sent true) h = h.1.1.1.1.1.1.0

chosen_receiver :
    (test : Receiving → Bool) (x : Receiving) → All (λ x. test x ≡ true) receivers → test x ≡ true
chosen_receiver test looking h = h.0
chosen_receiver test (saw_tip false) h = h.1.0
chosen_receiver test (saw_tip true) h = h.1.1.0
chosen_receiver test (found false) h = h.1.1.1.0
chosen_receiver test (found true) h = h.1.1.1.1.0
chosen_receiver test (acking false) h = h.1.1.1.1.1.0
chosen_receiver test (acking true) h = h.1.1.1.1.1.1.0
chosen_receiver test (letting_go false) h = h.1.1.1.1.1.1.1.0
chosen_receiver test (letting_go true) h = h.1.1.1.1.1.1.1.1.0
chosen_receiver test (received none) h = h.1.1.1.1.1.1.1.1.1.0
chosen_receiver test (received (some false)) h = h.1.1.1.1.1.1.1.1.1.1.0
chosen_receiver test (received (some true)) h = h.1.1.1.1.1.1.1.1.1.1.1.0

pub at_bool : (test : Bool → Bool) (x : Bool) → for_all test bools ≡ true → test x ≡ true
at_bool test x e = chosen_bool test x (for_all-All test bools e)

pub at_sender : (test : Sending → Bool) (x : Sending) → for_all test senders ≡ true → test x ≡ true
at_sender test x e = chosen_sender test x (for_all-All test senders e)

pub at_receiver :
    (test : Receiving → Bool) (x : Receiving) → for_all test receivers ≡ true → test x ≡ true
at_receiver test x e = chosen_receiver test x (for_all-All test receivers e)

-- Whether a place of the sender and one of the receiver go together while a bit is sent.
abbrev pub Pairing : Type 0
Pairing = Bool → Sending → Receiving → Bool

module _ (pairs : Pairing) where
  -- A move of either side from places that go together leads to such places, with the pins in order.
  abbrev sender_fits : Bool → Receiving → Sending × Pins → Bool
  sender_fits b r (s, p) = pairs b s r && same_pins p (sender_pins b s)

  abbrev receiver_fits : Bool → Sending → Receiving × Pins → Bool
  receiver_fits b s (r, p) = pairs b s r && same_pins p (receiver_pins r)

  abbrev moves_fit : Sending → Receiving → Bool → Bool → Bool
  moves_fit s r b late =
      let high = level (sender_pins b s) (receiver_pins r) in
      if pairs b s r
      then sender_fits b r (send_step b late high s (sender_pins b s))
        && receiver_fits b s (recv_step late high r (receiver_pins r))
      else true

  -- Checked over all places, bits and deadlines.
  abbrev pub IsClosed : Type 0
  IsClosed =
      for_all (λ s. for_all (λ r. for_all (λ b. for_all (moves_fit s r b) bools) bools) receivers)
        senders
      ≡ true

  -- A world that the moves keep to.
  pub record Keeps (b : Bool) (w : World) : Type 0 where
    pub pair : pairs b w.sender w.receiver ≡ true
    pub s_line : w.s_pins ≡ sender_pins b w.sender
    pub r_line : w.r_pins ≡ receiver_pins w.receiver

module _ (pairs : Pairing) (table : IsClosed pairs) where
  moves : (s : Sending) (r : Receiving) (b late : Bool) → moves_fit pairs s r b late ≡ true
  moves s r b late = at_bool (moves_fit pairs s r b) late (
      at_bool (λ b. for_all (moves_fit pairs s r b) bools) b
        (at_receiver (λ r. for_all (λ b. for_all (moves_fit pairs s r b) bools) bools) r
          (at_sender
            (λ s.
              for_all (λ r. for_all (λ b. for_all (moves_fit pairs s r b) bools) bools) receivers)
            s table)))

  fits :
      (s : Sending) (r : Receiving) (b late : Bool)
      → pairs b s r ≡ true
      → (sender_fits pairs b r
            (send_step b late (level (sender_pins b s) (receiver_pins r)) s (sender_pins b s))
          ≡ true)
        × (receiver_fits pairs b s
              (recv_step late (level (sender_pins b s) (receiver_pins r)) r (receiver_pins r))
            ≡ true)
  fits s r b late e = both _ _ (
      subst
        (λ t.
          (if t
            then sender_fits pairs b r
                (send_step b late (level (sender_pins b s) (receiver_pins r)) s (sender_pins b s))
              && receiver_fits pairs b s
                  (recv_step late (level (sender_pins b s) (receiver_pins r)) r (receiver_pins r))
            else true)
          ≡ true)
        e (moves s r b late))

  moved_sender :
      (b : Bool) (w : World) (m : Sending × Pins)
      → sender_fits pairs b w.receiver m ≡ true
      → w.r_pins ≡ receiver_pins w.receiver
      → Keeps pairs b (put_sender w m)
  moved_sender b w (s, p) e line =
      let (pair, pins) = both (pairs b s w.receiver) (same_pins p (sender_pins b s)) e in
      record { pair = pair; s_line = same_pins-eq p (sender_pins b s) pins; r_line = line }

  moved_receiver :
      (b : Bool) (w : World) (m : Receiving × Pins)
      → receiver_fits pairs b w.sender m ≡ true
      → w.s_pins ≡ sender_pins b w.sender
      → Keeps pairs b (put_receiver w m)
  moved_receiver b w (r, p) e line =
      let (pair, pins) = both (pairs b w.sender r) (same_pins p (receiver_pins r)) e in
      record { pair = pair; s_line = line; r_line = same_pins-eq p (receiver_pins r) pins }

  pub sender_moves-Keeps :
      (b late : Bool) (w : World) → Keeps pairs b w → Keeps pairs b (sender_moves b late w)
  unfolding sender_moves
  sender_moves-Keeps b late w k =
      moved_sender b w (send_step b late (level w.s_pins w.r_pins) w.sender w.s_pins)
        (rw k.s_line (rw k.r_line (fits w.sender w.receiver b late k.pair).0)) k.r_line

  pub receiver_moves-Keeps :
      (b late : Bool) (w : World) → Keeps pairs b w → Keeps pairs b (receiver_moves late w)
  unfolding receiver_moves
  receiver_moves-Keeps b late w k =
      moved_receiver b w (recv_step late (level w.s_pins w.r_pins) w.receiver w.r_pins)
        (rw k.s_line (rw k.r_line (fits w.sender w.receiver b late k.pair).1)) k.s_line
