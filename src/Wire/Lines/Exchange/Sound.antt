-- ===== src/Wire/Lines/Exchange/Sound.antt =====
-- What a sender and a receiver of many bits know of each other.
use gpti84_plus.Base.{
  ℕ, List, [], ◌∷◌, ◌++◌, append-nil, append_assoc, Bool, true, false, both, ◌≡◌, ◌∙◌, sym, ap,
  refl, Option, none, some, ◌⊎◌, inl, inr,
}
use mathlib.Core.Path.{subst}
use gpti84_plus.Base.Bytes.{IsByte}
use gpti84_plus.Wire.{recv_byte}
use gpti84_plus.Wire.Laws.{byte_bits, heard, recv_byte-heard}
use gpti84_plus.Wire.Lines.{
  pulling, Receiving, looking, saw_tip, found, acking, letting_go, received, World,
}
use gpti84_plus.Wire.Lines.Agrees.{agrees, idle}
use gpti84_plus.Wire.Lines.Handshake.{heard_at}
use gpti84_plus.Wire.Lines.Exchange.{Exchange, Flow}
use gpti84_plus.Wire.Lines.Exchange.Phases.{releasing}
use gpti84_plus.Wire.Lines.Exchange.Order.{
  current, AtRest, IsSending, Phase, level_with, ahead_of, behind_of,
}
use gpti84_plus.Wire.Lines.Exchange.Hears.{returned, returned_bits, Flow-Phase}

returned-idle : (e : Exchange) (r : Receiving) → idle r ≡ true → returned e r ≡ e.got
returned-idle e looking h = refl
returned-idle e (saw_tip t) h = refl
returned-idle e (found x) h = cc
returned-idle e (acking x) h = cc
returned-idle e (letting_go x) h = cc
returned-idle e (received none) h = refl
returned-idle e (received (some x)) h = cc

module _ (bits got : List Bool) (w : World) where
  -- With the bits to come, as far as they have not been returned.
  abbrev Prefix : List Bool → Receiving → Type 0
  Prefix todo r =
      (rest : List Bool) × (returned (record { todo = todo; got = got; world = w }) r ++ rest
        ≡ bits)
      × (todo ≡ [] → rest ≡ [])

  level_Prefix :
      (todo : List Bool) (x : Bool)
      → got ++ todo ≡ bits
      → w.sender ≡ pulling ⊎ IsSending todo
      → agrees (current todo) w.sender (received (some x)) ≡ true
      → Prefix todo (received (some x))
  level_Prefix [] x e (inl rest) pair =
      cc (subst (λ s. agrees false s (received (some x)) ≡ true) rest pair)
  level_Prefix [] x e (inr sending) pair = elim sending [ ]
  level_Prefix (b ∷ bs) x e h pair = (
    bs,
    append_assoc got (x ∷ []) bs ∙ ap (λ y. got ++ (y ∷ bs)) (heard_at b x w.sender pair) ∙ e,
    λ q. cc,
  )

  level_cases :
      (todo : List Bool) (r : Receiving)
      → got ++ todo ≡ bits
      → w.sender ≡ pulling ⊎ IsSending todo
      → agrees (current todo) w.sender r ≡ true
      → Prefix todo r
  level_cases todo (received (some x)) e h pair = level_Prefix todo x e h pair
  level_cases todo (received none) e h pair = (todo, e, λ q. q)
  level_cases todo looking e h pair = (todo, e, λ q. q)
  level_cases todo (saw_tip t) e h pair = (todo, e, λ q. q)
  level_cases todo (found x) e h pair = (todo, e, λ q. q)
  level_cases todo (acking x) e h pair = (todo, e, λ q. q)
  level_cases todo (letting_go x) e h pair = (todo, e, λ q. q)

  rests : (todo : List Bool) → AtRest todo w → w.sender ≡ pulling ⊎ IsSending todo
  rests [] h = inl h
  rests (b ∷ bs) h = inr tt

  ahead_Prefix :
      (todo done : List Bool) (r : Receiving)
      → done ++ todo ≡ bits
      → got ≡ done ++ (current todo ∷ [])
      → idle r ≡ true
      → IsSending todo
      → Prefix todo r
  ahead_Prefix [] done r e g quiet sending = elim sending [ ]
  ahead_Prefix (b ∷ bs) done r e g quiet sending = (
    bs,
    ap (λ l. l ++ bs) (returned-idle (record { todo = b ∷ bs; got = got; world = w }) r quiet ∙ g)
        ∙ append_assoc done (b ∷ []) bs
        ∙ e,
    λ q. cc,
  )

  Phase-Prefix : (todo : List Bool) → Phase bits todo got w → Prefix todo w.receiver
  Phase-Prefix todo (level_with done e g k h) =
      level_cases todo w.receiver (ap (λ l. l ++ todo) g ∙ e) (rests todo h) k.pair
  Phase-Prefix todo (ahead_of done e g k h) =
      ahead_Prefix todo done w.receiver e g (both (releasing w.sender) (idle w.receiver) k.pair).1 h
  Phase-Prefix todo (behind_of x e k r h) = (
    todo,
    subst (λ t. returned (record { todo = todo; got = got; world = w }) t ++ todo ≡ bits) (sym r) e,
    λ q. q,
  )

-- However the steps of the two sides are interleaved, and whichever deadlines pass, the bits that
-- `recv_bit` has returned are the first of those that are sent, in their order: none is lost, doubled
-- or made up.
pub returned_bits-prefix :
    {bits : List Bool} {e : Exchange}
    → Flow bits e
    → (rest : List Bool) × (returned_bits e ++ rest ≡ bits)
returned_bits-prefix {bits} {e} f =
    let (rest, whole, last) = Phase-Prefix bits e.got e.world e.todo (Flow-Phase f) in (rest, whole)

-- When `send_bit` has returned True for every bit, all of them have been returned by `recv_bit`.
pub returned_bits_complete :
    {bits : List Bool} {e : Exchange} → Flow bits e → e.todo ≡ [] → returned_bits e ≡ bits
returned_bits_complete {bits} {e} f q =
    let (rest, whole, last) = Phase-Prefix bits e.got e.world e.todo (Flow-Phase f) in
    sym (append-nil (returned_bits e)) ∙ ap (λ l. returned_bits e ++ l) (sym (last q)) ∙ whole

-- When the loop of `send_byte` has come through all bits of a byte, a `recv_byte` that is answered
-- with what the `recv_bit` calls have returned gives that byte, whatever the two sides did in
-- between.
pub recv_byte-returned_bits :
    {e : Exchange} (b : ℕ) (rest : List (Option Bool)) (acks sent : List Bool)
    → IsByte b
    → Flow (byte_bits b) e
    → e.todo ≡ []
    → recv_byte (record { incoming = heard (returned_bits e) rest; acks = acks; sent = sent })
      ≡ (some b, record { incoming = rest; acks = acks; sent = sent })
recv_byte-returned_bits b rest acks sent h f q =
    ap (λ l. recv_byte (record { incoming = heard l rest; acks = acks; sent = sent }))
      (returned_bits_complete f q)
    ∙ recv_byte-heard b rest acks sent h
