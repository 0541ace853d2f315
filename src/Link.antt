-- ===== src/Link.antt =====
-- The 2.5 mm link as the Pico sees it, and the actions that run on it. The calculator is the
-- environment: it decides what each bit-level call of src/wire.py answers.
pub mod Waiting
use gpti84_plus.Base.{◌≡◌, refl, List, [], Option, none, some, Bool, true, false, if◌then◌else◌}

-- `incoming` holds the results of the `recv_bit` calls to come (`none` is a timeout; behind its end
-- every call times out), `acks` those of the `send_bit` calls (behind its end every bit is
-- acknowledged), and `sent` the bits that `send_bit` was called with. A bit is a Boolean.
pub record Link : Type 0 where
  pub incoming : List (Option Bool)
  pub acks : List Bool
  pub sent : List Bool

-- A link whose peer acknowledges every bit.
abbrev pub steady : List (Option Bool) → List Bool → Link
steady incoming sent = record { incoming = incoming; acks = []; sent = sent }

-- A function on the link that may give up: `none` is the source's `return None` or `return False`.
abbrev pub Io : Type 0 → Type 0
Io A = Link → Option A × Link

module _ {A : Type 0} where
  abbrev pub pure : A → Io A
  pure a l = (some a, l)

  abbrev pub give_up : Io A
  give_up l = (none, l)

module _ {A B : Type 0} where
  abbrev pub continue : (A → Io B) → Option A × Link → Option B × Link
  continue f (none, l) = (none, l)
  continue f (some a, l) = f a l

  infixl 10 ◌>>=◌
  abbrev pub ◌>>=◌ : Io A → (A → Io B) → Io B
  ◌>>=◌ m f l = continue f (m l)

  infixl 10 ◌>>◌
  abbrev pub ◌>>◌ : Io A → Io B → Io B
  ◌>>◌ m k l = continue (λ _. k) (m l)

-- The action whose failure is a value: a call whose result the source tests itself, or ignores.
abbrev pub attempt : {A : Type 0} → Io A → Io (Option A)
attempt m l = ((some (m l).0), (m l).1)

-- Inversion of a step that succeeded: its first part did, and so did the rest.
pub continue-eq_some :
    {A B : Type 0} (f : A → Io B) (r : Option A × Link) {b : B} {l' : Link}
    → continue f r ≡ (some b, l')
    → (a : A) × (m : Link) × (r ≡ (some a, m)) × (f a m ≡ (some b, l'))
continue-eq_some f (none, l) e = cc
continue-eq_some f (some a, l) e = (a, l, refl, e)

-- A guarded step that succeeded passed its guard.
pub guard-eq_some :
    {A : Type 0} (b : Bool) (m : Io A) (l : Link) {a : A} {l' : Link}
    → (if b then m else give_up) l ≡ (some a, l')
    → (b ≡ true) × (m l ≡ (some a, l'))
guard-eq_some true m l e = (refl, e)
guard-eq_some false m l e = cc
