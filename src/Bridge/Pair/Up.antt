-- ===== src/Bridge/Pair/Up.antt =====
-- The socket of the bridge stays up unless an error is raised.
use gpti84_plus.Base.{
  ℕ, ◌≡◌, ◌==◌, List, [], ◌∷◌, Option, none, some, Bool, true, false, leb, get_or, if◌then◌else◌,
}
use gpti84_plus.Base.Bytes.{Bytes}
use gpti84_plus.Bridge.Pair.{
  Pair, Net, State, Outcome, returned, raised, send_answer, ship, with_pair, flush_pair, flush_if,
  on_prompt, on_math, is_string, str_slot_text, str_slot_math, on_var, pair_timeout_ms, flush_stale,
  maybe_flush_stale_pair,
}

abbrev NetUp : Outcome × Net → Type 0
NetUp (returned, n) = n.up ≡ true
NetUp (raised, n) = Unit {0}

-- A call that returns leaves the socket up.
abbrev pub StaysUp : Outcome × State → Type 0
StaysUp (returned, s) = s.net.up ≡ true
StaysUp (raised, s) = Unit {0}

send_answer-NetUp :
    (rs : List Bool) (frame : Bytes) (n : Net) → n.up ≡ true → NetUp (send_answer rs frame n)
send_answer-NetUp [] frame n up = up
send_answer-NetUp (false ∷ rs) frame n up = up
send_answer-NetUp (true ∷ rs) frame n up = tt

ship-NetUp : (frame : Bytes) (n : Net) → n.up ≡ true → NetUp (ship frame n)
unfolding ship
ship-NetUp frame n up = go n.up up
  where
    go : (b : Bool) → b ≡ true → NetUp (if b then send_answer n.raises frame n else (returned, n))
    go true e = send_answer-NetUp n.raises frame n up
    go false e = cc

with_pair-StaysUp : (p : Pair) (r : Outcome × Net) → NetUp r → StaysUp (with_pair p r)
with_pair-StaysUp p (returned, n) up = up
with_pair-StaysUp p (raised, n) up = tt

flush_pair-StaysUp : (s : State) → s.net.up ≡ true → StaysUp (flush_pair s)
unfolding flush_pair
flush_pair-StaysUp s up = with_pair-StaysUp _ (ship _ s.net) (ship-NetUp _ s.net up)

flush_if-StaysUp : (o : Option Bytes) (s : State) → s.net.up ≡ true → StaysUp (flush_if o s)
flush_if-StaysUp none s up = up
flush_if-StaysUp (some t) s up = flush_pair-StaysUp s up

branch : (b : Bool) (x y : Outcome × State) → StaysUp x → StaysUp y → StaysUp (if b then x else y)
branch true x y p q = p
branch false x y p q = q

pub on_var-StaysUp :
    (type_id : ℕ) (name8 bs : Bytes) (now : ℕ) (s : State)
    → s.net.up ≡ true
    → StaysUp (on_var type_id name8 bs now s)
unfolding on_var on_prompt on_math
on_var-StaysUp type_id name8 bs now s up =
    branch (is_string type_id name8) _ _
      (branch (get_or name8 1 0 == str_slot_text) _ _ (flush_if-StaysUp s.pair.math _ up) (
        branch (get_or name8 1 0 == str_slot_math) _ _ (flush_if-StaysUp s.pair.prompt _ up)
          (with_pair-StaysUp s.pair (ship _ s.net) (ship-NetUp _ s.net up))))
      (with_pair-StaysUp s.pair (ship _ s.net) (ship-NetUp _ s.net up))

module _ (ticks_diff : ℕ → ℕ → ℕ) where
  pub maybe_flush_stale_pair-StaysUp :
      (now : ℕ) (s : State) → s.net.up ≡ true → StaysUp (maybe_flush_stale_pair ticks_diff now s)
  unfolding maybe_flush_stale_pair
  maybe_flush_stale_pair-StaysUp now s up = go s.pair.first_arrival_ms s.pair.prompt s.pair.math
    where
      go : (t : Option ℕ) (p m : Option Bytes) → StaysUp (flush_stale ticks_diff t p m now s)
      go none p m = up
      go (some t) (some p) (some m) = flush_pair-StaysUp s up
      go (some t) none m =
          branch (leb pair_timeout_ms (ticks_diff now t)) _ _ (flush_pair-StaysUp s up) up
      go (some t) (some p) none =
          branch (leb pair_timeout_ms (ticks_diff now t)) _ _ (flush_pair-StaysUp s up) up
