-- ===== src/Bridge/Supervisor/Turns.antt =====
-- What one turn of `run` leaves behind.
use gpti84_plus.Base.{
  ℕ, suc, ◌≡◌, ◌≢◌, refl, List, length, All, Option, none, some, true, false, ◌⊎◌, inl, inr, arith,
}
use gpti84_plus.Link.{Link}
use gpti84_plus.Link.Waiting.{waiting}
use gpti84_plus.Transfer.Listen.{Ending}
use gpti84_plus.Transfer.Listen.Ends.{listen_loop-ends}
use gpti84_plus.Net.Stream.{Answer}
use gpti84_plus.Net.Reader.{Reader}
use gpti84_plus.Net.Reader.Laws.{IsReady, new_reader-IsReady}
use gpti84_plus.Bridge.Pair.{Outcome, State, maybe_flush_stale_pair}
use gpti84_plus.Transfer.Listen.Keeps.{Kept, KeptEnding, listen_loop-KeptEnding}
use gpti84_plus.Bridge.Pair.Up.{StaysUp, on_var-StaysUp, maybe_flush_stale_pair-StaysUp}
use gpti84_plus.Bridge.Supervisor.{
  heed, Inbound, quiet, lost, out_of_fuel, Desk, push_inbound, enough, Clocked, Supervisor, Turn,
  served, reconnect, no_reader, stuck, after_push, drain_stage, after_flush, connect, listening,
  after_listen, turn,
}
use gpti84_plus.Bridge.Supervisor.Drain.{Drained, push_inbound-Drained}

abbrev HasReader : Option Reader → Type 0
HasReader none = ⊥
HasReader (some r) = IsReady r

-- A connection with a reader that is between two polls, and none.
abbrev pub Connected : Supervisor → Type 0
Connected s = (s.state.net.up ≡ true) × HasReader s.reader

abbrev pub Lost : Supervisor → Type 0
Lost s = (s.state.net.up ≡ false) × (s.reader ≡ none)

-- The ways in which a turn may end.
abbrev pub Follows : Turn × Supervisor → Type 0
Follows (served, s) = Connected s
Follows (reconnect, s) = Lost s
Follows (no_reader, s) = ⊥
Follows (stuck, s) = ⊥

after_push-Follows :
    (s : Supervisor) (all : List ℕ) (l : Link) (r : Inbound × Desk)
    → s.state.net.up ≡ true
    → Drained all l r
    → Follows (after_push s r)
after_push-Follows s all l (quiet, e) up k = (up, k.1)
after_push-Follows s all l (lost, e) up k = (refl, refl)
after_push-Follows s all l (out_of_fuel, e) up k = k

drain_stage-Follows :
    (s : Supervisor) (o : Option Reader)
    → s.state.net.up ≡ true
    → HasReader o
    → Follows (drain_stage s o)
drain_stage-Follows s none up h = h
drain_stage-Follows s (some r) up h =
    let d : Desk = record { reader = r; answers = s.answers; link = s.link } in
    after_push-Follows s _ s.link (push_inbound (enough d) d) up (push_inbound-Drained d h)

after_flush-Follows :
    (s : Supervisor) (r : Outcome × State)
    → StaysUp r
    → HasReader s.reader
    → Follows (after_flush s r)
after_flush-Follows s (Outcome.returned, st) up h =
    drain_stage-Follows (record s { state = st }) s.reader up h
after_flush-Follows s (Outcome.raised, st) up h = (refl, refl)

-- What `listen_loop` keeps of the caller's state.
abbrev Up : Clocked → Type 0
Up c = c.state.net.up ≡ true

module _ (ticks_diff : ℕ → ℕ → ℕ) (clock : ℕ → ℕ) (connections : ℕ → List Answer) where
  heed-Kept :
      (k : ℕ) (r : Outcome × State) → StaysUp r → Kept Up (heed ticks_diff clock connections k r)
  heed-Kept k (Outcome.returned, st) up = up
  heed-Kept k (Outcome.raised, st) up = tt

  after_listen-Follows :
      (s : Supervisor) (r : Ending × Link × Clocked)
      → r.0 ≢ Ending.out_of_fuel
      → KeptEnding Up r
      → HasReader s.reader
      → Follows (after_listen ticks_diff clock connections s r)
  after_listen-Follows s (Ending.returned, l, c) ends up h =
      after_flush-Follows (record s { link = l; state = c.state; reads = c.reads })
        (maybe_flush_stale_pair ticks_diff (clock c.reads) c.state)
        (maybe_flush_stale_pair-StaysUp ticks_diff (clock c.reads) c.state up) h
  after_listen-Follows s (Ending.raised_with, l, c) ends up h = (refl, refl)
  after_listen-Follows s (Ending.out_of_fuel, l, c) ends up h = absurd (ends refl)

  connect-Connected :
      (s : Supervisor) → Connected s ⊎ Lost s → Connected (connect ticks_diff clock connections s)
  connect-Connected s (inl (up, h)) = rw up (refl, h)
  connect-Connected s (inr (down, e)) = rw down (refl, new_reader-IsReady)

  -- A turn of `run` comes to an end, whatever the calculator, the socket and the clock answer, and
  -- the next one can follow: it never polls a reader that is not there, and behind it there is a
  -- connection with a reader between two polls, or an error has dropped the connection and its
  -- reader, as there is before the first turn.
  pub turn-Follows :
      (s : Supervisor) → Connected s ⊎ Lost s → Follows (turn ticks_diff clock connections s)
  unfolding turn
  turn-Follows s h =
      let t = connect ticks_diff clock connections s in
      let c : Clocked = record { state = t.state; reads = t.reads } in
      let (up, reader) = connect-Connected s h in
      after_listen-Follows t _
        (listen_loop-ends (listening ticks_diff clock connections) (suc (waiting t.link)) t.link c
          (omega arith))
        (listen_loop-KeptEnding Up (listening ticks_diff clock connections)
          (λ type_id n hdr bs d k.
            heed-Kept (suc d.reads) _ (on_var-StaysUp type_id n bs (clock d.reads) d.state k))
          (suc (waiting t.link)) t.link c up)
        reader

  -- How rounds of the loop may end, and what is behind the last one.
  abbrev pub GoesOn : ℕ → List Turn × Supervisor → Type 0
  GoesOn k r =
      (length r.0 ≡ k) × All (λ t. (t ≡ served) ⊎ (t ≡ reconnect)) r.0 × (Connected r.1 ⊎ Lost r.1)
