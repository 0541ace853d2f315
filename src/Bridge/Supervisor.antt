-- ===== src/Bridge/Supervisor.antt =====
-- One turn of the loop of `run` of src/bridge.py: connect, listen to the calculator, flush a stale
-- half, and push the frames of the desktop. Ctrl-C, the LED, Wi-Fi and the retries of the connection
-- are left out: a connection is opened at the first try.
pub mod Drain
pub mod Turns
pub mod Whole
mod Tests
use gpti84_plus.Base.{
  ℕ, zero, suc, ◌+◌, List, [], ◌∷◌, ◌++◌, Option, none, some, Bool, true, false, if◌then◌else◌,
  length,
}
use gpti84_plus.Base.Bytes.{Bytes}
use gpti84_plus.Link.{Link}
use gpti84_plus.Link.Waiting.{waiting}
use gpti84_plus.Transfer.Listen
use gpti84_plus.Transfer.Listen.{Config, Ending, listen_loop}
use gpti84_plus.Net.Stream.{Answer, bytes_of}
use gpti84_plus.Net.Reader.{Reader, new_reader, Poll, payload, not_yet, raised, poll}
use gpti84_plus.Net.Reader.Laws.{taken}
use gpti84_plus.Bridge.Pair
use gpti84_plus.Bridge.Pair.{Outcome, State, on_var, maybe_flush_stale_pair}
use gpti84_plus.Bridge.Push.{push_paginated_reply}

-- How the loop over the inbound frames ends: there is none left, `poll` raises, or the fuel is used
-- up.
pub data Inbound : Type 0 where
  quiet lost out_of_fuel : Inbound

-- The reader, the socket below it and the link to the calculator.
pub record Desk : Type 0 where
  pub reader : Reader
  pub answers : List Answer
  pub link : Link

-- A push that fails is given up, and the next frame is pushed all the same.
abbrev pub push : Bytes → Link → Link
push frame l = (push_paginated_reply frame l).1

abbrev pub after_poll : (Desk → Inbound × Desk) → Link → Poll → Inbound × Desk
after_poll more l (payload p, r, ans) = more (record { reader = r; answers = ans; link = push p l })
after_poll more l (not_yet, r, ans) = (quiet, record { reader = r; answers = ans; link = l })
after_poll more l (raised, r, ans) = (lost, record { reader = r; answers = ans; link = l })

-- `while True: inbound = reader_holder[0].poll(); ...`
pub push_inbound : ℕ → Desk → Inbound × Desk
push_inbound zero d = (out_of_fuel, d)
push_inbound (suc f) d = after_poll (λ e. push_inbound f e) d.link (poll d.reader d.answers)

-- A frame takes four bytes at least.
abbrev pub enough : Desk → ℕ
enough d = suc (length (taken d.reader ++ bytes_of d.answers))

-- The caller's state of `listen_loop`: that of the bridge, and how many variables have come.
pub record Clocked : Type 0 where
  pub state : State
  pub reads : ℕ

pub record Supervisor : Type 0 where
  pub state : State
  pub reads : ℕ
  pub opened : ℕ
  pub reader : Option Reader
  pub answers : List Answer
  pub link : Link

-- How a turn ends: in peace, in an `OSError` that drops the connection, in a `poll` of no reader, or
-- out of fuel.
pub data Turn : Type 0 where
  served reconnect no_reader stuck : Turn

-- What the code does on an `OSError`: both holders are emptied, the pair is kept.
abbrev pub lose : Supervisor → Supervisor
lose s = record s {
  state = record s.state { net = record s.state.net { up = false } };
  reader = none;
}

abbrev pub after_push : Supervisor → Inbound × Desk → Turn × Supervisor
after_push s (quiet, d) =
    (served, record s { reader = some d.reader; answers = d.answers; link = d.link })
after_push s (lost, d) = (reconnect, lose (record s { answers = d.answers; link = d.link }))
after_push s (out_of_fuel, d) = (stuck, record s { answers = d.answers; link = d.link })

-- `reader_holder[0].poll()` until there is nothing.
abbrev pub drain_stage : Supervisor → Option Reader → Turn × Supervisor
drain_stage s none = (no_reader, s)
drain_stage s (some r) =
    let d : Desk = record { reader = r; answers = s.answers; link = s.link } in
    after_push s (push_inbound (enough d) d)

abbrev pub after_flush : Supervisor → Outcome × State → Turn × Supervisor
after_flush s (Outcome.returned, st) = drain_stage (record s { state = st }) s.reader
after_flush s (Outcome.raised, st) = (reconnect, lose (record s { state = st }))

-- The clock at the time of each reading, and what the socket of each connection answers.
module _ (ticks_diff : ℕ → ℕ → ℕ) (clock : ℕ → ℕ) (connections : ℕ → List Answer) where
  abbrev pub connect : Supervisor → Supervisor
  connect s = if s.state.net.up then s else record s {
    state = record s.state { net = record s.state.net { up = true } };
    reader = some new_reader;
    answers = connections s.opened;
    opened = suc s.opened;
  }

  abbrev pub heed : ℕ → Outcome × State → Bool × Clocked
  heed k (Outcome.returned, st) = (true, record { state = st; reads = k })
  heed k (Outcome.raised, st) = (false, record { state = st; reads = k })

  -- `transfer.listen_loop(on_var=on_var, timeout_ms=500)`
  abbrev pub listening : Config Clocked
  listening = record {
    name8 = none;
    expected_type = none;
    on_var = some (λ type_id name8 hdr bs c.
        heed (suc c.reads) (on_var type_id name8 bs (clock c.reads) c.state));
    on_req = none;
  }

  abbrev pub after_listen : Supervisor → Ending × Link × Clocked → Turn × Supervisor
  after_listen s (Ending.returned, l, c) =
      after_flush (record s { link = l; state = c.state; reads = c.reads })
        (maybe_flush_stale_pair ticks_diff (clock c.reads) c.state)
  after_listen s (Ending.raised_with, l, c) =
      (reconnect, lose (record s { link = l; state = c.state; reads = c.reads }))
  after_listen s (Ending.out_of_fuel, l, c) = (stuck, record s { link = l })

  unfoldable pub turn : Supervisor → Turn × Supervisor
  unfolding push_inbound
  turn s =
      let t = connect s in
      after_listen t (
        listen_loop (suc (waiting t.link)) false listening t.link
          (record { state = t.state; reads = t.reads }))

  abbrev with_turn : Turn → List Turn × Supervisor → List Turn × Supervisor
  with_turn t (ts, s) = (t ∷ ts, s)

  -- An `OSError` does not end the loop; the error of a reader that is not there would.
  abbrev pub go_round :
      (Supervisor → List Turn × Supervisor) → Turn × Supervisor → List Turn × Supervisor
  go_round more (served, s) = with_turn served (more s)
  go_round more (reconnect, s) = with_turn reconnect (more s)
  go_round more (no_reader, s) = (no_reader ∷ [], s)
  go_round more (stuck, s) = (stuck ∷ [], s)

  -- A number of rounds of `while True:`, with how each of them ends.
  pub run : ℕ → Supervisor → List Turn × Supervisor
  unfolding turn
  run zero s = ([], s)
  run (suc k) s = go_round (λ t. run k t) (turn s)
