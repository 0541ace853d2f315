-- ===== src/Console/Streams.antt =====
-- The console as its requests come in, one after the other: POSTs, streams that are opened, and
-- rounds of their generators.
pub mod Seen
pub mod Delivery
pub mod Grown
mod Tests
use gpti84_plus.Base.{
  ℕ, ◌+◌, suc, List, [], ◌∷◌, ◌++◌, Option, none, some, Bool, true, false, ◌==◌, ◌≢◌, if◌then◌else◌,
  ◌≡◌,
}
use gpti84_plus.Base.Bytes.{Bytes}
use gpti84_plus.Console.{Body, Event, Store, subscribe, unsubscribe, ingest}
use gpti84_plus.Console.Queues.{queue_of, set_queue}

-- What a round of the generator yields, or its end. A wait of 15 seconds is a queue that is empty.
pub data Line : Type 0 where
  data_line : Event → Line
  keepalive finished : Line

abbrev pub round_of : ℕ → Option (List Event) → Store → Line × Store
round_of i none s = (finished, s)
round_of i (some []) s = (keepalive, s)
round_of i (some (e ∷ q)) s = (data_line e, record s { waiters = set_queue i q s.waiters })

-- A round of the stream with number `i`, whose client may have gone.
pub stream_round : Bool → ℕ → Store → Line × Store
unfolding unsubscribe set_queue
stream_round gone i s =
    if gone then (finished, unsubscribe i s) else round_of i (queue_of i s.waiters) s

pub data Request : Type 0 where
  post : Option Bytes → Option Body → Request
  open_stream : Request
  turn : Bool → ℕ → Request

-- The store, and the events that the streams have yielded.
pub record Console : Type 0 where
  pub store : Store
  pub told : List (ℕ × Event)

abbrev pub tell : ℕ → Line × Store → Console → Console
tell i (data_line e, s) c = record { store = s; told = c.told ++ ((i, e) ∷ []) }
tell i (keepalive, s) c = record c { store = s }
tell i (finished, s) c = record c { store = s }

pub answer : Request → Console → Console
unfolding ingest subscribe stream_round
answer (post host body) c = record c { store = (ingest host body c.store).1 }
answer open_stream c = record c { store = (subscribe c.store).1 }
answer (turn gone i) c = tell i (stream_round gone i c.store) c

pub serve : List Request → Console → Console
unfolding answer
serve [] c = c
serve (r ∷ rs) c = serve rs (answer r c)
