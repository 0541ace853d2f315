-- ===== src/Console/Streams/Tests.antt =====
-- Streams and pages at concrete requests.
use gpti84_plus.Console.Tests.{body, nobody, local}
use gpti84_plus.Base.{◌+◌, List, [], ◌∷◌, ◌++◌, some, true, false, ◌≡◌, refl, length, arith}
use gpti84_plus.Base.Bytes.{Bytes, codes}
use gpti84_plus.Console.{
  Row, Event, recent, ingest, insert, row_of, has_required, put, put_all, subscribe, unsubscribe,
  without,
}
use gpti84_plus.Console.Queues.{set_queue}
use gpti84_plus.Console.Rows.{last_id}
use gpti84_plus.Console.Pages.{recent-serve}
use gpti84_plus.Console.Streams.{
  Request, post, open_stream, turn, Console, answer, serve, stream_round,
}
use gpti84_plus.Console.Streams.Delivery.{seen, AllStored, serve-seen}

abbrev said : Bytes → Request
said text = post local (some (body text))

-- One stream is open.
abbrev tuned : Console
tuned = record { store = record nobody { waiters = (0, []) ∷ []; opened = 1 }; told = [] }

abbrev day : List Request
day = said (codes "hi") ∷ turn false 0 ∷ open_stream ∷ said (codes "yo") ∷ turn true 1 ∷ []

day_room : length (seen 0 (serve day tuned)) ≡ 2
unfolding serve answer ingest insert row_of has_required put_all put subscribe unsubscribe without
    stream_round set_queue
day_room = refl

serve-seen_example :
    (new : List Event) × (added : List Row) × AllStored new added
    × ((serve day tuned).store.rows ≡ [] ++ added)
    × (seen 0 (serve day tuned) ≡ [] ++ new)
unfolding serve answer ingest insert row_of has_required put_all put subscribe unsubscribe without
    stream_round set_queue
serve-seen_example =
    serve-seen 0 day tuned [] refl (tt, (tt, (tt, (tt, ((λ e. omega arith), tt)))))
      (omega arith, (omega arith, (omega arith, (omega arith, (omega arith, tt)))))

recent-serve_example :
    recent 0 2 tuned.store ++ recent (last_id 0 (recent 0 2 tuned.store)) 5 (serve day tuned).store
    ≡ recent 0 (length (recent 0 2 tuned.store) + 5) (serve day tuned).store
recent-serve_example = recent-serve 0 2 5 day tuned (omega arith)
