-- ===== src/Console/Queues.antt =====
-- The queues of the streams, each found under its number.
use gpti84_plus.Base.{
  ℕ, ◌≡◌, ◌≢◌, refl, List, [], ◌∷◌, ◌++◌, Option, none, some, ◌==◌, if◌then◌else◌, arith,
}
use gpti84_plus.Console.{Event, put, put_all, without}

abbrev pub queue_of : ℕ → List (ℕ × List Event) → Option (List Event)
queue_of i [] = none
queue_of i ((j, q) ∷ ws) = if i == j then some q else queue_of i ws

-- `q.get()` leaves `q` in the place of the queue.
unfoldable pub set_queue : ℕ → List Event → List (ℕ × List Event) → List (ℕ × List Event)
set_queue i q [] = []
set_queue i q ((j, r) ∷ ws) = if i == j then (j, q) ∷ ws else (j, r) ∷ set_queue i q ws

pub queue_of-put_all :
    (i : ℕ) (e : Event) (q : List Event) (ws : List (ℕ × List Event))
    → queue_of i ws ≡ some q
    → queue_of i (put_all e ws) ≡ some (put e q)
unfolding put_all
queue_of-put_all i e q [] h = cc
queue_of-put_all i e q ((j, r) ∷ ws) h = grind (arith, queue_of-put_all i e q ws)

pub queue_of-set_queue :
    (i : ℕ) (p q : List Event) (ws : List (ℕ × List Event))
    → queue_of i ws ≡ some q
    → queue_of i (set_queue i p ws) ≡ some p
unfolding set_queue
queue_of-set_queue i p q [] h = cc
queue_of-set_queue i p q ((j, r) ∷ ws) h = grind (arith, queue_of-set_queue i p q ws)

pub queue_of_other :
    (i j : ℕ) (p : List Event) (ws : List (ℕ × List Event))
    → i ≢ j
    → queue_of i (set_queue j p ws) ≡ queue_of i ws
unfolding set_queue
queue_of_other i j p [] h = refl
queue_of_other i j p ((k, r) ∷ ws) h = grind (queue_of_other i j p ws h, arith)

pub queue_of-without :
    (i j : ℕ) (ws : List (ℕ × List Event)) → i ≢ j → queue_of i (without j ws) ≡ queue_of i ws
unfolding without
queue_of-without i j [] h = refl
queue_of-without i j ((k, r) ∷ ws) h = grind (queue_of-without i j ws h, arith)

pub queue_of-append :
    (i : ℕ) (q : List Event) (ws vs : List (ℕ × List Event))
    → queue_of i ws ≡ some q
    → queue_of i (ws ++ vs) ≡ some q
queue_of-append i q [] vs h = cc
queue_of-append i q ((j, r) ∷ ws) vs h = ground (arith, queue_of-append i q ws vs)
