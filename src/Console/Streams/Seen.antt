-- ===== src/Console/Streams/Seen.antt =====
-- What a stream sees of the events that are stored while it is open.
use mathlib.Core.Path.{subst}
use gpti84_plus.Base.{
  ℕ, suc, List, [], ◌∷◌, ◌++◌, append-nil, append_assoc, Option, none, some, true, false, ◌==◌, ◌≡◌,
  ◌≢◌, ◌∙◌, inl, inr, refl, sym, ap, if◌then◌else◌, Bool-cases, ==_iff, ==_refl, ==_false→ne, arith,
}
use gpti84_plus.Base.Bytes.{Bytes}
use gpti84_plus.Console.{
  Body, Row, Event, put, row_of, inserted, insert, subscribe, unsubscribe, answered,
}
use gpti84_plus.Console.Ingest.{ingest_cases}
use gpti84_plus.Console.Queues.{
  queue_of, queue_of-put_all, queue_of-set_queue, queue_of_other, queue_of-without, queue_of-append,
}
use gpti84_plus.Console.Streams.{
  round_of, stream_round, Request, post, open_stream, turn, Console, tell, answer,
}

abbrev pub told_to : ℕ → List (ℕ × Event) → List Event
told_to i [] = []
told_to i ((j, e) ∷ told) = if i == j then e ∷ told_to i told else told_to i told

told_to-append :
    (i : ℕ) (xs ys : List (ℕ × Event)) → told_to i (xs ++ ys) ≡ told_to i xs ++ told_to i ys
told_to-append i [] ys = refl
told_to-append i ((j, e) ∷ xs) ys = ground (arith, told_to-append i xs ys)

-- Its client stays for these requests.
abbrev pub Stays : ℕ → Request → Type 0
Stays i (post host body) = Unit
Stays i open_stream = Unit
Stays i (turn true j) = i ≢ j
Stays i (turn false j) = Unit

abbrev pub IsStored : Event → Row → Type 0
IsStored e r = row_of e.id e.body ≡ some r

-- What one request does to the stream with number `i`, whose queue was `q`.
pub data Move (i : ℕ) (q : List Event) (c d : Console) : Type 0 where
  quiet :
      (p : List Event)
      → queue_of i d.store.waiters ≡ some p
      → told_to i d.told ++ p ≡ told_to i c.told ++ q
      → d.store.rows ≡ c.store.rows
      → Move i q c d
  stored :
      (e : Event) (r : Row)
      → queue_of i d.store.waiters ≡ some (put e q)
      → d.told ≡ c.told
      → d.store.rows ≡ c.store.rows ++ (r ∷ [])
      → IsStored e r
      → Move i q c d

quiet_here :
    {i : ℕ} {q : List Event} {c d : Console}
    → queue_of i d.store.waiters ≡ some q
    → d.told ≡ c.told
    → d.store.rows ≡ c.store.rows
    → Move i q c d
quiet_here {i} {q} h t r = quiet q h (ap (λ l. told_to i l ++ q) t) r

pub row_id : (n : ℕ) (b : Body) (r : Row) → row_of n b ≡ some r → r.id ≡ n
unfolding row_of
row_id n b r h = grind arith

module _ (i : ℕ) (q : List Event) (c : Console) (up : queue_of i c.store.waiters ≡ some q) where
  insert-Move :
      (b : Body) (o : Option Row)
      → row_of (suc c.store.last) b ≡ o
      → Move i q c (record c { store = (answered c.store (inserted o b c.store)).1 })
  insert-Move b none h = quiet_here up refl refl
  insert-Move b (some r) h =
      stored (record { id = r.id; body = b }) r
        (queue_of-put_all i (record { id = r.id; body = b }) q c.store.waiters up) refl refl
        (ap (λ n. row_of n b) (row_id (suc c.store.last) b r h) ∙ h)

  answer_post : (host : Option Bytes) (body : Option Body) → Move i q c (answer (post host body) c)
  unfolding answer insert
  answer_post host body = elim (ingest_cases host body c.store) [
    | inl (reason, e) ↦
        subst (λ out. Move i q c (record c { store = out.1 })) (sym e) (quiet_here up refl refl)
    | inr (b, same, e) ↦
        subst (λ out. Move i q c (record c { store = out.1 })) (sym e) (insert-Move b _ refl)
  ]

  answer_open : Move i q c (answer open_stream c)
  unfolding answer subscribe
  answer_open = quiet_here (queue_of-append i q c.store.waiters _ up) refl refl

  answer_gone : (j : ℕ) → i ≢ j → Move i q c (answer (turn true j) c)
  unfolding answer stream_round unsubscribe
  answer_gone j h = quiet_here (queue_of-without i j c.store.waiters h ∙ up) refl refl

  told_own :
      (e : Event) (p : List Event)
      → queue_of i c.store.waiters ≡ some (e ∷ p)
      → Move i q c (tell i (round_of i (some (e ∷ p)) c.store) c)
  told_own e p h =
      let same : e ∷ p ≡ q = cc in
      quiet p (queue_of-set_queue i p q c.store.waiters up)
        (ap (λ l. l ++ p)
            (told_to-append i c.told ((i, e) ∷ [])
              ∙ ap (λ l. told_to i c.told ++ l) (rw (==_refl i) refl))
          ∙ append_assoc (told_to i c.told) (e ∷ []) p
          ∙ ap (λ l. told_to i c.told ++ l) same)
        refl

  told_other :
      (j : ℕ) (e : Event) (p : List Event)
      → (i == j) ≡ false
      → Move i q c (tell j (round_of j (some (e ∷ p)) c.store) c)
  told_other j e p ne =
      quiet q (queue_of_other i j p c.store.waiters (==_false→ne i j ne) ∙ up)
        (ap (λ l. l ++ q)
          (told_to-append i c.told ((j, e) ∷ [])
            ∙ ap (λ l. told_to i c.told ++ l) (rw ne refl)
            ∙ append-nil (told_to i c.told)))
        refl

  told-Move :
      (j : ℕ) (p : Option (List Event))
      → queue_of j c.store.waiters ≡ p
      → Move i q c (tell j (round_of j p c.store) c)
  told-Move j none h = quiet_here up refl refl
  told-Move j (some []) h = quiet_here up refl refl
  told-Move j (some (e ∷ p)) h = elim (Bool-cases (i == j)) [
    | inl eq ↦
        let same = (==_iff i j).0 eq in
        subst (λ k. Move i q c (tell k (round_of k (some (e ∷ p)) c.store) c)) same
          (told_own e p (ap (λ k. queue_of k c.store.waiters) same ∙ h))
    | inr ne ↦ told_other j e p ne
  ]

  answer-turn : (j : ℕ) → Move i q c (answer (turn false j) c)
  unfolding answer stream_round
  answer-turn j = told-Move j _ refl

  pub answer-Move : (r : Request) → Stays i r → Move i q c (answer r c)
  answer-Move (post host body) h = answer_post host body
  answer-Move open_stream h = answer_open
  answer-Move (turn true j) h = answer_gone j h
  answer-Move (turn false j) h = answer-turn j
