-- ===== src/Console/Streams/Delivery.antt =====
-- Which of the events that are stored reach a stream, over any requests.
use gpti84_plus.Base.{
  ℕ, ◌<◌, List, [], ◌∷◌, ◌++◌, append-nil, append_assoc, Option, none, some, ◌≡◌, ◌∙◌, refl, sym,
  ap, length, ltb, lt→ltb, ltb_false→le, ltb→lt, le→ltb_false, ◌≤◌, Bool-cases, inl, inr, All,
  arith,
}
use mathlib.Core.Path.{subst}
use gpti84_plus.Console.{Row, Event, put}
use gpti84_plus.Console.Queues.{queue_of}
use gpti84_plus.Console.Streams.{Request, Console, answer, serve}
use gpti84_plus.Console.Streams.Seen.{told_to, Stays, IsStored, quiet, stored, answer-Move}

abbrev pub queued : Option (List Event) → List Event
queued none = []
queued (some q) = q

-- What the stream with number `i` has yielded, and what waits for it.
abbrev pub seen : ℕ → Console → List Event
seen i c = told_to i c.told ++ queued (queue_of i c.store.waiters)

abbrev pub AllStored : List Event → List Row → Type 0
AllStored [] [] = Unit
AllStored (e ∷ es) (r ∷ rs) = IsStored e r × AllStored es rs
AllStored _ _ = ⊥

-- The queue is not full when a request comes in.
abbrev pub HasRoom : ℕ → List Request → Console → Type 0
HasRoom i [] c = Unit
HasRoom i (r ∷ rs) c =
    (length (queued (queue_of i c.store.waiters)) < 1024) × HasRoom i rs (answer r c)

-- The first list is the second with some events left out.
pub data Among : List Event → List Event → Type 0 where
  end : Among [] []
  kept : {es fs : List Event} (e : Event) → Among es fs → Among (e ∷ es) (e ∷ fs)
  dropped : {es fs : List Event} (e : Event) → Among es fs → Among es (e ∷ fs)

module _ (i : ℕ) where
  seen_of :
      (c : Console) (q : List Event)
      → queue_of i c.store.waiters ≡ some q
      → seen i c ≡ told_to i c.told ++ q
  seen_of c q h = ap (λ o. told_to i c.told ++ queued o) h

  put_room : (e : Event) (q : List Event) → length q < 1024 → put e q ≡ q ++ (e ∷ [])
  unfolding put
  put_room e q h = rw (lt→ltb (length q) 1024 h) refl

  seen_put :
      (c d : Console) (q : List Event) (e : Event)
      → queue_of i c.store.waiters ≡ some q
      → queue_of i d.store.waiters ≡ some (q ++ (e ∷ []))
      → d.told ≡ c.told
      → seen i d ≡ seen i c ++ (e ∷ [])
  seen_put c d q e h h' told =
      seen_of d (q ++ (e ∷ [])) h'
      ∙ ap (λ l. told_to i l ++ (q ++ (e ∷ []))) told
      ∙ sym (append_assoc (told_to i c.told) q (e ∷ []))
      ∙ ap (λ l. l ++ (e ∷ [])) (sym (seen_of c q h))

  -- From `c` to `d` the rows grew by `added`, the rows of the events `new`, and what is seen by `got`.
  abbrev Grows : List Event → List Row → List Event → Console → Console → Type 0
  Grows new added got c d =
      AllStored new added
      × Among got new
      × (d.store.rows ≡ c.store.rows ++ added)
      × (seen i d ≡ seen i c ++ got)

  abbrev Sees : List Request → Console → Type 0
  Sees rs c =
      (new : List Event) × (added : List Row) × (got : List Event) × Grows new added got c
        (serve rs c)
      × (HasRoom i rs c → got ≡ new)

  Sees-quiet :
      (r : Request) (rest : List Request) (c : Console)
      → (answer r c).store.rows ≡ c.store.rows
      → seen i (answer r c) ≡ seen i c
      → Sees rest (answer r c)
      → Sees (r ∷ rest) c
  unfolding serve
  Sees-quiet r rest c rows same (new, added, got, (all, among, er, es), exact) = (
    new,
    added,
    got,
    (all, among, er ∙ ap (λ l. l ++ added) rows, es ∙ ap (λ l. l ++ got) same),
    λ room. exact room.1,
  )

  Sees-stored :
      (r : Request) (rest : List Request) (c : Console) (q : List Event) (e : Event) (row : Row)
      → queue_of i c.store.waiters ≡ some q
      → IsStored e row
      → (answer r c).store.rows ≡ c.store.rows ++ (row ∷ [])
      → seen i (answer r c) ≡ seen i c ++ (e ∷ [])
      → Sees rest (answer r c)
      → Sees (r ∷ rest) c
  unfolding serve
  Sees-stored r rest c q e row h is rows more (new, added, got, (all, among, er, es), exact) = (
    e ∷ new,
    row ∷ added,
    e ∷ got,
    (
      (is, all),
      kept e among,
      er ∙ ap (λ l. l ++ added) rows ∙ append_assoc c.store.rows (row ∷ []) added,
      es ∙ ap (λ l. l ++ got) more ∙ append_assoc (seen i c) (e ∷ []) got,
    ),
    λ room. ap (λ l. e ∷ l) (exact room.1),
  )

  Sees-dropped :
      (r : Request) (rest : List Request) (c : Console) (q : List Event) (e : Event) (row : Row)
      → queue_of i c.store.waiters ≡ some q
      → 1024 ≤ length q
      → IsStored e row
      → (answer r c).store.rows ≡ c.store.rows ++ (row ∷ [])
      → seen i (answer r c) ≡ seen i c
      → Sees rest (answer r c)
      → Sees (r ∷ rest) c
  unfolding serve
  Sees-dropped r rest c q e row h full is rows same (new, added, got, (all, among, er, es), exact) =
      (
        e ∷ new,
        row ∷ added,
        got,
        (
          (is, all),
          dropped e among,
          er ∙ ap (λ l. l ++ added) rows ∙ append_assoc c.store.rows (row ∷ []) added,
          es ∙ ap (λ l. l ++ got) same,
        ),
        λ room. absurd (let free = subst (λ o. length (queued o) < 1024) h room.0 in omega arith),
      )

  put_full : (e : Event) (q : List Event) → 1024 ≤ length q → put e q ≡ q
  unfolding put
  put_full e q h = rw (le→ltb_false (length q) 1024 h) refl

  serve-Sees :
      (rs : List Request) (c : Console) (q : List Event)
      → queue_of i c.store.waiters ≡ some q
      → All (Stays i) rs
      → Sees rs c
  unfolding serve
  serve-Sees [] c q h stays = (
    [],
    [],
    [],
    (tt, end, sym (append-nil c.store.rows), sym (append-nil (seen i c))),
    λ room. refl,
  )
  serve-Sees (r ∷ rest) c q h (stay, stays) = elim (answer-Move i q c h r stay) [
    | quiet p h' told rows ↦
        Sees-quiet r rest c rows (seen_of (answer r c) p h' ∙ told ∙ sym (seen_of c q h))
          (serve-Sees rest (answer r c) p h' stays)
    | stored e row h' told rows is ↦ elim (Bool-cases (ltb (length q) 1024)) [
      | inl lt ↦
          let free = h' ∙ ap (λ l. some l) (put_room e q (ltb→lt (length q) 1024 lt)) in
          Sees-stored r rest c q e row h is rows (seen_put c (answer r c) q e h free told)
            (serve-Sees rest (answer r c) (q ++ (e ∷ [])) free stays)
      | inr ge ↦
          let full = ltb_false→le (length q) 1024 ge in
          let same = h' ∙ ap (λ l. some l) (put_full e q full) in
          Sees-dropped r rest c q e row h full is rows
            (seen_of (answer r c) q same ∙ ap (λ l. told_to i l ++ q) told ∙ sym (seen_of c q h))
            (serve-Sees rest (answer r c) q same stays)
    ]
  ]

  -- While the client of a stream stays and its queue is not full when a request comes in, whatever
  -- requests there are: what the stream has yielded, with what waits for it, grows by the events
  -- that are stored, all of them and in their order.
  pub serve-seen :
      (rs : List Request) (c : Console) (q : List Event)
      → queue_of i c.store.waiters ≡ some q
      → All (Stays i) rs
      → HasRoom i rs c
      → (new : List Event) × (added : List Row) × AllStored new added
        × ((serve rs c).store.rows ≡ c.store.rows ++ added)
        × (seen i (serve rs c) ≡ seen i c ++ new)
  serve-seen rs c q h stays room =
      let (new, added, got, (all, among, er, es), exact) = serve-Sees rs c q h stays in
      (new, added, all, er, es ∙ ap (λ l. seen i c ++ l) (exact room))

  -- While the client of a stream stays, whatever requests there are and even when its queue is full:
  -- what the stream has yielded, with what waits for it, grows by some of the events that are
  -- stored, in their order and none of them twice.
  pub serve-Among :
      (rs : List Request) (c : Console) (q : List Event)
      → queue_of i c.store.waiters ≡ some q
      → All (Stays i) rs
      → (new : List Event) × (added : List Row) × (got : List Event) × AllStored new added
        × Among got new
        × ((serve rs c).store.rows ≡ c.store.rows ++ added)
        × (seen i (serve rs c) ≡ seen i c ++ got)
  serve-Among rs c q h stays =
      let (new, added, got, (all, among, er, es), exact) = serve-Sees rs c q h stays in
      (new, added, got, all, among, er, es)
