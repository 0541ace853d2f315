-- ===== src/Console/Streams/Grown.antt =====
-- The rows of the table, whatever requests come in: they stay, and their numbers ascend.
use gpti84_plus.Base.{
  ℕ, suc, List, [], ◌∷◌, ◌++◌, append-nil, append_assoc, ◌≡◌, ◌∙◌, refl, sym, ap, Option, none,
  some, Bool, true, false, inl, inr, arith,
}
use mathlib.Core.Path.{subst}
use gpti84_plus.Base.Bytes.{Bytes}
use gpti84_plus.Console.{
  Body, Row, Event, Store, row_of, inserted, insert, answered, ingest, subscribe, unsubscribe,
}
use gpti84_plus.Console.Rows.{Between, IsStore, Between-append}
use gpti84_plus.Console.Queues.{set_queue}
use gpti84_plus.Console.Ingest.{ingest_cases}
use gpti84_plus.Console.Streams.{
  round_of, stream_round, Request, post, open_stream, turn, Console, tell, answer, serve,
}
use gpti84_plus.Console.Streams.Seen.{row_id}

-- Rows that were there stay, and others come behind them.
abbrev pub Grown : Store → Store → Type 0
Grown s t = IsStore t × (added : List Row) × (t.rows ≡ s.rows ++ added)

module _ (s : Store) (h : IsStore s) where
  same_rows : (t : Store) → t.rows ≡ s.rows → t.last ≡ s.last → Grown s t
  same_rows t e l = (
    subst (λ m. Between 0 t.rows m) (sym l) (subst (λ r. Between 0 r s.last) (sym e) h),
    [],
    e ∙ sym (append-nil s.rows),
  )

  inserted-Grown :
      (b : Body) (o : Option Row)
      → row_of (suc s.last) b ≡ o
      → Grown s (answered s (inserted o b s)).1
  inserted-Grown b none e = same_rows s refl refl
  inserted-Grown b (some r) e =
      (Between-append 0 s.last s.rows r h (omega (arith, row_id (suc s.last) b r e)), r ∷ [], refl)

  ingest-Grown : (host : Option Bytes) (body : Option Body) → Grown s (ingest host body s).1
  unfolding insert
  ingest-Grown host body = elim (ingest_cases host body s) [
    | inl (reason, e) ↦ subst (λ out. Grown s out.1) (sym e) (same_rows s refl refl)
    | inr (b, same, e) ↦ subst (λ out. Grown s out.1) (sym e) (inserted-Grown b _ refl)
  ]

  round-Grown :
      (c : Console) (i : ℕ) (o : Option (List Event)) → Grown s (tell i (round_of i o s) c).store
  round-Grown c i none = same_rows s refl refl
  round-Grown c i (some []) = same_rows s refl refl
  round-Grown c i (some (e ∷ q)) =
      same_rows (record s { waiters = set_queue i q s.waiters }) refl refl

  turn-Grown :
      (c : Console) (gone : Bool) (i : ℕ) → Grown s (tell i (stream_round gone i s) c).store
  unfolding stream_round unsubscribe
  turn-Grown c true i = same_rows (unsubscribe i s) refl refl
  turn-Grown c false i = round-Grown c i _

answer-Grown : (r : Request) (c : Console) → IsStore c.store → Grown c.store (answer r c).store
unfolding answer subscribe
answer-Grown (post host body) c h = ingest-Grown c.store h host body
answer-Grown open_stream c h = same_rows c.store h (subscribe c.store).1 refl refl
answer-Grown (turn gone i) c h = turn-Grown c.store h c gone i

-- Whatever requests come in, the rows that were there stay, and the numbers of all rows ascend up to
-- the last that the database has given.
pub serve-Grown :
    (rs : List Request) (c : Console) → IsStore c.store → Grown c.store (serve rs c).store
unfolding serve
serve-Grown [] c h = same_rows c.store h c.store refl refl
serve-Grown (r ∷ rs) c h =
    let (h', added, e) = answer-Grown r c h in
    let (h'', more, e') = serve-Grown rs (answer r c) h' in
    (h'', added ++ more, e' ∙ ap (λ l. l ++ more) e ∙ append_assoc c.store.rows added more)
