-- ===== src/Console/Pages.antt =====
-- A client that asks for one page after the other, while requests come in.
use gpti84_plus.Base.{
  ℕ, ◌+◌, List, ◌++◌, ◌≡◌, ◌∙◌, sym, ap, length, take, drop, take_whole, take-drop,
}
use gpti84_plus.Console.{Row, Store, after, recent}
use gpti84_plus.Console.Rows.{
  IsStore, after-after, after-append, after_ascends, recent-after, last_id, last_id_le,
  after-last_id,
}
use gpti84_plus.Console.Streams.{Request, Console, serve}
use gpti84_plus.Console.Streams.Grown.{serve-Grown}

-- Where the second of two queries begins, and what it finds.
second_page :
    (a m : ℕ) (s t : Store) (added : List Row)
    → IsStore t
    → t.rows ≡ s.rows ++ added
    → after (last_id a (take m (after a s.rows))) t.rows
      ≡ drop (length (take m (after a s.rows))) (after a t.rows)
second_page a m s t added h e =
    let k = length (take m (after a s.rows)) in
    let grown : after a t.rows ≡ after a s.rows ++ after a added =
      ap (after a) e ∙ after-append a s.rows added in
    let page : take k (after a t.rows) ≡ take m (after a s.rows) =
      ap (take k) grown ∙ take_whole m (after a s.rows) (after a added) in
    let ascends = after_ascends a t.last t.rows h in
    ap (λ p. after (last_id a p) t.rows) (sym page)
    ∙ sym (
        after-after a (last_id a (take k (after a t.rows))) t.rows
          (last_id_le k a (a + t.last) (after a t.rows) ascends))
    ∙ after-last_id k a (a + t.last) (after a t.rows) ascends

-- A client asks for a page, and after any requests of others for the next, from the last number it
-- has got: the two pages are one page of what the table holds in the end, as long as the first and
-- with the limit of the second. No row is missed between them and none comes twice.
pub recent-serve :
    (a m n : ℕ) (rs : List Request) (c : Console)
    → IsStore c.store
    → recent a m c.store ++ recent (last_id a (recent a m c.store)) n (serve rs c).store
      ≡ recent a (length (recent a m c.store) + n) (serve rs c).store
recent-serve a m n rs c h =
    let s = c.store in
    let t = (serve rs c).store in
    let (h', added, e) = serve-Grown rs c h in
    let first = recent-after a m s h in
    let page = take m (after a s.rows) in
    let k = length page in
    let whole : take k (after a t.rows) ≡ page =
      ap (take k) (ap (after a) e ∙ after-append a s.rows added)
      ∙ take_whole m (after a s.rows) (after a added) in
    ap (λ p. p ++ recent (last_id a p) n t) first
    ∙ ap (λ l. page ++ l)
        (recent-after (last_id a page) n t h' ∙ ap (take n) (second_page a m s t added h' e))
    ∙ ap (λ l. l ++ take n (drop k (after a t.rows))) (sym whole)
    ∙ take-drop k n (after a t.rows)
    ∙ sym (recent-after a (k + n) t h')
    ∙ ap (λ p. recent a (length p + n) t) (sym first)
