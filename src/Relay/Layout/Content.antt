-- ===== src/Relay/Layout/Content.antt =====
-- The text of the entries on the pages that `_layout_pages` fills, before the cut.
use gpti84_plus.Base.{
  ℕ, ◌*◌, ◌<◌, ◌≡◌, sym, ap, ◌∙◌, refl, List, [], ◌∷◌, ◌++◌, append-nil, append_assoc, map, true,
  leb, length, Bool-cases, inl, inr,
}
use gpti84_plus.Base.Bytes.{Bytes}
use gpti84_plus.Base.Text.{split}
use gpti84_plus.Relay.Wrap.{rewrap_line, ascii_clamp}
use gpti84_plus.Relay.Wrap.Content.{ink, inks, inks-append, inks-split, rewrap_line-ink}
use gpti84_plus.Relay.Layout.{
  Entry, lines, plain, Item, page_break, logical_line, Packing, no_rows, close_page, entry_items,
  add_entry, add_entries, pack_row, pack_rows, pack_item, pack_items, unpacked, or_blank_page,
  packed,
}

-- The characters of pages and of items that are no white space, in order.
unfoldable pub pages_ink : List (List Bytes) → Bytes
pages_ink [] = []
pages_ink (p ∷ ps) = inks p ++ pages_ink ps

items_ink : List Item → Bytes
items_ink [] = []
items_ink (page_break ∷ is) = items_ink is
items_ink (logical_line l ∷ is) = ink l ++ items_ink is

pages_ink-append : (ps qs : List (List Bytes)) → pages_ink (ps ++ qs) ≡ pages_ink ps ++ pages_ink qs
unfolding pages_ink
pages_ink-append [] qs = refl
pages_ink-append (p ∷ ps) qs = simp (pages_ink-append ps qs, append_assoc)

items_ink-append : (is js : List Item) → items_ink (is ++ js) ≡ items_ink is ++ items_ink js
unfolding items_ink
items_ink-append [] js = refl
items_ink-append (page_break ∷ is) js = items_ink-append is js
items_ink-append (logical_line l ∷ is) js = simp (items_ink-append is js, append_assoc)

abbrev content : Packing → Bytes
content s = pages_ink s.pages ++ inks s.cur_rows

one_page :
    (ps : List (List Bytes)) (p : List Bytes) → pages_ink (ps ++ (p ∷ [])) ≡ pages_ink ps ++ inks p
one_page ps p =
    pages_ink-append ps (p ∷ [])
    ∙ ap (λ x. pages_ink ps ++ x) (unfold pages_ink in append-nil (inks p))

one_row : (rs : List Bytes) (r : Bytes) → inks (rs ++ (r ∷ [])) ≡ inks rs ++ ink r
one_row rs r = inks-append rs (r ∷ []) ∙ ap (λ x. inks rs ++ x) (unfold inks in append-nil (ink r))

no_rows_eq : (rs : List Bytes) → no_rows rs ≡ true → rs ≡ []
no_rows_eq [] e = refl
no_rows_eq (r ∷ rs) e = cc

content-close_page : (s : Packing) → content (close_page s) ≡ content s
unfolding close_page
content-close_page s = elim (Bool-cases (no_rows s.cur_rows)) [
  | inl e ↦ rw e refl
  | inr e ↦ rw e (unfold inks in append-nil _ ∙ one_page s.pages s.cur_rows)
]

closed_ink : (s : Packing) → pages_ink (close_page s).pages ≡ content s
unfolding close_page inks pages_ink
closed_ink s = elim (Bool-cases (no_rows s.cur_rows)) [
  | inl e ↦ rw e (
      sym (append-nil (pages_ink s.pages))
      ∙ ap (λ rs. pages_ink s.pages ++ inks rs) (sym (no_rows_eq s.cur_rows e)))
  | inr e ↦ rw e (one_page s.pages s.cur_rows)
]

module _ (cols rows max_pages : ℕ) where
  content-pack_row :
      (s : Packing) (r : Bytes) → content (pack_row cols rows max_pages s r) ≡ content s ++ ink r
  unfolding pack_row
  content-pack_row s r = elim (Bool-cases (leb rows (length s.cur_rows))) [
    | inl e ↦ rw e (
        ap (λ x. x ++ inks (r ∷ [])) (one_page s.pages s.cur_rows)
        ∙ ap (λ x. content s ++ x) (unfold inks in append-nil (ink r)))
    | inr e ↦ rw e (
        ap (λ x. pages_ink s.pages ++ x) (one_row s.cur_rows r)
        ∙ sym (append_assoc (pages_ink s.pages) (inks s.cur_rows) (ink r)))
  ]

  content-pack_rows :
      (rs : List Bytes) (s : Packing)
      → content (pack_rows cols rows max_pages s rs) ≡ content s ++ inks rs
  unfolding pack_rows inks
  content-pack_rows [] s = sym (append-nil (content s))
  content-pack_rows (r ∷ rs) s =
      content-pack_rows rs (pack_row cols rows max_pages s r)
      ∙ ap (λ x. x ++ inks rs) (content-pack_row s r)
      ∙ append_assoc (content s) (ink r) (inks rs)

  content-pack_items :
      (is : List Item) (s : Packing)
      → 0 < cols
      → content (pack_items cols rows max_pages s is) ≡ content s ++ items_ink is
  unfolding pack_items pack_item items_ink
  content-pack_items [] s pos = sym (append-nil (content s))
  content-pack_items (page_break ∷ is) s pos =
      content-pack_items is (close_page s) pos ∙ ap (λ x. x ++ items_ink is) (content-close_page s)
  content-pack_items (logical_line l ∷ is) s pos =
      content-pack_items is (pack_rows cols rows max_pages s (rewrap_line l cols)) pos
      ∙ ap (λ x. x ++ items_ink is)
          (content-pack_rows (rewrap_line l cols) s
            ∙ ap (λ x. content s ++ x) (rewrap_line-ink l cols pos))
      ∙ append_assoc (content s) (ink l) (items_ink is)

  or_blank_page_ink :
      (ps : List (List Bytes)) → pages_ink (or_blank_page cols rows max_pages ps) ≡ pages_ink ps
  unfolding pages_ink inks ink
  or_blank_page_ink [] = refl
  or_blank_page_ink (p ∷ ps) = refl

  packed_ink :
      (es : List Entry)
      → 0 < cols
      → pages_ink (packed cols rows max_pages es)
        ≡ items_ink (add_entries cols rows max_pages [] es)
  unfolding packed
  packed_ink es pos =
      let is = add_entries cols rows max_pages [] es in
      let s = pack_items cols rows max_pages (unpacked cols rows max_pages) is in
      or_blank_page_ink (close_page s).pages
      ∙ closed_ink s
      ∙ content-pack_items is (unpacked cols rows max_pages) pos
      ∙ unfold pages_ink in unfold inks in refl

  -- What the entries hold after `_ascii_clamp`.
  pub entry_ink : Entry → Bytes
  entry_ink (lines ls) = inks (map (λ l. ascii_clamp l (cols * rows)) ls)
  entry_ink (plain s) = ink (ascii_clamp s (cols * rows * max_pages))

  pub entries_ink : List Entry → Bytes
  unfolding entry_ink
  entries_ink [] = []
  entries_ink (e ∷ es) = entry_ink e ++ entries_ink es

  lines_ink : (ls : List Bytes) → items_ink (map (λ l. logical_line l) ls) ≡ inks ls
  unfolding items_ink inks
  lines_ink [] = refl
  lines_ink (l ∷ ls) = ap (λ x. ink l ++ x) (lines_ink ls)

  clamped_ink :
      (ls : List Bytes) (n : ℕ)
      → items_ink (map (λ l. logical_line (ascii_clamp l n)) ls)
        ≡ inks (map (λ l. ascii_clamp l n) ls)
  unfolding items_ink inks
  clamped_ink [] n = refl
  clamped_ink (l ∷ ls) n = ap (λ x. ink (ascii_clamp l n) ++ x) (clamped_ink ls n)

  entry_items_ink : (e : Entry) → items_ink (entry_items cols rows max_pages e) ≡ entry_ink e
  unfolding entry_items entry_ink
  entry_items_ink (lines ls) = clamped_ink ls (cols * rows)
  entry_items_ink (plain s) =
      lines_ink (split b'\n' (ascii_clamp s (cols * rows * max_pages))) ∙ inks-split b'\n' _ refl

  add_entry_ink :
      (is : List Item) (e : Entry)
      → items_ink (add_entry cols rows max_pages is e) ≡ items_ink is ++ entry_ink e
  add_entry_ink [] e = entry_items_ink e ∙ unfold items_ink in refl
  add_entry_ink (i ∷ is) e =
      items_ink-append (i ∷ is) (page_break ∷ entry_items cols rows max_pages e)
      ∙ ap (λ x. items_ink (i ∷ is) ++ x) (unfold items_ink in entry_items_ink e)

  add_entries_ink :
      (es : List Entry) (is : List Item)
      → items_ink (add_entries cols rows max_pages is es) ≡ items_ink is ++ entries_ink es
  unfolding add_entries entries_ink
  add_entries_ink [] is = sym (append-nil (items_ink is))
  add_entries_ink (e ∷ es) is =
      add_entries_ink es (add_entry cols rows max_pages is e)
      ∙ ap (λ x. x ++ entries_ink es) (add_entry_ink is e)
      ∙ append_assoc (items_ink is) (entry_ink e) (entries_ink es)

  -- The pages before the cut hold what the entries hold.
  pub packed-entries_ink :
      (es : List Entry) → 0 < cols → pages_ink (packed cols rows max_pages es) ≡ entries_ink es
  packed-entries_ink es pos = packed_ink es pos ∙ add_entries_ink es [] ∙ unfold items_ink in refl
