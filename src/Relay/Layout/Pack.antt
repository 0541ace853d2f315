-- ===== src/Relay/Layout/Pack.antt =====
-- The pages that `_layout_pages` fills: how many rows they have, and what rows.
use gpti84_plus.Base.{
  ℕ, ◌*◌, ◌≤◌, ◌<◌, ◌≡◌, List, [], ◌∷◌, ◌++◌, map, false, leb, length, length-append, All,
  All-append, Bool-cases, inl, inr, arith,
}
use gpti84_plus.Base.Bytes.{Bytes, IsPrintable}
use gpti84_plus.Relay.Wrap.{rewrap_line, ascii_clamp}
use gpti84_plus.Relay.Wrap.Widths.{Fits, rewrap_line-Fits}
use gpti84_plus.Relay.Wrap.Chars.{
  blank-IsPrintable, ascii_clamp-IsPrintable, rewrap_line-Of, split-Of,
}
use gpti84_plus.Relay.Layout.{
  Entry, lines, plain, Item, page_break, logical_line, Packing, no_rows, close_page, entry_items,
  add_entry, add_entries, pack_row, pack_rows, pack_item, pack_items, unpacked, or_blank_page,
  packed,
}

-- A row: printable characters, no more than fit.
abbrev pub IsRow : ℕ → Bytes → Type 0
IsRow cols l = Fits cols l × All IsPrintable l

abbrev pub PageFits : ℕ → ℕ → List Bytes → Type 0
PageFits cols rows p = All (IsRow cols) p × length p ≤ rows

abbrev PrintableItem : Item → Type 0
PrintableItem page_break = Unit
PrintableItem (logical_line l) = All IsPrintable l

both :
    (cols : ℕ) (ls : List Bytes)
    → All (Fits cols) ls
    → All (λ l. All IsPrintable l) ls
    → All (IsRow cols) ls
both cols [] h k = tt
both cols (l ∷ ls) (h, hs) (k, ks) = ((h, k), both cols ls hs ks)

wrapped-IsRow : (cols : ℕ) (l : Bytes) → All IsPrintable l → All (IsRow cols) (rewrap_line l cols)
wrapped-IsRow cols l h =
    both cols _ (rewrap_line-Fits cols l) (rewrap_line-Of IsPrintable blank-IsPrintable l cols h)

module _ (cols rows max_pages : ℕ) where
  abbrev PackFits : Packing → Type 0
  PackFits s = All (PageFits cols rows) s.pages × PageFits cols rows s.cur_rows

  closed :
      (pages : List (List Bytes)) (page : List Bytes)
      → All (PageFits cols rows) pages
      → PageFits cols rows page
      → All (PageFits cols rows) (pages ++ (page ∷ []))
  closed pages page h hp = All-append (PageFits cols rows) pages (page ∷ []) h (hp, tt)

  close_page-PackFits : (s : Packing) → PackFits s → PackFits (close_page s)
  unfolding close_page
  close_page-PackFits s (hp, hc) = elim (Bool-cases (no_rows s.cur_rows)) [
    | inl e ↦ rw e (hp, hc)
    | inr e ↦ rw e (closed s.pages s.cur_rows hp hc, (tt, omega arith))
  ]

  appended-PageFits :
      (page : List Bytes) (row : Bytes)
      → PageFits cols rows page
      → leb rows (length page) ≡ false
      → IsRow cols row
      → PageFits cols rows (page ++ (row ∷ []))
  appended-PageFits page row (h, n) e hr = (
    All-append (IsRow cols) page (row ∷ []) h (hr, tt),
    ground (arith, length-append page (row ∷ [])),
  )

  pack_row-PackFits :
      (s : Packing) (row : Bytes)
      → 0 < rows
      → IsRow cols row
      → PackFits s
      → PackFits (pack_row cols rows max_pages s row)
  unfolding pack_row
  pack_row-PackFits s row pos hr (hp, hc) = elim (Bool-cases (leb rows (length s.cur_rows))) [
    | inl e ↦ rw e (closed s.pages s.cur_rows hp hc, ((hr, tt), omega arith))
    | inr e ↦ rw e (hp, appended-PageFits s.cur_rows row hc e hr)
  ]

  pack_rows-PackFits :
      (rs : List Bytes) (s : Packing)
      → 0 < rows
      → All (IsRow cols) rs
      → PackFits s
      → PackFits (pack_rows cols rows max_pages s rs)
  unfolding pack_rows
  pack_rows-PackFits [] s pos hr h = h
  pack_rows-PackFits (r ∷ rs) s pos (hr, hrs) h =
      pack_rows-PackFits rs (pack_row cols rows max_pages s r) pos hrs
        (pack_row-PackFits s r pos hr h)

  pack_items-PackFits :
      (is : List Item) (s : Packing)
      → 0 < rows
      → All PrintableItem is
      → PackFits s
      → PackFits (pack_items cols rows max_pages s is)
  unfolding pack_items pack_item
  pack_items-PackFits [] s pos hi h = h
  pack_items-PackFits (page_break ∷ is) s pos (hi, his) h =
      pack_items-PackFits is (close_page s) pos his (close_page-PackFits s h)
  pack_items-PackFits (logical_line l ∷ is) s pos (hi, his) h =
      pack_items-PackFits is (pack_rows cols rows max_pages s (rewrap_line l cols)) pos his
        (pack_rows-PackFits (rewrap_line l cols) s pos (wrapped-IsRow cols l hi) h)

  clamped_items :
      (ls : List Bytes) (n : ℕ) → All PrintableItem (map (λ l. logical_line (ascii_clamp l n)) ls)
  clamped_items [] n = tt
  clamped_items (l ∷ ls) n = (ascii_clamp-IsPrintable l n, clamped_items ls n)

  split_items :
      (ls : List Bytes)
      → All (λ l. All IsPrintable l) ls
      → All PrintableItem (map (λ l. logical_line l) ls)
  split_items [] h = tt
  split_items (l ∷ ls) (h, hs) = (h, split_items ls hs)

  entry_items-PrintableItem : (e : Entry) → All PrintableItem (entry_items cols rows max_pages e)
  unfolding entry_items
  entry_items-PrintableItem (lines ls) = clamped_items ls (cols * rows)
  entry_items-PrintableItem (plain s) =
      split_items _
        (split-Of IsPrintable b'\n' _ (ascii_clamp-IsPrintable s (cols * rows * max_pages)))

  add_entry-PrintableItem :
      (is : List Item) (e : Entry)
      → All PrintableItem is
      → All PrintableItem (add_entry cols rows max_pages is e)
  add_entry-PrintableItem [] e h = entry_items-PrintableItem e
  add_entry-PrintableItem (i ∷ is) e h =
      All-append PrintableItem (i ∷ is) (page_break ∷ entry_items cols rows max_pages e) h
        (tt, entry_items-PrintableItem e)

  add_entries-PrintableItem :
      (es : List Entry) (is : List Item)
      → All PrintableItem is
      → All PrintableItem (add_entries cols rows max_pages is es)
  unfolding add_entries
  add_entries-PrintableItem [] is h = h
  add_entries-PrintableItem (e ∷ es) is h =
      add_entries-PrintableItem es (add_entry cols rows max_pages is e)
        (add_entry-PrintableItem is e h)

  or_blank_page-PageFits :
      (ps : List (List Bytes))
      → 0 < rows
      → All (PageFits cols rows) ps
      → All (PageFits cols rows) (or_blank_page cols rows max_pages ps)
  or_blank_page-PageFits [] pos h = ((((omega arith, tt), tt), omega arith), tt)
  or_blank_page-PageFits (p ∷ ps) pos h = h

  -- Before padding, every page has at most `rows` rows, each of printable characters that fit.
  pub packed-PageFits :
      (es : List Entry) → 0 < rows → All (PageFits cols rows) (packed cols rows max_pages es)
  unfolding packed
  packed-PageFits es pos =
      or_blank_page-PageFits _ pos
        (close_page-PackFits _ (
          pack_items-PackFits _ (unpacked cols rows max_pages) pos
            (add_entries-PrintableItem es [] tt) (tt, (tt, omega arith)))).0
