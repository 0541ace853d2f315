-- ===== src/Relay/Layout/Whole.antt =====
-- The text of the reply on the pages that `_layout_pages` returns.
use gpti84_plus.Base.{
  ℕ, zero, suc, ◌-◌, ◌≤◌, ◌<◌, ◌≡◌, ap, ◌∙◌, refl, List, [], ◌∷◌, ◌++◌, append-nil, map, length,
  take, take-le, replicate, All, All-append, All-take, arith,
}
use gpti84_plus.Base.Bytes.{Bytes}
use gpti84_plus.Relay.Wrap.Content.{ink, inks, ink-append, inks-append}
use gpti84_plus.Relay.Layout.Pack.{IsRow, PageFits, packed-PageFits}
use gpti84_plus.Relay.Layout.{Entry, concat, ljust, packed, pad_rows, grid, layout_pages}
use gpti84_plus.Relay.Layout.Content.{pages_ink, entries_ink, packed-entries_ink}

module _ (cols rows max_pages : ℕ) where
  ink-blanks : (n : ℕ) → ink (replicate n b' ') ≡ []
  unfolding ink
  ink-blanks zero = refl
  ink-blanks (suc n) = ink-blanks n

  cell_ink : (l : Bytes) → length l ≤ cols → ink (ljust (take cols l) cols) ≡ ink l
  cell_ink l fits =
      ink-append (take cols l) (replicate (cols - length (take cols l)) b' ')
      ∙ ap (λ x. ink (take cols l) ++ x) (ink-blanks (cols - length (take cols l)))
      ∙ append-nil (ink (take cols l))
      ∙ ap ink (take-le cols l fits)

  cells_ink :
      (ls : List Bytes)
      → All (IsRow cols) ls
      → ink (concat (map (λ l. ljust (take cols l) cols) ls)) ≡ inks ls
  unfolding concat inks
  cells_ink [] h = unfold ink in refl
  cells_ink (l ∷ ls) ((fits, _), hs) =
      let rest = cells_ink ls hs in
      ink-append (ljust (take cols l) cols) (concat (map (λ l. ljust (take cols l) cols) ls))
      ∙ ap (λ x. x ++ ink (concat (map (λ l. ljust (take cols l) cols) ls))) (cell_ink l fits)
      ∙ ap (λ x. ink l ++ x) rest

  pad_rows_ink : (n : ℕ) → inks (replicate n []) ≡ []
  unfolding inks ink
  pad_rows_ink zero = refl
  pad_rows_ink (suc n) = pad_rows_ink n

  blank_rows : (n : ℕ) → All (IsRow cols) (replicate n [])
  blank_rows zero = tt
  blank_rows (suc n) = ((omega arith, tt), blank_rows n)

  ink-grid : (p : List Bytes) → PageFits cols rows p → ink (grid cols rows max_pages p) ≡ inks p
  unfolding grid
  ink-grid p (h, n) =
      cells_ink (pad_rows cols rows max_pages p) (
        All-append (IsRow cols) (take rows p) (replicate (rows - length (take rows p)) [])
          (All-take (IsRow cols) rows p h) (blank_rows (rows - length (take rows p))))
      ∙ inks-append (take rows p) (replicate (rows - length (take rows p)) [])
      ∙ ap (λ x. inks (take rows p) ++ x) (pad_rows_ink (rows - length (take rows p)))
      ∙ append-nil (inks (take rows p))
      ∙ ap inks (take-le rows p n)

  grids_ink :
      (ps : List (List Bytes))
      → All (PageFits cols rows) ps
      → inks (map (grid cols rows max_pages) ps) ≡ pages_ink ps
  unfolding inks pages_ink
  grids_ink [] h = refl
  grids_ink (p ∷ ps) (h, hs) =
      let rest = grids_ink ps hs in
      ap (λ x. x ++ inks (map (grid cols rows max_pages) ps)) (ink-grid p h)
      ∙ ap (λ x. inks p ++ x) rest

  -- If the grid is not empty and the text needs no more than `max_pages` pages, the pages that
  -- `_layout_pages` returns hold all the characters of the clamped entries that are no white
  -- space, in their order.
  pub layout_pages-entries_ink :
      (es : List Entry)
      → 0 < cols
      → 0 < rows
      → length (packed cols rows max_pages es) ≤ max_pages
      → inks (layout_pages cols rows max_pages es) ≡ entries_ink cols rows max_pages es
  unfolding layout_pages
  layout_pages-entries_ink es pos rpos le =
      ap (λ ps. inks (map (grid cols rows max_pages) ps))
        (take-le max_pages (packed cols rows max_pages es) le)
      ∙ grids_ink (packed cols rows max_pages es) (packed-PageFits cols rows max_pages es rpos)
      ∙ packed-entries_ink cols rows max_pages es pos
