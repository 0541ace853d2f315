-- ===== src/Relay/Layout/Grid.antt =====
-- The pages that `_layout_pages` returns: their number, their length and their characters.
use gpti84_plus.Base.{
  ℕ, zero, suc, ◌+◌, ◌-◌, ◌*◌, ◌≤◌, ◌<◌, ◌≡◌, ap, ◌∙◌, List, [], ◌∷◌, map, length, length-append,
  length-take, length-map, length-replicate, take, replicate, All, All-append, All-take, arith,
}
use gpti84_plus.Base.Bytes.{Bytes, IsPrintable}
use gpti84_plus.Relay.Wrap.Chars.{blank-IsPrintable}
use gpti84_plus.Relay.Layout.Pack.{IsRow, PageFits, packed-PageFits}
use gpti84_plus.Relay.Layout.{
  Entry, or_blank_page, packed, concat, ljust, pad_rows, grid, layout_pages,
}

module _ (cols rows max_pages : ℕ) where
  -- A page for the calculator: `cols * rows` printable characters.
  unfoldable pub IsGrid : Bytes → Type 0
  IsGrid page = (length page ≡ cols * rows) × All IsPrintable page

  abbrev cell_row : Bytes → Bytes
  cell_row l = ljust (take cols l) cols

  length-cell_row : (l : Bytes) → length (cell_row l) ≡ cols
  length-cell_row l = omega (
    arith,
    length-append (take cols l) (replicate (cols - length (take cols l)) b' '),
    length-replicate {A = ℕ} (cols - length (take cols l)) b' ',
    length-take cols l,
  )

  length-concat : (ls : List Bytes) → length (concat (map cell_row ls)) ≡ cols * length ls
  unfolding concat
  length-concat [] = omega arith
  length-concat (l ∷ ls) =
      length-append (cell_row l) (concat (map cell_row ls))
      ∙ rw (length-cell_row l, length-concat ls) (mul_suc (length ls))
    where
      mul_suc : (n : ℕ) → cols + cols * n ≡ cols * suc n
      mul_suc n = omega arith

  replicate-All : (n : ℕ) {A : Type 0} (P : A → Type 0) (a : A) → P a → All P (replicate n a)
  replicate-All zero P a h = tt
  replicate-All (suc n) P a h = (h, replicate-All n P a h)

  cells-IsPrintable :
      (ls : List Bytes)
      → All (λ l. All IsPrintable l) ls
      → All IsPrintable (concat (map cell_row ls))
  unfolding concat
  cells-IsPrintable [] h = tt
  cells-IsPrintable (l ∷ ls) (h, hs) =
      All-append IsPrintable (cell_row l) (concat (map cell_row ls))
        (All-append IsPrintable (take cols l) (replicate (cols - length (take cols l)) b' ')
          (All-take IsPrintable cols l h)
          (replicate-All (cols - length (take cols l)) IsPrintable b' ' blank-IsPrintable))
        (cells-IsPrintable ls hs)

  rows-IsPrintable : (ls : List Bytes) → All (IsRow cols) ls → All (λ l. All IsPrintable l) ls
  rows-IsPrintable [] h = tt
  rows-IsPrintable (l ∷ ls) ((_, h), hs) = (h, rows-IsPrintable ls hs)

  length-pad_rows : (p : List Bytes) → length (pad_rows cols rows max_pages p) ≡ rows
  length-pad_rows p = omega (
    arith,
    length-append (take rows p) (replicate (rows - length (take rows p)) []),
    length-replicate {A = Bytes} (rows - length (take rows p)) [],
    length-take rows p,
  )

  grid-IsGrid : (p : List Bytes) → PageFits cols rows p → IsGrid (grid cols rows max_pages p)
  unfolding IsGrid grid
  grid-IsGrid p (h, n) = (
    length-concat (pad_rows cols rows max_pages p) ∙ ap (λ k. cols * k) (length-pad_rows p),
    cells-IsPrintable (pad_rows cols rows max_pages p) (
        All-append (λ l. All IsPrintable l) (take rows p)
          (replicate (rows - length (take rows p)) [])
          (All-take (λ l. All IsPrintable l) rows p (rows-IsPrintable p h))
          (replicate-All (rows - length (take rows p)) (λ l. All IsPrintable l) [] tt)),
  )

  grids-IsGrid :
      (ps : List (List Bytes))
      → All (PageFits cols rows) ps
      → All IsGrid (map (grid cols rows max_pages) ps)
  grids-IsGrid [] h = tt
  grids-IsGrid (p ∷ ps) (h, hs) = (grid-IsGrid p h, grids-IsGrid ps hs)

  -- Whatever the model's reply, every page that `_layout_pages` returns is a full grid: it has
  -- `cols * rows` characters, all of them printable ASCII, if the grid has a row.
  pub layout_pages-IsGrid :
      (es : List Entry) → 0 < rows → All IsGrid (layout_pages cols rows max_pages es)
  unfolding layout_pages
  layout_pages-IsGrid es pos = grids-IsGrid (take max_pages (packed cols rows max_pages es)) (
      All-take (PageFits cols rows) max_pages (packed cols rows max_pages es)
        (packed-PageFits cols rows max_pages es pos))

  or_blank_page_pos : (ps : List (List Bytes)) → 0 < length (or_blank_page cols rows max_pages ps)
  or_blank_page_pos [] = omega arith
  or_blank_page_pos (p ∷ ps) = omega arith

  packed_pos : (es : List Entry) → 0 < length (packed cols rows max_pages es)
  unfolding packed
  packed_pos es = or_blank_page_pos _

  -- `_layout_pages` returns at least one page and at most `max_pages`, if that is not 0.
  pub layout_pages_count :
      (es : List Entry)
      → 0 < max_pages
      → (0 < length (layout_pages cols rows max_pages es))
        × (length (layout_pages cols rows max_pages es) ≤ max_pages)
  unfolding layout_pages
  layout_pages_count es pos =
      let n =
        length-map (grid cols rows max_pages) (take max_pages (packed cols rows max_pages es)) in
      let t = length-take max_pages (packed cols rows max_pages es) in
      (omega (arith, n, t, packed_pos es), omega (arith, n, t))
