-- ===== src/Relay/Layout/Tests.antt =====
-- A reply at a concrete input: a wide line, and a page of its own.
use gpti84_plus.Base.{◌≡◌, ◌≤◌, List, [], ◌∷◌, length, All, arith}
use gpti84_plus.Base.Bytes.{Bytes, codes}
use gpti84_plus.Base.Text.{split, cons_part}
use gpti84_plus.Relay.Wrap.{
  ascii_clamp, rstrip_spaces, flush, chunks, place_word, place_words, wrap_stripped, rewrap_line,
}
use gpti84_plus.Relay.Wrap.Widths.{Fits, rewrap_line-Fits}
use gpti84_plus.Relay.Wrap.Content.{inks}
use gpti84_plus.Relay.Layout.Content.{entries_ink}
use gpti84_plus.Relay.Layout.Grid.{IsGrid, layout_pages-IsGrid}
use gpti84_plus.Relay.Layout.Whole.{layout_pages-entries_ink}
use gpti84_plus.Relay.Layout.{
  Entry, lines, plain, close_page, entry_items, add_entries, pack_row, pack_rows, pack_item,
  pack_items, packed, layout_pages,
}

abbrev wide : Bytes
wide = codes "THE ANSWER IS 42 EXACTLY"

abbrev two_pages : List Entry
two_pages = lines (wide ∷ []) ∷ plain (codes "BYE") ∷ []

two_pages_fit : length (packed 16 7 8 two_pages) ≤ 8
unfolding packed pack_items pack_item pack_rows pack_row close_page add_entries entry_items
    rewrap_line wrap_stripped place_words place_word chunks flush rstrip_spaces ascii_clamp split
    cons_part
two_pages_fit = omega arith

layout_pages-entries_ink_example :
    inks (layout_pages 16 7 8 two_pages) ≡ entries_ink 16 7 8 two_pages
layout_pages-entries_ink_example =
    layout_pages-entries_ink 16 7 8 two_pages (omega arith) (omega arith) two_pages_fit

layout_pages-IsGrid_example : All (IsGrid 16 7 8) (layout_pages 16 7 8 two_pages)
layout_pages-IsGrid_example = layout_pages-IsGrid 16 7 8 two_pages (omega arith)

rewrap_line-Fits_example : All (Fits 16) (rewrap_line wide 16)
rewrap_line-Fits_example = rewrap_line-Fits 16 wide
