-- ===== src/Relay/Layout.antt =====
-- `_layout_pages` of tools/relay_server.py.
pub mod Pack
pub mod Content
pub mod Grid
pub mod Whole
mod Tests
use gpti84_plus.Base.{
  ℕ, zero, suc, ◌+◌, ◌-◌, ◌*◌, List, [], ◌∷◌, ◌++◌, map, Bool, true, false, leb, if◌then◌else◌,
  length, take, replicate,
}
use gpti84_plus.Base.Bytes.{Bytes}
use gpti84_plus.Base.Text.{split}
use gpti84_plus.Relay.Wrap.{ascii_clamp, rewrap_line}

-- An entry of the model's reply: an object with an array of lines (of `str(ln)`; a missing array
-- counts as an empty one), or another value, as `str` of it.
pub data Entry : Type 0 where
  lines : List Bytes → Entry
  plain : Bytes → Entry

pub data Item : Type 0 where
  page_break : Item
  logical_line : Bytes → Item

-- The finished pages, and the rows of the page that is being filled.
pub record Packing : Type 0 where
  pub pages : List (List Bytes)
  pub cur_rows : List Bytes

abbrev pub no_rows : List Bytes → Bool
no_rows [] = true
no_rows (r ∷ rs) = false

-- `if cur_rows: pages.append(cur_rows); cur_rows = []`
pub close_page : Packing → Packing
close_page s =
    if no_rows s.cur_rows then s else record { pages = s.pages ++ (s.cur_rows ∷ []); cur_rows = [] }

unfoldable pub concat : List Bytes → Bytes
concat [] = []
concat (l ∷ ls) = l ++ concat ls

-- `l.ljust(cols)`
abbrev pub ljust : Bytes → ℕ → Bytes
ljust l cols = l ++ replicate (cols - length l) b' '

module _ (cols rows max_pages : ℕ) where
  pub entry_items : Entry → List Item
  entry_items (lines ls) = map (λ l. logical_line (ascii_clamp l (cols * rows))) ls
  entry_items (plain s) =
      map (λ l. logical_line l) (split b'\n' (ascii_clamp s (cols * rows * max_pages)))

  -- `if logical: logical.append(PAGE_BREAK)`, and what the entry adds.
  abbrev pub add_entry : List Item → Entry → List Item
  add_entry [] e = entry_items e
  add_entry (i ∷ is) e = (i ∷ is) ++ (page_break ∷ entry_items e)

  pub add_entries : List Item → List Entry → List Item
  add_entries items [] = items
  add_entries items (e ∷ es) = add_entries (add_entry items e) es

  abbrev pub logical : List Entry → List Item
  logical es = add_entries [] es

  pub pack_row : Packing → Bytes → Packing
  pack_row s row =
      if leb rows (length s.cur_rows)
      then record { pages = s.pages ++ (s.cur_rows ∷ []); cur_rows = row ∷ [] }
      else record s { cur_rows = s.cur_rows ++ (row ∷ []) }

  pub pack_rows : Packing → List Bytes → Packing
  unfolding pack_row
  pack_rows s [] = s
  pack_rows s (r ∷ rs) = pack_rows (pack_row s r) rs

  pub pack_item : Packing → Item → Packing
  unfolding close_page pack_rows
  pack_item s page_break = close_page s
  pack_item s (logical_line l) = pack_rows s (rewrap_line l cols)

  pub pack_items : Packing → List Item → Packing
  unfolding pack_item
  pack_items s [] = s
  pack_items s (i ∷ is) = pack_items (pack_item s i) is

  abbrev pub unpacked : Packing
  unpacked = record { pages = []; cur_rows = [] }

  -- `if not pages: pages = [[""]]`
  abbrev pub or_blank_page : List (List Bytes) → List (List Bytes)
  or_blank_page [] = ([] ∷ []) ∷ []
  or_blank_page (p ∷ ps) = p ∷ ps

  -- The pages before `pages[:max_pages]`.
  pub packed : List Entry → List (List Bytes)
  unfolding pack_items close_page
  packed es = or_blank_page (close_page (pack_items unpacked (logical es))).pages

  abbrev pub pad_rows : List Bytes → List Bytes
  pad_rows page = take rows page ++ replicate (rows - length (take rows page)) []

  pub grid : List Bytes → Bytes
  grid page = concat (map (λ l. ljust (take cols l) cols) (pad_rows page))

  pub layout_pages : List Entry → List Bytes
  unfolding packed grid
  layout_pages es = map grid (take max_pages (packed es))
