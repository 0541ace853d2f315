-- ===== src/Relay/Frame.antt =====
-- The frames of tools/relay_server.py: `_parse_pair`, `_llm_reply_pages` and the wire format of the
-- reply. `_call_ollama` is a parameter: it answers with the model's pages, or raises.
use gpti84_plus.Base.{
  ◌-◌, List, [], ◌∷◌, ◌++◌, map, ◌⊎◌, inl, inr, ltb, if◌then◌else◌, length, take, drop,
}
use gpti84_plus.Base.Bytes.{Bytes, codes}
use gpti84_plus.Base.Text.{split, join, starts_with, decimal}
use gpti84_plus.Relay.Wrap.{page_cols, page_rows, page_chars, max_pages}
use gpti84_plus.Relay.Layout.{Entry, plain, layout_pages}

-- One line of the frame, with the prompt and the math found so far.
unfoldable pub pair_line : Bytes × Bytes → Bytes → Bytes × Bytes
unfolding starts_with
pair_line (prompt, math) line =
    if starts_with (codes "prompt:") line
    then (drop 7 line, math)
    else if starts_with (codes "math:") line
    then (prompt, drop 5 line)
    else (prompt, math)

unfoldable pub pair_lines : Bytes × Bytes → List Bytes → Bytes × Bytes
unfolding pair_line
pair_lines pair [] = pair
pair_lines pair (l ∷ ls) = pair_lines (pair_line pair l) ls

unfoldable pub parse_pair : Bytes → Bytes × Bytes
unfolding pair_lines
parse_pair text = pair_lines ([], []) (split b'\n' text)

-- `p.encode("ascii", errors="replace")`
unfoldable pub encode_replace : Bytes → Bytes
encode_replace p = map (λ c. if ltb c 0x80 then c else b'?') p

-- The header, and the pages joined by NUL.
unfoldable pub pages_frame : List Bytes → Bytes
unfolding encode_replace
pages_frame pages =
    (codes "pages:" ++ (decimal (length pages) ++ codes "\n")) ++ join 0 (map encode_replace pages)

-- `["err: " + str(e)[:PAGE_CHARS - 5]]`
abbrev pub raw_pages : List Entry ⊎ Bytes → List Entry
raw_pages (inl pages) = pages
raw_pages (inr message) = plain (codes "err: " ++ take (page_chars - 5) message) ∷ []

module _ (call_ollama : Bytes → Bytes → List Entry ⊎ Bytes) where
  -- The entries that one prompt frame is answered with.
  unfoldable pub reply_entries : Bytes → List Entry
  unfolding parse_pair
  reply_entries text = let (prompt, math) = parse_pair text in raw_pages (call_ollama prompt math)

  unfoldable pub llm_reply_pages : Bytes → Bytes
  unfolding pages_frame reply_entries
  llm_reply_pages text =
      pages_frame (layout_pages page_cols page_rows max_pages (reply_entries text))
