-- ===== src/Relay/Wrap.antt =====
-- `_ascii_clamp` and `_rewrap_line` of tools/relay_server.py.
pub mod Widths
pub mod Content
pub mod Chars
use gpti84_plus.Base.{
  ℕ, zero, suc, ◌+◌, List, [], ◌∷◌, ◌++◌, map, Bool, true, false, ◌&&◌, ◌||◌, ◌==◌, ltb, leb,
  if◌then◌else◌, length, take, drop,
}
use gpti84_plus.Base.Bytes.{Bytes}
use gpti84_plus.Base.Text.{split}

abbrev pub page_cols : ℕ
page_cols = 16

abbrev pub page_rows : ℕ
page_rows = 7

abbrev pub page_chars : ℕ
page_chars = 112

abbrev pub max_pages : ℕ
max_pages = 8

abbrev pub is_printable : ℕ → Bool
is_printable c = leb 0x20 c && ltb c 0x7F

unfoldable pub ascii_clamp : Bytes → ℕ → Bytes
ascii_clamp s n = take n (map (λ c. if is_printable c then c else b' ') s)

-- The white space of `str.rstrip()`, of the ASCII range.
abbrev pub is_space : ℕ → Bool
is_space c = c == 0x20 || (leb 0x09 c && leb c 0x0D) || (leb 0x1C c && leb c 0x1F)

abbrev rstrip_step : ℕ → Bytes → Bytes
rstrip_step c [] = if is_space c then [] else c ∷ []
rstrip_step c (d ∷ ds) = c ∷ d ∷ ds

-- `line.rstrip()`
unfoldable pub rstrip_spaces : Bytes → Bytes
rstrip_spaces [] = []
rstrip_spaces (c ∷ cs) = rstrip_step c (rstrip_spaces cs)

-- The finished lines, and the line that is being filled.
pub record Wrap : Type 0 where
  pub out : List Bytes
  pub cur : Bytes

abbrev pub is_empty : Bytes → Bool
is_empty [] = true
is_empty (c ∷ cs) = false

-- `if cur: out.append(cur); cur = ""`
unfoldable pub flush : Wrap → Wrap
flush s = if is_empty s.cur then s else record { out = s.out ++ (s.cur ∷ []); cur = [] }

abbrev chunk_step : ℕ → Bytes → Wrap → Wrap
chunk_step cols chunk s =
    if length chunk == cols
    then record s { out = s.out ++ (chunk ∷ []) }
    else record s { cur = chunk }

-- `for k in range(0, len(w), cols)`: `w` is what is left of the word. Each round takes `cols`
-- characters, so `len(w)` rounds are enough.
unfoldable pub chunks : ℕ → ℕ → Bytes → Wrap → Wrap
chunks zero cols w s = s
chunks (suc f) cols [] s = s
chunks (suc f) cols (c ∷ cs) s =
    chunks f cols (drop cols (c ∷ cs)) (chunk_step cols (take cols (c ∷ cs)) s)

-- The body of the loop over the words.
unfoldable pub place_word : ℕ → Wrap → Bytes → Wrap
unfolding flush chunks
place_word cols s w =
    if ltb cols (length w)
    then chunks (length w) cols w (flush s)
    else if is_empty s.cur
    then record s { cur = w }
    else if leb (length s.cur + 1 + length w) cols
    then record s { cur = s.cur ++ (b' ' ∷ w) }
    else record { out = s.out ++ (s.cur ∷ []); cur = w }

unfoldable pub place_words : ℕ → Wrap → List Bytes → Wrap
unfolding place_word
place_words cols s [] = s
place_words cols s (w ∷ ws) = place_words cols (place_word cols s w) ws

-- `out or [""]`
abbrev pub or_blank : List Bytes → List Bytes
or_blank [] = [] ∷ []
or_blank (l ∷ ls) = l ∷ ls

abbrev pub start : Wrap
start = record { out = []; cur = [] }

unfoldable pub wrap_stripped : ℕ → Bytes → List Bytes
unfolding place_words flush
wrap_stripped cols [] = [] ∷ []
wrap_stripped cols (c ∷ cs) = or_blank (flush (place_words cols start (split b' ' (c ∷ cs)))).out

unfoldable pub rewrap_line : Bytes → ℕ → List Bytes
unfolding rstrip_spaces wrap_stripped
rewrap_line line cols = wrap_stripped cols (rstrip_spaces line)
