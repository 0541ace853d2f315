-- ===== src/Bridge/Frames.antt =====
-- The reply frame of the relay and the bridge's parser, and the pair frame of the bridge and the
-- relay's parser.
use gpti84_plus.Base.{
  ℕ, suc, ◌<◌, ◌≡◌, ◌≢◌, ◌⊎◌, refl, ap, ◌∙◌, List, [], ◌∷◌, ◌++◌, append_assoc, map, some, length,
  drop, All, All-append, ne→==_false, arith,
}
use gpti84_plus.Base.Bytes.{Bytes, codes, IsPrintable}
use gpti84_plus.Base.Text.{join, split-join, starts_with, decimal, decimal-IsDigit, IsDigit}
use gpti84_plus.Relay.Wrap.{page_cols, page_rows, max_pages}
use gpti84_plus.Relay.Layout.{Entry, layout_pages}
use gpti84_plus.Relay.Layout.Grid.{IsGrid, layout_pages-IsGrid, layout_pages_count}
use gpti84_plus.Relay.Frame.{encode_replace, pages_frame, reply_entries, llm_reply_pages}
use gpti84_plus.Bridge.{
  bytes_to_ascii, find_byte, one_on, or_blank, body_chunks, frame_pages, parse_pages_frame,
}

bytes_to_ascii-printable : (p : Bytes) → All IsPrintable p → bytes_to_ascii p ≡ p
unfolding bytes_to_ascii
bytes_to_ascii-printable [] h = refl
bytes_to_ascii-printable (c ∷ cs) ((lo, hi), h) =
    let rest = bytes_to_ascii-printable cs h in ground (arith, rest)

encode_replace-printable : (p : Bytes) → All IsPrintable p → encode_replace p ≡ p
unfolding encode_replace
encode_replace-printable [] h = refl
encode_replace-printable (c ∷ cs) ((lo, hi), h) =
    let rest = encode_replace-printable cs h in ground (arith, rest)

map_same :
    (f : Bytes → Bytes) (ps : List Bytes)
    → ((p : Bytes) → All IsPrintable p → f p ≡ p)
    → All (λ p. All IsPrintable p) ps
    → map f ps ≡ ps
map_same f [] same h = refl
map_same f (p ∷ ps) same (hp, h) =
    let rest = map_same f ps same h in rw (same p hp) (ap (λ x. p ∷ x) rest)

printable-ne : (z : ℕ) (p : Bytes) → z < 0x20 → All IsPrintable p → All (λ c. c ≢ z) p
printable-ne z [] lt h = tt
printable-ne z (c ∷ cs) lt ((lo, hi), h) = (omega arith, printable-ne z cs lt h)

pages-ne : (ps : List Bytes) → All (λ p. All IsPrintable p) ps → All (λ p. All (λ c. c ≢ 0) p) ps
pages-ne [] h = tt
pages-ne (p ∷ ps) (hp, h) = (printable-ne 0 p (omega arith) hp, pages-ne ps h)

find_byte-append :
    (z : ℕ) (p rest : Bytes) → All (λ c. c ≢ z) p → find_byte z (p ++ (z ∷ rest)) ≡ some (length p)
unfolding find_byte
find_byte-append z [] rest h = ground arith
find_byte-append z (c ∷ p) rest (hc, h) =
    rw (ne→==_false c z hc) (ap one_on (find_byte-append z p rest h))

drop_past : (z : ℕ) (p rest : Bytes) → drop (suc (length p)) (p ++ (z ∷ rest)) ≡ rest
drop_past z [] rest = refl
drop_past z (c ∷ p) rest = drop_past z p rest

digits-ne : (ds : Bytes) → All IsDigit ds → All (λ c. c ≢ b'\n') ds
digits-ne [] h = tt
digits-ne (d ∷ ds) ((lo, hi), h) = (omega arith, digits-ne ds h)

abbrev magic : Bytes
magic = codes "pages:"

-- A frame with a number in its header is split behind the first newline.
parse_frame :
    (ds body : Bytes)
    → All IsDigit ds
    → parse_pages_frame ((magic ++ ds) ++ (b'\n' ∷ body))
      ≡ or_blank (map bytes_to_ascii (body_chunks body))
unfolding parse_pages_frame starts_with
parse_frame ds body h =
    let ne =
      All-append (λ c. c ≢ b'\n') magic ds
        (
          (λ e. omega arith),
          (
            (λ e. omega arith),
            (
              (λ e. omega arith),
              ((λ e. omega arith), ((λ e. omega arith), ((λ e. omega arith), tt))),
            ),
          ),
        )
        (digits-ne ds h) in
    ap (frame_pages ((magic ++ ds) ++ (b'\n' ∷ body)))
      (find_byte-append b'\n' (magic ++ ds) body ne)
    ∙ ap (λ x. or_blank (map bytes_to_ascii (body_chunks x))) (drop_past b'\n' (magic ++ ds) body)

-- The header line in front of the body.
frame_eq :
    (ps : List Bytes)
    → pages_frame ps ≡ (magic ++ decimal (length ps)) ++ (b'\n' ∷ join 0 (map encode_replace ps))
unfolding pages_frame
frame_eq ps =
    ap (λ x. magic ++ x)
      (append_assoc (decimal (length ps)) (codes "\n") (join 0 (map encode_replace ps)))

body_chunks-join :
    (c : ℕ) (p : Bytes) (ps : List Bytes)
    → All (λ q. All (λ d. d ≢ 0) q) ((c ∷ p) ∷ ps)
    → body_chunks (join 0 ((c ∷ p) ∷ ps)) ≡ (c ∷ p) ∷ ps
unfolding join
body_chunks-join c p [] h = split-join 0 (c ∷ p) [] h
body_chunks-join c p (q ∷ qs) h = split-join 0 (c ∷ p) (q ∷ qs) h

-- The bridge reads from a frame of printable pages those pages, if the first one is not empty.
pub parse_pages_frame-pages_frame :
    (c : ℕ) (p : Bytes) (ps : List Bytes)
    → All (λ q. All IsPrintable q) ((c ∷ p) ∷ ps)
    → parse_pages_frame (pages_frame ((c ∷ p) ∷ ps)) ≡ (c ∷ p) ∷ ps
parse_pages_frame-pages_frame c p ps h =
    let pages = (c ∷ p) ∷ ps in
    ap parse_pages_frame (frame_eq pages)
    ∙ parse_frame (decimal (length pages)) (join 0 (map encode_replace pages))
        (decimal-IsDigit (length pages))
    ∙ ap (λ x. or_blank (map bytes_to_ascii (body_chunks (join 0 x))))
        (map_same encode_replace pages encode_replace-printable h)
    ∙ ap (λ x. or_blank (map bytes_to_ascii x)) (body_chunks-join c p ps (pages-ne pages h))
    ∙ ap or_blank (map_same bytes_to_ascii pages bytes_to_ascii-printable h)

grids-IsPrintable :
    (ps : List Bytes)
    → All (IsGrid page_cols page_rows max_pages) ps
    → All (λ q. All IsPrintable q) ps
unfolding IsGrid
grids-IsPrintable [] h = tt
grids-IsPrintable (p ∷ ps) ((_, hp), h) = (hp, grids-IsPrintable ps h)

grids_frame :
    (ps : List Bytes)
    → 0 < length ps
    → All (IsGrid page_cols page_rows max_pages) ps
    → parse_pages_frame (pages_frame ps) ≡ ps
unfolding IsGrid
grids_frame [] pos h = absurd (omega arith)
grids_frame ([] ∷ ps) pos ((n, _), h) = absurd (omega arith)
grids_frame ((c ∷ p) ∷ ps) pos ((n, hp), h) =
    parse_pages_frame-pages_frame c p ps (hp, grids-IsPrintable ps h)

-- Whatever the model answers or raises, the bridge reads from the relay's reply frame exactly the
-- pages that were laid out.
pub parse_pages_frame-llm_reply_pages :
    (call_ollama : Bytes → Bytes → List Entry ⊎ Bytes) (text : Bytes)
    → parse_pages_frame (llm_reply_pages call_ollama text)
      ≡ layout_pages page_cols page_rows max_pages (reply_entries call_ollama text)
unfolding llm_reply_pages
parse_pages_frame-llm_reply_pages call text =
    let es = reply_entries call text in
    grids_frame (layout_pages page_cols page_rows max_pages es)
      (layout_pages_count page_cols page_rows max_pages es (omega arith)).0
      (layout_pages-IsGrid page_cols page_rows max_pages es (omega arith))
