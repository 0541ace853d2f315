-- ===== src/Chat/Sizes.antt =====
-- The sizes of the frames between the bridge and the relay.
use gpti84_plus.Base.{
  ℕ, suc, ◌*◌, ◌≤◌, ◌<◌, ◌≡◌, ◌∙◌, refl, List, [], ◌∷◌, ◌++◌, map, true, ltb, lt→ltb, length,
  length-append, length-map, All, ◌⊎◌, arith,
}
use gpti84_plus.Base.Bytes.{Bytes, codes, IsPrintable}
use gpti84_plus.Base.Text.{join, decimal}
use gpti84_plus.Base.Text.Digits.{length-decimal}
use gpti84_plus.Tokens.{Mode, tokens_to_ascii}
use gpti84_plus.Tokens.Printable.{tokens_to_ascii-IsPrintable}
use gpti84_plus.Tokens.Sizes.{length-tokens_to_ascii}
use gpti84_plus.Net.Reader.{max_frame}
use gpti84_plus.Bridge.Pair.{pair_frame}
use gpti84_plus.Relay.Wrap.{page_cols, page_rows, max_pages}
use gpti84_plus.Relay.Layout.{Entry, layout_pages}
use gpti84_plus.Relay.Layout.Grid.{IsGrid, layout_pages-IsGrid, layout_pages_count}
use gpti84_plus.Relay.Frame.{encode_replace, pages_frame, reply_entries, llm_reply_pages}
use gpti84_plus.Relay.Server.{is_ascii}

-- A frame of printable texts is ASCII.
is_ascii-append : (p q : Bytes) → is_ascii p ≡ true → is_ascii q ≡ true → is_ascii (p ++ q) ≡ true
is_ascii-append [] q hp hq = hq
is_ascii-append (c ∷ p) q hp hq = let later = is_ascii-append p q in grind (arith, later)

is_ascii-printable : (p : Bytes) → All IsPrintable p → is_ascii p ≡ true
is_ascii-printable [] h = refl
is_ascii-printable (c ∷ cs) ((lo, hi), h) =
    let low : ltb c 0x80 ≡ true = lt→ltb c 0x80 (omega arith) in rw low (is_ascii-printable cs h)

pub pair_frame-is_ascii :
    (toks1 toks2 : Bytes)
    → is_ascii (pair_frame (tokens_to_ascii toks1 Mode.text) (tokens_to_ascii toks2 Mode.math))
      ≡ true
unfolding pair_frame
pair_frame-is_ascii toks1 toks2 =
    let p = tokens_to_ascii toks1 Mode.text in
    let m = tokens_to_ascii toks2 Mode.math in
    is_ascii-append (codes "prompt:" ++ p) (codes "\nmath:" ++ (m ++ codes "\n"))
      (is_ascii-append (codes "prompt:") p refl
        (is_ascii-printable p (tokens_to_ascii-IsPrintable toks1 Mode.text)))
      (is_ascii-append (codes "\nmath:") (m ++ codes "\n") refl (
        is_ascii-append m (codes "\n")
          (is_ascii-printable m (tokens_to_ascii-IsPrintable toks2 Mode.math)) refl))

pub length-question :
    (toks1 toks2 : Bytes)
    → length toks1 < 65536
    → length toks2 < 65536
    → length (pair_frame (tokens_to_ascii toks1 Mode.text) (tokens_to_ascii toks2 Mode.math))
      ≤ 1048576
unfolding pair_frame
length-question toks1 toks2 lt lt' =
    let p = tokens_to_ascii toks1 Mode.text in
    let m = tokens_to_ascii toks2 Mode.math in
    omega (
      arith,
      length-tokens_to_ascii toks1 Mode.text,
      length-tokens_to_ascii toks2 Mode.math,
      length-append (codes "prompt:" ++ p) (codes "\nmath:" ++ (m ++ codes "\n")),
      length-append m (codes "\n"),
    )

-- A reply of eight pages is far below the limit of a frame.
length-join :
    (w : ℕ) (ps : List Bytes) → All (λ p. length p ≡ w) ps → length (join 0 ps) ≤ length ps * suc w
unfolding join
length-join w [] h = omega arith
length-join w (p ∷ []) (e, h) = omega arith
length-join w (p ∷ q ∷ ps) (e, h) =
    let more = length-join w (q ∷ ps) h in
    omega (arith, more, e, length-append p (0 ∷ join 0 (q ∷ ps)))

length-encode_replace : (p : Bytes) → length (encode_replace p) ≡ length p
unfolding encode_replace
length-encode_replace p = length-map _ p

encoded :
    (ps : List Bytes)
    → All (IsGrid page_cols page_rows max_pages) ps
    → All (λ p. length p ≡ 112) (map encode_replace ps)
unfolding IsGrid
encoded [] h = tt
encoded (p ∷ ps) ((n, _), h) = (length-encode_replace p ∙ n, encoded ps h)

pub length-llm_reply_pages :
    (call_ollama : Bytes → Bytes → List Entry ⊎ Bytes) (text : Bytes)
    → length (llm_reply_pages call_ollama text) ≤ max_frame
unfolding llm_reply_pages pages_frame
length-llm_reply_pages call text =
    let es = reply_entries call text in
    let pages = layout_pages page_cols page_rows max_pages es in
    let count = (layout_pages_count page_cols page_rows max_pages es (omega arith)).1 in
    let body =
      length-join 112 (map encode_replace pages)
        (encoded pages (layout_pages-IsGrid page_cols page_rows max_pages es (omega arith))) in
    omega (
      arith,
      count,
      body,
      length-map encode_replace pages,
      length-append (codes "pages:" ++ (decimal (length pages) ++ codes "\n"))
          (join 0 (map encode_replace pages)),
      length-append (codes "pages:") (decimal (length pages) ++ codes "\n"),
      length-append (decimal (length pages)) (codes "\n"),
      length-decimal (length pages) 0 (omega (arith, count)),
    )
