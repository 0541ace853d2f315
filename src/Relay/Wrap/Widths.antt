-- ===== src/Relay/Wrap/Widths.antt =====
-- The widths of the lines of `_rewrap_line`.
use gpti84_plus.Base.{
  ℕ, zero, suc, ◌+◌, ◌≤◌, ◌<◌, ◌≡◌, List, [], ◌∷◌, ◌++◌, true, ◌==◌, ltb, leb, length,
  length-append, length-take, take, drop, All, All-append, Bool-cases, inl, inr, arith,
}
use gpti84_plus.Base.Bytes.{Bytes}
use gpti84_plus.Base.Text.{split}
use gpti84_plus.Relay.Wrap.{
  Wrap, flush, chunks, chunk_step, place_word, place_words, or_blank, start, wrap_stripped,
  rewrap_line, is_empty,
}

module _ (cols : ℕ) where
  abbrev pub Fits : Bytes → Type 0
  Fits l = length l ≤ cols

  -- Every finished line fits, and the line that is being filled does.
  abbrev WrapFits : Wrap → Type 0
  WrapFits s = All Fits s.out × Fits s.cur

  appended : (out : List Bytes) (l : Bytes) → All Fits out → Fits l → All Fits (out ++ (l ∷ []))
  appended out l h hl = All-append Fits out (l ∷ []) h (hl, tt)

  flush-WrapFits : (s : Wrap) → WrapFits s → WrapFits (flush s)
  unfolding flush
  flush-WrapFits s (ho, hc) = elim (Bool-cases (is_empty s.cur)) [
    | inl e ↦ rw e (ho, hc)
    | inr e ↦ rw e (appended s.out s.cur ho hc, omega arith)
  ]

  chunk_step-WrapFits :
      (chunk : Bytes) (s : Wrap) → Fits chunk → WrapFits s → WrapFits (chunk_step cols chunk s)
  chunk_step-WrapFits chunk s hk (ho, hc) = elim (Bool-cases (length chunk == cols)) [
    | inl e ↦ rw e (appended s.out chunk ho hk, hc)
    | inr e ↦ rw e (ho, hk)
  ]

  chunks-WrapFits : (f : ℕ) (w : Bytes) (s : Wrap) → WrapFits s → WrapFits (chunks f cols w s)
  unfolding chunks
  chunks-WrapFits zero w s h = h
  chunks-WrapFits (suc f) [] s h = h
  chunks-WrapFits (suc f) (c ∷ cs) s h =
      chunks-WrapFits f (drop cols (c ∷ cs)) (chunk_step cols (take cols (c ∷ cs)) s)
        (chunk_step-WrapFits _ s (omega (arith, length-take cols (c ∷ cs))) h)

  joined-Fits :
      (cur w : Bytes) → leb (length cur + 1 + length w) cols ≡ true → Fits (cur ++ (b' ' ∷ w))
  joined-Fits cur w e = ground (arith, length-append cur (b' ' ∷ w))

  place_word-WrapFits : (s : Wrap) (w : Bytes) → WrapFits s → WrapFits (place_word cols s w)
  unfolding place_word
  place_word-WrapFits s w (ho, hc) = elim (Bool-cases (ltb cols (length w))) [
    | inl e ↦ rw e (chunks-WrapFits (length w) w (flush s) (flush-WrapFits s (ho, hc)))
    | inr e ↦ rw e (elim (Bool-cases (is_empty s.cur)) [
      | inl n ↦ rw n (ho, ground arith)
      | inr n ↦ rw n (elim (Bool-cases (leb (length s.cur + 1 + length w) cols)) [
        | inl k ↦ rw k (ho, joined-Fits s.cur w k)
        | inr k ↦ rw k (appended s.out s.cur ho hc, ground arith)
      ])
    ])
  ]

  place_words-WrapFits :
      (ws : List Bytes) (s : Wrap) → WrapFits s → WrapFits (place_words cols s ws)
  unfolding place_words
  place_words-WrapFits [] s h = h
  place_words-WrapFits (w ∷ ws) s h =
      place_words-WrapFits ws (place_word cols s w) (place_word-WrapFits s w h)

  or_blank-Fits : (ls : List Bytes) → All Fits ls → All Fits (or_blank ls)
  or_blank-Fits [] h = omega arith
  or_blank-Fits (l ∷ ls) h = h

  wrap_stripped-Fits : (line : Bytes) → All Fits (wrap_stripped cols line)
  unfolding wrap_stripped
  wrap_stripped-Fits [] = omega arith
  wrap_stripped-Fits (c ∷ cs) =
      or_blank-Fits _
        (flush-WrapFits _ (place_words-WrapFits (split b' ' (c ∷ cs)) start (omega arith))).0

  -- Every line that `_rewrap_line` returns has at most `cols` characters.
  pub rewrap_line-Fits : (line : Bytes) → All Fits (rewrap_line line cols)
  unfolding rewrap_line
  rewrap_line-Fits line = wrap_stripped-Fits _

or_blank_pos : (ls : List Bytes) → 0 < length (or_blank ls)
or_blank_pos [] = omega arith
or_blank_pos (l ∷ ls) = omega arith

wrap_stripped_pos : (line : Bytes) (cols : ℕ) → 0 < length (wrap_stripped cols line)
unfolding wrap_stripped
wrap_stripped_pos [] cols = omega arith
wrap_stripped_pos (c ∷ cs) cols = or_blank_pos _

-- It returns one line at least.
pub rewrap_line_pos : (line : Bytes) (cols : ℕ) → 0 < length (rewrap_line line cols)
unfolding rewrap_line
rewrap_line_pos line cols = wrap_stripped_pos _ cols
