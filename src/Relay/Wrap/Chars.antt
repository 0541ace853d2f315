-- ===== src/Relay/Wrap/Chars.antt =====
-- The characters on the lines of `_rewrap_line`.
use gpti84_plus.Base.{
  ℕ, zero, suc, ◌+◌, List, [], ◌∷◌, ◌++◌, ◌==◌, ltb, leb, if◌then◌else◌, map, length, take, drop,
  All, All-append, All-take, All-drop, Bool-cases, inl, inr, arith,
}
use gpti84_plus.Base.Bytes.{Bytes, IsPrintable}
use gpti84_plus.Base.Text.{split, cons_part}
use gpti84_plus.Relay.Wrap.{
  Wrap, is_space, rstrip_spaces, rstrip_step, flush, chunks, chunk_step, place_word, place_words,
  or_blank, start, wrap_stripped, rewrap_line, is_empty, is_printable, ascii_clamp,
}

module _ (P : ℕ → Type 0) where
  abbrev Of : Bytes → Type 0
  Of l = All P l

  cons_part-Of : (c : ℕ) (ps : List Bytes) → P c → All Of ps → All Of (cons_part c ps)
  unfolding cons_part
  cons_part-Of c [] pc h = ((pc, tt), tt)
  cons_part-Of c (p ∷ ps) pc (hp, h) = ((pc, hp), h)

  -- The parts of a split have what the text has.
  pub split-Of : (z : ℕ) (s : Bytes) → Of s → All Of (split z s)
  unfolding split
  split-Of z [] h = (tt, tt)
  split-Of z (c ∷ cs) (pc, h) =
      let parts = split-Of z cs h in
      elim (Bool-cases (c == z)) [
        | inl e ↦ rw e (tt, parts)
        | inr e ↦ rw e (cons_part-Of c (split z cs) pc parts)
      ]

  rstrip_step-Of : (c : ℕ) (cs : Bytes) → P c → Of cs → Of (rstrip_step c cs)
  rstrip_step-Of c [] pc h = elim (Bool-cases (is_space c)) [
    | inl e ↦ rw e tt
    | inr e ↦ rw e (pc, tt)
  ]
  rstrip_step-Of c (d ∷ ds) pc h = (pc, h)

  rstrip_spaces-Of : (s : Bytes) → Of s → Of (rstrip_spaces s)
  unfolding rstrip_spaces
  rstrip_spaces-Of [] h = tt
  rstrip_spaces-Of (c ∷ cs) (pc, h) = rstrip_step-Of c (rstrip_spaces cs) pc (rstrip_spaces-Of cs h)

  abbrev WrapOf : Wrap → Type 0
  WrapOf s = All Of s.out × Of s.cur

  appended : (out : List Bytes) (l : Bytes) → All Of out → Of l → All Of (out ++ (l ∷ []))
  appended out l h hl = All-append Of out (l ∷ []) h (hl, tt)

  flush-WrapOf : (s : Wrap) → WrapOf s → WrapOf (flush s)
  unfolding flush
  flush-WrapOf s (ho, hc) = elim (Bool-cases (is_empty s.cur)) [
    | inl e ↦ rw e (ho, hc)
    | inr e ↦ rw e (appended s.out s.cur ho hc, tt)
  ]

  chunk_step-WrapOf :
      (cols : ℕ) (chunk : Bytes) (s : Wrap) → Of chunk → WrapOf s → WrapOf (chunk_step cols chunk s)
  chunk_step-WrapOf cols chunk s hk (ho, hc) = elim (Bool-cases (length chunk == cols)) [
    | inl e ↦ rw e (appended s.out chunk ho hk, hc)
    | inr e ↦ rw e (ho, hk)
  ]

  chunks-WrapOf : (f cols : ℕ) (w : Bytes) (s : Wrap) → Of w → WrapOf s → WrapOf (chunks f cols w s)
  unfolding chunks
  chunks-WrapOf zero cols w s hw h = h
  chunks-WrapOf (suc f) cols [] s hw h = h
  chunks-WrapOf (suc f) cols (c ∷ cs) s hw h =
      chunks-WrapOf f cols (drop cols (c ∷ cs)) (chunk_step cols (take cols (c ∷ cs)) s)
        (All-drop P cols (c ∷ cs) hw)
        (chunk_step-WrapOf cols (take cols (c ∷ cs)) s (All-take P cols (c ∷ cs) hw) h)

  module _ (blank : P b' ') where
    place_word-WrapOf :
        (cols : ℕ) (s : Wrap) (w : Bytes) → Of w → WrapOf s → WrapOf (place_word cols s w)
    unfolding place_word
    place_word-WrapOf cols s w hw (ho, hc) = elim (Bool-cases (ltb cols (length w))) [
      | inl e ↦ rw e (chunks-WrapOf (length w) cols w (flush s) hw (flush-WrapOf s (ho, hc)))
      | inr e ↦ rw e (elim (Bool-cases (is_empty s.cur)) [
        | inl n ↦ rw n (ho, hw)
        | inr n ↦ rw n (elim (Bool-cases (leb (length s.cur + 1 + length w) cols)) [
          | inl k ↦ rw k (ho, All-append P s.cur (b' ' ∷ w) hc (blank, hw))
          | inr k ↦ rw k (appended s.out s.cur ho hc, hw)
        ])
      ])
    ]

    place_words-WrapOf :
        (cols : ℕ) (ws : List Bytes) (s : Wrap)
        → All Of ws
        → WrapOf s
        → WrapOf (place_words cols s ws)
    unfolding place_words
    place_words-WrapOf cols [] s hw h = h
    place_words-WrapOf cols (w ∷ ws) s (hw, hws) h =
        place_words-WrapOf cols ws (place_word cols s w) hws (place_word-WrapOf cols s w hw h)

    or_blank-Of : (ls : List Bytes) → All Of ls → All Of (or_blank ls)
    or_blank-Of [] h = (tt, tt)
    or_blank-Of (l ∷ ls) h = h

    wrap_stripped-Of : (cols : ℕ) (line : Bytes) → Of line → All Of (wrap_stripped cols line)
    unfolding wrap_stripped
    wrap_stripped-Of cols [] h = (tt, tt)
    wrap_stripped-Of cols (c ∷ cs) h =
        or_blank-Of _
          (flush-WrapOf _ (
            place_words-WrapOf cols (split b' ' (c ∷ cs)) start (split-Of b' ' (c ∷ cs) h)
              (tt, tt))).0

    -- The wrapped lines of a line of such characters have such characters only.
    pub rewrap_line-Of : (line : Bytes) (cols : ℕ) → Of line → All Of (rewrap_line line cols)
    unfolding rewrap_line
    rewrap_line-Of line cols h =
        wrap_stripped-Of cols (rstrip_spaces line) (rstrip_spaces-Of line h)

pub blank-IsPrintable : IsPrintable b' '
blank-IsPrintable = (omega arith, omega arith)

clamped-IsPrintable : (c : ℕ) → IsPrintable (if is_printable c then c else b' ')
clamped-IsPrintable c = ground arith

map-IsPrintable : (s : Bytes) → All IsPrintable (map (λ c. if is_printable c then c else b' ') s)
map-IsPrintable [] = tt
map-IsPrintable (c ∷ cs) = (clamped-IsPrintable c, map-IsPrintable cs)

-- What `_ascii_clamp` returns is printable ASCII.
pub ascii_clamp-IsPrintable : (s : Bytes) (n : ℕ) → All IsPrintable (ascii_clamp s n)
unfolding ascii_clamp
ascii_clamp-IsPrintable s n = All-take IsPrintable n _ (map-IsPrintable s)
