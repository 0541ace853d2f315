-- ===== src/Relay/Wrap/Content.antt =====
-- The text of a line on the lines of `_rewrap_line`.
use gpti84_plus.Base.{
  ℕ, zero, suc, ◌+◌, ◌≤◌, ◌<◌, ◌≡◌, ◌≢◌, ◌∙◌, refl, sym, ap, List, [], ◌∷◌, ◌++◌, append-nil,
  append_assoc, true, false, ◌==◌, ==_iff, ==_false→ne, ltb, leb, if◌then◌else◌, length,
  length-drop, take, drop, take-append-drop, Bool-cases, inl, inr, arith,
}
use gpti84_plus.Base.Bytes.{Bytes}
use gpti84_plus.Base.Text.{split, cons_part}
use gpti84_plus.Relay.Wrap.{
  Wrap, is_space, rstrip_spaces, rstrip_step, flush, chunks, chunk_step, place_word, place_words,
  or_blank, start, wrap_stripped, rewrap_line, is_empty,
}

-- The characters of a text that are no white space, in order.
unfoldable pub ink : Bytes → Bytes
ink [] = []
ink (c ∷ cs) = let rest = ink cs in if is_space c then rest else c ∷ rest

unfoldable pub inks : List Bytes → Bytes
inks [] = []
inks (l ∷ ls) = ink l ++ inks ls

pub ink-append : (xs ys : Bytes) → ink (xs ++ ys) ≡ ink xs ++ ink ys
unfolding ink
ink-append [] ys = refl
ink-append (x ∷ xs) ys = ground (arith, ink-append xs ys)

pub inks-append : (xs ys : List Bytes) → inks (xs ++ ys) ≡ inks xs ++ inks ys
unfolding inks
inks-append [] ys = refl
inks-append (x ∷ xs) ys = simp (inks-append xs ys, append_assoc)

inks-cons_part : (c : ℕ) (ps : List Bytes) → inks (cons_part c ps) ≡ ink (c ∷ []) ++ inks ps
unfolding cons_part inks ink
inks-cons_part c [] = ground arith
inks-cons_part c (p ∷ ps) = ground arith

ink_cons : (c : ℕ) (cs : Bytes) → ink (c ∷ []) ++ ink cs ≡ ink (c ∷ cs)
ink_cons c cs = sym (ink-append (c ∷ []) cs)

split_other :
    (z c : ℕ) (cs : Bytes) → (c == z) ≡ false → split z (c ∷ cs) ≡ cons_part c (split z cs)
unfolding split
split_other z c cs e = rw e

ink_space : (c : ℕ) (cs : Bytes) → is_space c ≡ true → ink (c ∷ cs) ≡ ink cs
unfolding ink
ink_space c cs e = rw e

-- A split at a white space loses no other character.
pub inks-split : (z : ℕ) (s : Bytes) → is_space z ≡ true → inks (split z s) ≡ ink s
unfolding split inks ink
inks-split z [] sp = refl
inks-split z (c ∷ cs) sp =
    let rest = inks-split z cs sp in
    elim (Bool-cases (c == z)) [
      | inl e ↦
          let here = ap is_space ((==_iff c z).0 e) ∙ sp in rw e (rest ∙ sym (ink_space c cs here))
      | inr e ↦
          ap inks (split_other z c cs e)
          ∙ inks-cons_part c (split z cs)
          ∙ ap (λ x. ink (c ∷ []) ++ x) rest
          ∙ ink_cons c cs
    ]

ink-rstrip_step : (c : ℕ) (cs : Bytes) → ink (rstrip_step c cs) ≡ ink (c ∷ cs)
unfolding ink
ink-rstrip_step c [] = ground arith
ink-rstrip_step c (d ∷ ds) = refl

ink-rstrip_spaces : (s : Bytes) → ink (rstrip_spaces s) ≡ ink s
unfolding rstrip_spaces ink
ink-rstrip_spaces [] = refl
ink-rstrip_spaces (c ∷ cs) = ink-rstrip_step c (rstrip_spaces cs) ∙ rw (ink-rstrip_spaces cs)

-- What a state holds.
abbrev content : Wrap → Bytes
content s = inks s.out ++ ink s.cur

append_line : (out : List Bytes) (l : Bytes) → inks (out ++ (l ∷ [])) ≡ inks out ++ ink l
append_line out l = inks-append out (l ∷ []) ∙ unfold inks in rw append-nil

empty_eq : (l : Bytes) → is_empty l ≡ true → l ≡ []
empty_eq [] h = refl
empty_eq (c ∷ cs) h = cc

cur-flush : (s : Wrap) → (flush s).cur ≡ []
unfolding flush
cur-flush s = elim (Bool-cases (is_empty s.cur)) [ inl e ↦ rw e (empty_eq s.cur e) | inr e ↦ rw e ]

content_empty : (s : Wrap) → is_empty s.cur ≡ true → content s ≡ inks s.out
unfolding ink
content_empty s e = ap (λ l. inks s.out ++ ink l) (empty_eq s.cur e) ∙ append-nil _

inks-flush : (s : Wrap) → inks (flush s).out ≡ content s
unfolding flush
inks-flush s = elim (Bool-cases (is_empty s.cur)) [
  | inl e ↦ rw e (sym (content_empty s e))
  | inr e ↦ rw e (append_line s.out s.cur)
]

chunks_done : (f cols : ℕ) (s : Wrap) → chunks f cols [] s ≡ s
unfolding chunks
chunks_done zero cols s = refl
chunks_done (suc f) cols s = refl

-- A slice that fills a line.
content_full :
    (out : List Bytes) (cur t d : Bytes)
    → is_empty cur ≡ true
    → (inks (out ++ (t ∷ [])) ++ ink cur) ++ ink d ≡ (inks out ++ ink cur) ++ ink (t ++ d)
unfolding ink
content_full out [] t d e =
    rw (append_line out t) (rw (ink-append t d) (simp (append-nil, append_assoc)))
content_full out (c ∷ cs) t d e = cc

-- A slice that is the whole rest.
content_last :
    (s : Wrap) (w : Bytes) → is_empty s.cur ≡ true → inks s.out ++ ink w ≡ content s ++ ink w
content_last s w e = rw (content_empty s e)

step_full :
    (cols : ℕ) (t : Bytes) (s : Wrap)
    → (length t == cols) ≡ true
    → chunk_step cols t s ≡ record s { out = s.out ++ (t ∷ []) }
step_full cols t s e = rw e

step_last :
    (cols : ℕ) (t : Bytes) (s : Wrap)
    → (length t == cols) ≡ false
    → chunk_step cols t s ≡ record s { cur = t }
step_last cols t s e = rw e

short_drop : (n : ℕ) (w : Bytes) → length (take n w) ≢ n → drop n w ≡ []
short_drop zero w h = absurd (h refl)
short_drop (suc n) [] h = refl
short_drop (suc n) (c ∷ cs) h = short_drop n cs (λ e. h (ap suc e))

short_take : (n : ℕ) (w : Bytes) → length (take n w) ≢ n → take n w ≡ w
short_take n w h =
    sym (append-nil _) ∙ ap (λ d. take n w ++ d) (sym (short_drop n w h)) ∙ take-append-drop n w

-- Either the slice fills a line, or it is the last one.
content-chunks :
    (f cols : ℕ) (w : Bytes) (s : Wrap)
    → 0 < cols
    → length w ≤ f
    → is_empty s.cur ≡ true
    → content (chunks f cols w s) ≡ content s ++ ink w
unfolding chunks
content-chunks zero cols [] s pos le e = unfold ink in sym (append-nil _)
content-chunks zero cols (c ∷ cs) s pos le e = absurd (omega arith)
content-chunks (suc f) cols [] s pos le e = unfold ink in sym (append-nil _)
content-chunks (suc f) cols (c ∷ cs) s pos le e =
    let full =
      content-chunks f cols (drop cols (c ∷ cs))
        (record s { out = s.out ++ (take cols (c ∷ cs) ∷ []) }) pos
        (omega (arith, length-drop cols (c ∷ cs))) e in
    elim (Bool-cases (length (take cols (c ∷ cs)) == cols)) [
      | inl t ↦
          ap (λ x. content (chunks f cols (drop cols (c ∷ cs)) x))
            (step_full cols (take cols (c ∷ cs)) s t)
          ∙ full
          ∙ content_full s.out s.cur (take cols (c ∷ cs)) (drop cols (c ∷ cs)) e
          ∙ ap (λ x. content s ++ ink x) (take-append-drop cols (c ∷ cs))
      | inr t ↦
          let short = ==_false→ne _ _ t in
          ap (λ x. content (chunks f cols (drop cols (c ∷ cs)) x))
            (step_last cols (take cols (c ∷ cs)) s t)
          ∙ ap (λ x. content (chunks f cols x (record s { cur = take cols (c ∷ cs) })))
              (short_drop cols (c ∷ cs) short)
          ∙ ap content (chunks_done f cols (record s { cur = take cols (c ∷ cs) }))
          ∙ ap (λ x. inks s.out ++ ink x) (short_take cols (c ∷ cs) short)
          ∙ content_last s (c ∷ cs) e
    ]

content_join :
    (out : List Bytes) (cur w : Bytes)
    → inks out ++ ink (cur ++ (b' ' ∷ w)) ≡ (inks out ++ ink cur) ++ ink w
content_join out cur w =
    ap (λ x. inks out ++ x) (ink-append cur (b' ' ∷ w))
    ∙ unfold ink in sym (append_assoc (inks out) (ink cur) (ink w))

content-place_word :
    (cols : ℕ) (s : Wrap) (w : Bytes)
    → 0 < cols
    → content (place_word cols s w) ≡ content s ++ ink w
unfolding place_word
content-place_word cols s w pos = elim (Bool-cases (ltb cols (length w))) [
  | inl t ↦ rw t (
      content-chunks (length w) cols w (flush s) pos (omega arith) (ap is_empty (cur-flush s))
      ∙ ap (λ x. x ++ ink w) (content_empty (flush s) (ap is_empty (cur-flush s)) ∙ inks-flush s))
  | inr t ↦ rw t (elim (Bool-cases (is_empty s.cur)) [
    | inl e ↦ rw e (content_last s w e)
    | inr e ↦ rw e (elim (Bool-cases (leb (length s.cur + 1 + length w) cols)) [
      | inl l ↦ rw l (content_join s.out s.cur w)
      | inr l ↦ rw l (ap (λ x. x ++ ink w) (append_line s.out s.cur))
    ])
  ])
]

content-place_words :
    (cols : ℕ) (s : Wrap) (ws : List Bytes)
    → 0 < cols
    → content (place_words cols s ws) ≡ content s ++ inks ws
unfolding place_words inks
content-place_words cols s [] pos = sym (append-nil _)
content-place_words cols s (w ∷ ws) pos =
    content-place_words cols (place_word cols s w) ws pos
    ∙ ap (λ x. x ++ inks ws) (content-place_word cols s w pos)
    ∙ append_assoc (content s) (ink w) (inks ws)

start-content : (ws : List Bytes) → content start ++ inks ws ≡ inks ws
unfolding inks ink
start-content ws = refl

inks-or_blank : (ls : List Bytes) → inks (or_blank ls) ≡ inks ls
unfolding inks ink
inks-or_blank [] = refl
inks-or_blank (l ∷ ls) = refl

inks-wrap_stripped : (cols : ℕ) (s : Bytes) → 0 < cols → inks (wrap_stripped cols s) ≡ ink s
unfolding wrap_stripped
inks-wrap_stripped cols [] pos = unfold inks in unfold ink in refl
inks-wrap_stripped cols (c ∷ cs) pos =
    inks-or_blank (flush (place_words cols start (split b' ' (c ∷ cs)))).out
    ∙ inks-flush (place_words cols start (split b' ' (c ∷ cs)))
    ∙ content-place_words cols start (split b' ' (c ∷ cs)) pos
    ∙ start-content (split b' ' (c ∷ cs))
    ∙ inks-split b' ' (c ∷ cs) refl

-- Wrapping a line to a width that is not 0 keeps all of its characters that are no white space,
-- in their order: the lines hold the same ones together.
pub rewrap_line-ink : (line : Bytes) (cols : ℕ) → 0 < cols → inks (rewrap_line line cols) ≡ ink line
unfolding rewrap_line
rewrap_line-ink line cols pos =
    inks-wrap_stripped cols (rstrip_spaces line) pos ∙ ink-rstrip_spaces line
