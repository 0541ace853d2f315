-- ===== src/Net/WebSocket/Pump/Takes.antt =====
-- The bytes that one read, or one buffer that is filled, takes out of the stream.
use gpti84_plus.Base.{
  ℕ, ◌+◌, ◌≤◌, ◌<◌, ◌≡◌, ◌∙◌, refl, sym, ap, List, [], ◌∷◌, ◌++◌, leb, ltb, ltb_false→le,
  le→ltb_false, ltb→lt, length, length-append, length-take, length-drop, drop, Bool-cases, inl, inr,
  arith,
}
use mathlib.Core.Path.{subst}
use gpti84_plus.Base.Bytes.{Bytes}
use gpti84_plus.Net.Stream
use gpti84_plus.Net.Stream.{
  Answer, chunk, nothing, os_error, is_again, Fill, filled, starved, ended, failed, fill, bytes_of,
}
use gpti84_plus.Net.Stream.Laws.{fill-Keeps}
use gpti84_plus.Net.WebSocket.Pump.{Once, got, later, eof, broken, try_read}

-- A buffer that is filled has the bytes that it takes out of the stream, and `want` at least.
abbrev pub TakesFill : ℕ → ℕ → Fill → Type 0
TakesFill want total (filled b ans) = (want ≤ length b) × (length b + length (bytes_of ans) ≡ total)
TakesFill want total (starved b ans) = Unit {0}
TakesFill want total (ended b ans) = Unit {0}
TakesFill want total (failed b ans) = Unit {0}

kept-TakesFill :
    (want : ℕ) (all : Bytes) (s : Fill)
    → Stream.Laws.Keeps want all s
    → TakesFill want (length all) s
kept-TakesFill want all (filled b ans) (e, len) =
    (omega (arith, len), sym (length-append b (bytes_of ans)) ∙ ap length e)
kept-TakesFill want all (starved b ans) k = tt
kept-TakesFill want all (ended b ans) k = tt
kept-TakesFill want all (failed b ans) k = tt

overfull :
    (want : ℕ) (buf : Bytes) (ans : List Answer)
    → want ≤ length buf
    → fill want buf ans ≡ filled buf ans
unfolding fill
overfull want buf [] h = rw (le→ltb_false _ _ h) refl
overfull want buf (nothing ∷ ans) h = rw (le→ltb_false _ _ h) refl
overfull want buf (os_error e ∷ ans) h = rw (le→ltb_false _ _ h) refl
overfull want buf (chunk [] ∷ ans) h = rw (le→ltb_false _ _ h) refl
overfull want buf (chunk (c ∷ cs) ∷ ans) h = rw (le→ltb_false _ _ h) refl

pub fill-TakesFill :
    (want : ℕ) (buf : Bytes) (ans : List Answer)
    → TakesFill want (length buf + length (bytes_of ans)) (fill want buf ans)
fill-TakesFill want buf ans = elim (Bool-cases (ltb (length buf) want)) [
  | inl t ↦
      let lt = ltb→lt _ _ t in
      subst (λ n. TakesFill want n (fill want buf ans)) (length-append buf (bytes_of ans))
        (kept-TakesFill want (buf ++ bytes_of ans) (fill want buf ans)
          (fill-Keeps want buf ans (omega arith)))
  | inr t ↦
      let le = ltb_false→le _ _ t in
      subst (TakesFill want (length buf + length (bytes_of ans))) (sym (overfull want buf ans le))
        (le, refl)
]

-- What one read takes.
abbrev pub TakesOnce : ℕ → ℕ → Once → Type 0
TakesOnce n total (got b p ans) =
    (length b + (length p + length (bytes_of ans)) ≡ total) × (0 < n → 0 < length b)
TakesOnce n total (later ans) = Unit {0}
TakesOnce n total (eof ans) = Unit {0}
TakesOnce n total (broken ans) = Unit {0}

pub try_read-TakesOnce :
    (n : ℕ) (p : Bytes) (ans : List Answer)
    → TakesOnce n (length p + length (bytes_of ans)) (try_read n p ans)
unfolding try_read
try_read-TakesOnce n [] [] = tt
try_read-TakesOnce n [] (nothing ∷ ans) = tt
try_read-TakesOnce n [] (os_error e ∷ ans) = elim (Bool-cases (is_again e)) [
  | inl k ↦ rw k tt
  | inr k ↦ rw k tt
]
try_read-TakesOnce n [] (chunk [] ∷ ans) = tt
try_read-TakesOnce n [] (chunk (c ∷ cs) ∷ ans) = elim (Bool-cases (leb (length (c ∷ cs)) n)) [
  | inl k ↦ rw k (omega (arith, length-append (c ∷ cs) (bytes_of ans)), λ pos. omega arith)
  | inr k ↦ rw k (
    omega (
      arith,
      length-take n (c ∷ cs),
      length-drop n (c ∷ cs),
      length-append (drop n (c ∷ cs)) (bytes_of ans),
      length-append (c ∷ cs) (bytes_of ans),
    ),
    λ pos. omega (arith, length-take n (c ∷ cs)),
  )
]
try_read-TakesOnce n (q ∷ qs) ans = (
  omega (arith, length-take n (q ∷ qs), length-drop n (q ∷ qs)),
  λ pos. omega (arith, length-take n (q ∷ qs)),
)
