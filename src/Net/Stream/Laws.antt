-- ===== src/Net/Stream/Laws.antt =====
-- What a loop that tops up a buffer takes from the socket.
use gpti84_plus.Base.{
  ℕ, ◌-◌, ◌≤◌, ◌<◌, ◌≡◌, ◌∙◌, refl, sym, ap, List, [], ◌∷◌, ◌++◌, append_assoc, true, false, leb,
  ltb, ltb→lt, length, length-append, length-take, take, drop, take-append-drop, Bool-cases, inl,
  inr, arith,
}
use mathlib.Core.Path.{subst}
use gpti84_plus.Base.Bytes.{Bytes}
use gpti84_plus.Net.Stream.{
  Answer, chunk, nothing, os_error, is_again, Fill, filled, starved, ended, failed, fill_error,
  fill, bytes_of,
}

-- No byte is lost: the buffer and what is left in the socket make up `all`. A buffer that is filled
-- has `want` bytes, one that is not has fewer.
abbrev pub Keeps : ℕ → Bytes → Fill → Type 0
Keeps want all (filled b ans) = (b ++ bytes_of ans ≡ all) × (length b ≡ want)
Keeps want all (starved b ans) = (b ++ bytes_of ans ≡ all) × (length b < want)
Keeps want all (ended b ans) = (b ++ bytes_of ans ≡ all) × (length b < want)
Keeps want all (failed b ans) = (b ++ bytes_of ans ≡ all) × (length b < want)

fill_error-Keeps :
    (want e : ℕ) (buf : Bytes) (ans : List Answer)
    → length buf < want
    → Keeps want (buf ++ bytes_of ans) (fill_error e buf ans)
fill_error-Keeps want e buf ans lt = elim (Bool-cases (is_again e)) [
  | inl t ↦ rw t (refl, lt)
  | inr t ↦ rw t (refl, lt)
]

full : (n want : ℕ) → n ≤ want → ltb n want ≡ false → n ≡ want
full n want le e = ground arith

-- The read that brings the last missing bytes, with some left over.
last_read :
    (want : ℕ) (buf c : Bytes) (ans : List Answer)
    → length buf < want
    → leb (length c) (want - length buf) ≡ false
    → Keeps want
        (buf ++ (c ++ bytes_of ans))
        (filled (buf ++ take (want - length buf) c) (chunk (drop (want - length buf) c) ∷ ans))
last_read want buf c ans lt e =
    let missing = want - length buf in
    (
      append_assoc buf (take missing c) (drop missing c ++ bytes_of ans)
          ∙ ap (λ x. buf ++ x)
              (sym (append_assoc (take missing c) (drop missing c) (bytes_of ans))
                ∙ ap (λ x. x ++ bytes_of ans) (take-append-drop missing c)),
      ground (arith, length-append buf (take missing c), length-take missing c),
    )

fits :
    (buf c : Bytes) (want : ℕ)
    → length buf < want
    → leb (length c) (want - length buf) ≡ true
    → length (buf ++ c) ≤ want
fits buf c want lt k = ground (arith, length-append buf c)

pub fill-Keeps :
    (want : ℕ) (buf : Bytes) (ans : List Answer)
    → length buf ≤ want
    → Keeps want (buf ++ bytes_of ans) (fill want buf ans)
unfolding fill
fill-Keeps want buf [] le = elim (Bool-cases (ltb (length buf) want)) [
  | inl t ↦ rw t (refl, ltb→lt _ _ t)
  | inr t ↦ rw t (refl, full _ _ le t)
]
fill-Keeps want buf (nothing ∷ ans) le = elim (Bool-cases (ltb (length buf) want)) [
  | inl t ↦ rw t (refl, ltb→lt _ _ t)
  | inr t ↦ rw t (refl, full _ _ le t)
]
fill-Keeps want buf (os_error e ∷ ans) le = elim (Bool-cases (ltb (length buf) want)) [
  | inl t ↦ rw t (fill_error-Keeps want e buf ans (ltb→lt _ _ t))
  | inr t ↦ rw t (refl, full _ _ le t)
]
fill-Keeps want buf (chunk [] ∷ ans) le = elim (Bool-cases (ltb (length buf) want)) [
  | inl t ↦ rw t (refl, ltb→lt _ _ t)
  | inr t ↦ rw t (refl, full _ _ le t)
]
fill-Keeps want buf (chunk (c ∷ cs) ∷ ans) le =
    let more = λ (h : length (buf ++ (c ∷ cs)) ≤ want). fill-Keeps want (buf ++ (c ∷ cs)) ans h in
    elim (Bool-cases (ltb (length buf) want)) [
      | inl t ↦ rw t (elim (Bool-cases (leb (length (c ∷ cs)) (want - length buf))) [
        | inl k ↦ rw k (
            subst (λ all. Keeps want all (fill want (buf ++ (c ∷ cs)) ans))
              (append_assoc buf (c ∷ cs) (bytes_of ans))
              (more (fits buf (c ∷ cs) want (ltb→lt _ _ t) k)))
        | inr k ↦ rw k (last_read want buf (c ∷ cs) ans (ltb→lt _ _ t) k)
      ])
      | inr t ↦ rw t (refl, full _ _ le t)
    ]
