-- ===== src/Net/Reader/Progress.antt =====
-- Polls of a socket that has bytes for every read.
use gpti84_plus.Base.{
  ℕ, zero, suc, ◌+◌, ◌-◌, ◌≤◌, ◌<◌, ◌≡◌, ◌∙◌, refl, sym, ap, List, [], ◌∷◌, ◌++◌, append_assoc,
  some, false, leb, ltb, le→ltb_false, length, length-append, take, drop, take-append, drop-append,
  All, Bool-cases, inl, inr, arith,
}
use mathlib.Core.Path.{subst}
use gpti84_plus.Base.Bytes.{Bytes}
use gpti84_plus.Net.Stream
use gpti84_plus.Net.Stream.{Answer, chunk, nothing, os_error, Fill, filled, fill, bytes_of}
use gpti84_plus.Net.Stream.Laws.{fill-Keeps}
use gpti84_plus.Net.Framing.{be32, from_be32, framed, from_be32-be32}
use gpti84_plus.Net.Reader.{
  Reader, new_reader, max_frame, payload, not_yet, body_filled, read_body, parsed, header_filled,
  poll,
}
use gpti84_plus.Net.Reader.Polls.{polls, go_on}

-- A socket that has bytes for every read.
abbrev pub AllChunks : List Answer → Type 0
AllChunks [] = Unit {0}
AllChunks (chunk [] ∷ ans) = ⊥
AllChunks (chunk (c ∷ cs) ∷ ans) = AllChunks ans
AllChunks (nothing ∷ ans) = ⊥
AllChunks (os_error e ∷ ans) = ⊥

abbrev Fills : Fill → Type 0
Fills s = (b : Bytes) × (ans : List Answer) × (s ≡ filled b ans) × AllChunks ans

pub drop-AllChunks :
    (n : ℕ) (c : Bytes) (ans : List Answer)
    → n < length c
    → AllChunks ans
    → AllChunks (chunk (drop n c) ∷ ans)
drop-AllChunks zero (c ∷ cs) ans lt h = h
drop-AllChunks zero [] ans lt h = absurd (omega arith)
drop-AllChunks (suc n) [] ans lt h = absurd (omega arith)
drop-AllChunks (suc n) (c ∷ cs) ans lt h = drop-AllChunks n cs ans (omega arith) h

fill-Fills :
    (want : ℕ) (buf : Bytes) (ans : List Answer)
    → AllChunks ans
    → want ≤ length buf + length (bytes_of ans)
    → Fills (fill want buf ans)
unfolding fill
fill-Fills want buf [] h enough =
    rw (le→ltb_false (length buf) want (omega arith)) (buf, [], refl, tt)
fill-Fills want buf (chunk [] ∷ ans) h enough = elim h [ ]
fill-Fills want buf (nothing ∷ ans) h enough = elim h [ ]
fill-Fills want buf (os_error e ∷ ans) h enough = elim h [ ]
fill-Fills want buf (chunk (c ∷ cs) ∷ ans) h enough =
    let more =
      fill-Fills want (buf ++ (c ∷ cs)) ans h (
        omega (arith, enough, length-append buf (c ∷ cs), length-append (c ∷ cs) (bytes_of ans))) in
    let missing = want - length buf in
    elim (Bool-cases (ltb (length buf) want)) [
      | inl t ↦ rw t (elim (Bool-cases (leb (length (c ∷ cs)) missing)) [
        | inl k ↦ rw k more
        | inr k ↦
            rw k
              (_, _, refl, drop-AllChunks missing (c ∷ cs) ans (over (length (c ∷ cs)) missing k) h)
      ])
      | inr t ↦ rw t (buf, _, refl, h)
    ]
  where
    over : (n m : ℕ) → leb n m ≡ false → m < n
    over n m e = ground arith

-- Two halves of a list are known from their lengths.
halves : (a b c d : Bytes) → length a ≡ length b → a ++ c ≡ b ++ d → (a ≡ b) × (c ≡ d)
halves a b c d len e = (
  sym (take-append a c) ∙ ap (take (length a)) e ∙ ap (λ n. take n (b ++ d)) len ∙ take-append b d,
  sym (drop-append a c) ∙ ap (drop (length a)) e ∙ ap (λ n. drop n (b ++ d)) len ∙ drop-append b d,
)

-- A buffer that is filled holds the first bytes of the stream.
pub fill_takes :
    (want : ℕ) (buf first rest : Bytes) (ans : List Answer)
    → AllChunks ans
    → buf ++ bytes_of ans ≡ first ++ rest
    → length buf ≤ want
    → length first ≡ want
    → (ans' : List Answer) × (fill want buf ans ≡ filled first ans')
      × (bytes_of ans' ≡ rest)
      × AllChunks ans'
fill_takes want buf first rest ans h e le len =
    let total = ap length e in
    let (b, ans', ran, h') =
      fill-Fills want buf ans h
        (omega (arith, total, length-append buf (bytes_of ans), length-append first rest)) in
    let (whole, lb) =
      subst (Stream.Laws.Keeps want (buf ++ bytes_of ans)) ran (fill-Keeps want buf ans le) in
    let (same, left) = halves b first (bytes_of ans') rest (lb ∙ sym len) (whole ∙ e) in
    (ans', ran ∙ ap (λ x. filled x ans') same, left, h')

parsed_small :
    (r : Reader) (hdr : Bytes) (n : ℕ) (ans : List Answer)
    → from_be32 hdr ≡ n
    → n ≤ max_frame
    → parsed r hdr ans ≡ read_body (record r { hdr = hdr; needed = some n }) n ans
parsed_small r hdr n ans val small = rw val (rw (le→ltb_false max_frame n small))

-- A whole frame of at most 2 ^ 20 bytes that stands at the front of the stream is returned by one
-- poll, however it is cut into chunks, and nothing behind it is taken.
pub poll-framed :
    (p rest : Bytes) (ans : List Answer)
    → AllChunks ans
    → length p ≤ max_frame
    → bytes_of ans ≡ framed p ++ rest
    → (ans' : List Answer) × (poll new_reader ans ≡ (payload p, new_reader, ans'))
      × (bytes_of ans' ≡ rest)
      × AllChunks ans'
unfolding poll read_body
poll-framed p rest ans h small e =
    let (mid, ran, left, h') =
      fill_takes 4 [] (be32 (length p)) (p ++ rest) ans h
        (e ∙ append_assoc (be32 (length p)) p rest) (omega arith) refl in
    let (ans', ran', left', h'') = fill_takes (length p) [] p rest mid h' left (omega arith) refl in
    let header = from_be32-be32 (length p) (omega arith) in
    (
      ans',
      ap (header_filled new_reader) ran
          ∙ parsed_small new_reader (be32 (length p)) (length p) mid header small
          ∙ ap (body_filled (record new_reader { hdr = be32 (length p); needed = some (length p) }))
              ran',
      left',
      h'',
    )

-- And a poll of an empty socket takes nothing.
pub poll-not_yet : poll new_reader [] ≡ (not_yet, new_reader, [])
unfolding poll fill
poll-not_yet = refl

abbrev pub framed_all : List Bytes → Bytes
framed_all [] = []
framed_all (p ∷ ps) = framed p ++ framed_all ps

-- A poll for each frame is enough: if the socket has bytes for every read, as many polls as there
-- are frames in the stream return their payloads in order, if each has at most 2 ^ 20 bytes, however
-- the stream is cut into chunks.
pub polls-framed_all :
    (ps : List Bytes) (rest : Bytes) (ans : List Answer)
    → AllChunks ans
    → All (λ p. length p ≤ max_frame) ps
    → bytes_of ans ≡ framed_all ps ++ rest
    → (polls (length ps) new_reader ans).got ≡ ps
unfolding polls
polls-framed_all [] rest ans h small e = refl
polls-framed_all (p ∷ ps) rest ans h (fits, small) e =
    let (ans', ran, left, h') =
      poll-framed p (framed_all ps ++ rest) ans h fits
        (e ∙ append_assoc (framed p) (framed_all ps) rest) in
    ap (λ o. (go_on (λ s t. polls (length ps) s t) o).got) ran
    ∙ ap (λ got. p ∷ got) (polls-framed_all ps rest ans' h' small left)
