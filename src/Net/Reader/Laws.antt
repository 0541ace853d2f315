-- ===== src/Net/Reader/Laws.antt =====
-- What `FrameReader.poll` keeps: the bytes that it has taken are in the reader or in a payload.
use gpti84_plus.Base.{
  ℕ, ◌≤◌, ◌≡◌, ◌∙◌, refl, sym, ap, List, [], ◌++◌, append-nil, append_assoc, Option, none, some,
  ltb, ltb_false→le, length, Bool-cases, inl, inr, arith,
}
use mathlib.Core.Path.{subst}
use gpti84_plus.Base.Bytes.{Bytes}
use gpti84_plus.Net.Stream.{Answer, Fill, filled, starved, ended, failed, fill, bytes_of}
use gpti84_plus.Net.Stream
use gpti84_plus.Net.Stream.Laws.{fill-Keeps}
use gpti84_plus.Net.Framing.{from_be32}
use gpti84_plus.Net.Reader.{
  Reader, new_reader, max_frame, payload, not_yet, raised, Poll, body_filled, read_body, parsed,
  header_filled, poll_from, poll,
}

-- The bytes in the reader.
abbrev pub taken : Reader → Bytes
taken r = r.hdr ++ r.body

abbrev Stage : Option ℕ → Bytes → Bytes → Type 0
Stage none hdr body = (length hdr ≤ 4) × (body ≡ [])
Stage (some n) hdr body =
    (length hdr ≡ 4) × (from_be32 hdr ≡ n) × (length body ≤ n) × (n ≤ max_frame)

-- A reader between two polls: the length is known exactly when the header is whole, and the body is
-- no longer than that.
pub IsReady : Reader → Type 0
IsReady r = Stage r.needed r.hdr r.body

pub new_reader-IsReady : IsReady new_reader
unfolding IsReady
new_reader-IsReady = (omega arith, refl)

-- A payload stands in the stream behind four bytes that give its length.
pub record Frame (all p rest : Bytes) : Type 0 where
  pub hdr : Bytes
  pub hdr_len : length hdr ≡ 4
  pub hdr_val : from_be32 hdr ≡ length p
  pub small : length p ≤ max_frame
  pub stream : hdr ++ (p ++ rest) ≡ all

-- What one poll does to the stream `all`: the bytes in the reader and those in the socket.
abbrev pub Keeps : Bytes → Poll → Type 0
Keeps all (payload p, r, ans) = Frame all p (bytes_of ans) × (r ≡ new_reader)
Keeps all (not_yet, r, ans) = (taken r ++ bytes_of ans ≡ all) × IsReady r
Keeps all (raised, r, ans) = taken r ++ bytes_of ans ≡ all

body_filled-Keeps :
    (r : Reader) (n : ℕ) (s : Fill) (all : Bytes)
    → r.needed ≡ some n
    → length r.hdr ≡ 4
    → from_be32 r.hdr ≡ n
    → n ≤ max_frame
    → Stream.Laws.Keeps n all s
    → Keeps (r.hdr ++ all) (body_filled r s)
unfolding IsReady
body_filled-Keeps r n (filled b ans) all known len val small (e, lb) = (
  record {
    hdr = r.hdr;
    hdr_len = len;
    hdr_val = val ∙ sym lb;
    small = omega arith;
    stream = ap (λ x. r.hdr ++ x) e;
  },
  refl,
)
body_filled-Keeps r n (starved b ans) all known len val small (e, lb) = (
  append_assoc r.hdr b (bytes_of ans) ∙ ap (λ x. r.hdr ++ x) e,
  rw known (len, val, omega arith, small),
)
body_filled-Keeps r n (ended b ans) all known len val small (e, lb) =
    append_assoc r.hdr b (bytes_of ans) ∙ ap (λ x. r.hdr ++ x) e
body_filled-Keeps r n (failed b ans) all known len val small (e, lb) =
    append_assoc r.hdr b (bytes_of ans) ∙ ap (λ x. r.hdr ++ x) e

read_body-Keeps :
    (r : Reader) (n : ℕ) (ans : List Answer)
    → r.needed ≡ some n
    → length r.hdr ≡ 4
    → from_be32 r.hdr ≡ n
    → n ≤ max_frame
    → length r.body ≤ n
    → Keeps (taken r ++ bytes_of ans) (read_body r n ans)
unfolding read_body
read_body-Keeps r n ans known len val small le =
    subst (λ all. Keeps all (body_filled r (fill n r.body ans)))
      (sym (append_assoc r.hdr r.body (bytes_of ans)))
      (body_filled-Keeps r n (fill n r.body ans) (r.body ++ bytes_of ans) known len val small
        (fill-Keeps n r.body ans le))

parsed-Keeps :
    (r : Reader) (hdr : Bytes) (ans : List Answer)
    → length hdr ≡ 4
    → r.body ≡ []
    → Keeps (hdr ++ bytes_of ans) (parsed r hdr ans)
parsed-Keeps r hdr ans len empty =
    let known : Reader = record r { hdr = hdr; needed = some (from_be32 hdr) } in
    let same : taken known ≡ hdr = ap (λ b. hdr ++ b) empty ∙ append-nil hdr in
    elim (Bool-cases (ltb max_frame (from_be32 hdr))) [
      | inl t ↦ rw t (ap (λ x. x ++ bytes_of ans) same)
      | inr t ↦ rw t (
          subst (λ x. Keeps (x ++ bytes_of ans) (read_body known (from_be32 hdr) ans)) same
            (read_body-Keeps known (from_be32 hdr) ans refl len refl (ltb_false→le _ _ t)
              (subst (λ b. length b ≤ from_be32 hdr) (sym empty) (omega arith))))
    ]

header_filled-Keeps :
    (r : Reader) (s : Fill) (all : Bytes)
    → r.needed ≡ none
    → r.body ≡ []
    → Stream.Laws.Keeps 4 all s
    → Keeps all (header_filled r s)
unfolding IsReady
header_filled-Keeps r (filled b ans) all unknown empty (e, lb) =
    subst (λ x. Keeps x (parsed r b ans)) e (parsed-Keeps r b ans lb empty)
header_filled-Keeps r (starved b ans) all unknown empty (e, lb) = (
  ap (λ x. x ++ bytes_of ans) (ap (λ x. b ++ x) empty ∙ append-nil b) ∙ e,
  rw unknown (omega arith, empty),
)
header_filled-Keeps r (ended b ans) all unknown empty (e, lb) =
    ap (λ x. x ++ bytes_of ans) (ap (λ x. b ++ x) empty ∙ append-nil b) ∙ e
header_filled-Keeps r (failed b ans) all unknown empty (e, lb) =
    ap (λ x. x ++ bytes_of ans) (ap (λ x. b ++ x) empty ∙ append-nil b) ∙ e

poll_from-Keeps :
    (o : Option ℕ) (r : Reader) (ans : List Answer)
    → r.needed ≡ o
    → Stage o r.hdr r.body
    → Keeps (taken r ++ bytes_of ans) (poll_from o r ans)
poll_from-Keeps none r ans known (le, empty) =
    subst (λ x. Keeps (x ++ bytes_of ans) (header_filled r (fill 4 r.hdr ans)))
      (sym (ap (λ x. r.hdr ++ x) empty ∙ append-nil r.hdr))
      (header_filled-Keeps r (fill 4 r.hdr ans) (r.hdr ++ bytes_of ans) known empty
        (fill-Keeps 4 r.hdr ans le))
poll_from-Keeps (some n) r ans known (len, val, le, small) =
    read_body-Keeps r n ans known len val small le

-- Whatever the socket answers, a poll loses no byte and makes none up, if it starts between two
-- polls: a payload that it returns stands in the stream behind its length, and is no longer than
-- 2 ^ 20; the reader is then new. Else all bytes taken are in the reader.
pub poll-Keeps :
    (r : Reader) (ans : List Answer) → IsReady r → Keeps (taken r ++ bytes_of ans) (poll r ans)
unfolding poll IsReady
poll-Keeps r ans h = poll_from-Keeps r.needed r ans refl h
