-- ===== src/Bridge/Supervisor/Whole.antt =====
-- The frames of the desktop, when all of them have come whole.
use gpti84_plus.Base.{
  ℕ, zero, suc, ◌≤◌, ◌<◌, ◌≡◌, ◌∙◌, refl, ap, List, [], ◌∷◌, length, length-append, All, arith,
}
use gpti84_plus.Base.Bytes.{Bytes}
use gpti84_plus.Link.{Link}
use gpti84_plus.Net.Stream.{Answer, chunk, nothing, os_error, bytes_of}
use gpti84_plus.Net.Framing.{framed}
use gpti84_plus.Net.Reader.{new_reader, max_frame}
use gpti84_plus.Net.Reader.Progress.{AllChunks, framed_all, poll-framed, poll-not_yet}
use gpti84_plus.Bridge.Supervisor.{Desk, quiet, push, after_poll, push_inbound, enough}
use gpti84_plus.Bridge.Supervisor.Drain.{push_all}

-- A socket that has handed over everything.
drained : (ans : List Answer) → AllChunks ans → bytes_of ans ≡ [] → ans ≡ []
drained [] h e = refl
drained (chunk [] ∷ ans) h e = elim h [ ]
drained (chunk (c ∷ cs) ∷ ans) h e = cc
drained (nothing ∷ ans) h e = elim h [ ]
drained (os_error x ∷ ans) h e = elim h [ ]

abbrev pub fresh_desk : List Answer → Link → Desk
fresh_desk ans l = record { reader = new_reader; answers = ans; link = l }

push_frames :
    (f : ℕ) (ps : List Bytes) (ans : List Answer) (l : Link)
    → AllChunks ans
    → All (λ p. length p ≤ max_frame) ps
    → bytes_of ans ≡ framed_all ps
    → length ps < f
    → push_inbound f (fresh_desk ans l) ≡ (quiet, fresh_desk [] (push_all ps l))
unfolding push_inbound
push_frames zero ps ans l h small e lt = absurd (omega arith)
push_frames (suc f) [] ans l h small e lt =
    ap (λ a. push_inbound (suc f) (fresh_desk a l)) (drained ans h e)
    ∙ ap (after_poll (λ d. push_inbound f d) l) poll-not_yet
push_frames (suc f) (p ∷ ps) ans l h (fits, small) e lt =
    let (ans', ran, left, h') = poll-framed p (framed_all ps) ans h fits e in
    ap (after_poll (λ d. push_inbound f d) l) ran
    ∙ push_frames f ps ans' (push p l) h' small left (omega arith)

counted : (ps : List Bytes) → length ps ≤ length (framed_all ps)
counted [] = omega arith
counted (p ∷ ps) = let more = counted ps in omega (arith, length-append (framed p) (framed_all ps))

-- If the socket holds exactly the frames `ps`, each with at most 2 ^ 20 bytes, the loop of one turn
-- pushes all of them in order, however they are cut into chunks, and ends in peace: nothing is left
-- in the reader and in the socket.
pub push_inbound-framed_all :
    (ps : List Bytes) (ans : List Answer) (l : Link)
    → AllChunks ans
    → All (λ p. length p ≤ max_frame) ps
    → bytes_of ans ≡ framed_all ps
    → push_inbound (enough (fresh_desk ans l)) (fresh_desk ans l)
      ≡ (quiet, fresh_desk [] (push_all ps l))
push_inbound-framed_all ps ans l h small e =
    push_frames (enough (fresh_desk ans l)) ps ans l h small e
      (omega (arith, counted ps, ap length e))
