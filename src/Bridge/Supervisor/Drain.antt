-- ===== src/Bridge/Supervisor/Drain.antt =====
-- The frames of the desktop in one turn.
use gpti84_plus.Base.{
  ℕ, zero, suc, ◌<◌, ◌≡◌, refl, sym, ap, List, [], ◌∷◌, ◌++◌, length, length-append, arith,
}
use mathlib.Core.Path.{subst}
use gpti84_plus.Base.Bytes.{Bytes}
use gpti84_plus.Link.{Link}
use gpti84_plus.Net.Stream.{bytes_of}
use gpti84_plus.Net.Reader.{Poll, payload, not_yet, raised, poll}
use gpti84_plus.Net.Reader.Laws.{taken, IsReady, Frame, Keeps, poll-Keeps, new_reader-IsReady}
use gpti84_plus.Net.Reader.Polls.{Splits, done, next}
use gpti84_plus.Bridge.Supervisor.{
  Inbound, quiet, lost, out_of_fuel, Desk, push, after_poll, push_inbound, enough,
}

-- The pushes of one turn, in order.
abbrev pub push_all : List Bytes → Link → Link
push_all [] l = l
push_all (p ∷ ps) l = push_all ps (push p l)

-- The frames `ps` stood in the stream and were pushed, and what is left of the stream is in the
-- reader and the socket.
pub record Pushed (all : Bytes) (l : Link) (d : Desk) : Type 0 where
  pub frames : List Bytes
  pub splits : Splits all frames (taken d.reader ++ bytes_of d.answers)
  pub pushes : d.link ≡ push_all frames l

-- How the loop may end.
abbrev pub Drained : Bytes → Link → Inbound × Desk → Type 0
Drained all l (quiet, d) = Pushed all l d × IsReady d.reader
Drained all l (lost, d) = Pushed all l d
Drained all l (out_of_fuel, d) = ⊥

one_more :
    (all mid p : Bytes) (l : Link) (r : Inbound × Desk)
    → Frame all p mid
    → Drained mid (push p l) r
    → Drained all l r
one_more all mid p l (quiet, d) f (k, ready) =
    (record { frames = p ∷ k.frames; splits = next f k.splits; pushes = k.pushes }, ready)
one_more all mid p l (lost, d) f k = record {
  frames = p ∷ k.frames;
  splits = next f k.splits;
  pushes = k.pushes;
}
one_more all mid p l (out_of_fuel, d) f k = k

shorter : (all p mid : Bytes) → Frame all p mid → length mid < length all
shorter all p mid f =
    let whole = ap length f.stream in
    let four = f.hdr_len in
    omega (arith, whole, four, length-append f.hdr (p ++ mid), length-append p mid)

after_poll-Drained :
    (more : Desk → Inbound × Desk) (all : Bytes) (l : Link) (o : Poll)
    → Keeps all o
    → ((d : Desk)
        → IsReady d.reader
        → length (taken d.reader ++ bytes_of d.answers) < length all
        → Drained (taken d.reader ++ bytes_of d.answers) d.link (more d))
    → Drained all l (after_poll more l o)
after_poll-Drained more all l (payload p, r, ans) (f, new) later =
    let d : Desk = record { reader = r; answers = ans; link = push p l } in
    let same : taken r ++ bytes_of ans ≡ bytes_of ans = ap (λ s. taken s ++ bytes_of ans) new in
    one_more all (bytes_of ans) p l (more d) f (
      subst (λ x. Drained x (push p l) (more d)) same
        (later d (subst IsReady (sym new) new_reader-IsReady)
          (omega (arith, ap length same, shorter all p (bytes_of ans) f))))
after_poll-Drained more all l (not_yet, r, ans) (e, ready) later = (
  record {
    frames = [];
    splits = subst (λ x. Splits x [] (taken r ++ bytes_of ans)) e done;
    pushes = refl;
  },
  ready,
)
after_poll-Drained more all l (raised, r, ans) e later = record {
  frames = [];
  splits = subst (λ x. Splits x [] (taken r ++ bytes_of ans)) e done;
  pushes = refl;
}

push_inbound_lem :
    (f : ℕ) (d : Desk)
    → IsReady d.reader
    → length (taken d.reader ++ bytes_of d.answers) < f
    → Drained (taken d.reader ++ bytes_of d.answers) d.link (push_inbound f d)
unfolding push_inbound
push_inbound_lem zero d ready lt = absurd (omega arith)
push_inbound_lem (suc f) d ready lt =
    after_poll-Drained (λ e. push_inbound f e) (taken d.reader ++ bytes_of d.answers) d.link
      (poll d.reader d.answers) (poll-Keeps d.reader d.answers ready)
      (λ e ready' less. push_inbound_lem f e ready' (omega arith))

-- The loop over the inbound frames ends, whatever the socket answers, if the reader is between two
-- polls. Every frame that it finds is pushed to the calculator once and in order, a push that fails
-- included, and the bytes that make no frame yet are in the reader and the socket. If no error drops
-- the connection, the reader is between two polls again.
pub push_inbound-Drained :
    (d : Desk)
    → IsReady d.reader
    → Drained (taken d.reader ++ bytes_of d.answers) d.link (push_inbound (enough d) d)
push_inbound-Drained d ready = push_inbound_lem (enough d) d ready (omega arith)
