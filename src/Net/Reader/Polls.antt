-- ===== src/Net/Reader/Polls.antt =====
-- Poll after poll: the payloads that come out of a stream.
use gpti84_plus.Base.{ℕ, zero, suc, sym, ap, List, [], ◌∷◌, ◌++◌}
use mathlib.Core.Path.{subst}
use gpti84_plus.Base.Bytes.{Bytes}
use gpti84_plus.Net.Stream.{Answer, bytes_of}
use gpti84_plus.Net.Reader.Laws.{taken, IsReady, Frame, Keeps, poll-Keeps, new_reader-IsReady}
use gpti84_plus.Net.Reader.{Reader, payload, not_yet, raised, Poll, poll}

-- What polls have returned, and the reader and the answers of the socket behind them.
pub record Polls : Type 0 where
  pub got : List Bytes
  pub reader : Reader
  pub left : List Answer

abbrev stopped : Reader → List Answer → Polls
stopped r ans = record { got = []; reader = r; left = ans }

abbrev pub with_payload : Bytes → Polls → Polls
with_payload p s = record s { got = p ∷ s.got }

abbrev pub go_on : (Reader → List Answer → Polls) → Poll → Polls
go_on more (payload p, r, ans) = with_payload p (more r ans)
go_on more (not_yet, r, ans) = more r ans
go_on more (raised, r, ans) = stopped r ans

-- A number of polls, up to the first that raises an error.
unfoldable pub polls : ℕ → Reader → List Answer → Polls
unfolding poll
polls zero r ans = stopped r ans
polls (suc k) r ans = go_on (λ s rest. polls k s rest) (poll r ans)

-- The payloads `ps` are what stands in the stream `all` in front of `rest`, each behind its length.
pub data Splits : Bytes → List Bytes → Bytes → Type 0 where
  done : {all : Bytes} → Splits all [] all
  next :
      {all mid rest p : Bytes} {ps : List Bytes}
      → Frame all p mid
      → Splits mid ps rest
      → Splits all (p ∷ ps) rest

go_on-Splits :
    (more : Reader → List Answer → Polls) (all : Bytes) (o : Poll)
    → Keeps all o
    → ((r : Reader) (ans : List Answer)
        → IsReady r
        → Splits
            (taken r ++ bytes_of ans)
            (more r ans).got
            (taken (more r ans).reader ++ bytes_of (more r ans).left))
    → Splits all (go_on more o).got (taken (go_on more o).reader ++ bytes_of (go_on more o).left)
go_on-Splits more all (payload p, r, ans) (f, new) later = next f (
    subst (λ x. Splits x (more r ans).got (taken (more r ans).reader ++ bytes_of (more r ans).left))
      (ap (λ s. taken s ++ bytes_of ans) new)
      (later r ans (subst IsReady (sym new) new_reader-IsReady)))
go_on-Splits more all (not_yet, r, ans) (e, ready) later =
    subst (λ x. Splits x (more r ans).got (taken (more r ans).reader ++ bytes_of (more r ans).left))
      e (later r ans ready)
go_on-Splits more all (raised, r, ans) e later =
    subst (λ x. Splits x [] (taken r ++ bytes_of ans)) e done

-- However the bytes arrive, with pauses and errors between them, the payloads that polls return are
-- what stands in the stream, each behind its length and in order, and the rest of the stream is in
-- the reader and in the socket.
pub polls-Splits :
    (k : ℕ) (r : Reader) (ans : List Answer)
    → IsReady r
    → Splits
        (taken r ++ bytes_of ans)
        (polls k r ans).got
        (taken (polls k r ans).reader ++ bytes_of (polls k r ans).left)
unfolding polls
polls-Splits zero r ans h = done
polls-Splits (suc k) r ans h =
    go_on-Splits (λ s rest. polls k s rest) (taken r ++ bytes_of ans) (poll r ans)
      (poll-Keeps r ans h) (λ s rest ready. polls-Splits k s rest ready)
