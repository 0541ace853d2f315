-- ===== src/Net/Reader.antt =====
-- `FrameReader` of src/net.py.
pub mod Laws
pub mod Polls
pub mod Progress
use gpti84_plus.Base.{ℕ, ◌-◌, List, [], ◌∷◌, Option, none, some, Bool, ltb, if◌then◌else◌, length}
use gpti84_plus.Base.Bytes.{Bytes}
use gpti84_plus.Net.Stream.{Answer, Fill, filled, starved, ended, failed, fill}
use gpti84_plus.Net.Framing.{from_be32}

-- The bytes of the header and of the body so far, and the length once the header is parsed.
pub record Reader : Type 0 where
  pub hdr : Bytes
  pub body : Bytes
  pub needed : Option ℕ

abbrev pub new_reader : Reader
new_reader = record { hdr = []; body = []; needed = none }

abbrev pub max_frame : ℕ
max_frame = 1048576

-- What `poll` returns, or that it raises an error.
pub data Polled : Type 0 where
  payload : Bytes → Polled
  not_yet : Polled
  raised : Polled

-- After a poll: the reader, and what the socket still answers.
abbrev pub Poll : Type 0
Poll = Polled × Reader × List Answer

abbrev pub body_filled : Reader → Fill → Poll
body_filled r (filled body ans) = (payload body, new_reader, ans)
body_filled r (starved body ans) = (not_yet, record r { body = body }, ans)
body_filled r (ended body ans) = (raised, record r { body = body }, ans)
body_filled r (failed body ans) = (raised, record r { body = body }, ans)

-- The loop over the body, once the length is known.
pub read_body : Reader → ℕ → List Answer → Poll
unfolding fill
read_body r n ans = body_filled r (fill n r.body ans)

abbrev pub parsed : Reader → Bytes → List Answer → Poll
parsed r hdr ans =
    let known = record r { hdr = hdr; needed = some (from_be32 hdr) } in
    if ltb max_frame (from_be32 hdr)
    then (raised, known, ans)
    else read_body known (from_be32 hdr) ans

abbrev pub header_filled : Reader → Fill → Poll
header_filled r (filled hdr ans) = parsed r hdr ans
header_filled r (starved hdr ans) = (not_yet, record r { hdr = hdr }, ans)
header_filled r (ended hdr ans) = (raised, record r { hdr = hdr }, ans)
header_filled r (failed hdr ans) = (raised, record r { hdr = hdr }, ans)

-- `if self._needed is None`
abbrev pub poll_from : Option ℕ → Reader → List Answer → Poll
poll_from none r ans = header_filled r (fill 4 r.hdr ans)
poll_from (some n) r ans = read_body r n ans

pub poll : Reader → List Answer → Poll
unfolding read_body
poll r ans = poll_from r.needed r ans
