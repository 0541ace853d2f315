-- ===== src/Net/Stream.antt =====
-- The socket that src/net.py reads from. The network decides what each read answers.
pub mod Laws
use gpti84_plus.Base.{
  ℕ, suc, ◌+◌, ◌-◌, ◌≤◌, ◌≡◌, ◌≢◌, refl, List, [], ◌∷◌, ◌++◌, Bool, true, false, not, ◌||◌, ◌==◌,
  leb, ltb, if◌then◌else◌, length, take, drop,
}
use gpti84_plus.Base.Bytes.{Bytes}

-- What the socket answers to the reads to come: bytes that have arrived (an empty chunk is the end
-- of the stream), no data, or an `OSError` with its number. Behind the end of the list there is no
-- data.
pub data Answer : Type 0 where
  chunk : Bytes → Answer
  nothing : Answer
  os_error : ℕ → Answer

-- EAGAIN on Linux and Darwin, and ETIMEDOUT.
abbrev pub is_again : ℕ → Bool
is_again e = e == 11 || e == 35 || e == 110

-- What one loop that tops up a buffer comes to, with the buffer and the answers that are left.
pub data Fill : Type 0 where
  filled : Bytes → List Answer → Fill
  starved : Bytes → List Answer → Fill
  ended : Bytes → List Answer → Fill
  failed : Bytes → List Answer → Fill

-- A read of `n` bytes takes no more of a chunk than `n`.
abbrev pub fill_error : ℕ → Bytes → List Answer → Fill
fill_error e buf ans = if is_again e then starved buf ans else failed buf ans

-- `while len(buf) < want: chunk = sock.recv(want - len(buf)); ...; buf.extend(chunk)`. A chunk that
-- holds more than is missing ends the loop, and the rest of it stays in the socket.
unfoldable pub fill : ℕ → Bytes → List Answer → Fill
fill want buf [] = if ltb (length buf) want then starved buf [] else filled buf []
fill want buf (nothing ∷ ans) =
    if ltb (length buf) want then starved buf ans else filled buf (nothing ∷ ans)
fill want buf (os_error e ∷ ans) =
    if ltb (length buf) want then fill_error e buf ans else filled buf (os_error e ∷ ans)
fill want buf (chunk [] ∷ ans) =
    if ltb (length buf) want then ended buf ans else filled buf (chunk [] ∷ ans)
fill want buf (chunk (c ∷ cs) ∷ ans) =
    let more = fill want (buf ++ (c ∷ cs)) ans in
    let missing = want - length buf in
    if not (ltb (length buf) want)
    then filled buf (chunk (c ∷ cs) ∷ ans)
    else if leb (length (c ∷ cs)) missing
    then more
    else filled (buf ++ take missing (c ∷ cs)) (chunk (drop missing (c ∷ cs)) ∷ ans)

-- The bytes that are still in the socket.
abbrev pub bytes_of : List Answer → Bytes
bytes_of [] = []
bytes_of (chunk c ∷ ans) = c ++ bytes_of ans
bytes_of (nothing ∷ ans) = bytes_of ans
bytes_of (os_error e ∷ ans) = bytes_of ans
