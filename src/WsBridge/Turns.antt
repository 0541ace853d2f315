-- ===== src/WsBridge/Turns.antt =====
-- What the two directions make of frames and messages, in any order of their turns.
use gpti84_plus.Base.{
  ℕ, suc, ◌≤◌, ◌<◌, List, [], ◌∷◌, ◌++◌, append-nil, append_assoc, ◌≡◌, ◌∙◌, refl, sym, ap, none,
  some, Bool, false, length, take, map, All, if◌then◌else◌, arith,
}
use gpti84_plus.Base.Bytes.{Bytes, codes}
use gpti84_plus.Net.Stream.{Answer, filled, fill, bytes_of}
use gpti84_plus.Net.Framing.{be32, framed, from_be32-be32}
use gpti84_plus.Net.Reader.Progress.{AllChunks, fill_takes, framed_all}
use gpti84_plus.WsBridge.{
  frame, body_read, header_read, read_frame, reading, Session, text, binary, emit, body_of,
  ws_to_tcp, pass_on, read_turn, tcp_to_ws, Turn, from_ws, from_tcp, turn, gather,
}

abbrev pub IsShort : Bytes → Type 0
IsShort p = length p < 4294967296

-- Neither a `drain` nor a `send` raises.
abbrev pub IsQuiet : Turn → Type 0
IsQuiet (from_ws raises msg) = raises ≡ false
IsQuiet (from_tcp raises) = raises ≡ false

-- The rounds of the loop over the frames, and the binary messages that came.
abbrev pub rounds : List Turn → ℕ
rounds [] = 0
rounds (from_ws raises msg ∷ ts) = rounds ts
rounds (from_tcp raises ∷ ts) = suc (rounds ts)

abbrev pub binaries : List Turn → List Bytes
binaries [] = []
binaries (from_ws raises (binary msg) ∷ ts) = msg ∷ binaries ts
binaries (from_ws raises (text t) ∷ ts) = binaries ts
binaries (from_tcp raises ∷ ts) = binaries ts

header_read-framed :
    (p : Bytes) (ans ans' : List Answer)
    → length p < 4294967296
    → fill (length p) [] ans ≡ filled p ans'
    → header_read (filled (be32 (length p)) ans) ≡ frame (framed p) p ans'
header_read-framed p ans ans' h ran =
    ap (λ n. body_read (be32 (length p)) (fill n [] ans)) (from_be32-be32 (length p) h)
    ∙ ap (body_read (be32 (length p))) ran

read_frame-framed :
    (p rest : Bytes) (ans : List Answer)
    → AllChunks ans
    → IsShort p
    → bytes_of ans ≡ framed p ++ rest
    → (ans' : List Answer) × (read_frame ans ≡ frame (framed p) p ans')
      × (bytes_of ans' ≡ rest)
      × AllChunks ans'
unfolding read_frame
read_frame-framed p rest ans h short e =
    let (mid, ran, left, h') =
      fill_takes 4 [] (be32 (length p)) (p ++ rest) ans h
        (e ∙ append_assoc (be32 (length p)) p rest) (omega arith) refl in
    let (ans', ran', left', h'') = fill_takes (length p) [] p rest mid h' left (omega arith) refl in
    (ans', ap header_read ran ∙ header_read-framed p mid ans' short ran', left', h'')

-- The session behind a frame that was sent on.
abbrev sent_on : Bytes → List Answer → Session → Session
sent_on p ans s =
    emit (codes "s2c") (length p) (some p) none
      (record s { answers = ans; to_ws = s.to_ws ++ (framed p ∷ []) })

tcp_to_ws-frame :
    (p : Bytes) (ans : List Answer) (s : Session)
    → s.loop ≡ reading
    → read_frame s.answers ≡ frame (framed p) p ans
    → tcp_to_ws false s ≡ sent_on p ans s
unfolding tcp_to_ws
tcp_to_ws-frame p ans s going e =
    ap (λ l. read_turn false l s) going ∙ ap (λ r. pass_on false r s) e

gather_by :
    (t : Turn) (ts : List Turn) (s d : Session)
    → s.over ≡ false
    → turn t s ≡ d
    → gather (t ∷ ts) s ≡ gather ts d
unfolding gather
gather_by t ts s d up e = ap (λ o. if o then s else gather ts (turn t s)) up ∙ ap (gather ts) e

-- The session behind a message that was written.
abbrev written : Bytes → Session → Session
written msg s =
    emit (codes "c2s") (length (body_of msg)) (some (body_of msg)) none
      (record s { to_tcp = s.to_tcp ++ (msg ∷ []) })

ws_to_tcp-binary :
    (raises : Bool) (msg : Bytes) (s : Session)
    → raises ≡ false
    → ws_to_tcp raises (binary msg) s ≡ written msg s
unfolding ws_to_tcp
ws_to_tcp-binary raises msg s q = rw q refl

tcp_to_ws_quiet :
    (raises : Bool) (s d : Session)
    → raises ≡ false
    → tcp_to_ws false s ≡ d
    → tcp_to_ws raises s ≡ d
tcp_to_ws_quiet raises s d q e = ap (λ r. tcp_to_ws r s) q ∙ e

-- In any order of the turns, when no send raises and there are bytes for every read, however they
-- are cut into chunks: each frame of the relay becomes one message of the WebSocket, and each binary
-- message is written to the relay's socket as it is. There are as many frames as rounds that read,
-- each of fewer than 2 ^ 32 bytes.
pub gather-framed_all :
    (ts : List Turn) (ps : List Bytes) (s : Session)
    → All IsQuiet ts
    → All IsShort ps
    → AllChunks s.answers
    → bytes_of s.answers ≡ framed_all ps
    → rounds ts ≤ length ps
    → s.loop ≡ reading
    → s.over ≡ false
    → ((gather ts s).to_ws ≡ s.to_ws ++ map framed (take (rounds ts) ps))
      × ((gather ts s).to_tcp ≡ s.to_tcp ++ binaries ts)
unfolding gather ws_to_tcp tcp_to_ws
gather-framed_all [] ps s quiet short h e le going up =
    (sym (append-nil s.to_ws), sym (append-nil s.to_tcp))
gather-framed_all (from_ws raises (text t) ∷ ts) ps s (q, quiet) short h e le going up =
    let step = gather_by (from_ws raises (text t)) ts s s up refl in
    let (w, r) = gather-framed_all ts ps s quiet short h e le going up in
    (ap (λ d. d.to_ws) step ∙ w, ap (λ d. d.to_tcp) step ∙ r)
gather-framed_all (from_ws raises (binary msg) ∷ ts) ps s (q, quiet) short h e le going up =
    let step =
      gather_by (from_ws raises (binary msg)) ts s (written msg s) up
        (ws_to_tcp-binary raises msg s q) in
    let (w, r) = gather-framed_all ts ps (written msg s) quiet short h e le going up in
    (
      ap (λ d. d.to_ws) step ∙ w,
      ap (λ d. d.to_tcp) step ∙ r ∙ append_assoc s.to_tcp (msg ∷ []) (binaries ts),
    )
gather-framed_all (from_tcp raises ∷ ts) [] s (q, quiet) short h e le going up =
    absurd (omega arith)
gather-framed_all (from_tcp raises ∷ ts) (p ∷ ps) s (q, quiet) (sh, short) h e le going up =
    let (ans, ran, left, h') = read_frame-framed p (framed_all ps) s.answers h sh e in
    let step =
      gather_by (from_tcp raises) ts s (sent_on p ans s) up
        (tcp_to_ws_quiet raises s (sent_on p ans s) q (tcp_to_ws-frame p ans s going ran)) in
    let (w, r) =
      gather-framed_all ts ps (sent_on p ans s) quiet short h' left (omega arith) going up in
    (
      ap (λ d. d.to_ws) step
          ∙ w
          ∙ append_assoc s.to_ws (framed p ∷ []) (map framed (take (rounds ts) ps)),
      ap (λ d. d.to_tcp) step ∙ r,
    )
