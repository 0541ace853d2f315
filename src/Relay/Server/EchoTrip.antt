-- ===== src/Relay/Server/EchoTrip.antt =====
-- An echo server and the `FrameReader` of the bridge at the two ends of a connection.
use gpti84_plus.Base.{
  ℕ, ◌+◌, ◌≤◌, ◌≡◌, ◌∙◌, sym, refl, ap, List, [], ◌∷◌, ◌++◌, append-nil, map, Bool, true, length,
  length-map, All, arith,
}
use gpti84_plus.Base.Bytes.{Bytes, codes}
use gpti84_plus.Net.Stream.{Answer, bytes_of}
use gpti84_plus.Net.Framing.{framed}
use gpti84_plus.Net.Reader.{new_reader, max_frame}
use gpti84_plus.Net.Reader.Polls.{polls}
use gpti84_plus.Net.Reader.Progress.{AllChunks, framed_all, polls-framed_all}
use gpti84_plus.Relay.Server.{Server, is_ascii, handle}
use gpti84_plus.Relay.Server.Frames.{IsQuestion}
use gpti84_plus.Relay.Server.Replies.{echo, handle-echo}

-- A frame whose reply is not oversize.
abbrev pub IsEchoed : Bytes → Type 0
IsEchoed p = (is_ascii p ≡ true) × (length p + 6 ≤ 1048576)

-- The bytes that were sent.
abbrev pub sent_bytes : List (ℕ × Bytes) → Bytes
sent_bytes [] = []
sent_bytes (m ∷ ms) = m.1 ++ sent_bytes ms

abbrev pub echo_text : Bytes → Bytes
echo_text p = codes "echo: " ++ p

pub sent_echoes :
    (i : ℕ) (ps : List Bytes) → sent_bytes (map (echo i) ps) ≡ framed_all (map echo_text ps)
sent_echoes i [] = refl
sent_echoes i (p ∷ ps) = ap (λ r. framed (echo_text p) ++ r) (sent_echoes i ps)

echoes_small :
    (ps : List Bytes) → All IsEchoed ps → All (λ p. length p ≤ max_frame) (map echo_text ps)
echoes_small [] h = tt
echoes_small (p ∷ ps) ((ascii, small), h) = (omega arith, echoes_small ps h)

pub questions : (ps : List Bytes) → All IsEchoed ps → All IsQuestion ps
questions [] h = tt
questions (p ∷ ps) ((ascii, small), h) = ((ascii, omega arith), questions ps h)

-- What a connection sends to an echo server comes back to its `FrameReader`: as many polls as there
-- were frames return their texts in order, each behind `echo: `, however the two streams are cut
-- into chunks. The sends do not fail and were none before, both sockets have bytes for every read,
-- and the frames are ASCII and so short that no reply is oversize.
pub polls-handle :
    (llm_mode : Bool) (i : ℕ) (ps : List Bytes) (s : Server) (there back : List Answer)
    → s.raises ≡ []
    → s.out ≡ []
    → All IsEchoed ps
    → AllChunks there
    → bytes_of there ≡ framed_all ps
    → AllChunks back
    → bytes_of back ≡ sent_bytes (handle true llm_mode i s there).1.out
    → (polls (length ps) new_reader back).got ≡ map echo_text ps
polls-handle llm_mode i ps s there back quiet fresh h ht et hb eb =
    let ran = handle-echo llm_mode i ps s there quiet ht (questions ps h) et in
    let stream : bytes_of back ≡ framed_all (map echo_text ps) ++ [] =
      eb
      ∙ ap (λ r. sent_bytes r.1.out) ran
      ∙ ap (λ o. sent_bytes (o ++ map (echo i) ps)) fresh
      ∙ sent_echoes i ps
      ∙ sym (append-nil (framed_all (map echo_text ps))) in
    ap (λ n. (polls n new_reader back).got) (sym (length-map echo_text ps))
    ∙ polls-framed_all (map echo_text ps) [] back hb (echoes_small ps h) stream
