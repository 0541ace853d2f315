-- ===== src/WsBridge/EchoTrip.antt =====
-- The bridge between the messages of the Pico and a relay in echo mode.
use gpti84_plus.Base.{
  ℕ, List, [], ◌∷◌, ◌++◌, map, ◌≡◌, ◌∙◌, refl, sym, ap, Bool, true, length, length-map, take,
  take-le, All, arith,
}
use gpti84_plus.Base.Bytes.{Bytes}
use gpti84_plus.Net.Stream.{Answer, bytes_of}
use gpti84_plus.Net.Framing.{framed}
use gpti84_plus.Net.Reader.Progress.{AllChunks, framed_all}
use gpti84_plus.Relay.Server.{Server, handle}
use gpti84_plus.Relay.Server.Replies.{echo, handle-echo}
use gpti84_plus.Relay.Server.EchoTrip.{IsEchoed, sent_bytes, echo_text, questions, sent_echoes}
use gpti84_plus.WsBridge.{Turn, gather, opening}
use gpti84_plus.WsBridge.Turns.{IsShort, IsQuiet, rounds, binaries, gather-framed_all}

-- The bytes of all messages, one after the other.
abbrev pub joined : List Bytes → Bytes
joined [] = []
joined (m ∷ ms) = m ++ joined ms

joined-framed : (ps : List Bytes) → joined (map framed ps) ≡ framed_all ps
joined-framed [] = refl
joined-framed (p ∷ ps) = ap (λ r. framed p ++ r) (joined-framed ps)

echoes-IsShort : (ps : List Bytes) → All IsEchoed ps → All IsShort (map echo_text ps)
echoes-IsShort [] h = tt
echoes-IsShort (p ∷ ps) ((ascii, small), h) = (omega arith, echoes-IsShort ps h)

map-map : (ps : List Bytes) → map framed (map echo_text ps) ≡ map (λ p. framed (echo_text p)) ps
map-map [] = refl
map-map (p ∷ ps) = ap (λ r. framed (echo_text p) ∷ r) (map-map ps)

-- Messages with one frame each, between which text messages may come, go through the bridge to a
-- relay in echo mode: the relay gets the same messages, and each of its replies comes back as one
-- message with one frame, in the order of the questions. That holds for any order of the turns and
-- however the two streams of the relay's socket are cut into chunks, when no send fails, the bridge
-- reads as often as there are questions, and the frames are ASCII and so short that no reply is
-- oversize.
pub gather-handle :
    (llm_mode : Bool) (i : ℕ) (ps : List Bytes) (s : Server) (ts : List Turn)
    (there back : List Answer)
    → s.raises ≡ []
    → s.out ≡ []
    → All IsEchoed ps
    → All IsQuiet ts
    → binaries ts ≡ map framed ps
    → rounds ts ≡ length ps
    → AllChunks there
    → bytes_of there ≡ joined (binaries ts)
    → AllChunks back
    → bytes_of back ≡ sent_bytes (handle true llm_mode i s there).1.out
    → ((gather ts (opening back)).to_tcp ≡ map framed ps)
      × ((gather ts (opening back)).to_ws ≡ map (λ p. framed (echo_text p)) ps)
gather-handle llm_mode i ps s ts there back quiet fresh h calm asked often ht et hb eb =
    let ran =
      handle-echo llm_mode i ps s there quiet ht (questions ps h)
        (et ∙ ap joined asked ∙ joined-framed ps) in
    let stream : bytes_of back ≡ framed_all (map echo_text ps) =
      eb
      ∙ ap (λ r. sent_bytes r.1.out) ran
      ∙ ap (λ o. sent_bytes (o ++ map (echo i) ps)) fresh
      ∙ sent_echoes i ps in
    let many = length-map echo_text ps in
    let (w, r) =
      gather-framed_all ts (map echo_text ps) (opening back) calm (echoes-IsShort ps h) hb stream
        (omega (arith, many, often)) refl refl in
    (
      r ∙ asked,
      w
          ∙ ap (map framed) (
              ap (λ n. take n (map echo_text ps)) (often ∙ sym many)
              ∙ take-le _ (map echo_text ps) (omega arith))
          ∙ map-map ps,
    )
