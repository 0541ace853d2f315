-- ===== src/WsBridge/Tests.antt =====
-- The bridge at concrete turns.
use gpti84_plus.Base.{◌≤◌, List, [], ◌∷◌, ◌++◌, map, none, false, ◌≡◌, refl, length, All, arith}
use gpti84_plus.Base.Bytes.{IsPrintable, codes}
use gpti84_plus.Net.Stream.{Answer, chunk}
use gpti84_plus.Net.Framing.{framed}
use gpti84_plus.Relay.Frame.{encode_replace}
use gpti84_plus.Relay.Server.{Server, handle, serve, on_body, send_reply, set_active, read_frame}
use gpti84_plus.Relay.Server.EchoTrip.{echo_text}
use gpti84_plus.Console.{Store}
use gpti84_plus.WsBridge
use gpti84_plus.WsBridge.{preview, opening, gather, text, binary, Turn, from_ws, from_tcp}
use gpti84_plus.WsBridge.EchoTrip.{gather-handle}
use gpti84_plus.WsBridge.Preview.{preview-IsPrintable}

preview_text : preview (codes "a\nb") ≡ (codes "610a62", codes "a.b")
unfolding preview WsBridge.hexlify
preview_text = refl

preview-IsPrintable_example :
    All IsPrintable (preview (1 ∷ b'A' ∷ 255 ∷ [])).0
    × All IsPrintable (preview (1 ∷ b'A' ∷ 255 ∷ [])).1
    × (length (preview (1 ∷ b'A' ∷ 255 ∷ [])).0 ≤ 131)
    × (length (preview (1 ∷ b'A' ∷ 255 ∷ [])).1 ≤ 67)
preview-IsPrintable_example =
    preview-IsPrintable (1 ∷ b'A' ∷ 255 ∷ []) (omega arith, (omega arith, (omega arith, tt)))

-- Two messages and two frames, which come in one chunk.
abbrev talk : List Turn
talk =
    from_ws false (binary (framed (codes "hi")))
    ∷ from_tcp false
    ∷ from_ws false (text (codes "?"))
    ∷ from_ws false (binary (framed (codes "yo")))
    ∷ from_tcp false
    ∷ []

abbrev replies : List Answer
replies = chunk (framed (codes "A") ++ framed (codes "BC")) ∷ []

abbrev quiet_server : Server
quiet_server = record { active = none; workers = []; raises = []; out = [] }

abbrev asked : List Answer
asked = chunk (framed (codes "hi") ++ framed (codes "yo")) ∷ []

abbrev echoed : List Answer
echoed = chunk (framed (codes "echo: hi") ++ framed (codes "echo: yo")) ∷ []

gather-handle_example :
    ((gather talk (opening echoed)).to_tcp ≡ map framed (codes "hi" ∷ codes "yo" ∷ []))
    × ((gather talk (opening echoed)).to_ws
        ≡ map (λ p. framed (echo_text p)) (codes "hi" ∷ codes "yo" ∷ []))
unfolding handle serve on_body send_reply set_active read_frame encode_replace
gather-handle_example =
    gather-handle false 7 (codes "hi" ∷ codes "yo" ∷ []) quiet_server talk asked echoed refl refl
      ((refl, omega arith), ((refl, omega arith), tt)) (refl, (refl, (refl, (refl, (refl, tt)))))
      refl refl tt refl tt refl

abbrev empty_store : Store
empty_store = record { rows = []; last = 41; waiters = []; opened = 0 }
