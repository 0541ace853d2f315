-- ===== src/Net/WebSocket/Upgrade/Tests.antt =====
-- Responses to the upgrade.
use gpti84_plus.Base.{List, [], ◌∷◌, ◌++◌, none, some, ◌≡◌, refl, arith, inr}
use gpti84_plus.Base.Bytes.{Bytes, codes}
use gpti84_plus.Base.Text.Find.{find_text}
use gpti84_plus.Base.Text.{starts_with}
use gpti84_plus.Net.Stream.{Answer, chunk, bytes_of}
use gpti84_plus.Net.WebSocket.{Client}
use gpti84_plus.Net.WebSocket.Pump.Recv.{bytes, recv}
use gpti84_plus.Net.WebSocket.Pump.Within.{idle}
use gpti84_plus.Net.WebSocket.Pump.Delivery.{server_frame}
use gpti84_plus.Net.WebSocket.Upgrade.{
  crlf, blank_line, request, is_switching, bad_status, do_handshake, read_head, connect,
}
use gpti84_plus.Net.WebSocket.Upgrade.Delivery.{recv-connect}

request_text :
    request (codes "a2V5") (codes "h") (codes "/ws") none (some (codes "id"))
    ≡ codes "GET /ws HTTP/1.1"
      ++ crlf
      ++ codes "Host: h"
      ++ crlf
      ++ codes "Upgrade: websocket"
      ++ crlf
      ++ codes "Connection: Upgrade"
      ++ crlf
      ++ codes "Sec-WebSocket-Key: a2V5"
      ++ crlf
      ++ codes "Sec-WebSocket-Version: 13"
      ++ crlf
      ++ codes "CF-Access-Client-Secret: id"
      ++ blank_line
unfolding request
request_text = refl

abbrev refusal : Bytes
refusal = codes "HTTP/1.1 403 No"

forbidden : do_handshake 20 (chunk (refusal ++ blank_line) ∷ []) ≡ bad_status refusal
unfolding do_handshake read_head is_switching find_text starts_with
forbidden = refl

abbrev switching : Bytes
switching = codes "HTTP/1.1 101 OK" ++ crlf ++ codes "A: b"

recv-connect_example :
    (c : Client) × (ans' : List Answer) × (connect [] 60
        (codes "a2V5")
        (codes "h")
        (codes "/ws")
        none
        none
        (chunk (switching ++ blank_line ++ server_frame 2 (codes "hello")) ∷ [])
      ≡ some c)
    × (recv (λ i. 1 ∷ 2 ∷ 3 ∷ 4 ∷ []) 3 c ≡ (bytes (codes "hel"), idle c ans' (codes "lo")))
    × (bytes_of ans' ≡ [])
unfolding is_switching find_text starts_with
recv-connect_example =
    recv-connect [] (λ i. 1 ∷ 2 ∷ 3 ∷ 4 ∷ []) 60 3 2 (codes "a2V5") (codes "h") (codes "/ws") none
      none switching (codes "hello") []
      (chunk (switching ++ blank_line ++ server_frame 2 (codes "hello")) ∷ []) refl (omega arith)
      (omega arith) refl (inr refl) (omega arith) (omega arith) tt refl
