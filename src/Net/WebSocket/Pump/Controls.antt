-- ===== src/Net/WebSocket/Pump/Controls.antt =====
-- Pings and pongs of the server in front of a data frame.
use gpti84_plus.Base.{
  ℕ, suc, ◌+◌, ◌*◌, ◌^◌, ◌≤◌, ◌<◌, ◌≡◌, ◌∙◌, refl, ap, List, [], ◌∷◌, ◌++◌, append_assoc, true,
  length, length-append, take, drop, All, arith,
}
use gpti84_plus.Base.Bytes.{Bytes}
use gpti84_plus.Net.Stream.{Answer, bytes_of}
use gpti84_plus.Net.Reader.Progress.{AllChunks}
use gpti84_plus.Net.WebSocket.{Client, Wire, write, message_header, apply_mask, send_message}
use gpti84_plus.Net.WebSocket.Pump.{progress, ponged, finish_frame}
use gpti84_plus.Net.WebSocket.Pump.Recv.{bytes, pump_loop, enough, recv}
use gpti84_plus.Net.WebSocket.Pump.Within.{IsData, idle}
use gpti84_plus.Net.WebSocket.Pump.Delivery.{
  plain_length, server_frame, Runs-frame, Delivered, Delivered-frame,
}

-- A control frame that does not end the connection, with its payload.
pub data Control : Type 0 where
  ping pong : Bytes → Control

abbrev opcode_of : Control → ℕ
opcode_of (ping q) = 0x9
opcode_of (pong q) = 0xA

abbrev pub payload_of : Control → Bytes
payload_of (ping q) = q
payload_of (pong q) = q

abbrev pub control_frame : Control → Bytes
control_frame x = server_frame (opcode_of x) (payload_of x)

abbrev pub control_frames : List Control → Bytes
control_frames [] = []
control_frames (x ∷ xs) = control_frame x ++ control_frames xs

abbrev body_writes : Bytes → List Bytes
body_writes [] = []
body_writes (b ∷ bs) = (b ∷ bs) ∷ []

length-plain_length : (n : ℕ) → 1 ≤ length (plain_length n)
length-plain_length n = ground arith

module _ (masks : ℕ → Bytes) where
  -- The socket behind a pong with the payload `q`, masked with the next mask.
  abbrev pub ponged_wire : Bytes → Wire → Wire
  ponged_wire q w = record w {
    written =
        w.written
        ++ ((message_header 0xA (length q) ++ masks w.drawn)
            ∷ body_writes (apply_mask (masks w.drawn) 0 q));
    drawn = suc w.drawn;
  }

  -- The client when the control frames are answered: each ping by a pong with its payload.
  abbrev pub after_control : Client → Control → Client
  after_control c (ping q) = record c { wire = ponged_wire q c.wire }
  after_control c (pong q) = c

  abbrev pub after_controls : Client → List Control → Client
  after_controls c [] = c
  after_controls c (x ∷ xs) = after_controls (after_control c x) xs

  pong_sent :
      (q : Bytes) (w : Wire) → w.raises ≡ [] → send_message masks q 0xA w ≡ (true, ponged_wire q w)
  unfolding send_message write apply_mask
  pong_sent [] w quiet = rw quiet refl
  pong_sent (b ∷ q) w quiet =
      let head = message_header 0xA (length (b ∷ q)) ++ masks w.drawn in
      let masked = apply_mask (masks w.drawn) 0 (b ∷ q) in
      rw quiet (
        ap (λ l. (true, record w { raises = []; written = l; drawn = suc w.drawn }))
          (append_assoc w.written (head ∷ []) (masked ∷ [])))

  finish_control :
      (c : Client) (ans : List Answer) (x : Control)
      → c.wire.raises ≡ []
      → finish_frame masks (0x80 + opcode_of x) (payload_of x) (idle c ans [])
        ≡ (progress, idle (after_control c x) ans [])
  unfolding finish_frame
  finish_control c ans (ping q) quiet =
      ap (ponged masks (idle c ans [])) (pong_sent q (record c.wire { answers = ans }) quiet)
  finish_control c ans (pong q) quiet = refl

  still_quiet :
      (c : Client) (x : Control) → c.wire.raises ≡ [] → (after_control c x).wire.raises ≡ []
  still_quiet c (ping q) quiet = quiet
  still_quiet c (pong q) quiet = quiet

  abbrev steps : List Control → Bytes → ℕ
  steps [] p = length p + 4
  steps (x ∷ xs) p = length (payload_of x) + 3 + steps xs p

  Delivered-controls :
      (xs : List Control) (c : Client) (f k opcode : ℕ) (p rest : Bytes) (ans : List Answer)
      → c.wire.raises ≡ []
      → IsData opcode
      → AllChunks ans
      → bytes_of ans ≡ control_frames xs ++ (server_frame opcode p ++ rest)
      → All (λ x. length (payload_of x) < 2 ^ 64) xs
      → 0 < length p
      → length p < 2 ^ 64
      → steps xs p ≤ f
      → Delivered masks (after_controls c xs) k p rest (pump_loop masks f k (idle c ans []))
  Delivered-controls [] c f k opcode p rest ans quiet hop h e hx pos small le =
      Delivered-frame masks c f k opcode p rest ans hop h e pos small le
  Delivered-controls (x ∷ xs) c f k opcode p rest ans quiet hop h e (fits, hx) pos small le =
      let behind = control_frames xs ++ (server_frame opcode p ++ rest) in
      Runs-frame masks c (Delivered masks (after_controls c (x ∷ xs)) k p rest) k (opcode_of x)
        (payload_of x) behind (λ a. idle (after_control c x) a []) f (steps xs p) ans
        (λ a. finish_control c a x quiet) h
        (e ∙ append_assoc (control_frame x) (control_frames xs) (server_frame opcode p ++ rest))
        fits (omega arith)
        (λ f' a le' h' left.
          Delivered-controls xs (after_control c x) f' k opcode p rest a (still_quiet c x quiet) hop
            h' left hx pos small le')

  controls_counted :
      (xs : List Control) (p tail : Bytes)
      → length p + 2 ≤ length tail
      → steps xs p ≤ 2 * length (control_frames xs ++ tail) + 3
  controls_counted [] p tail le = omega arith
  controls_counted (x ∷ xs) p tail le =
      let later = controls_counted xs p tail le in
      omega (
        arith,
        later,
        length-append (control_frame x ++ control_frames xs) tail,
        length-append (control_frame x) (control_frames xs),
        length-append (control_frames xs) tail,
        length-append (plain_length (length (payload_of x))) (payload_of x),
        length-plain_length (length (payload_of x)),
      )

  -- Pings and pongs may come in front of a data frame: one non-blocking `recv` of an open client that
  -- is between two frames and has no bytes for the caller passes over them all, answers each ping by a
  -- pong with the same payload under the next mask, and in order, and hands out up to `k` bytes of the
  -- data, which is not empty. The rest of its payload is kept for the caller, what comes behind the
  -- frame stays in the socket, and the frames may be cut into any chunks. No write raises an error, no
  -- frame of the server is masked, and every payload has fewer than 2 ^ 64 bytes.
  pub recv-after_controls :
      (xs : List Control) (c : Client) (k opcode : ℕ) (p rest : Bytes) (ans : List Answer)
      → c.wire.raises ≡ []
      → IsData opcode
      → AllChunks ans
      → bytes_of ans ≡ control_frames xs ++ (server_frame opcode p ++ rest)
      → All (λ x. length (payload_of x) < 2 ^ 64) xs
      → 0 < length p
      → length p < 2 ^ 64
      → (ans' : List Answer) × (recv masks k (idle c ans [])
          ≡ (bytes (take k p), idle (after_controls c xs) ans' (drop k p)))
        × (bytes_of ans' ≡ rest)
        × AllChunks ans'
  unfolding recv
  recv-after_controls xs c k opcode p rest ans quiet hop h e hx pos small =
      Delivered-controls xs c (enough masks (idle c ans [])) k opcode p rest ans quiet hop h e hx
        pos small
        (omega (
          arith,
          ap length e,
          controls_counted xs p (server_frame opcode p ++ rest) (
              omega (
                arith,
                length-append (server_frame opcode p) rest,
                length-append (plain_length (length p)) p,
                length-plain_length (length p),
              )),
        ))
