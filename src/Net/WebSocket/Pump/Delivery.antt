-- ===== src/Net/WebSocket/Pump/Delivery.antt =====
-- A frame of the server, from the socket to the parser, and a data frame to the caller of `recv`.
use gpti84_plus.Base.{
  ℕ, zero, suc, ◌+◌, ◌/◌, ◌%◌, ◌^◌, ◌≤◌, ◌<◌, ◌≡◌, ◌∙◌, refl, ap, List, [], ◌∷◌, ◌++◌, false, ◌==◌,
  leb, ltb, ltb→lt, if◌then◌else◌, length, length-append, take, drop, Bool-cases, inl, inr, arith,
}
use gpti84_plus.Base.Bytes.{Bytes}
use gpti84_plus.Net.Stream.{Answer, bytes_of}
use gpti84_plus.Net.Reader.Progress.{AllChunks}
use gpti84_plus.Net.WebSocket.{Client, FrameState, hdr2, ext16, ext64, body_state}
use gpti84_plus.Net.WebSocket.Pump.{
  progress, with_bytes, read_header, read_length, after_header, finish_frame, step_from, big_endian,
}
use gpti84_plus.Net.WebSocket.Pump.Recv.{Received, bytes, pump_loop, enough, recv}
use gpti84_plus.Net.WebSocket.Pump.Body.{Runs-body}
use gpti84_plus.Net.WebSocket.Pump.Within.{
  IsData, within, idle, finish_data, with_bytes_takes, Runs-step_from,
}

-- The length of a frame that is not masked, after RFC 6455.
abbrev pub plain_length : ℕ → Bytes
plain_length n =
    if ltb n 126
    then n ∷ []
    else if ltb n 65536
    then 126 ∷ n / 256 ∷ n % 256 ∷ []
    else 127
      ∷ n / 2 ^ 56
      ∷ n / 2 ^ 48 % 256
      ∷ n / 2 ^ 40 % 256
      ∷ n / 2 ^ 32 % 256
      ∷ n / 2 ^ 24 % 256
      ∷ n / 2 ^ 16 % 256
      ∷ n / 2 ^ 8 % 256
      ∷ n % 256
      ∷ []

-- A frame of a server: FIN and the opcode, the length, the payload.
abbrev pub server_frame : ℕ → Bytes → Bytes
server_frame opcode p = (0x80 + opcode) ∷ (plain_length (length p) ++ p)

word_value : (n : ℕ) → n < 65536 → big_endian 0 (n / 256 ∷ n % 256 ∷ []) ≡ n
word_value n lt = omega arith

long_value :
    (n : ℕ)
    → n < 2 ^ 64
    → big_endian 0 (
        n / 2 ^ 56
        ∷ n / 2 ^ 48 % 256
        ∷ n / 2 ^ 40 % 256
        ∷ n / 2 ^ 32 % 256
        ∷ n / 2 ^ 24 % 256
        ∷ n / 2 ^ 16 % 256
        ∷ n / 2 ^ 8 % 256
        ∷ n % 256
        ∷ [])
      ≡ n
long_value n lt = omega arith

module _ (masks : ℕ → Bytes) (c : Client) (P : Received × Client → Type 0) (k : ℕ) where
  -- The two bytes in front of every frame.
  Runs-header :
      (f b1 b2 : ℕ) (more : Bytes) (ans : List Answer) (next : List Answer → Client)
      → AllChunks ans
      → b2 < 128
      → bytes_of ans ≡ b1 ∷ b2 ∷ more
      → ((ans' : List Answer)
          → after_header b2 (within c ans' hdr2 b1 0 []) ≡ (progress, next ans'))
      → ((ans' : List Answer)
          → AllChunks ans'
          → bytes_of ans' ≡ more
          → P (pump_loop masks f k (next ans')))
      → P (pump_loop masks (suc f) k (idle c ans []))
  unfolding read_header
  Runs-header f b1 b2 more ans next h small e goes later =
      let (ans', ran, left, h') =
        with_bytes_takes masks c 1 read_header (b1 ∷ b2 ∷ []) more ans hdr2 0 0 [] h e refl in
      let low : b2 % 128 ≡ b2 = omega arith in
      Runs-step_from masks c P f k ans hdr2 0 0 [] (next ans')
        (ran ∙ rw (le→leb_false b2 small) (rw low (goes ans'))) (later ans' h' left)
    where
      le→leb_false : (n : ℕ) → n < 128 → leb 0x80 n ≡ false
      le→leb_false n lt = ground arith

  -- The bytes of a longer length.
  Runs-length :
      (f want b1 n : ℕ) (s : FrameState) (ext more : Bytes) (ans : List Answer)
      → ((d : Client) → step_from masks s d ≡ with_bytes (suc want) read_length d)
      → length ext ≡ suc want
      → big_endian 0 ext ≡ n
      → AllChunks ans
      → bytes_of ans ≡ ext ++ more
      → ((ans' : List Answer)
          → AllChunks ans'
          → bytes_of ans' ≡ more
          → P (pump_loop masks f k (within c ans' body_state b1 n [])))
      → P (pump_loop masks (suc f) k (within c ans s b1 0 []))
  Runs-length f want b1 n s ext more ans is_length len val h e later =
      let (ans', ran, left, h') =
        with_bytes_takes masks c want read_length ext more ans s b1 0 [] h e len in
      Runs-step_from masks c P f k ans s b1 0 [] _
        (is_length (within c ans s b1 0 [])
          ∙ ran
          ∙ ap (λ v. (progress, within c ans' body_state b1 v [])) val)
        (later ans' h' left)

  short_header :
      (n b1 : ℕ) (ans : List Answer)
      → n < 126
      → after_header n (within c ans hdr2 b1 0 []) ≡ (progress, within c ans body_state b1 n [])
  short_header n b1 ans lt = rw (ne_test n 126 lt) (rw (ne_test n 127 (omega arith)) refl)
    where
      ne_test : (n m : ℕ) → n < m → (n == m) ≡ false
      ne_test n m lt = ground arith

  -- A frame with any payload of fewer than 2 ^ 64 bytes, after which the client is `next`: what holds of
  -- the loop behind the frame holds of it in front of the frame, which takes a step for each byte of
  -- the payload and three more at most.
  pub Runs-frame :
      (opcode : ℕ) (p rest : Bytes) (next : List Answer → Client) (f g : ℕ) (ans : List Answer)
      → ((a : List Answer)
          → finish_frame masks (0x80 + opcode) p (idle c a []) ≡ (progress, next a))
      → AllChunks ans
      → bytes_of ans ≡ server_frame opcode p ++ rest
      → length p < 2 ^ 64
      → length p + 3 + g ≤ f
      → ((f' : ℕ) (a : List Answer)
          → g ≤ f'
          → AllChunks a
          → bytes_of a ≡ rest
          → P (pump_loop masks f' k (next a)))
      → P (pump_loop masks f k (idle c ans []))
  Runs-frame opcode p rest next zero g ans fin h e small le later = absurd (omega arith)
  Runs-frame opcode p rest next (suc zero) g ans fin h e small le later = absurd (omega arith)
  Runs-frame opcode p rest next (suc (suc f)) g ans fin h e small le later =
      let body = Runs-body masks c opcode p next fin P g k rest in
      elim (Bool-cases (ltb (length p) 126)) [
        | inl t ↦
            let less = ltb→lt _ _ t in
            Runs-header (suc f) (0x80 + opcode) (length p) (p ++ rest) ans
              (λ a. within c a body_state (0x80 + opcode) (length p) []) h (omega arith)
              (e ∙ rw t refl) (λ a. short_header (length p) (0x80 + opcode) a less)
              (λ a h' left. body (suc f) a h' left (omega arith) later)
        | inr t ↦ elim (Bool-cases (ltb (length p) 65536)) [
          | inl s ↦
              let ext = length p / 256 ∷ length p % 256 ∷ [] in
              Runs-header (suc f) (0x80 + opcode) 126 (ext ++ (p ++ rest)) ans
                (λ a. within c a ext16 (0x80 + opcode) 0 []) h (omega arith) (e ∙ rw t (rw s refl))
                (λ a. refl)
                (λ a h' left.
                  Runs-length f 1 (0x80 + opcode) (length p) ext16 ext (p ++ rest) a (λ d. refl)
                    refl (word_value (length p) (ltb→lt _ _ s)) h' left
                    (λ a' h'' left'. body f a' h'' left' (omega arith) later))
          | inr s ↦
              let n = length p in
              let ext =
                n / 2 ^ 56
                ∷ n / 2 ^ 48 % 256
                ∷ n / 2 ^ 40 % 256
                ∷ n / 2 ^ 32 % 256
                ∷ n / 2 ^ 24 % 256
                ∷ n / 2 ^ 16 % 256
                ∷ n / 2 ^ 8 % 256
                ∷ n % 256
                ∷ [] in
              Runs-header (suc f) (0x80 + opcode) 127 (ext ++ (p ++ rest)) ans
                (λ a. within c a ext64 (0x80 + opcode) 0 []) h (omega arith) (e ∙ rw t (rw s refl))
                (λ a. refl)
                (λ a h' left.
                  Runs-length f 7 (0x80 + opcode) n ext64 ext (p ++ rest) a (λ d. refl) refl
                    (long_value n small) h' left
                    (λ a' h'' left'. body f a' h'' left' (omega arith) later))
        ]
      ]

module _ (masks : ℕ → Bytes) (c : Client) where
  handed_out :
      (f k : ℕ) (ans : List Answer) (w : Bytes)
      → 0 < length w
      → 0 < f
      → pump_loop masks f k (idle c ans w) ≡ (bytes (take k w), idle c ans (drop k w))
  unfolding pump_loop
  handed_out zero k ans w pos some = absurd (omega arith)
  handed_out (suc f) k ans [] pos some = absurd (omega arith)
  handed_out (suc f) k ans (x ∷ w) pos some = refl

  -- The loop hands out the payload `w`, and `rest` stays in the socket.
  abbrev pub Delivered : ℕ → Bytes → Bytes → Received × Client → Type 0
  Delivered k w rest r =
      (ans : List Answer) × (r ≡ (bytes (take k w), idle c ans (drop k w)))
      × (bytes_of ans ≡ rest)
      × AllChunks ans

  pub Delivered-frame :
      (f k opcode : ℕ) (p rest : Bytes) (ans : List Answer)
      → IsData opcode
      → AllChunks ans
      → bytes_of ans ≡ server_frame opcode p ++ rest
      → 0 < length p
      → length p < 2 ^ 64
      → length p + 4 ≤ f
      → Delivered k p rest (pump_loop masks f k (idle c ans []))
  Delivered-frame f k opcode p rest ans hop h e pos small le =
      Runs-frame masks c (Delivered k p rest) k opcode p rest (λ a. idle c a p) f 1 ans
        (λ a. finish_data masks c opcode p (idle c a []) hop) h e small (omega arith)
        (λ f' a some h' left. (a, handed_out f' k a p pos (omega arith), left, h'))

  -- A text or binary frame of a server, not masked, whole and not empty, is delivered, however it is
  -- cut into chunks, by one non-blocking `recv` of an open client that is between two frames and has
  -- no bytes for the caller: the caller gets up to `k` bytes, the rest of the payload is kept for
  -- it, and what comes behind the frame stays in the socket. The payload has fewer than 2 ^ 64 bytes.
  pub recv-server_frame :
      (k opcode : ℕ) (p rest : Bytes) (ans : List Answer)
      → IsData opcode
      → AllChunks ans
      → bytes_of ans ≡ server_frame opcode p ++ rest
      → 0 < length p
      → length p < 2 ^ 64
      → (ans' : List Answer) × (recv masks k (idle c ans [])
          ≡ (bytes (take k p), idle c ans' (drop k p)))
        × (bytes_of ans' ≡ rest)
        × AllChunks ans'
  unfolding recv
  recv-server_frame k opcode p rest ans hop h e pos small =
      Delivered-frame (enough masks (idle c ans [])) k opcode p rest ans hop h e pos small (
        omega (
          arith,
          ap length e,
          length-append (server_frame opcode p) rest,
          length-append (plain_length (length p)) p,
        ))
