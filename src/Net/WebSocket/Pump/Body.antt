-- ===== src/Net/WebSocket/Pump/Body.antt =====
-- The body of a frame, in the parser of `WSClient` and the loop of `recv`.
use gpti84_plus.Base.{
  ℕ, zero, suc, ◌+◌, ◌-◌, ◌≤◌, ◌<◌, ◌≡◌, ◌∙◌, refl, sym, ap, List, [], ◌∷◌, ◌++◌, append-nil,
  append_assoc, true, false, ◌⊎◌, ◌==◌, leb, ltb, le→leb, ltb_false→le, le→ltb_false, lt→ltb,
  ltb→lt, length, length-append, drop, take-append, drop-append, Bool-cases, inl, inr, get_or,
  arith,
}
use mathlib.Core.Path.{subst}
use gpti84_plus.Base.Bytes.{Bytes}
use gpti84_plus.Net.Stream.{Answer, chunk, nothing, os_error, bytes_of}
use gpti84_plus.Net.Reader.Progress.{AllChunks}
use gpti84_plus.Net.WebSocket.{Client, body_state}
use gpti84_plus.Net.WebSocket.Pump.{
  progress, got, read_socket, try_read, finish_frame, body_read, read_frame_body,
}
use gpti84_plus.Net.WebSocket.Pump.Recv.{Received, pump_loop}
use gpti84_plus.Net.WebSocket.Pump.Within.{within, idle, Runs-step_from}

-- Of two ways to cut a list, the one with the shorter front.
cut :
    (a b u v : Bytes)
    → a ++ b ≡ u ++ v
    → length a ≤ length u
    → (m : Bytes) × (u ≡ a ++ m) × (b ≡ m ++ v)
cut [] b u v e le = (u, refl, e)
cut (x ∷ a) b [] v e le = absurd (omega arith)
cut (x ∷ a) b (y ∷ u) v e le =
    let (m, eu, eb) = cut a b u v (ap (drop 1) e) (omega arith) in
    (m, ap (λ h. h ∷ u) (sym (ap (λ l. get_or l 0 0) e)) ∙ ap (λ t. x ∷ t) eu, eb)

empty_or : (u : Bytes) → (u ≡ []) ⊎ (0 < length u)
empty_or [] = inl refl
empty_or (x ∷ u) = inr (omega arith)

-- What is left of the chunk that ended the body.
abbrev put_back : Bytes → List Answer → List Answer
put_back [] ans = ans
put_back (x ∷ xs) ans = chunk (x ∷ xs) ∷ ans

put_back-AllChunks : (s : Bytes) (ans : List Answer) → AllChunks ans → AllChunks (put_back s ans)
put_back-AllChunks [] ans h = h
put_back-AllChunks (x ∷ xs) ans h = h

bytes_of-put_back : (s : Bytes) (ans : List Answer) → bytes_of (put_back s ans) ≡ s ++ bytes_of ans
bytes_of-put_back [] ans = refl
bytes_of-put_back (x ∷ xs) ans = refl

-- A frame with the payload `w`, after which the client is `next`.
module _ (masks : ℕ → Bytes) (c : Client) (opcode : ℕ) (w : Bytes) (next : List Answer → Client)
    (fin : (ans : List Answer)
      → finish_frame masks (0x80 + opcode) w (idle c ans []) ≡ (progress, next ans)) where
  -- The body, of which `q` has been read.
  abbrev in_body : List Answer → Bytes → Client
  in_body ans q = within c ans body_state (0x80 + opcode) (length w) q

  not_zero : (n : ℕ) → 0 < n → (n == 0) ≡ false
  not_zero n pos = ground arith

  parts : (q r : Bytes) → q ++ r ≡ w → length w ≡ length q + length r
  parts q r e = sym (ap length e) ∙ length-append q r

  -- A step in a body that has bytes to come.
  body_step :
      (q r : Bytes) (ans : List Answer)
      → q ++ r ≡ w
      → 0 < length r
      → read_frame_body masks (in_body ans q)
        ≡ body_read masks (in_body ans q) (read_socket (length r) ans)
  unfolding read_frame_body try_read
  body_step q r ans e pos =
      let size = parts q r e in
      let awaited : length w - length q ≡ length r = omega (arith, size) in
      rw (not_zero (length w) (omega (arith, size))) (rw awaited refl)

  -- A chunk that is all wanted, and not enough.
  part_step :
      (b : ℕ) (bs q m : Bytes) (ans : List Answer)
      → q ++ ((b ∷ bs) ++ m) ≡ w
      → 0 < length m
      → read_frame_body masks (in_body (chunk (b ∷ bs) ∷ ans) q)
        ≡ (progress, in_body ans (q ++ (b ∷ bs)))
  unfolding body_read
  part_step b bs q m ans e pos =
      let size = parts q ((b ∷ bs) ++ m) e in
      let more = length-append (b ∷ bs) m in
      body_step q ((b ∷ bs) ++ m) (chunk (b ∷ bs) ∷ ans) e (omega arith)
      ∙ rw (le→leb (length (b ∷ bs)) (length ((b ∷ bs) ++ m)) (omega (arith, more))) (
          rw
            (lt→ltb (length (q ++ (b ∷ bs))) (length w)
              (omega (arith, length-append q (b ∷ bs), size, more)))
            refl)

  whole_body :
      (q r : Bytes) (old ans : List Answer)
      → q ++ r ≡ w
      → body_read masks (in_body old q) (got r [] ans) ≡ (progress, next ans)
  unfolding body_read
  whole_body q r old ans e = rw e (rw (le→ltb_false (length w) (length w) (omega arith)) (fin ans))

  -- The chunk that ends the body.
  last_step :
      (b : ℕ) (bs s q : Bytes) (ans : List Answer)
      → q ++ (b ∷ bs) ≡ w
      → read_frame_body masks (in_body (chunk ((b ∷ bs) ++ s) ∷ ans) q)
        ≡ (progress, next (put_back s ans))
  last_step b bs [] q ans e =
      let old : List Answer = chunk ((b ∷ bs) ++ []) ∷ ans in
      let all : (b ∷ bs) ++ [] ≡ b ∷ bs = append-nil (b ∷ bs) in
      body_step q (b ∷ bs) old e (omega arith)
      ∙ ap (body_read masks (in_body old q)) (
          rw (le→leb (length ((b ∷ bs) ++ [])) (length (b ∷ bs)) (omega (arith, ap length all)))
            (ap (λ x. got x [] ans) all))
      ∙ whole_body q (b ∷ bs) old ans e
  last_step b bs (x ∷ xs) q ans e =
      let old : List Answer = chunk ((b ∷ bs) ++ (x ∷ xs)) ∷ ans in
      body_step q (b ∷ bs) old e (omega arith)
      ∙ ap (body_read masks (in_body old q)) (
          rw
            (lt→leb_false (length ((b ∷ bs) ++ (x ∷ xs))) (length (b ∷ bs))
              (omega (arith, length-append (b ∷ bs) (x ∷ xs))))
            (ap (λ u. got u [] (chunk (drop (length (b ∷ bs)) ((b ∷ bs) ++ (x ∷ xs))) ∷ ans))
                (take-append (b ∷ bs) (x ∷ xs))
              ∙ ap (λ v. got (b ∷ bs) [] (chunk v ∷ ans)) (drop-append (b ∷ bs) (x ∷ xs))))
      ∙ whole_body q (b ∷ bs) old (chunk (x ∷ xs) ∷ ans) e
    where
      lt→leb_false : (m n : ℕ) → n < m → leb m n ≡ false
      lt→leb_false m n lt = ground arith

  -- A body without bytes.
  empty_step :
      (ans : List Answer) → w ≡ [] → read_frame_body masks (in_body ans []) ≡ (progress, next ans)
  unfolding read_frame_body
  empty_step ans e =
      let none_left : (length w == 0) ≡ true = ap (λ u. length u == 0) e in
      rw none_left
        (ap (λ u. finish_frame masks (0x80 + opcode) u (idle c ans [])) (sym e) ∙ fin ans)

  module _ (P : Received × Client → Type 0) (g k : ℕ) (rest : Bytes) where
    -- What is to hold of the loop behind the frame.
    abbrev pub Behind : Type 0
    Behind =
        (f : ℕ) (ans : List Answer)
        → g ≤ f
        → AllChunks ans
        → bytes_of ans ≡ rest
        → P (pump_loop masks f k (next ans))

    body_last :
        (f b : ℕ) (bs s q : Bytes) (ans : List Answer)
        → q ++ (b ∷ bs) ≡ w
        → AllChunks ans
        → s ++ bytes_of ans ≡ rest
        → g ≤ f
        → Behind
        → P (pump_loop masks (suc f) k (in_body (chunk ((b ∷ bs) ++ s) ∷ ans) q))
    body_last f b bs s q ans e h left le later =
        Runs-step_from masks c P f k (chunk ((b ∷ bs) ++ s) ∷ ans) body_state (0x80 + opcode)
          (length w) q _ (last_step b bs s q ans e)
          (later f (put_back s ans) le (put_back-AllChunks s ans h)
            (bytes_of-put_back s ans ∙ left))

    body_rest :
        (f : ℕ) (q r : Bytes) (ans : List Answer)
        → AllChunks ans
        → bytes_of ans ≡ r ++ rest
        → q ++ r ≡ w
        → 0 < length r
        → length r + g ≤ f
        → Behind
        → P (pump_loop masks f k (in_body ans q))
    body_rest zero q r ans h e eq pos le later = absurd (omega arith)
    body_rest (suc f) q r [] h e eq pos le later =
        absurd (omega (arith, ap length e, length-append r rest))
    body_rest (suc f) q r (chunk [] ∷ ans) h e eq pos le later = elim h [ ]
    body_rest (suc f) q r (nothing ∷ ans) h e eq pos le later = elim h [ ]
    body_rest (suc f) q r (os_error x ∷ ans) h e eq pos le later = elim h [ ]
    body_rest (suc f) q [] (chunk (b ∷ bs) ∷ ans) h e eq pos le later = absurd (omega arith)
    body_rest (suc f) q (y ∷ r) (chunk (b ∷ bs) ∷ ans) h e eq pos le later =
        elim (Bool-cases (ltb (length (b ∷ bs)) (length (y ∷ r)))) [
          | inl t ↦
              let less = ltb→lt _ _ t in
              let (m, er, left) = cut (b ∷ bs) (bytes_of ans) (y ∷ r) rest e (omega arith) in
              let size = ap length er ∙ length-append (b ∷ bs) m in
              let eq' = ap (λ u. q ++ u) (sym er) ∙ eq in
              Runs-step_from masks c P f k (chunk (b ∷ bs) ∷ ans) body_state (0x80 + opcode)
                (length w) q _ (part_step b bs q m ans eq' (omega (arith, size)))
                (body_rest f (q ++ (b ∷ bs)) m ans h left (append_assoc q (b ∷ bs) m ∙ eq')
                  (omega (arith, size)) (omega (arith, size)) later)
          | inr t ↦
              let (m, er, left) =
                cut (y ∷ r) rest (b ∷ bs) (bytes_of ans) (sym e) (ltb_false→le _ _ t) in
              subst (λ x. P (pump_loop masks (suc f) k (in_body (chunk x ∷ ans) q))) (sym er)
                (body_last f y r m q ans eq h (sym left) (omega arith) later)
        ]

    -- The whole body takes a step for each of its bytes at most, and one if it has none.
    pub Runs-body :
        (f : ℕ) (ans : List Answer)
        → AllChunks ans
        → bytes_of ans ≡ w ++ rest
        → suc (length w + g) ≤ f
        → Behind
        → P (pump_loop masks f k (in_body ans []))
    Runs-body zero ans h e le later = absurd (omega arith)
    Runs-body (suc f) ans h e le later = elim (empty_or w) [
      | inl none_left ↦
          Runs-step_from masks c P f k ans body_state (0x80 + opcode) (length w) [] _
            (empty_step ans none_left)
            (later f ans (omega arith) h (e ∙ ap (λ u. u ++ rest) none_left))
      | inr pos ↦ body_rest (suc f) [] w ans h e refl pos (omega arith) later
    ]
