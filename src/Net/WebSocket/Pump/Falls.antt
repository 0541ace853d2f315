-- ===== src/Net/WebSocket/Pump/Falls.antt =====
-- A step of the parser after which it goes on takes a byte, or it ends a frame.
use gpti84_plus.Base.{
  ℕ, ◌+◌, ◌-◌, ◌*◌, ◌%◌, ◌≤◌, ◌<◌, ◌≡◌, refl, sym, ◌++◌, Bool, true, false, ◌==◌, leb, ltb, ltb→lt,
  length, length-append, length-take, length-drop, take, drop, Bool-cases, inl, inr, get_or, arith,
}
use mathlib.Core.Path.{subst}
use gpti84_plus.Base.Bytes.{Bytes}
use gpti84_plus.Net.Stream.{Fill, filled, starved, ended, failed, fill, bytes_of}
use gpti84_plus.Net.WebSocket.{
  Client, Wire, FrameState, hdr2, ext16, ext64, body_state, send_message,
}
use gpti84_plus.Net.WebSocket.Writes.{send_message-answers}
use gpti84_plus.Net.WebSocket.Pump.{
  progress, no_data, closed_by_peer, raised, Stepped, Once, got, later, eof, broken, try_read,
  when_filled, with_bytes, read_header, read_length, finish_frame, body_read, read_frame_body,
  pump_one_step, after_header, step_from, reset, ponged,
}
use gpti84_plus.Net.WebSocket.Pump.Recv.{available}
use gpti84_plus.Net.WebSocket.Pump.Takes.{TakesFill, fill-TakesFill, TakesOnce, try_read-TakesOnce}

-- The bytes to come count twice, a body that is awaited once.
abbrev pub weight : FrameState → ℕ
weight hdr2 = 0
weight ext16 = 0
weight ext64 = 0
weight body_state = 1

module _ (masks : ℕ → Bytes) where
  abbrev pub cost : Client → ℕ
  cost c = 2 * available masks c + weight c.frame_state

  -- A step after which the parser goes on has a smaller cost than `n`.
  abbrev pub Falls : ℕ → Stepped → Type 0
  Falls n (progress, c) = cost c < n
  Falls n (no_data, c) = Unit {0}
  Falls n (closed_by_peer, c) = Unit {0}
  Falls n (raised, c) = Unit {0}

  body_next-Falls :
      (n k : ℕ) (c : Client) → 2 * available masks c + 1 < n → Falls n (after_header k c)
  body_next-Falls n k c lt = elim (Bool-cases (k == 126)) [
    | inl e ↦ rw e (omega arith)
    | inr e ↦
        rw e
          (elim (Bool-cases (k == 127)) [ inl s ↦ rw s (omega arith) | inr s ↦ rw s (omega arith) ])
  ]

  read_header-Falls :
      (n : ℕ) (hdr : Bytes) (c : Client)
      → 2 * available masks c + 1 < n
      → Falls n (read_header hdr c)
  unfolding read_header
  read_header-Falls n hdr c lt = elim (Bool-cases (leb 0x80 (get_or hdr 1 0))) [
    | inl e ↦ rw e tt
    | inr e ↦ rw e (body_next-Falls n (get_or hdr 1 0 % 128) (record c { b1 = get_or hdr 0 0 }) lt)
  ]

  read_length-Falls :
      (n : ℕ) (ext : Bytes) (c : Client)
      → 2 * available masks c + 1 < n
      → Falls n (read_length ext c)
  read_length-Falls n ext c lt = lt

  when_filled-Falls :
      (n want total : ℕ) (f : Bytes → Client → Stepped) (c : Client) (s : Fill)
      → TakesFill want total s
      → ((b : Bytes) (d : Client) → 2 * available masks d + 1 < n → Falls n (f b d))
      → 2 * (length c.prepend + total) + 1 < n + 2 * want
      → Falls n (when_filled f c s)
  when_filled-Falls n want total f c (filled b ans) (le, e) step lt = step b _ (omega arith)
  when_filled-Falls n want total f c (starved b ans) t step lt = tt
  when_filled-Falls n want total f c (ended b ans) t step lt = tt
  when_filled-Falls n want total f c (failed b ans) t step lt = tt

  with_bytes-Falls :
      (want : ℕ) (f : Bytes → Client → Stepped) (c : Client)
      → 0 < want
      → ((n : ℕ) (b : Bytes) (d : Client) → 2 * available masks d + 1 < n → Falls n (f b d))
      → Falls (2 * available masks c) (with_bytes want f c)
  unfolding with_bytes
  with_bytes-Falls want f c pos step =
      let missing = want - length c.frame_partial in
      let buf = c.frame_partial ++ take missing c.prepend in
      when_filled-Falls (2 * available masks c) want (length buf + length (bytes_of c.wire.answers))
        f (record c { prepend = drop missing c.prepend }) (fill want buf c.wire.answers)
        (fill-TakesFill want buf c.wire.answers) (step (2 * available masks c))
        (omega (
          arith,
          length-append c.frame_partial (take missing c.prepend),
          length-take missing c.prepend,
          length-drop missing c.prepend,
        ))

  ponged-Falls :
      (n : ℕ) (c : Client) (r : Bool × Wire)
      → r.1.answers ≡ c.wire.answers
      → cost c < n
      → Falls n (ponged masks c r)
  ponged-Falls n c (true, w) e lt =
      subst
        (λ a.
          2 * (length c.frame_partial + (length c.prepend + length (bytes_of a)))
            + weight c.frame_state
          < n)
        (sym e) lt
  ponged-Falls n c (false, w) e lt = tt

  finish_frame-Falls :
      (n b1 : ℕ) (p : Bytes) (c : Client) → cost c < n → Falls n (finish_frame masks b1 p c)
  unfolding finish_frame
  finish_frame-Falls n b1 p c lt = elim (Bool-cases (leb 0x80 b1)) [
    | inr e ↦ rw e tt
    | inl e ↦ rw e (elim (Bool-cases (b1 % 16 == 0x9)) [
      | inl k ↦ rw k (
          ponged-Falls n c (send_message masks p 0xA c.wire)
            (send_message-answers masks p 0xA c.wire) lt)
      | inr k ↦ rw k (elim (Bool-cases (b1 % 16 == 0xA)) [
        | inl a ↦ rw a lt
        | inr a ↦ rw a (elim (Bool-cases (b1 % 16 == 0x8)) [
          | inl q ↦ rw q tt
          | inr q ↦ rw q (elim (Bool-cases (b1 % 16 == 0x1)) [
            | inl x ↦ rw x lt
            | inr x ↦
                rw x (elim (Bool-cases (b1 % 16 == 0x2)) [ inl y ↦ rw y lt | inr y ↦ rw y lt ])
          ])
        ])
      ])
    ])
  ]

  body_read-Falls :
      (c : Client) (o : Once)
      → c.frame_state ≡ body_state
      → TakesOnce
          (c.n - length c.frame_body)
          (length c.prepend + length (bytes_of c.wire.answers))
          o
      → Falls (cost c) (body_read masks c o)
  unfolding body_read
  body_read-Falls c (later ans) s t = tt
  body_read-Falls c (eof ans) s t = tt
  body_read-Falls c (broken ans) s t = tt
  body_read-Falls c (got b p ans) s (e, pos) =
      elim (Bool-cases (ltb (length (c.frame_body ++ b)) c.n)) [
        | inl k ↦
            let lt = ltb→lt _ _ k in rw k (rw s (omega (arith, length-append c.frame_body b, pos)))
        | inr k ↦ rw k (rw s (finish_frame-Falls _ c.b1 (c.frame_body ++ b) _ (omega arith)))
      ]

  read_frame_body-Falls :
      (c : Client) → c.frame_state ≡ body_state → Falls (cost c) (read_frame_body masks c)
  unfolding read_frame_body
  read_frame_body-Falls c s = elim (Bool-cases (c.n == 0)) [
    | inl e ↦ rw e (rw s (finish_frame-Falls _ c.b1 c.frame_body (reset masks c) (omega arith)))
    | inr e ↦ rw e (
        body_read-Falls c (try_read (c.n - length c.frame_body) c.prepend c.wire.answers) s
          (try_read-TakesOnce (c.n - length c.frame_body) c.prepend c.wire.answers))
  ]

  Falls-more : (m n : ℕ) (r : Stepped) → m ≤ n → Falls m r → Falls n r
  Falls-more m n (progress, c) le lt = omega arith
  Falls-more m n (no_data, c) le t = tt
  Falls-more m n (closed_by_peer, c) le t = tt
  Falls-more m n (raised, c) le t = tt

  step_from-Falls :
      (s : FrameState) (c : Client) → c.frame_state ≡ s → Falls (cost c) (step_from masks s c)
  step_from-Falls hdr2 c e =
      Falls-more (2 * available masks c) (cost c) (step_from masks hdr2 c) (omega arith)
        (with_bytes-Falls 2 read_header c (omega arith) read_header-Falls)
  step_from-Falls ext16 c e =
      Falls-more (2 * available masks c) (cost c) (step_from masks ext16 c) (omega arith)
        (with_bytes-Falls 2 read_length c (omega arith) read_length-Falls)
  step_from-Falls ext64 c e =
      Falls-more (2 * available masks c) (cost c) (step_from masks ext64 c) (omega arith)
        (with_bytes-Falls 8 read_length c (omega arith) read_length-Falls)
  step_from-Falls body_state c e = read_frame_body-Falls c e

  pub pump_one_step-Falls : (c : Client) → Falls (cost c) (pump_one_step masks c)
  unfolding pump_one_step
  pump_one_step-Falls c = step_from-Falls c.frame_state c refl
