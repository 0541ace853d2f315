-- ===== src/Net/WebSocket/Pump.antt =====
-- The reading half of `WSClient`: the frame parser, `recv` and `close`.
pub mod Recv
pub mod Takes
pub mod Falls
pub mod Ends
pub mod Within
pub mod Body
pub mod Delivery
pub mod Controls
use gpti84_plus.Base.{
  ℕ, zero, suc, ◌+◌, ◌-◌, ◌*◌, ◌%◌, List, [], ◌∷◌, ◌++◌, Option, none, some, Bool, true, false, not,
  ◌==◌, leb, ltb, if◌then◌else◌, length, get_or, take, drop,
}
use gpti84_plus.Base.Bytes.{Bytes}
use gpti84_plus.Net.Stream.{
  Answer, chunk, nothing, os_error, is_again, Fill, filled, starved, ended, failed, fill,
}
use gpti84_plus.Net.WebSocket.{
  Wire, FrameState, hdr2, ext16, ext64, body_state, Client, write, send_message,
}

-- How a step of the parser ends; `raised` is an `OSError`.
pub data Step : Type 0 where
  progress no_data closed_by_peer raised : Step

abbrev pub Stepped : Type 0
Stepped = Step × Client

-- One read of up to `n` bytes: the bytes, no data, the end of the stream, or an error; with what is
-- left in front of the socket and in it.
pub data Once : Type 0 where
  got : Bytes → Bytes → List Answer → Once
  later : List Answer → Once
  eof : List Answer → Once
  broken : List Answer → Once

abbrev pub read_socket : ℕ → List Answer → Once
read_socket n [] = later []
read_socket n (nothing ∷ ans) = later ans
read_socket n (os_error e ∷ ans) = if is_again e then later ans else broken ans
read_socket n (chunk [] ∷ ans) = eof ans
read_socket n (chunk (c ∷ cs) ∷ ans) =
    if leb (length (c ∷ cs)) n
    then got (c ∷ cs) [] ans
    else got (take n (c ∷ cs)) [] (chunk (drop n (c ∷ cs)) ∷ ans)

pub try_read : ℕ → Bytes → List Answer → Once
try_read n [] ans = read_socket n ans
try_read n (p ∷ ps) ans = got (take n (p ∷ ps)) (drop n (p ∷ ps)) ans

abbrev put_partial : Bytes → List Answer → Client → Client
put_partial buf ans c = record c { frame_partial = buf; wire = record c.wire { answers = ans } }

-- `_try_fill` and what follows it: the whole buffer is consumed by `f`. The end of the stream closes
-- the client.
abbrev pub when_filled : (Bytes → Client → Stepped) → Client → Fill → Stepped
when_filled f c (filled buf ans) = f buf (put_partial [] ans c)
when_filled f c (starved buf ans) = (no_data, put_partial buf ans c)
when_filled f c (ended buf ans) = (closed_by_peer, record (put_partial buf ans c) { closed = true })
when_filled f c (failed buf ans) = (raised, put_partial buf ans c)

-- The bytes in front of the socket come first. They either fill the buffer or are used up.
pub with_bytes : ℕ → (Bytes → Client → Stepped) → Client → Stepped
unfolding fill
with_bytes want f c =
    let missing = want - length c.frame_partial in
    when_filled f (record c { prepend = drop missing c.prepend })
      (fill want (c.frame_partial ++ take missing c.prepend) c.wire.answers)

abbrev body_next : ℕ → Client → Stepped
body_next n c = (progress, record c { n = n; frame_body = []; frame_state = body_state })

abbrev pub after_header : ℕ → Client → Stepped
after_header n c =
    if n == 126
    then (progress, record c { frame_state = ext16 })
    else if n == 127
    then (progress, record c { frame_state = ext64 })
    else body_next n c

-- A masked frame of the server is a protocol error.
pub read_header : Bytes → Client → Stepped
read_header hdr c =
    let c' : Client = record c { b1 = get_or hdr 0 0 } in
    if leb 0x80 (get_or hdr 1 0) then (raised, c') else after_header (get_or hdr 1 0 % 128) c'

-- `struct.unpack` of big-endian numbers
abbrev pub big_endian : ℕ → Bytes → ℕ
big_endian acc [] = acc
big_endian acc (b ∷ bs) = big_endian (acc * 256 + b) bs

abbrev pub read_length : Bytes → Client → Stepped
read_length ext c = body_next (big_endian 0 ext) c

module _ (masks : ℕ → Bytes) where
  abbrev pub reset : Client → Client
  reset c = record c { frame_state = hdr2; b1 = 0; n = 0; frame_body = [] }

  abbrev pub ponged : Client → Bool × Wire → Stepped
  ponged c (true, w) = (progress, record c { wire = w })
  ponged c (false, w) = (raised, record c { wire = w })

  -- A frame that is whole: its first byte, its payload, and the client behind the reset.
  pub finish_frame : ℕ → Bytes → Client → Stepped
  unfolding send_message
  finish_frame b1 payload c =
      if not (leb 0x80 b1)
      then (raised, c)
      else if b1 % 16 == 0x9
      then ponged c (send_message masks payload 0xA c.wire)
      else if b1 % 16 == 0xA
      then (progress, c)
      else if b1 % 16 == 0x8
      then (closed_by_peer, record c { wire = (send_message masks [] 0x8 c.wire).1; closed = true })
      else if b1 % 16 == 0x1
      then (progress, record c { recv_buf = c.recv_buf ++ payload })
      else if b1 % 16 == 0x2
      then (progress, record c { recv_buf = c.recv_buf ++ payload })
      else (progress, c)

  pub body_read : Client → Once → Stepped
  unfolding finish_frame
  body_read c (later ans) = (no_data, record c { wire = record c.wire { answers = ans } })
  body_read c (eof ans) =
      (closed_by_peer, record c { wire = record c.wire { answers = ans }; closed = true })
  body_read c (broken ans) = (raised, record c { wire = record c.wire { answers = ans } })
  body_read c (got bytes prepend ans) =
      let c' : Client = record c {
        prepend = prepend;
        frame_body = c.frame_body ++ bytes;
        wire = record c.wire { answers = ans };
      } in
      if ltb (length c'.frame_body) c.n
      then (progress, c')
      else finish_frame c.b1 c'.frame_body (reset c')

  pub read_frame_body : Client → Stepped
  unfolding body_read try_read
  read_frame_body c =
      if c.n == 0
      then finish_frame c.b1 c.frame_body (reset c)
      else body_read c (try_read (c.n - length c.frame_body) c.prepend c.wire.answers)

  abbrev pub step_from : FrameState → Client → Stepped
  step_from hdr2 c = with_bytes 2 read_header c
  step_from ext16 c = with_bytes 2 read_length c
  step_from ext64 c = with_bytes 8 read_length c
  step_from body_state c = read_frame_body c

  pub pump_one_step : Client → Stepped
  unfolding with_bytes read_header read_frame_body
  pump_one_step c = step_from c.frame_state c
