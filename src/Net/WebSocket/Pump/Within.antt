-- ===== src/Net/WebSocket/Pump/Within.antt =====
-- A client in the middle of a frame, and the steps of its loop.
use gpti84_plus.Base.{
  ℕ, zero, suc, ◌+◌, ◌-◌, ◌≡◌, ◌∙◌, refl, sym, ap, List, [], ◌++◌, false, length, take, drop, ◌⊎◌,
  inl, inr, arith,
}
use mathlib.Core.Path.{subst}
use gpti84_plus.Base.Bytes.{Bytes}
use gpti84_plus.Net.Stream.{Answer, fill, bytes_of}
use gpti84_plus.Net.Reader.Progress.{AllChunks, fill_takes}
use gpti84_plus.Net.WebSocket.{Client, FrameState, hdr2}
use gpti84_plus.Net.WebSocket.Pump.{
  progress, Stepped, when_filled, with_bytes, finish_frame, pump_one_step, step_from,
}
use gpti84_plus.Net.WebSocket.Pump.Recv.{Received, after_step, pump_loop}

-- A text or binary message.
abbrev pub IsData : ℕ → Type 0
IsData opcode = (opcode ≡ 1) ⊎ (opcode ≡ 2)

take_nil : (n : ℕ) → take {A = ℕ} n [] ≡ []
take_nil zero = refl
take_nil (suc n) = refl

drop_nil : (n : ℕ) → drop {A = ℕ} n [] ≡ []
drop_nil zero = refl
drop_nil (suc n) = refl

module _ (c : Client) where
  -- A client in a frame.
  abbrev pub within : List Answer → FrameState → ℕ → ℕ → Bytes → Client
  within ans state b1 n body = record c {
    wire = record c.wire { answers = ans };
    recv_buf = [];
    prepend = [];
    frame_state = state;
    frame_partial = [];
    b1 = b1;
    n = n;
    frame_body = body;
    closed = false;
  }

  -- An open client between two frames, with bytes for the caller.
  abbrev pub idle : List Answer → Bytes → Client
  idle ans buf = record c {
    wire = record c.wire { answers = ans };
    recv_buf = buf;
    prepend = [];
    frame_state = hdr2;
    frame_partial = [];
    b1 = 0;
    n = 0;
    frame_body = [];
    closed = false;
  }

module _ (masks : ℕ → Bytes) (c : Client) where
  pub with_bytes_takes :
      (want : ℕ) (f : Bytes → Client → Stepped) (first rest : Bytes) (ans : List Answer)
      (s : FrameState) (b1 n : ℕ) (body : Bytes)
      → AllChunks ans
      → bytes_of ans ≡ first ++ rest
      → length first ≡ suc want
      → (ans' : List Answer) × (with_bytes (suc want) f (within c ans s b1 n body)
          ≡ f first (within c ans' s b1 n body))
        × (bytes_of ans' ≡ rest)
        × AllChunks ans'
  unfolding with_bytes
  with_bytes_takes want f first rest ans s b1 n body h e len =
      let (ans', ran, left, h') = fill_takes (suc want) [] first rest ans h e (omega arith) len in
      let d : Client = within c ans s b1 n body in
      (
        ans',
        ap
              (λ x.
                when_filled f (record d { prepend = x })
                  (fill (suc want) (take (suc want - 0) []) ans))
              (drop_nil (suc want - 0))
            ∙ ap (λ x. when_filled f d (fill (suc want) x ans)) (take_nil (suc want - 0))
            ∙ ap (when_filled f d) ran,
        left,
        h',
      )

  one_step :
      (f k : ℕ) (ans : List Answer) (s : FrameState) (b1 n : ℕ) (body : Bytes)
      → pump_loop masks (suc f) k (within c ans s b1 n body)
        ≡ after_step masks
            (λ t. pump_loop masks f k t)
            (step_from masks s (within c ans s b1 n body))
  unfolding pump_loop pump_one_step
  one_step f k ans s b1 n body = refl

  pub finish_data :
      (opcode : ℕ) (p : Bytes) (d : Client)
      → IsData opcode
      → finish_frame masks (0x80 + opcode) p d ≡ (progress, record d { recv_buf = d.recv_buf ++ p })
  unfolding finish_frame
  finish_data opcode p d (inl e) = rw e refl
  finish_data opcode p d (inr e) = rw e refl

  -- What holds of the loop of `recv` with less fuel behind a step that makes progress holds in front
  -- of it.
  pub Runs-step_from :
      (P : Received × Client → Type 0) (f k : ℕ) (ans : List Answer) (s : FrameState) (b1 n : ℕ)
      (body : Bytes) (d : Client)
      → step_from masks s (within c ans s b1 n body) ≡ (progress, d)
      → P (pump_loop masks f k d)
      → P (pump_loop masks (suc f) k (within c ans s b1 n body))
  Runs-step_from P f k ans s b1 n body d e holds =
      subst P
        (sym (one_step f k ans s b1 n body ∙ ap (after_step masks (λ t. pump_loop masks f k t)) e))
        holds
