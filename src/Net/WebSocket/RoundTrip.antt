-- ===== src/Net/WebSocket/RoundTrip.antt =====
-- What a server reads from the bytes that a `WSClient` writes.
use gpti84_plus.Base.{ℕ, ◌%◌, ◌^◌, ◌≡◌, ◌<◌, ◌∙◌, ap, List, [], ◌∷◌, ◌++◌, length, All, arith}
use gpti84_plus.Base.Bytes.{Bytes, IsByte}
use gpti84_plus.Net.Stream.{Answer}
use gpti84_plus.Net.WebSocket.{Wire, send_message}
use gpti84_plus.Net.WebSocket.Unmask.{server_reads, message, concat_all, server_reads-message}
use gpti84_plus.Net.WebSocket.Coalesce.{sound, send_message-message}

-- What `_make_mask` returns: four bytes.
abbrev pub IsMask : Bytes → Type 0
IsMask m = (length m ≡ 4) × All IsByte m

-- All that was written, in order.
abbrev pub on_wire : Wire → Bytes
on_wire w = concat_all w.written

read_message :
    (opcode : ℕ) (mask p rest : Bytes)
    → length mask ≡ 4
    → All IsByte mask
    → All IsByte p
    → length p < 2 ^ 64
    → server_reads (concat_all (message opcode mask p) ++ rest) ≡ ((opcode % 16, p), rest)
read_message opcode (m0 ∷ m1 ∷ m2 ∷ m3 ∷ []) p rest len hm hp lt =
    server_reads-message opcode m0 m1 m2 m3 p rest hm hp lt
read_message opcode [] p rest len hm hp lt = absurd (omega arith)
read_message opcode (m0 ∷ []) p rest len hm hp lt = absurd (omega arith)
read_message opcode (m0 ∷ m1 ∷ []) p rest len hm hp lt = absurd (omega arith)
read_message opcode (m0 ∷ m1 ∷ m2 ∷ []) p rest len hm hp lt = absurd (omega arith)
read_message opcode (m0 ∷ m1 ∷ m2 ∷ m3 ∷ m4 ∷ ms) p rest len hm hp lt = absurd (omega arith)

module _ (masks : ℕ → Bytes) (answers : List Answer) (drawn : ℕ) where
  -- A server that reads frames as RFC 6455 says gets the opcode and the payload of a message from
  -- the bytes that `_send_message` writes, and is left with what comes behind them, if the mask has
  -- four bytes and the payload fewer than 2 ^ 64.
  pub server_reads-send_message :
      (opcode : ℕ) (p rest : Bytes)
      → IsMask (masks drawn)
      → All IsByte p
      → length p < 2 ^ 64
      → server_reads (on_wire (send_message masks p opcode (sound answers [] drawn)).1 ++ rest)
        ≡ ((opcode % 16, p), rest)
  server_reads-send_message opcode p rest (len, hm) hp lt =
      ap (λ r. server_reads (on_wire r.1 ++ rest))
        (send_message-message masks answers [] drawn p opcode)
      ∙ read_message opcode (masks drawn) p rest len hm hp lt
