-- ===== src/Net/Framing.antt =====
-- Length-prefixed frames: `struct.pack(">I", n)` in front of the payload.
use gpti84_plus.Base.{
  ℕ, ◌+◌, ◌*◌, ◌/◌, ◌%◌, ◌≡◌, ◌<◌, [], ◌∷◌, ◌++◌, Option, none, some, length, ltb, if◌then◌else◌,
  get_or, arith,
}
use gpti84_plus.Base.Bytes.{Bytes}

-- `struct.pack(">I", n)`, for `n` below 2 ^ 32; above it raises an error.
abbrev pub be32 : ℕ → Bytes
be32 n = n / 16777216 % 256 ∷ n / 65536 % 256 ∷ n / 256 % 256 ∷ n % 256 ∷ []

-- `struct.unpack(">I", b)` of four bytes
abbrev pub from_be32 : Bytes → ℕ
from_be32 b = get_or b 0 0 * 16777216 + get_or b 1 0 * 65536 + get_or b 2 0 * 256 + get_or b 3 0

-- The two `sendall` calls of `send_framed`; `none` is the `struct.error`.
pub send_framed : Bytes → Option (Bytes × Bytes)
send_framed payload =
    if ltb (length payload) 4294967296 then some (be32 (length payload), payload) else none

-- What they put on a plain socket.
abbrev pub framed : Bytes → Bytes
framed payload = be32 (length payload) ++ payload

pub from_be32-be32 : (n : ℕ) → n < 4294967296 → from_be32 (be32 n) ≡ n
from_be32-be32 n lt = omega arith
