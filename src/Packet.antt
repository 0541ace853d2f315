-- ===== src/Packet.antt =====
-- src/packet.py: the framing of DBUS packets over the bytes of the wire. Log output and the
-- optional gap between sent bytes are not modelled.
pub mod Machine
pub mod Checksum
pub mod Waiting
mod Tests
pub mod Receive
pub mod Send
use gpti84_plus.Base.{
  ℕ, zero, suc, ◌+◌, ◌%◌, List, [], ◌∷◌, ◌++◌, Option, none, some, Bool, true, false, not, ◌||◌,
  ◌==◌, if◌then◌else◌, length,
}
use gpti84_plus.Base.Bytes.{Bytes, lo_byte, hi_byte, word}
use gpti84_plus.Command
use gpti84_plus.Link.{Io, pure, give_up, continue, ◌>>=◌, ◌>>◌, attempt}
use gpti84_plus.Wire.{recv_byte, send_byte}

-- The machine byte that answers a calculator's.
unfoldable pub pc_id_for : ℕ → ℕ
pc_id_for calc_id =
    if calc_id == 0x82
    then 0x02
    else if calc_id == 0x83
    then 0x03
    else if calc_id == 0x73
    then 0x23
    else if calc_id == 0x86
    then 0x06
    else if calc_id == 0x88
    then 0x08
    else if calc_id == 0x98
    then 0x88
    else 0x23

-- `s = (s + b) & 0xFFFF` over the bytes.
sum_bytes : ℕ → Bytes → ℕ
sum_bytes s [] = s
sum_bytes s (b ∷ bs) = sum_bytes ((s + b) % 65536) bs

unfoldable pub checksum : Bytes → ℕ
unfolding sum_bytes
checksum bs = sum_bytes 0 bs

-- The header, and behind it the body with its checksum, if there is a body.
unfoldable pub packet_bytes : ℕ → Bytes → ℕ → Bytes
packet_bytes cmd [] machine = machine ∷ cmd ∷ 0 ∷ 0 ∷ []
packet_bytes cmd (b ∷ bs) machine =
    let n = length (b ∷ bs) in
    let cs = checksum (b ∷ bs) in
    machine ∷ cmd ∷ lo_byte n ∷ hi_byte n ∷ ((b ∷ bs) ++ (lo_byte cs ∷ hi_byte cs ∷ []))

pub send_bytes : Bytes → Io (Unit {0})
send_bytes [] = pure tt
send_bytes (b ∷ bs) = do send_byte b; send_bytes bs

pub send_packet : ℕ → Bytes → ℕ → Io (Unit {0})
unfolding send_bytes
send_packet cmd bs machine = send_bytes (packet_bytes cmd bs machine)

pub record Packet : Type 0 where
  pub machine : ℕ
  pub cmd : ℕ
  pub body : Bytes

-- The commands whose packet is the header alone, whatever its length field says.
unfoldable pub is_header_only : ℕ → Bool
is_header_only cmd =
    cmd == Command.cts
    || cmd == Command.ack
    || cmd == Command.err
    || cmd == Command.rdy
    || cmd == Command.scr
    || cmd == Command.eot
    || cmd == Command.ver

-- `for _ in range(n)`, with `out` read so far.
recv_data : ℕ → Bytes → Io Bytes
recv_data zero out = pure out
recv_data (suc n) out = do b ← recv_byte; recv_data n (out ++ (b ∷ []))

-- Both bytes are read before either is tested.
both : Option ℕ → Option ℕ → Io ℕ
both (some lo) (some hi) = pure (word lo hi)
both _ _ = give_up

recv_checksum : Io ℕ
unfolding both
recv_checksum = do lo ← attempt recv_byte; hi ← attempt recv_byte; both lo hi

-- The body, and whether its checksum is the announced one.
recv_body : ℕ → Io (Bytes × Bool)
unfolding recv_data recv_checksum
recv_body zero = pure ([], true)
recv_body (suc n) = do bs ← recv_data (suc n) []; got ← recv_checksum; pure (bs, got == checksum bs)

-- A checksum that differs is only printed: the packet is returned all the same.
recv_rest : ℕ → ℕ → ℕ → Io Packet
unfolding recv_body is_header_only
recv_rest machine cmd n =
    if is_header_only cmd
    then pure (record { machine = machine; cmd = cmd; body = [] })
    else do checked ← recv_body n; pure (record { machine = machine; cmd = cmd; body = checked.0 })

pub recv_packet : Io Packet
unfolding recv_rest
recv_packet = do
  machine ← recv_byte
  cmd ← recv_byte
  lo ← recv_byte
  hi ← recv_byte
  recv_rest machine cmd (word lo hi)
