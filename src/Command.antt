-- ===== src/Command.antt =====
-- The command IDs of src/packet.py, and the machine ID of a computer that talks to an 83+ or 84+.
use gpti84_plus.Base.{ℕ}

abbrev pub var : ℕ
var = 0x06

abbrev pub cts : ℕ
cts = 0x09

abbrev pub data_cmd : ℕ
data_cmd = 0x15

abbrev pub ver : ℕ
ver = 0x2D

abbrev pub skip : ℕ
skip = 0x36

abbrev pub ack : ℕ
ack = 0x56

abbrev pub err : ℕ
err = 0x5A

abbrev pub rdy : ℕ
rdy = 0x68

abbrev pub scr : ℕ
scr = 0x6D

abbrev pub del : ℕ
del = 0x88

abbrev pub eot : ℕ
eot = 0x92

abbrev pub req : ℕ
req = 0xA2

abbrev pub rts : ℕ
rts = 0xC9

abbrev pub machine_id : ℕ
machine_id = 0x23
