-- ===== src/Packet/Machine.antt =====
-- The machine bytes that answer a calculator's.
use gpti84_plus.Base.{ℕ, ◌≢◌, arith}
use gpti84_plus.Base.Bytes.{IsByte}
use gpti84_plus.Packet.{pc_id_for}

pub pc_id_for-IsByte : (calc : ℕ) → IsByte (pc_id_for calc)
unfolding pc_id_for
pc_id_for-IsByte calc = ground arith

-- A computer never answers under the ID of a TI-82.
pub pc_id_for-ne_ti82 : (calc : ℕ) → pc_id_for calc ≢ 0x82
unfolding pc_id_for
pc_id_for-ne_ti82 calc = ground arith
