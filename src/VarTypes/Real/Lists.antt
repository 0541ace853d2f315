-- ===== src/VarTypes/Real/Lists.antt =====
-- A list of numbers that is encoded and read back as texts.
use gpti84_plus.Base.{ℕ, ◌<◌}

abbrev pub IsSmall : ℕ → Type 0
IsSmall n = n < 100000000000000
