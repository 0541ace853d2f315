-- ===== src/VarTypes/Tests.antt =====
-- Names and headers at concrete inputs.
use gpti84_plus.Base.{◌≡◌, refl, [], ◌∷◌, some}
use gpti84_plus.Base.Bytes.{Bytes, codes}
use gpti84_plus.VarTypes.{prog_name, all_prog_chars, is_digit, is_prog_name, is_upper}

abbrev chat_field : Bytes
chat_field = b'C' ∷ b'H' ∷ b'A' ∷ b'T' ∷ 0 ∷ 0 ∷ 0 ∷ 0 ∷ []

chat_named : prog_name (codes "CHAT") ≡ some chat_field
unfolding prog_name is_prog_name all_prog_chars is_upper is_digit
chat_named = refl
