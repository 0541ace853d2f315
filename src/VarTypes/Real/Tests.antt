-- ===== src/VarTypes/Real/Tests.antt =====
-- Texts of concrete numbers.
use gpti84_plus.Base.{◌≡◌, refl, [], ◌∷◌, some}
use gpti84_plus.Base.Bytes.{codes}
use gpti84_plus.Base.Text.{rstrip, decimal}
use gpti84_plus.VarTypes.Real.{parse_real_str, parse_real_parts, parse_digits, layout}

-- -12.5, 0.025 and 3e20
minus_shown :
    parse_real_str (0x80 ∷ 0x81 ∷ 0x12 ∷ 0x50 ∷ 0 ∷ 0 ∷ 0 ∷ 0 ∷ 0 ∷ []) ≡ some (codes "-12.5")
unfolding parse_real_str parse_real_parts parse_digits layout rstrip decimal
minus_shown = refl

small_shown : parse_real_str (0 ∷ 0x7E ∷ 0x25 ∷ 0 ∷ 0 ∷ 0 ∷ 0 ∷ 0 ∷ 0 ∷ []) ≡ some (codes "0.025")
unfolding parse_real_str parse_real_parts parse_digits layout rstrip decimal
small_shown = refl

large_shown : parse_real_str (0 ∷ 0x94 ∷ 0x30 ∷ 0 ∷ 0 ∷ 0 ∷ 0 ∷ 0 ∷ 0 ∷ []) ≡ some (codes "3e20")
unfolding parse_real_str parse_real_parts parse_digits layout rstrip decimal
large_shown = refl
