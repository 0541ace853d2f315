-- ===== src/Tokens/Tables.antt =====
-- The tables of src/tokens.py. A dictionary is a list of pairs; the tables that helper functions
-- build are functions from the second byte.
use gpti84_plus.Base.{
  ℕ, ◌+◌, List, [], ◌∷◌, ◌++◌, Option, none, some, Bool, ◌&&◌, ◌||◌, ◌==◌, ltb, leb, if◌then◌else◌,
}
use gpti84_plus.Base.Bytes.{Bytes, codes}

-- `table.get(key)`
unfoldable pub find {ℓ} : {V : Type ℓ} → ℕ → List (ℕ × V) → Option V
find k [] = none
find k ((j, v) ∷ rest) = if j == k then some v else find k rest

abbrev pub tok_to_ascii : List (ℕ × Bytes)
tok_to_ascii =
    (0x0D, codes "^2")
    ∷ (0x0F, codes "^3")
    ∷ (0x10, codes "(")
    ∷ (0x11, codes ")")
    ∷ (0x29, codes " ")
    ∷ (0x2A, codes "\"")
    ∷ (0x2B, codes ",")
    ∷ (0x3A, codes ".")
    ∷ (0x3E, codes ":")
    ∷ (0x5B, codes "theta")
    ∷ (0x6A, codes "=")
    ∷ (0x6B, codes "<")
    ∷ (0x6C, codes ">")
    ∷ (0x70, codes "+")
    ∷ (0x71, codes "-")
    ∷ (0x82, codes "*")
    ∷ (0x83, codes "/")
    ∷ (0xAC, codes "pi")
    ∷ (0xB0, codes "-")
    ∷ (0xBC, codes "sqrt(")
    ∷ (0xBE, codes "ln(")
    ∷ (0xBF, codes "e^(")
    ∷ (0xC0, codes "log(")
    ∷ (0xC2, codes "sin(")
    ∷ (0xC4, codes "cos(")
    ∷ (0xC6, codes "tan(")
    ∷ (0xF0, codes "^")
    ∷ []

unfoldable pub is_two_byte_prefix : ℕ → Bool
is_two_byte_prefix b =
    b == 0x5C
    || b == 0x5D
    || b == 0x60
    || b == 0x61
    || b == 0xAA
    || b == 0x7E
    || b == 0xBB
    || b == 0xEF

-- Slots 0 to 8 are shown as 1 to 9, and slot 9 as 0.
unfoldable pub numbered_with_zero_last : Bytes → ℕ → Option Bytes
numbered_with_zero_last prefix i =
    if ltb i 9
    then some (prefix ++ ((b'1' + i) ∷ []))
    else if i == 9
    then some (prefix ++ (b'0' ∷ []))
    else none

unfoldable pub list_table : ℕ → Option Bytes
list_table i = if ltb i 6 then some (b'L' ∷ (b'1' + i) ∷ []) else none

unfoldable pub matrix_table : ℕ → Option Bytes
matrix_table i = if ltb i 10 then some (codes "[Mat" ++ ((b'A' + i) ∷ b']' ∷ [])) else none

-- `_TWO_BYTE_TO_ASCII.get(b)`, and the look-up of `sub` in it.
unfoldable pub two_byte_to_ascii : ℕ → ℕ → Option Bytes
unfolding list_table matrix_table numbered_with_zero_last
two_byte_to_ascii b sub =
    if b == 0x5D
    then list_table sub
    else if b == 0x5C
    then matrix_table sub
    else if b == 0x60
    then numbered_with_zero_last (codes "Pic") sub
    else if b == 0x61
    then numbered_with_zero_last (codes "GDB") sub
    else if b == 0xAA
    then numbered_with_zero_last (codes "Str") sub
    else none

abbrev pub punctuation_to_tok : List (ℕ × ℕ)
punctuation_to_tok =
    (b'(', 0x10)
    ∷ (b')', 0x11)
    ∷ (b' ', 0x29)
    ∷ (b'"', 0x2A)
    ∷ (b',', 0x2B)
    ∷ (b'.', 0x3A)
    ∷ (b':', 0x3E)
    ∷ (b'=', 0x6A)
    ∷ (b'<', 0x6B)
    ∷ (b'>', 0x6C)
    ∷ (b'+', 0x70)
    ∷ (b'-', 0x71)
    ∷ (b'*', 0x82)
    ∷ (b'/', 0x83)
    ∷ (b'^', 0xF0)
    ∷ []

abbrev pub is_upper_or_digit : ℕ → Bool
is_upper_or_digit c = (leb 0x41 c && leb c 0x5A) || (leb 0x30 c && leb c 0x39)

-- Letters and digits stand for themselves; the two parts of the table have no key in common.
unfoldable pub ascii_to_tok : ℕ → Option ℕ
unfolding find
ascii_to_tok c = if is_upper_or_digit c then some c else find c punctuation_to_tok
