-- ===== src/VarTypes.antt =====
-- src/vartypes.py: names and headers of variables. A `ValueError` is `none`.
pub mod Names
pub mod Header
pub mod Real
mod Tests
use gpti84_plus.Base.{
  ℕ, zero, suc, ◌+◌, ◌-◌, ◌*◌, ◌%◌, take, ◌≡◌, List, [], ◌∷◌, ◌++◌, Option, none, some, Bool, true,
  false, not, ◌&&◌, ◌||◌, ◌==◌, leb, if◌then◌else◌, length, replicate,
}
use gpti84_plus.Base.Bytes.{Bytes, lo_byte, hi_byte}
use gpti84_plus.Base.Text.{decimal}

abbrev pub t_real : ℕ
t_real = 0x00

abbrev pub t_list : ℕ
t_list = 0x01

abbrev pub t_string : ℕ
t_string = 0x04

abbrev pub t_prog : ℕ
t_prog = 0x05

abbrev pub t_prog_locked : ℕ
t_prog_locked = 0x06

abbrev pub t_var_strng : ℕ
t_var_strng = 0xAA

-- The slot of the string variable with a given digit: 1 to 9, and 0 behind them.
unfoldable pub str_index : ℕ → Option ℕ
str_index n =
    if n == 1
    then some 0
    else if n == 2
    then some 1
    else if n == 3
    then some 2
    else if n == 4
    then some 3
    else if n == 5
    then some 4
    else if n == 6
    then some 5
    else if n == 7
    then some 6
    else if n == 8
    then some 7
    else if n == 9
    then some 8
    else if n == 0
    then some 9
    else none

unfoldable pub str_field : Option ℕ → Option Bytes
str_field none = none
str_field (some i) = some (t_var_strng ∷ i ∷ replicate 6 0)

unfoldable pub str_name : ℕ → Option Bytes
unfolding str_index str_field
str_name n = str_field (str_index n)

-- `bytes` raises on an index above 255.
pub list_name_82 : ℕ → Option Bytes
list_name_82 idx = if leb idx 255 then some (0x5D ∷ idx ∷ replicate 6 0) else none

unfoldable pub is_upper : ℕ → Bool
is_upper c = leb b'A' c && leb c b'Z'

unfoldable pub is_digit : ℕ → Bool
is_digit c = leb b'0' c && leb c b'9'

-- A letter is a text of one character.
unfoldable pub real_name : Bytes → Option Bytes
unfolding is_upper
real_name (c ∷ []) = if is_upper c then some (c ∷ replicate 7 0) else none
real_name _ = none

-- No character outside `A..Z` and `0..9`.
unfoldable pub all_prog_chars : Bytes → Bool
unfolding is_upper is_digit
all_prog_chars [] = true
all_prog_chars (c ∷ cs) = (is_upper c || is_digit c) && all_prog_chars cs

unfoldable pub is_prog_name : Bytes → Bool
unfolding all_prog_chars
is_prog_name name = leb 1 (length name) && leb (length name) 8 && all_prog_chars name

unfoldable pub prog_name : Bytes → Option Bytes
unfolding is_prog_name
prog_name name = if is_prog_name name then some (name ++ replicate (8 - length name) 0) else none

-- The header in the data field of REQ, VAR, RTS and DEL packets.
unfoldable pub make_var_header : ℕ → ℕ → Bytes → ℕ → Option Bytes
make_var_header size type_id name8 proto =
    let base = lo_byte size ∷ hi_byte size ∷ type_id ∷ name8 in
    if length name8 == 8
    then (if proto == 82 then some base else some (base ++ (0 ∷ 0 ∷ [])))
    else none

-- The nibbles of pairs of digits.
pub bcd : Bytes → Bytes
bcd [] = []
bcd (hi ∷ []) = []
bcd (hi ∷ lo ∷ rest) = ((hi - b'0') * 16 + (lo - b'0')) ∷ bcd rest

-- `encode_real` of a natural number below 10 ^ 14: `"{:.13e}"` then shows its digits, filled up to
-- 14 with zeros, and one less than their number as the exponent.
unfoldable pub encode_natural : ℕ → Bytes
unfolding bcd decimal
encode_natural n =
    if n == 0
    then 0 ∷ 0x80 ∷ replicate 7 0
    else 0
      ∷ (length (decimal n) - 1 + 0x80) % 256
      ∷ bcd (take 14 (decimal n ++ replicate (14 - length (decimal n)) b'0'))

abbrev pub encode_naturals : List ℕ → Bytes
encode_naturals [] = []
encode_naturals (v ∷ vs) = encode_natural v ++ encode_naturals vs

-- `encode_real_list`
unfoldable pub encode_natural_list : List ℕ → Bytes
encode_natural_list values =
    lo_byte (length values) ∷ hi_byte (length values) ∷ encode_naturals values
