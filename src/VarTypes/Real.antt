-- ===== src/VarTypes/Real.antt =====
-- src/vartypes.py: what the bytes of a real number say, and its text. An index out of range is
-- `none`. The variants that compute a float are not modelled.
pub mod RoundTrip
pub mod Lists
mod Tests
use gpti84_plus.Base.{
  ℕ, zero, suc, ◌+◌, ◌-◌, ◌*◌, ◌/◌, ◌%◌, List, [], ◌∷◌, ◌++◌, Option, none, some, Bool, true, false,
  ◌&&◌, ◌==◌, leb, ltb, if◌then◌else◌, length, take, drop, replicate,
}
use gpti84_plus.Base.Bytes.{Bytes, codes, word}
use gpti84_plus.Base.Text.{decimal, rstrip}

-- An integer by its sign and its size; `minus` has a size of one at least.
pub data Exponent : Type 0 where
  plus minus : ℕ → Exponent

-- The sign is negative or not, for -1 and 1.
pub record Parts : Type 0 where
  pub negative : Bool
  pub exp : Exponent
  pub digits : ℕ

abbrev pub exponent : ℕ → Exponent
exponent b = if leb 0x80 b then plus (b - 0x80) else minus (0x80 - b)

-- The loop over the seven bytes with two digits each.
pub parse_digits : ℕ → Bytes → ℕ
parse_digits n [] = n
parse_digits n (b ∷ bs) = parse_digits (n * 100 + b / 16 * 10 + b % 16) bs

pub parse_real_parts : Bytes → Option Parts
unfolding parse_digits
parse_real_parts (s ∷ e ∷ rest) =
    if ltb (length rest) 7
    then none
    else some
        (record { negative = leb 0x80 s; exp = exponent e; digits = parse_digits 0 (take 7 rest) })
parse_real_parts _ = none

-- `"{:014d}".format(n)`
abbrev pub padded : ℕ → Bytes
padded n = replicate (14 - length (decimal n)) b'0' ++ decimal n

-- `s.rstrip("0") or "0"`
abbrev pub or_zero : Bytes → Bytes
or_zero [] = codes "0"
or_zero (c ∷ cs) = c ∷ cs

abbrev pub signed : Exponent → Bytes
signed (plus e) = decimal e
signed (minus k) = codes "-" ++ decimal k

-- `s[0] + ("." + s[1:] if len(s) > 1 else "") + "e" + str(exp)`
abbrev pub scientific : Exponent → Bytes → Bytes
scientific e [] = []
scientific e (c ∷ []) = c ∷ (codes "e" ++ signed e)
scientific e (c ∷ d ∷ ds) = c ∷ (codes "." ++ (d ∷ ds) ++ codes "e" ++ signed e)

pub layout : Exponent → Bytes → Bytes
layout (plus e) s =
    if ltb e 14 && leb (length s) (e + 1)
    then s ++ replicate (e + 1 - length s) b'0'
    else if ltb e 14
    then take (e + 1) s ++ codes "." ++ drop (e + 1) s
    else scientific (plus e) s
layout (minus k) s =
    if ltb k 5 then codes "0." ++ replicate (k - 1) b'0' ++ s else scientific (minus k) s

abbrev pub shown : Parts → Bytes
shown p =
    let body = layout p.exp (or_zero (rstrip b'0' (padded p.digits))) in
    if p.digits == 0 then codes "0" else if p.negative then codes "-" ++ body else body

abbrev pub shown_parts : Option Parts → Option Bytes
shown_parts none = none
shown_parts (some p) = some (shown p)

pub parse_real_str : Bytes → Option Bytes
unfolding parse_real_parts layout
parse_real_str b = shown_parts (parse_real_parts b)

abbrev pub and_rest : Option Bytes → Option (List Bytes) → Option (List Bytes)
and_rest (some s) (some out) = some (s ∷ out)
and_rest _ _ = none

-- `data[2 + i * 9 : 2 + (i + 1) * 9]` for each `i`
pub parse_reals : ℕ → Bytes → Option (List Bytes)
unfolding parse_real_str
parse_reals zero b = some []
parse_reals (suc n) b = and_rest (parse_real_str (take 9 b)) (parse_reals n (drop 9 b))

pub parse_real_list_str : Bytes → Option (List Bytes)
unfolding parse_reals
parse_real_list_str (lo ∷ hi ∷ rest) = parse_reals (word lo hi) rest
parse_real_list_str _ = none
