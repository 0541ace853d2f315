-- ===== src/VarTypes/Names.antt =====
-- The name fields of variables.
use gpti84_plus.Base.{
  ℕ, ◌+◌, ◌-◌, ◌%◌, ◌≤◌, ◌<◌, ◌≡◌, ◌≢◌, inl, inr, [], ◌∷◌, ◌++◌, none, some, true, length,
  replicate, length-append, length-replicate, All, Bool-cases, Option-cases, arith,
}
use gpti84_plus.Base.Bytes.{Bytes}
use mathlib.Core.Path.{subst}
use gpti84_plus.Base.Text.{rstrip, rstrip-append_replicate}
use gpti84_plus.VarTypes.{t_var_strng, str_index, str_name, is_prog_name, all_prog_chars, prog_name}

-- The slot of a string variable is below 10, and its digit is the slot's successor modulo 10.
str_index_digit : (n i : ℕ) → str_index n ≡ some i → (i ≤ 9) × (n ≡ (i + 1) % 10)
unfolding str_index
str_index_digit n i e = ground arith

str_index_accepts : (n : ℕ) → n ≤ 9 → str_index n ≢ none
unfolding str_index
str_index_accepts n h = ground arith

-- `str_name` accepts every digit, and the field that it builds tells which: eight bytes, of which
-- the second is the slot, and the digit is the slot's successor modulo 10.
pub str_name_slot :
    (n : ℕ)
    → n ≤ 9
    → (i : ℕ) × (str_name n ≡ some (t_var_strng ∷ i ∷ replicate 6 0)) × (i ≤ 9) × (n ≡ (i + 1) % 10)
unfolding str_name
str_name_slot n h = elim (Option-cases (str_index n)) [
  | inl e ↦ absurd (str_index_accepts n h e)
  | inr (i, e) ↦ (i, rw e, (str_index_digit n i e).0, (str_index_digit n i e).1)
]

-- What is no digit is refused.
pub str_name_refuses : (n : ℕ) → 9 < n → str_name n ≡ none
unfolding str_name str_index
str_name_refuses n h = ground arith

prog_chars-ne_zero : (name : Bytes) → all_prog_chars name ≡ true → All (λ c. c ≢ 0) name
unfolding all_prog_chars
prog_chars-ne_zero [] e = tt
prog_chars-ne_zero (c ∷ cs) e = (ground arith, prog_chars-ne_zero cs (ground arith))

padded_field :
    (name : Bytes)
    → is_prog_name name ≡ true
    → (length (name ++ replicate (8 - length name) 0) ≡ 8)
      × (rstrip 0 (name ++ replicate (8 - length name) 0) ≡ name)
unfolding is_prog_name
padded_field name ok = (
  omega (
    arith,
    short,
    length-append name (replicate (8 - length name) 0),
    length-replicate {A = ℕ} (8 - length name) 0,
  ),
  rstrip-append_replicate 0 (8 - length name) name (prog_chars-ne_zero name (ground arith)),
)
  where
    short : length name ≤ 8
    short = ground arith

-- A program name's field is eight bytes long, and the name is what is left of the field when the
-- zeros at its end are stripped: no two programs share a field.
pub prog_name_field :
    (name f : Bytes) → prog_name name ≡ some f → (length f ≡ 8) × (rstrip 0 f ≡ name)
unfolding prog_name
prog_name_field name f e = elim (Bool-cases (is_prog_name name)) [
  | inl ok ↦
      let q : name ++ replicate (8 - length name) 0 ≡ f = ground arith in
      subst (λ g. (length g ≡ 8) × (rstrip 0 g ≡ name)) q (padded_field name ok)
  | inr bad ↦ cc
]
