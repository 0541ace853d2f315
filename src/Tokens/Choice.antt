-- ===== src/Tokens/Choice.antt =====
-- What holds of every piece of a table, and of every branch of a choice, holds of what they yield.
use gpti84_plus.Base.{
  ℕ, ◌≡◌, refl, List, [], ◌∷◌, Option, none, some, Bool, true, false, ◌==◌, if◌then◌else◌, All,
  Bool-cases, inl, inr,
}
use mathlib.Core.Path.{subst}
use mathlib.Core.Option.{some-injective}
use gpti84_plus.Base.Bytes.{Bytes}
use gpti84_plus.Tokens.Tables.{find}

pub find-All :
    {V : Type 0} (P : V → Type 0) (k : ℕ) (table : List (ℕ × V)) {v : V}
    → All (λ e. P e.1) table
    → find k table ≡ some v
    → P v
unfolding find
find-All P k [] h e = cc
find-All P k ((j, w) ∷ rest) {v} (hw, h) e = elim (Bool-cases (j == k)) [
  | inl same ↦ subst P (some-injective w v (rw same at e)) hw
  | inr other ↦ find-All P k rest h (rw other at e)
]

module _ (P : Bytes → Type 0) where
  -- A choice that yields a piece yields it by one of its branches.
  pub piece_if :
      (b : Bool) (x : Bytes) (o : Option Bytes) {v : Bytes}
      → (b ≡ true → P x)
      → (o ≡ some v → P v)
      → (if b then some x else o) ≡ some v
      → P v
  piece_if true x o {v} h k e = subst P (some-injective x v e) (h refl)
  piece_if false x o h k e = k e

  pub piece_or :
      (b : Bool) (p o : Option Bytes) {v : Bytes}
      → (p ≡ some v → P v)
      → (o ≡ some v → P v)
      → (if b then p else o) ≡ some v
      → P v
  piece_or true p o h k e = h e
  piece_or false p o h k e = k e

  pub no_piece : {v : Bytes} → none ≡ some v → P v
  no_piece e = cc
