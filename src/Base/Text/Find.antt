-- ===== src/Base/Text/Find.antt =====
-- `s in text` and `text.index(s)`.
use Prim.Native.Nat.{ℕ, suc, ◌+◌, ◌≤◌}
use gpti84_plus.Base.Tests.{◌==◌, if◌then◌else◌, both, Bool-cases}
use gpti84_plus.Base.Lists.{length}
use gpti84_plus.Base.Bytes.{Bytes}
use gpti84_plus.Base.Text.{starts_with}
use mathlib.Core.Bool.{Bool, true, false, true≢false}
use mathlib.Core.Option.{Option, none, some, some-injective}
use mathlib.Core.Path.{◌≡◌, refl, sym, ap, ◌∙◌}
use mathlib.Core.Logic.{inl, inr}
use mathlib.Core.List.{[], ◌∷◌, ◌++◌}
use native.Mathlib.Omega.{arith}

abbrev pub one_later : Option ℕ → Option ℕ
one_later none = none
one_later (some k) = some (suc k)

-- Where `s` begins first.
unfoldable pub find_text : Bytes → Bytes → Option ℕ
find_text s [] = if starts_with s [] then some 0 else none
find_text s (c ∷ cs) = if starts_with s (c ∷ cs) then some 0 else one_later (find_text s cs)

starts_with-append : (s xs ys : Bytes) → starts_with s xs ≡ true → starts_with s (xs ++ ys) ≡ true
unfolding starts_with
starts_with-append [] xs ys h = refl
starts_with-append (a ∷ s) [] ys h = cc
starts_with-append (a ∷ s) (x ∷ xs) ys h =
    let (same, rest) = both (x == a) (starts_with s xs) h in
    rw same (starts_with-append s xs ys rest)

starts_with_front :
    (s xs ys : Bytes)
    → length s ≤ length xs
    → starts_with s (xs ++ ys) ≡ true
    → starts_with s xs ≡ true
unfolding starts_with
starts_with_front [] xs ys le h = refl
starts_with_front (a ∷ s) [] ys le h = absurd (omega arith)
starts_with_front (a ∷ s) (x ∷ xs) ys le h =
    let (same, rest) = both (x == a) (starts_with s (xs ++ ys)) h in
    rw same (starts_with_front s xs ys (omega arith) rest)

starts_with_le : (s xs : Bytes) → starts_with s xs ≡ true → length s ≤ length xs
unfolding starts_with
starts_with_le [] xs h = omega arith
starts_with_le (a ∷ s) [] h = cc
starts_with_le (a ∷ s) (x ∷ xs) h =
    omega (arith, starts_with_le s xs (both (x == a) (starts_with s xs) h).1)

le_step :
    (b : Bool) (o : Option ℕ) (k l m : ℕ)
    → (b ≡ true → l ≤ suc m)
    → ((j : ℕ) → o ≡ some j → j + l ≤ m)
    → (if b then some 0 else one_later o) ≡ some k
    → k + l ≤ suc m
le_step true o k l m here later h = omega (arith, here refl, some-injective _ _ h)
le_step false none k l m here later h = cc
le_step false (some j) k l m here later h = omega (arith, later j refl, some-injective _ _ h)

-- A text that is found ends within the other.
pub find_text_le :
    (a : ℕ) (s xs : Bytes) (k : ℕ) → find_text (a ∷ s) xs ≡ some k → k + length (a ∷ s) ≤ length xs
unfolding find_text starts_with
find_text_le a s [] k h = cc
find_text_le a s (c ∷ cs) k h =
    le_step (starts_with (a ∷ s) (c ∷ cs)) (find_text (a ∷ s) cs) k (length (a ∷ s)) (length cs)
      (starts_with_le (a ∷ s) (c ∷ cs)) (λ j e. find_text_le a s cs j e) h

append_step :
    (b b' : Bool) (o o' : Option ℕ) (k : ℕ)
    → (b ≡ true → b' ≡ true)
    → ((j : ℕ) → b ≡ false → o ≡ some j → (b' ≡ false) × (o' ≡ some j))
    → (if b then some 0 else one_later o) ≡ some k
    → (if b' then some 0 else one_later o') ≡ some k
append_step true b' o o' k here later h = rw (here refl) h
append_step false b' none o' k here later h = cc
append_step false b' (some j) o' k here later h =
    let (miss, found) = later j refl refl in rw miss (ap one_later found ∙ h)

-- What is found is found in any longer text, and at the same place.
pub find_text-append :
    (a : ℕ) (s xs ys : Bytes) (k : ℕ)
    → find_text (a ∷ s) xs ≡ some k
    → find_text (a ∷ s) (xs ++ ys) ≡ some k
unfolding find_text starts_with
find_text-append a s [] ys k h = cc
find_text-append a s (c ∷ cs) ys k h =
    append_step (starts_with (a ∷ s) (c ∷ cs)) (starts_with (a ∷ s) (c ∷ (cs ++ ys)))
      (find_text (a ∷ s) cs) (find_text (a ∷ s) (cs ++ ys)) k
      (starts_with-append (a ∷ s) (c ∷ cs) ys)
      (λ j miss e. (not_sooner j miss e, find_text-append a s cs ys j e)) h
  where
    not_sooner :
        (j : ℕ)
        → starts_with (a ∷ s) (c ∷ cs) ≡ false
        → find_text (a ∷ s) cs ≡ some j
        → starts_with (a ∷ s) (c ∷ (cs ++ ys)) ≡ false
    not_sooner j miss e = elim (Bool-cases (starts_with (a ∷ s) (c ∷ (cs ++ ys)))) [
      | inl match ↦ absurd (
          true≢false (
            sym
              (starts_with_front (a ∷ s) (c ∷ cs) ys (omega (arith, find_text_le a s cs j e)) match)
            ∙ miss))
      | inr n ↦ n
    ]
