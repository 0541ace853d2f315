-- ===== src/Base/Text.antt =====
-- Python's text methods on lists of codes, as the program uses them.
pub mod Digits
pub mod Find
use Prim.Native.Nat.{ℕ, zero, suc, ◌+◌, ◌/◌, ◌%◌, ◌≤◌}
use gpti84_plus.Base.Tests.{◌==◌, ltb, if◌then◌else◌, ne→==_false, ltb→lt, Bool-cases}
use gpti84_plus.Base.Lists.{All, replicate}
use gpti84_plus.Base.Bytes.{Bytes}
use mathlib.Core.Bool.{Bool, true, false, ◌&&◌}
use mathlib.Core.Path.{◌≡◌, refl}
use mathlib.Core.Logic.{◌≢◌, inl, inr}
use mathlib.Core.List.{List, [], ◌∷◌, ◌++◌}
use native.Mathlib.Omega.{arith}

-- One step of `rstrip` from the right: `c` goes if nothing is left behind it.
abbrev pub strip_step : ℕ → ℕ → Bytes → Bytes
strip_step z c [] = if c == z then [] else c ∷ []
strip_step z c (d ∷ ds) = c ∷ d ∷ ds

-- `s.rstrip(z)`
unfoldable pub rstrip : ℕ → Bytes → Bytes
rstrip z [] = []
rstrip z (c ∷ cs) = strip_step z c (rstrip z cs)

pub rstrip-replicate : (z n : ℕ) → rstrip z (replicate n z) ≡ []
unfolding rstrip
rstrip-replicate z zero = refl
rstrip-replicate z (suc n) = rw (rstrip-replicate z n) (ground arith)

strip_step_keeps : (z x : ℕ) (xs : Bytes) → x ≢ z → strip_step z x xs ≡ x ∷ xs
strip_step_keeps z x [] h = ground arith
strip_step_keeps z x (y ∷ ys) h = refl

pub rstrip-append_replicate :
    (z n : ℕ) (xs : Bytes) → All (λ c. c ≢ z) xs → rstrip z (xs ++ replicate n z) ≡ xs
unfolding rstrip
rstrip-append_replicate z n [] h = rstrip-replicate z n
rstrip-append_replicate z n (x ∷ xs) (hx, h) =
    rw (rstrip-append_replicate z n xs h) (strip_step_keeps z x xs hx)

-- `s.split(z)`
unfoldable pub cons_part : ℕ → List Bytes → List Bytes
cons_part c [] = (c ∷ []) ∷ []
cons_part c (p ∷ ps) = (c ∷ p) ∷ ps

unfoldable pub split : ℕ → Bytes → List Bytes
unfolding cons_part
split z [] = [] ∷ []
split z (c ∷ cs) = if c == z then [] ∷ split z cs else cons_part c (split z cs)

-- `z.join(parts)`
unfoldable pub join : ℕ → List Bytes → Bytes
join z [] = []
join z (p ∷ []) = p
join z (p ∷ q ∷ ps) = p ++ (z ∷ join z (q ∷ ps))

-- `s.startswith(prefix)`
unfoldable pub starts_with : Bytes → Bytes → Bool
starts_with [] s = true
starts_with (p ∷ ps) [] = false
starts_with (p ∷ ps) (c ∷ cs) = c == p && starts_with ps cs

-- `str(n)`: the digits from the last one on, in front of those that are out.
pub decimal_loop : ℕ → ℕ → Bytes → Bytes
decimal_loop zero n out = out
decimal_loop (suc f) n out =
    let more = decimal_loop f (n / 10) ((b'0' + n % 10) ∷ out) in
    if ltb n 10 then (b'0' + n) ∷ out else more

unfoldable pub decimal : ℕ → Bytes
unfolding decimal_loop
decimal n = decimal_loop (suc n) n []

-- A part that does not hold the separator is split off whole.
split-append :
    (z : ℕ) (p rest : Bytes) → All (λ c. c ≢ z) p → split z (p ++ (z ∷ rest)) ≡ p ∷ split z rest
unfolding split
split-append z [] rest h = ground arith
split-append z (c ∷ p) rest (hc, h) = rw (ne→==_false c z hc, split-append z p rest h)

split_whole : (z : ℕ) (p : Bytes) → All (λ c. c ≢ z) p → split z p ≡ p ∷ []
unfolding split
split_whole z [] h = refl
split_whole z (c ∷ p) (hc, h) = rw (ne→==_false c z hc, split_whole z p h)

-- Splitting a join gives the parts back, if there is a part and none holds the separator.
pub split-join :
    (z : ℕ) (p : Bytes) (ps : List Bytes)
    → All (λ q. All (λ c. c ≢ z) q) (p ∷ ps)
    → split z (join z (p ∷ ps)) ≡ p ∷ ps
unfolding join
split-join z p [] (h, _) = split_whole z p h
split-join z p (q ∷ ps) (hp, h) = rw (split-append z p (join z (q ∷ ps)) hp, split-join z q ps h)

abbrev pub IsDigit : ℕ → Type 0
IsDigit c = b'0' ≤ c × c ≤ b'9'

decimal_loop-IsDigit :
    (f n : ℕ) (out : Bytes) → All IsDigit out → All IsDigit (decimal_loop f n out)
unfolding decimal_loop
decimal_loop-IsDigit zero n out h = h
decimal_loop-IsDigit (suc f) n out h =
    let more =
      decimal_loop-IsDigit f (n / 10) ((b'0' + n % 10) ∷ out) ((omega arith, omega arith), h) in
    elim (Bool-cases (ltb n 10)) [
      | inl e ↦ rw e ((omega arith, omega (arith, ltb→lt n 10 e)), h)
      | inr e ↦ rw e more
    ]

-- `str(n)` is made of digits.
pub decimal-IsDigit : (n : ℕ) → All IsDigit (decimal n)
unfolding decimal
decimal-IsDigit n = decimal_loop-IsDigit (suc n) n [] tt
