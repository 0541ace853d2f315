-- ===== src/Base/Text/Digits.antt =====
-- The digits of a number, their value, and the zeros at their end.
use Prim.Native.Nat.{ℕ, zero, suc, ◌+◌, ◌-◌, ◌*◌, ◌/◌, ◌%◌, ◌≤◌, ◌<◌}
use gpti84_plus.Base.Tests.{◌==◌, ltb, ==_iff, lt→ltb, le→ltb_false, ltb_false→le, Bool-cases}
use gpti84_plus.Base.Lists.{length, replicate}
use gpti84_plus.Base.Bytes.{Bytes}
use gpti84_plus.Base.Text.{decimal_loop, decimal, rstrip, rstrip-replicate, strip_step}
use mathlib.Core.Bool.{false}
use mathlib.Core.Path.{◌≡◌, refl, sym, ap, ◌∙◌}
use mathlib.Core.Logic.{inl, inr}
use mathlib.Core.List.{[], ◌∷◌, ◌++◌, append-nil, append_assoc}
use native.Mathlib.Nat.{mul_assoc, mul_comm, suc-mul}
use native.Mathlib.Omega.{arith}

-- The number that digits make behind those that were read.
abbrev pub digits_value : ℕ → Bytes → ℕ
digits_value n [] = n
digits_value n (c ∷ cs) = digits_value (n * 10 + (c - b'0')) cs

-- A power of ten.
abbrev pub tens : ℕ → ℕ
tens zero = 1
tens (suc k) = tens k * 10

loop-append : (f n : ℕ) (xs ys : Bytes) → decimal_loop f n (xs ++ ys) ≡ decimal_loop f n xs ++ ys
unfolding decimal_loop
loop-append zero n xs ys = refl
loop-append (suc f) n xs ys = ground (arith, loop-append f (n / 10) ((b'0' + n % 10) ∷ xs) ys)

loop_fuel : (f g n : ℕ) (out : Bytes) → n < f → n < g → decimal_loop f n out ≡ decimal_loop g n out
unfolding decimal_loop
loop_fuel zero g n out h h' = absurd (omega arith)
loop_fuel (suc f) zero n out h h' = absurd (omega arith)
loop_fuel (suc f) (suc g) n out h h' = elim (Bool-cases (ltb n 10)) [
  | inl e ↦ rw e refl
  | inr e ↦
      let ge = ltb_false→le n 10 e in
      rw e (loop_fuel f g (n / 10) ((b'0' + n % 10) ∷ out) (omega arith) (omega arith))
]

-- A digit more.
pub decimal_step :
    (n d : ℕ) → 0 < n → d < 10 → decimal (n * 10 + d) ≡ decimal n ++ ((b'0' + d) ∷ [])
unfolding decimal decimal_loop
decimal_step n d pos small =
    let large : ltb (n * 10 + d) 10 ≡ false = le→ltb_false (n * 10 + d) 10 (omega arith) in
    let front : (n * 10 + d) / 10 ≡ n = omega arith in
    let back : (n * 10 + d) % 10 ≡ d = omega arith in
    rw large (
      rw front (
        rw back (
          loop_fuel (n * 10 + d) (suc n) n ((b'0' + d) ∷ []) (omega arith) (omega arith)
          ∙ loop-append (suc n) n [] ((b'0' + d) ∷ []))))

loop_value :
    (f n : ℕ) (out : Bytes) → n < f → digits_value 0 (decimal_loop f n out) ≡ digits_value n out
unfolding decimal_loop
loop_value zero n out h = absurd (omega arith)
loop_value (suc f) n out h = elim (Bool-cases (ltb n 10)) [
  | inl e ↦
      let same : 0 * 10 + (b'0' + n - b'0') ≡ n = omega arith in
      rw e (ap (λ k. digits_value k out) same)
  | inr e ↦
      let ge = ltb_false→le n 10 e in
      let same : n / 10 * 10 + (b'0' + n % 10 - b'0') ≡ n = omega arith in
      rw e (
        loop_value f (n / 10) ((b'0' + n % 10) ∷ out) (omega arith)
        ∙ ap (λ k. digits_value k out) same)
]

pub digits_value-decimal : (n : ℕ) → digits_value 0 (decimal n) ≡ n
unfolding decimal
digits_value-decimal n = loop_value (suc n) n [] (omega arith)

pub digits_value-append :
    (n : ℕ) (xs ys : Bytes) → digits_value n (xs ++ ys) ≡ digits_value (digits_value n xs) ys
digits_value-append n [] ys = refl
digits_value-append n (x ∷ xs) ys = digits_value-append (n * 10 + (x - b'0')) xs ys

-- Digits of zero at the end.
pub digits_value-replicate : (n k : ℕ) → digits_value n (replicate k b'0') ≡ n * tens k
digits_value-replicate n zero = omega arith
digits_value-replicate n (suc k) =
    let first : n * 10 + 0 ≡ n * 10 = omega arith in
    ap (λ m. digits_value m (replicate k b'0')) first
    ∙ digits_value-replicate (n * 10) k
    ∙ mul_assoc n 10 (tens k)
    ∙ ap (λ m. n * m) (mul_comm 10 (tens k))

replicate_snoc : (k : ℕ) (c : ℕ) → replicate k c ++ (c ∷ []) ≡ c ∷ replicate k c
replicate_snoc zero c = refl
replicate_snoc (suc k) c = ap (λ l. c ∷ l) (replicate_snoc k c)

pub tens_pos : (k : ℕ) → 0 < tens k
tens_pos zero = omega arith
tens_pos (suc k) = omega (arith, tens_pos k)

pub product_pos : (n m : ℕ) → 0 < n → 0 < m → 0 < n * m
product_pos zero m h h' = absurd (omega arith)
product_pos (suc n) m h h' = omega (arith, suc-mul n m)

pub decimal-tens : (n k : ℕ) → 0 < n → decimal (n * tens k) ≡ decimal n ++ replicate k b'0'
decimal-tens n zero pos =
    let one : n * 1 ≡ n = omega arith in ap decimal one ∙ sym (append-nil (decimal n))
decimal-tens n (suc k) pos =
    let next : n * (tens k * 10) ≡ n * tens k * 10 + 0 = omega (arith, mul_assoc n (tens k) 10) in
    ap decimal next
    ∙ decimal_step (n * tens k) 0 (product_pos n (tens k) pos (tens_pos k)) (omega arith)
    ∙ ap (λ l. l ++ (b'0' ∷ [])) (decimal-tens n k pos)
    ∙ append_assoc (decimal n) (replicate k b'0') (b'0' ∷ [])
    ∙ ap (λ l. decimal n ++ l) (replicate_snoc k b'0')

loop_length :
    (f n k : ℕ) (out : Bytes)
    → n < tens (suc k)
    → length (decimal_loop f n out) ≤ suc k + length out
unfolding decimal_loop
loop_length zero n k out h = omega arith
loop_length (suc f) n zero out h = rw (lt→ltb n 10 (omega arith)) (omega arith)
loop_length (suc f) n (suc k) out h =
    let more = loop_length f (n / 10) k ((b'0' + n % 10) ∷ out) (omega arith) in
    ground (arith, more)

pub length-decimal : (n k : ℕ) → n < tens (suc k) → length (decimal n) ≤ suc k
unfolding decimal
length-decimal n k h = omega (arith, loop_length (suc n) n k [] h)

pub rstrip_le : (z : ℕ) (xs : Bytes) → length (rstrip z xs) ≤ length xs
unfolding rstrip
rstrip_le z [] = omega arith
rstrip_le z (x ∷ xs) = step_le x (rstrip z xs) (rstrip_le z xs)
  where
    step_le :
        (x : ℕ) (r : Bytes) → length r ≤ length xs → length (strip_step z x r) ≤ suc (length xs)
    step_le x [] h = ground arith
    step_le x (y ∷ r) h = omega arith

-- What `rstrip` takes away is put back.
pub rstrip_back :
    (z : ℕ) (xs : Bytes) → rstrip z xs ++ replicate (length xs - length (rstrip z xs)) z ≡ xs
unfolding rstrip
rstrip_back z [] = refl
rstrip_back z (x ∷ xs) = step_back x (rstrip z xs) (rstrip_back z xs)
  where
    step_back :
        (x : ℕ) (r : Bytes)
        → r ++ replicate (length xs - length r) z ≡ xs
        → strip_step z x r ++ replicate (suc (length xs) - length (strip_step z x r)) z ≡ x ∷ xs
    step_back x [] h = elim (Bool-cases (x == z)) [
      | inl e ↦
          let count : suc (length xs) - 0 ≡ suc (length xs - 0) = omega arith in
          rw e (
            ap (λ k. replicate k z) count
            ∙ ap (λ l. z ∷ l) h
            ∙ ap (λ c. c ∷ xs) (sym ((==_iff x z).0 e)))
      | inr e ↦
          let count : suc (length xs) - 1 ≡ length xs - 0 = omega arith in
          rw e (ap (λ k. x ∷ replicate k z) count ∙ ap (λ l. x ∷ l) h)
    ]
    step_back x (y ∷ r) h =
        (let count : suc (length xs) - suc (suc (length r)) ≡ length xs - suc (length r) =
            omega arith in
          ap (λ k. x ∷ y ∷ (r ++ replicate k z)) count ∙ ap (λ l. x ∷ l) h)

pub rstrip-append : (z n : ℕ) (xs : Bytes) → rstrip z (xs ++ replicate n z) ≡ rstrip z xs
unfolding rstrip
rstrip-append z n [] = rstrip-replicate z n
rstrip-append z n (x ∷ xs) = ap (strip_step z x) (rstrip-append z n xs)
