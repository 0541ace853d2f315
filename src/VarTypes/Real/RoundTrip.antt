-- ===== src/VarTypes/Real/RoundTrip.antt =====
-- A number that is encoded and read back as a text.
use mathlib.Core.Path.{subst}
use gpti84_plus.Base.{
  ℕ, zero, suc, ◌+◌, ◌-◌, ◌*◌, ◌/◌, ◌%◌, ◌≤◌, ◌<◌, [], ◌∷◌, ◌++◌, ◌≡◌, ◌≢◌, ◌∙◌, refl, ap, some,
  false, leb, le→leb, lt→ltb, le→ltb_false, ne→==_false, length, length-append, length-replicate,
  take, take-le, replicate, All, All-append, arith,
}
use gpti84_plus.Base.Bytes.{Bytes}
use gpti84_plus.Base.Text.{decimal, rstrip, IsDigit, decimal-IsDigit}
use gpti84_plus.Base.Text.Digits.{
  digits_value, tens, digits_value-decimal, digits_value-append, digits_value-replicate, tens_pos,
  product_pos, decimal-tens, length-decimal, rstrip_le, rstrip_back, rstrip-append,
}
use gpti84_plus.VarTypes.{bcd, encode_natural}
use gpti84_plus.VarTypes.Real.{
  plus, Parts, exponent, parse_digits, parse_real_parts, padded, or_zero, layout, shown,
  shown_parts, parse_real_str,
}

parse_digits-bcd :
    (n k : ℕ) (xs : Bytes)
    → All IsDigit xs
    → length xs ≡ 2 * k
    → parse_digits n (bcd xs) ≡ digits_value n xs
unfolding parse_digits bcd
parse_digits-bcd n k [] h e = refl
parse_digits-bcd n k (x ∷ []) h e = absurd (omega arith)
parse_digits-bcd n k (x ∷ y ∷ xs) (hx, (hy, h)) e =
    let same : n * 100
          + ((x - b'0') * 16 + (y - b'0')) / 16 * 10
          + ((x - b'0') * 16 + (y - b'0')) % 16
        ≡ (n * 10 + (x - b'0')) * 10 + (y - b'0') =
      omega arith in
    ap (λ m. parse_digits m (bcd xs)) same
    ∙ parse_digits-bcd ((n * 10 + (x - b'0')) * 10 + (y - b'0')) (k - 1) xs h (omega arith)

length-bcd : (k : ℕ) (xs : Bytes) → length xs ≡ 2 * k → length (bcd xs) ≡ k
unfolding bcd
length-bcd k [] e = omega arith
length-bcd k (x ∷ []) e = absurd (omega arith)
length-bcd k (x ∷ y ∷ xs) e = omega (arith, length-bcd (k - 1) xs (omega arith))

zeros_digits : (k : ℕ) → All IsDigit (replicate k b'0')
zeros_digits zero = tt
zeros_digits (suc k) = ((omega arith, omega arith), zeros_digits k)

exponent_of : (l : ℕ) → l < 14 → exponent ((l + 0x80) % 256) ≡ plus l
exponent_of l h =
    let small : (l + 0x80) % 256 ≡ l + 0x80 = omega arith in
    let back : l + 0x80 - 0x80 ≡ l = omega arith in
    ap exponent small ∙ rw (le→leb 0x80 (l + 0x80) (omega arith)) (ap (λ e. plus e) back)

parts_of :
    (s e : ℕ) (rest : Bytes)
    → length rest ≡ 7
    → parse_real_parts (s ∷ e ∷ rest)
      ≡ some (record { negative = leb 0x80 s; exp = exponent e; digits = parse_digits 0 rest })
unfolding parse_real_parts
parts_of s e rest h = rw (le→ltb_false (length rest) 7 (omega arith)) (
    ap (λ l. some (record { negative = leb 0x80 s; exp = exponent e; digits = parse_digits 0 l }))
      (take-le 7 rest (omega arith)))

layout_whole :
    (l : ℕ) (r : Bytes)
    → l < 14
    → length r ≤ l + 1
    → layout (plus l) r ≡ r ++ replicate (l + 1 - length r) b'0'
unfolding layout
layout_whole l r h h' = rw (lt→ltb l 14 h, le→leb (length r) (l + 1) h') refl

shown_whole :
    (l d : ℕ) (r : Bytes)
    → d ≢ 0
    → or_zero (rstrip b'0' (padded d)) ≡ r
    → l < 14
    → length r ≤ l + 1
    → shown (record { negative = false; exp = plus l; digits = d })
      ≡ r ++ replicate (l + 1 - length r) b'0'
shown_whole l d r h e h' h'' =
    rw (ne→==_false d 0 h) (ap (layout (plus l)) e ∙ layout_whole l r h' h'')

module _ (n : ℕ) (pos : 0 < n) (small : n < 100000000000000) where
  abbrev ds : Bytes
  ds = decimal n

  abbrev missing : ℕ
  missing = 14 - length ds

  abbrev all : Bytes
  all = ds ++ replicate missing b'0'

  bounded : length ds ≤ 14
  bounded = length-decimal n 13 small

  nonempty : 0 < length ds
  nonempty = positive ds (digits_value-decimal n)
    where
      positive : (xs : Bytes) → digits_value 0 xs ≡ n → 0 < length xs
      positive [] e = omega arith
      positive (x ∷ xs) e = omega arith

  all-length : length all ≡ 14
  all-length = omega (
    arith,
    bounded,
    length-append ds (replicate missing b'0'),
    length-replicate {A = ℕ} missing b'0',
  )

  all_value : digits_value 0 all ≡ n * tens missing
  all_value =
      digits_value-append 0 ds (replicate missing b'0')
      ∙ ap (λ m. digits_value m (replicate missing b'0')) (digits_value-decimal n)
      ∙ digits_value-replicate n missing

  abbrev parts : Parts
  parts = record { negative = false; exp = plus (length ds - 1); digits = n * tens missing }

  encoded : encode_natural n ≡ 0 ∷ (length ds - 1 + 0x80) % 256 ∷ bcd (take 14 all)
  unfolding encode_natural
  encoded = rw (ne→==_false n 0 (λ e. omega arith)) refl

  whole : take 14 all ≡ all
  whole = take-le 14 all (omega (arith, all-length))

  all-IsDigit : All IsDigit all
  all-IsDigit =
      All-append IsDigit ds (replicate missing b'0') (decimal-IsDigit n) (zeros_digits missing)

  parse_real_parts-encode_natural : parse_real_parts (encode_natural n) ≡ some parts
  parse_real_parts-encode_natural =
      ap parse_real_parts (encoded ∙ ap (λ l. 0 ∷ (length ds - 1 + 0x80) % 256 ∷ bcd l) whole)
      ∙ parts_of 0 ((length ds - 1 + 0x80) % 256) (bcd all) (length-bcd 7 all all-length)
      ∙ ap (λ e. some (record { negative = false; exp = e; digits = parse_digits 0 (bcd all) }))
          (exponent_of (length ds - 1) (omega (arith, bounded)))
      ∙ ap (λ d. some (record { negative = false; exp = plus (length ds - 1); digits = d }))
          (parse_digits-bcd 0 7 all all-IsDigit all-length ∙ all_value)

  stripped_nonempty : (r : Bytes) → rstrip b'0' ds ≡ r → or_zero r ≡ r
  stripped_nonempty [] e = absurd (
      let zeros : replicate (length ds - 0) b'0' ≡ ds =
        subst (λ r. r ++ replicate (length ds - length r) b'0' ≡ ds) e (rstrip_back b'0' ds) in
      let value : digits_value 0 (replicate (length ds - 0) b'0') ≡ 0 * tens (length ds - 0) =
        digits_value-replicate 0 (length ds - 0) in
      omega (arith, value, ap (digits_value 0) zeros, digits_value-decimal n))
  stripped_nonempty (c ∷ cs) e = refl

  padded-all : padded (n * tens missing) ≡ all
  padded-all =
      ap (λ l. replicate (14 - length l) b'0' ++ l) (decimal-tens n missing pos)
      ∙ ap (λ l. replicate (14 - l) b'0' ++ all) all-length

  stripped : or_zero (rstrip b'0' (padded (n * tens missing))) ≡ rstrip b'0' ds
  stripped =
      ap (λ l. or_zero (rstrip b'0' l)) padded-all
      ∙ ap or_zero (rstrip-append b'0' missing ds)
      ∙ stripped_nonempty (rstrip b'0' ds) refl

  shown-parts_of : shown parts ≡ ds
  shown-parts_of =
      let last : length ds - 1 + 1 ≡ length ds = omega (arith, nonempty) in
      shown_whole (length ds - 1) (n * tens missing) (rstrip b'0' ds)
        (λ e. omega (arith, product_pos n (tens missing) pos (tens_pos missing), e)) stripped
        (omega (arith, bounded)) (omega (arith, nonempty, rstrip_le b'0' ds))
      ∙ ap (λ l. rstrip b'0' ds ++ replicate (l - length (rstrip b'0' ds)) b'0') last
      ∙ rstrip_back b'0' ds

  positive_shown : parse_real_str (encode_natural n) ≡ some (decimal n)
  unfolding parse_real_str
  positive_shown = ap shown_parts parse_real_parts-encode_natural ∙ ap (λ t. some t) shown-parts_of

zero_length : length (encode_natural 0) ≡ 9
unfolding encode_natural
zero_length = refl

zero_shown : parse_real_str (encode_natural 0) ≡ some (decimal 0)
unfolding parse_real_str encode_natural parse_real_parts parse_digits
zero_shown = refl

-- A natural number below 10 ^ 14 that is encoded and formatted again is shown as its decimal digits:
-- nothing is lost.
pub parse_real_str-encode_natural :
    (n : ℕ) → n < 100000000000000 → parse_real_str (encode_natural n) ≡ some (decimal n)
parse_real_str-encode_natural zero small = zero_shown
parse_real_str-encode_natural (suc n) small = positive_shown (suc n) (omega arith) small

pub length-encode_natural : (n : ℕ) → n < 100000000000000 → length (encode_natural n) ≡ 9
length-encode_natural zero small = zero_length
length-encode_natural (suc n) small =
    ap length (encoded (suc n) (omega arith) small)
    ∙ (let l =
          length-bcd 7 (all (suc n) (omega arith) small) (all-length (suc n) (omega arith) small) in
        let w = ap (λ x. length (bcd x)) (whole (suc n) (omega arith) small) in omega (arith, l, w))
