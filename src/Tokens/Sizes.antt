-- ===== src/Tokens/Sizes.antt =====
-- The length of what `tokens_to_ascii` returns.
use gpti84_plus.Base.{
  ℕ, ◌+◌, ◌*◌, ◌≤◌, ◌≡◌, [], ◌∷◌, ◌++◌, Option, none, some, ◌==◌, ltb, length, length-append, All,
  Bool-cases, Option-cases, inl, inr, arith,
}
use gpti84_plus.Base.Bytes.{Bytes, codes}
use gpti84_plus.Tokens.Tables.{
  find, tok_to_ascii, is_two_byte_prefix, two_byte_to_ascii, is_upper_or_digit, list_table,
  matrix_table, numbered_with_zero_last,
}
use gpti84_plus.Tokens.Choice.{find-All, piece_if, piece_or, no_piece}
use gpti84_plus.Tokens.{Mode, emit, last_of, single_piece, pair_piece, decode, tokens_to_ascii}

-- The longest pieces are those of one token byte with five characters, and of two with six.
abbrev IsSmall : Bytes → Type 0
IsSmall p = length p ≤ 6

table-small : All (λ e. length e.1 ≤ 5) tok_to_ascii
table-small = omega arith

length-single_piece : (b : ℕ) → length (single_piece b) ≤ 5
unfolding single_piece
length-single_piece b = elim (Bool-cases (is_upper_or_digit b)) [
  | inl plain ↦ rw plain (omega arith)
  | inr other ↦ rw other (elim (Option-cases (find b tok_to_ascii)) [
    | inl unknown ↦ rw unknown (omega arith)
    | inr (v, known) ↦ rw known (find-All (λ v. length v ≤ 5) b tok_to_ascii table-small known)
  ])
]

length-numbered :
    (prefix : Bytes) (i : ℕ) {v : Bytes}
    → length prefix ≤ 5
    → numbered_with_zero_last prefix i ≡ some v
    → IsSmall v
unfolding numbered_with_zero_last
length-numbered prefix i hp =
    piece_if IsSmall (ltb i 9) _ _ (λ e. longer ((b'1' + i) ∷ []) (omega arith))
      (piece_if IsSmall (i == 9) _ none (λ e. longer (b'0' ∷ []) (omega arith)) (no_piece IsSmall))
  where
    longer : (c : Bytes) → length c ≡ 1 → IsSmall (prefix ++ c)
    longer c e = omega (arith, length-append prefix c)

length-two_byte : (b sub : ℕ) {v : Bytes} → two_byte_to_ascii b sub ≡ some v → IsSmall v
unfolding two_byte_to_ascii list_table matrix_table
length-two_byte b sub =
    piece_or IsSmall (b == 0x5D) _ _
      (piece_if IsSmall (ltb sub 6) _ none (λ e. omega arith) (no_piece IsSmall))
      (piece_or IsSmall (b == 0x5C) _ _
        (piece_if IsSmall (ltb sub 10) _ none (λ e. omega arith) (no_piece IsSmall))
        (piece_or IsSmall (b == 0x60) _ _ (length-numbered (codes "Pic") sub (omega arith)) (
          piece_or IsSmall (b == 0x61) _ _ (length-numbered (codes "GDB") sub (omega arith)) (
            piece_or IsSmall (b == 0xAA) _ _ (length-numbered (codes "Str") sub (omega arith))
              (no_piece IsSmall)))))

length-pair_piece : (b sub : ℕ) → IsSmall (pair_piece b sub)
unfolding pair_piece
length-pair_piece b sub = elim (Option-cases (two_byte_to_ascii b sub)) [
  | inl unknown ↦ rw unknown (omega arith)
  | inr (v, known) ↦ rw known (length-two_byte b sub known)
]

-- A `*` more, at most.
length-emit :
    (m : Mode) (last : Option ℕ) (piece : Bytes) → length (emit m last piece) ≤ length piece + 1
unfolding emit
length-emit m last piece = ground arith

length-decode :
    (m : Mode) (last : Option ℕ) (bs : Bytes) → length (decode m last bs) ≤ 6 * length bs
unfolding decode
length-decode m last [] = omega arith
length-decode m last (b ∷ []) = elim (Bool-cases (is_two_byte_prefix b)) [
  | inl e ↦ rw e (omega (arith, length-emit m last (b'?' ∷ [])))
  | inr e ↦ rw e (omega (arith, length-emit m last (single_piece b), length-single_piece b))
]
length-decode m last (b ∷ sub ∷ rest) =
    let p = pair_piece b sub in
    let q = single_piece b in
    let long = length-decode m (last_of last p) rest in
    let short = length-decode m (last_of last q) (sub ∷ rest) in
    elim (Bool-cases (is_two_byte_prefix b)) [
      | inl e ↦
          rw (e, decode)
            (omega (
              arith,
              long,
              length-emit m last p,
              length-pair_piece b sub,
              length-append (emit m last p) (decode m (last_of last p) rest),
            ))
      | inr e ↦
          rw (e, decode)
            (omega (
              arith,
              short,
              length-emit m last q,
              length-single_piece b,
              length-append (emit m last q) (decode m (last_of last q) (sub ∷ rest)),
            ))
    ]

-- The decoded text has at most six characters for each token byte.
pub length-tokens_to_ascii :
    (tok_bytes : Bytes) (mode : Mode)
    → length (tokens_to_ascii tok_bytes mode) ≤ 6 * length tok_bytes
unfolding tokens_to_ascii
length-tokens_to_ascii tok_bytes mode = length-decode mode none tok_bytes
