-- ===== src/Tokens/Printable.antt =====
-- The characters that `tokens_to_ascii` returns.
use gpti84_plus.Base.{
  ℕ, ◌≡◌, [], ◌∷◌, Option, none, some, ◌==◌, ltb, All, All-append, Bool-cases, Option-cases, ltb→lt,
  inl, inr, arith,
}
use gpti84_plus.Base.Bytes.{Bytes, codes, IsPrintable}
use gpti84_plus.Tokens.Tables.{
  find, tok_to_ascii, is_two_byte_prefix, two_byte_to_ascii, is_upper_or_digit, list_table,
  matrix_table, numbered_with_zero_last,
}
use gpti84_plus.Tokens.Choice.{find-All, piece_if, piece_or, no_piece}
use gpti84_plus.Tokens.{
  Mode, emit, needs_star, last_of, single_piece, pair_piece, decode, tokens_to_ascii,
}

abbrev AllPrintable : Bytes → Type 0
AllPrintable = All IsPrintable

table-AllPrintable : All (λ e. AllPrintable e.1) tok_to_ascii
table-AllPrintable = omega arith

single_piece-AllPrintable : (b : ℕ) → AllPrintable (single_piece b)
unfolding single_piece
single_piece-AllPrintable b = elim (Bool-cases (is_upper_or_digit b)) [
  | inl plain ↦ rw plain (ground arith)
  | inr other ↦ rw other (elim (Option-cases (find b tok_to_ascii)) [
    | inl unknown ↦ rw unknown (omega arith)
    | inr (v, known) ↦ rw known (find-All AllPrintable b tok_to_ascii table-AllPrintable known)
  ])
]

list-AllPrintable : (i : ℕ) {v : Bytes} → list_table i ≡ some v → AllPrintable v
unfolding list_table
list-AllPrintable i =
    piece_if AllPrintable (ltb i 6) _ none (λ h. omega (arith, ltb→lt i 6 h))
      (no_piece AllPrintable)

matrix-AllPrintable : (i : ℕ) {v : Bytes} → matrix_table i ≡ some v → AllPrintable v
unfolding matrix_table
matrix-AllPrintable i =
    piece_if AllPrintable (ltb i 10) _ none (λ h. omega (arith, ltb→lt i 10 h))
      (no_piece AllPrintable)

numbered-AllPrintable :
    (prefix : Bytes) (i : ℕ) {v : Bytes}
    → AllPrintable prefix
    → numbered_with_zero_last prefix i ≡ some v
    → AllPrintable v
unfolding numbered_with_zero_last
numbered-AllPrintable prefix i hp =
    piece_if AllPrintable (ltb i 9) _ _
      (λ h. All-append IsPrintable prefix _ hp (omega (arith, ltb→lt i 9 h)))
      (piece_if AllPrintable (i == 9) _ none (λ h. All-append IsPrintable prefix _ hp (omega arith))
        (no_piece AllPrintable))

two_byte-AllPrintable : (b sub : ℕ) {v : Bytes} → two_byte_to_ascii b sub ≡ some v → AllPrintable v
unfolding two_byte_to_ascii
two_byte-AllPrintable b sub = piece_or AllPrintable (b == 0x5D) _ _ (list-AllPrintable sub) (
    piece_or AllPrintable (b == 0x5C) _ _ (matrix-AllPrintable sub) (
      piece_or AllPrintable (b == 0x60) _ _ (numbered-AllPrintable (codes "Pic") sub (omega arith))
        (piece_or AllPrintable (b == 0x61) _ _
          (numbered-AllPrintable (codes "GDB") sub (omega arith))
          (piece_or AllPrintable (b == 0xAA) _ _
            (numbered-AllPrintable (codes "Str") sub (omega arith)) (no_piece AllPrintable)))))

pair_piece-AllPrintable : (b sub : ℕ) → AllPrintable (pair_piece b sub)
unfolding pair_piece
pair_piece-AllPrintable b sub = elim (Option-cases (two_byte_to_ascii b sub)) [
  | inl unknown ↦ rw unknown (omega arith)
  | inr (v, known) ↦ rw known (two_byte-AllPrintable b sub known)
]

emit-AllPrintable :
    (m : Mode) (last : Option ℕ) (piece : Bytes)
    → AllPrintable piece
    → AllPrintable (emit m last piece)
unfolding emit
emit-AllPrintable m last piece h = elim (Bool-cases (needs_star m last piece)) [
  | inl star ↦ rw star (omega arith, h)
  | inr bare ↦ rw bare h
]

decode-AllPrintable : (m : Mode) (last : Option ℕ) (bs : Bytes) → AllPrintable (decode m last bs)
unfolding decode
decode-AllPrintable m last [] = tt
decode-AllPrintable m last (b ∷ []) = elim (Bool-cases (is_two_byte_prefix b)) [
  | inl e ↦ rw e (emit-AllPrintable m last (b'?' ∷ []) (omega arith))
  | inr e ↦ rw e (emit-AllPrintable m last (single_piece b) (single_piece-AllPrintable b))
]
decode-AllPrintable m last (b ∷ sub ∷ rest) =
    let long = decode-AllPrintable m (last_of last (pair_piece b sub)) rest in
    let short = decode-AllPrintable m (last_of last (single_piece b)) (sub ∷ rest) in
    elim (Bool-cases (is_two_byte_prefix b)) [
      | inl e ↦
          rw (e, decode)
            (All-append IsPrintable _ _
              (emit-AllPrintable m last (pair_piece b sub) (pair_piece-AllPrintable b sub)) long)
      | inr e ↦
          rw (e, decode)
            (All-append IsPrintable _ _
              (emit-AllPrintable m last (single_piece b) (single_piece-AllPrintable b)) short)
    ]

-- Whatever bytes a calculator sends, the text that they are decoded to is printable ASCII in both
-- modes: encoding it as ASCII does not raise, and it holds no line break.
pub tokens_to_ascii-IsPrintable :
    (tok_bytes : Bytes) (mode : Mode) → All IsPrintable (tokens_to_ascii tok_bytes mode)
unfolding tokens_to_ascii
tokens_to_ascii-IsPrintable tok_bytes mode = decode-AllPrintable mode none tok_bytes
