-- ===== src/Tokens/RoundTrip.antt =====
-- `tokens_to_ascii` after `ascii_to_tokens`.
use gpti84_plus.Base.{
  ℕ, ◌≤◌, ◌≡◌, ◌≢◌, ◌⊎◌, ◌∙◌, refl, [], ◌∷◌, ◌++◌, append-nil, map, Option, none, some, Bool, true,
  false, not, ◌&&◌, ◌==◌, ne→==_false, leb, Bool-cases, inl, inr, arith,
}
use mathlib.Core.Path.{subst}
use gpti84_plus.Base.Below.{passes_below, passes_below-true}
use gpti84_plus.Base.Bytes.{Bytes}
use gpti84_plus.Tokens.Tables.{is_two_byte_prefix, ascii_to_tok}
use gpti84_plus.Tokens.Lossy.{append_token-some}
use gpti84_plus.Tokens.{
  Mode, text, is_digit, is_ascii_alnum, emit, needs_star, last_of, single_piece, decode,
  tokens_to_ascii, upcase, ascii_to_tokens, is_producer, is_value_starter,
}

-- The token of a character, if it has one, is no prefix, and its piece is the character.
piece_is : ℕ → Bytes → Bool
piece_is c (d ∷ []) = d == c
piece_is c _ = false

reads_back : ℕ → Option ℕ → Bool
reads_back c none = true
reads_back c (some t) = not (is_two_byte_prefix t) && piece_is c (single_piece t)

reads_back_table : passes_below (λ c. reads_back c (ascii_to_tok c)) 128 ≡ true
unfolding passes_below reads_back ascii_to_tok is_two_byte_prefix piece_is single_piece
reads_back_table = refl

no_wide_token : (c : ℕ) → 128 ≤ c → ascii_to_tok c ≡ none
unfolding ascii_to_tok
no_wide_token c h = ground arith

piece_is→eq : (c : ℕ) (piece : Bytes) → piece_is c piece ≡ true → piece ≡ c ∷ []
unfolding piece_is
piece_is→eq c [] h = cc
piece_is→eq c (d ∷ []) h = ground arith
piece_is→eq c (d ∷ e ∷ r) h = cc

not_and : (p q : Bool) → not p && q ≡ true → (p ≡ false) × (q ≡ true)
not_and p q h = ground arith

pub token_reads_back :
    (c t : ℕ) → ascii_to_tok c ≡ some t → (is_two_byte_prefix t ≡ false) × (single_piece t ≡ c ∷ [])
unfolding reads_back
token_reads_back c t e = elim (Bool-cases (leb 128 c)) [
  | inl wide ↦ cc (no_wide_token c (ground arith))
  | inr narrow ↦
      let row = passes_below-true _ 128 c (ground arith) reads_back_table in
      let (plain, piece) = not_and _ _ (rw e at row) in
      (plain, piece_is→eq c (single_piece t) piece)
]

pub decode_plain :
    (m : Mode) (last : Option ℕ) (t : ℕ) (ts : Bytes)
    → is_two_byte_prefix t ≡ false
    → decode m last (t ∷ ts)
      ≡ emit m last (single_piece t) ++ decode m (last_of last (single_piece t)) ts
unfolding decode
decode_plain m last t [] h = rw h (rw append-nil)
decode_plain m last t (u ∷ us) h = rw (h, decode)

-- A character may follow a digit if it is a digit too, or opens no value: no letter, `(` or `[`.
abbrev pub MayFollow : Option ℕ → ℕ → Type 0
MayFollow none c = Unit {0}
MayFollow (some d) c =
    is_digit d ≡ true → (is_digit c ≡ true) ⊎ ((is_ascii_alnum c ≡ false) × (c ≢ b'(') × (c ≢ b'['))

-- No digit of the text stands in front of a letter or an opening bracket.
abbrev pub IsSpaced : Option ℕ → Bytes → Type 0
IsSpaced last [] = Unit {0}
IsSpaced last (c ∷ cs) = MayFollow last c × IsSpaced (some c) cs

text_adds_no_star : (last : Option ℕ) (c : ℕ) → MayFollow last c → emit text last (c ∷ []) ≡ c ∷ []
unfolding emit needs_star is_producer is_value_starter
text_adds_no_star none c h = refl
text_adds_no_star (some d) c h = elim (Bool-cases (is_digit d)) [
  | inl digit ↦ elim (h digit) [
    | inl next ↦ rw digit (rw next)
    | inr (other, paren, bracket) ↦
        rw digit (rw (other, ne→==_false c b'(' paren, ne→==_false c b'[' bracket))
  ]
  | inr letter ↦ rw letter
]

decode-ascii_to_tokens :
    (last : Option ℕ) (s ts : Bytes)
    → ascii_to_tokens s ≡ some ts
    → IsSpaced last (map upcase s)
    → decode text last ts ≡ map upcase s
unfolding ascii_to_tokens last_of
decode-ascii_to_tokens last [] ts e h = unfold decode in cc
decode-ascii_to_tokens last (c ∷ cs) ts e (hc, h) =
    let (t, rest, now, later, whole) = append_token-some _ _ ts e in
    let (plain, piece) = token_reads_back (upcase c) t now in
    let ih = decode-ascii_to_tokens (some (upcase c)) cs rest later h in
    subst (λ us. decode text last us ≡ map upcase (c ∷ cs)) whole
      (decode_plain text last t rest plain
        ∙ rw piece (rw (text_adds_no_star last (upcase c) hc) (rw ih)))

-- A text that the strict translation accepts comes back in capitals from the text mode, if no digit
-- stands in front of a letter or an opening bracket. (There the text mode inserts a `*`.)
pub tokens_to_ascii-ascii_to_tokens :
    (s ts : Bytes)
    → ascii_to_tokens s ≡ some ts
    → IsSpaced none (map upcase s)
    → tokens_to_ascii ts text ≡ map upcase s
unfolding tokens_to_ascii
tokens_to_ascii-ascii_to_tokens s ts e h = decode-ascii_to_tokens none s ts e h
