-- ===== src/Tokens/MathMode.antt =====
-- Implicit multiplication: letters in a row in the two modes.
use gpti84_plus.Base.{ℕ, ◌≤◌, ◌≡◌, ◌∙◌, refl, [], ◌∷◌, none, some, All, arith}
use gpti84_plus.Base.Bytes.{Bytes}
use gpti84_plus.Tokens.Tables.{ascii_to_tok}
use gpti84_plus.Tokens.RoundTrip.{token_reads_back, decode_plain}
use gpti84_plus.Tokens.{
  math, emit, needs_star, is_producer, is_value_starter, last_of, decode, tokens_to_ascii,
}

abbrev pub IsUpper : ℕ → Type 0
IsUpper c = (0x41 ≤ c) × (c ≤ 0x5A)

-- Every character behind a `*`.
abbrev pub starred : Bytes → Bytes
starred [] = []
starred (c ∷ cs) = b'*' ∷ c ∷ starred cs

letter_token : (c : ℕ) → IsUpper c → ascii_to_tok c ≡ some c
unfolding ascii_to_tok
letter_token c h = ground arith

star_between : (d c : ℕ) → IsUpper d → IsUpper c → emit math (some d) (c ∷ []) ≡ b'*' ∷ c ∷ []
unfolding emit needs_star is_producer is_value_starter
star_between d c hd hc = ground arith

decode-starred :
    (d : ℕ) (s : Bytes) → IsUpper d → All IsUpper s → decode math (some d) s ≡ starred s
unfolding last_of
decode-starred d [] hd h = unfold decode in refl
decode-starred d (c ∷ cs) hd (hc, h) =
    let (plain, piece) = token_reads_back c c (letter_token c hc) in
    let ih = decode-starred c cs hc h in
    decode_plain math (some d) c cs plain ∙ rw piece (rw (star_between d c hd hc) (rw ih))

-- In the math mode a row of letters is a product: `XY` is read as `X*Y`.
pub tokens_to_ascii-starred :
    (c : ℕ) (s : Bytes) → IsUpper c → All IsUpper s → tokens_to_ascii (c ∷ s) math ≡ c ∷ starred s
unfolding tokens_to_ascii last_of emit needs_star is_producer
tokens_to_ascii-starred c s hc h =
    let (plain, piece) = token_reads_back c c (letter_token c hc) in
    decode_plain math none c s plain ∙ rw piece (rw (decode-starred c s hc h))
