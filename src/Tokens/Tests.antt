-- ===== src/Tokens/Tests.antt =====
-- Token streams at concrete inputs.
use gpti84_plus.Base.{◌≡◌, refl, [], ◌∷◌, map, some, true, false}
use gpti84_plus.Base.Bytes.{Bytes, codes}
use gpti84_plus.Tokens.Tables.{find, ascii_to_tok}
use gpti84_plus.Tokens.{
  Mode, upcase, append_token, ascii_to_tokens, ascii_to_tokens_lossy, tokens_to_ascii,
}
use gpti84_plus.Tokens.Lossy.{ascii_to_tokens_lossy-strict}
use gpti84_plus.Tokens.RoundTrip.{tokens_to_ascii-ascii_to_tokens}

abbrev hi_you : Bytes
hi_you = codes "Hi you"

abbrev hi_you_tokens : Bytes
hi_you_tokens = b'H' ∷ b'I' ∷ 0x29 ∷ b'Y' ∷ b'O' ∷ b'U' ∷ []

hi_you_made : ascii_to_tokens hi_you ≡ some hi_you_tokens
unfolding ascii_to_tokens append_token ascii_to_tok find
hi_you_made = refl

letter_first : {X : Type 0} → false ≡ true → X
letter_first e = cc

tokens_to_ascii-ascii_to_tokens_example :
    tokens_to_ascii hi_you_tokens Mode.text ≡ map upcase hi_you
tokens_to_ascii-ascii_to_tokens_example =
    tokens_to_ascii-ascii_to_tokens hi_you hi_you_tokens hi_you_made
      (tt, (letter_first, (letter_first, (letter_first, (letter_first, (letter_first, tt))))))

ascii_to_tokens_lossy-strict_example : ascii_to_tokens_lossy hi_you true ≡ hi_you_tokens
ascii_to_tokens_lossy-strict_example =
    ascii_to_tokens_lossy-strict hi_you hi_you_tokens true hi_you_made
