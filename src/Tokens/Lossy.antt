-- ===== src/Tokens/Lossy.antt =====
-- `ascii_to_tokens_lossy`: lengths, and agreement with the strict translation.
use gpti84_plus.Base.{
  ℕ, ◌≡◌, refl, [], ◌∷◌, Option, none, some, Bool, false, length, length-append, arith,
}
use mathlib.Core.Option.{some-injective}
use gpti84_plus.Base.Bytes.{Bytes}
use gpti84_plus.Tokens.Tables.{ascii_to_tok}
use gpti84_plus.Tokens.{upcase, append_token, ascii_to_tokens, lossy_token, ascii_to_tokens_lossy}

length-lossy_token : (o : Option ℕ) → length (lossy_token false o) ≡ 1
unfolding lossy_token
length-lossy_token none = refl
length-lossy_token (some t) = refl

-- With `drop_unknown=False` every character becomes one token: the length of a text is kept.
pub length-ascii_to_tokens_lossy : (s : Bytes) → length (ascii_to_tokens_lossy s false) ≡ length s
unfolding ascii_to_tokens_lossy
length-ascii_to_tokens_lossy [] = refl
length-ascii_to_tokens_lossy (c ∷ cs) = omega (
  arith,
  length-append (lossy_token false (ascii_to_tok (upcase c))) (ascii_to_tokens_lossy cs false),
  length-lossy_token (ascii_to_tok (upcase c)),
  length-ascii_to_tokens_lossy cs,
)

pub append_token-some :
    (o : Option ℕ) (p : Option Bytes) (ts : Bytes)
    → append_token o p ≡ some ts
    → (t : ℕ) × (rest : Bytes) × (o ≡ some t) × (p ≡ some rest) × (t ∷ rest ≡ ts)
unfolding append_token
append_token-some (some t) (some rest) ts e = (t, rest, refl, refl, some-injective _ _ e)
append_token-some (some t) none ts e = cc
append_token-some none p ts e = cc

-- Where the strict translation does not raise, the lossy one returns the same tokens, in both modes.
pub ascii_to_tokens_lossy-strict :
    (s ts : Bytes) (drop_unknown : Bool)
    → ascii_to_tokens s ≡ some ts
    → ascii_to_tokens_lossy s drop_unknown ≡ ts
unfolding ascii_to_tokens ascii_to_tokens_lossy
ascii_to_tokens_lossy-strict [] ts drop e = ground arith
ascii_to_tokens_lossy-strict (c ∷ cs) ts drop e =
    let (t, rest, now, later, whole) = append_token-some _ _ ts e in
    rw now (rw (ascii_to_tokens_lossy-strict cs rest drop later) whole)
