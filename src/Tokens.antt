-- ===== src/Tokens.antt =====
-- src/tokens.py: the translation between token streams and ASCII texts.
pub mod Tables
mod Choice
pub mod Printable
pub mod Sizes
pub mod Lossy
pub mod MathMode
pub mod RoundTrip
mod Tests
use gpti84_plus.Base.{
  ℕ, ◌-◌, List, [], ◌∷◌, ◌++◌, Option, none, some, Bool, true, false, not, ◌&&◌, ◌||◌, ◌==◌, leb,
  if◌then◌else◌,
}
use gpti84_plus.Base.Bytes.{Bytes}
use Tables.{
  find, tok_to_ascii, is_two_byte_prefix, two_byte_to_ascii, is_upper_or_digit, ascii_to_tok,
}

-- The `mode` argument; any other value raises a `ValueError`.
pub data Mode : Type 0 where
  text math : Mode

abbrev pub is_digit : ℕ → Bool
is_digit c = leb 0x30 c && leb c 0x39

abbrev pub is_ascii_alnum : ℕ → Bool
is_ascii_alnum c = is_digit c || (leb 0x41 c && leb c 0x5A) || (leb 0x61 c && leb c 0x7A)

-- The character before, if any, closes a value. The empty string of the source is `none`.
pub is_producer : Mode → Option ℕ → Bool
is_producer m none = false
is_producer math (some c) = is_ascii_alnum c || c == b')' || c == b']'
is_producer text (some c) = is_digit c

pub is_value_starter : ℕ → Bool
is_value_starter c = is_ascii_alnum c || c == b'(' || c == b'['

abbrev both_digits : Option ℕ → ℕ → Bool
both_digits none c = false
both_digits (some d) c = is_digit d && is_digit c

-- Whether a `*` goes in front of a piece.
pub needs_star : Mode → Option ℕ → Bytes → Bool
unfolding is_producer is_value_starter
needs_star m last [] = false
needs_star m last (c ∷ cs) = is_producer m last && is_value_starter c && not (both_digits last c)

-- What one round appends to the output.
pub emit : Mode → Option ℕ → Bytes → Bytes
unfolding needs_star
emit m last piece = if needs_star m last piece then b'*' ∷ piece else piece

-- `last_emitted` after a piece: its last character, if it has one.
pub last_of : Option ℕ → Bytes → Option ℕ
last_of last [] = last
last_of last (c ∷ cs) = last_of (some c) cs

or_unknown : Option Bytes → Bytes
or_unknown none = b'?' ∷ []
or_unknown (some piece) = piece

-- The piece of a byte that is no prefix.
pub single_piece : ℕ → Bytes
unfolding or_unknown find
single_piece b = if is_upper_or_digit b then b ∷ [] else or_unknown (find b tok_to_ascii)

pub pair_piece : ℕ → ℕ → Bytes
unfolding or_unknown two_byte_to_ascii
pair_piece b sub = or_unknown (two_byte_to_ascii b sub)

-- The loop of `tokens_to_ascii`, from `last_emitted` and the bytes that are left. A prefix that ends
-- the stream has no second byte, and is unknown.
pub decode : Mode → Option ℕ → Bytes → Bytes
unfolding emit last_of single_piece pair_piece is_two_byte_prefix
decode m last [] = []
decode m last (b ∷ []) = emit m last (if is_two_byte_prefix b then b'?' ∷ [] else single_piece b)
decode m last (b ∷ sub ∷ rest) = elim (is_two_byte_prefix b) [
  | true ↦ emit m last (pair_piece b sub) ++ decode m (last_of last (pair_piece b sub)) rest
  | false ↦ emit m last (single_piece b) ++ decode m (last_of last (single_piece b)) (sub ∷ rest)
]

pub tokens_to_ascii : Bytes → Mode → Bytes
unfolding decode
tokens_to_ascii tok_bytes mode = decode mode none tok_bytes

-- `ch.upper()` of a lowercase letter; other characters stay.
abbrev pub upcase : ℕ → ℕ
upcase c = if leb b'a' c && leb c b'z' then c - 32 else c

pub append_token : Option ℕ → Option Bytes → Option Bytes
append_token (some t) (some ts) = some (t ∷ ts)
append_token _ _ = none

-- `none` is the `ValueError` of a character that has no token.
pub ascii_to_tokens : Bytes → Option Bytes
unfolding append_token ascii_to_tok
ascii_to_tokens [] = some []
ascii_to_tokens (c ∷ cs) = append_token (ascii_to_tok (upcase c)) (ascii_to_tokens cs)

lossy_token : Bool → Option ℕ → Bytes
lossy_token drop_unknown (some t) = t ∷ []
lossy_token drop_unknown none = if not drop_unknown then 0x29 ∷ [] else []

pub ascii_to_tokens_lossy : Bytes → Bool → Bytes
unfolding lossy_token ascii_to_tok
ascii_to_tokens_lossy [] drop_unknown = []
ascii_to_tokens_lossy (c ∷ cs) drop_unknown =
    lossy_token drop_unknown (ascii_to_tok (upcase c)) ++ ascii_to_tokens_lossy cs drop_unknown
