-- ===== src/Bastok.antt =====
-- `tokenize` of tools/bastok.py: TI-BASIC source to a token stream. A `ValueError` is `none`.
pub mod Fuel
mod Tests
use gpti84_plus.Base.{
  ℕ, zero, suc, List, [], ◌∷◌, ◌++◌, Option, none, some, Bool, true, false, ◌&&◌, ◌||◌, ◌==◌, leb,
  if◌then◌else◌, length, drop,
}
use gpti84_plus.Base.Bytes.{Bytes, codes}
use gpti84_plus.Base.Text.{starts_with}

abbrev pub keywords : List (Bytes × Bytes)
keywords =
    (codes "Asm(", 0xBB ∷ 0x6A ∷ [])
    ∷ (codes "sub(", 0xBB ∷ 0x0C ∷ [])
    ∷ (codes "<=", 0x6D ∷ [])
    ∷ (codes ">=", 0x6E ∷ [])
    ∷ (codes "!=", 0x6F ∷ [])
    ∷ (codes "ClrHome", 0xE1 ∷ [])
    ∷ (codes "Input", 0xDC ∷ [])
    ∷ (codes "Pause", 0xD8 ∷ [])
    ∷ (codes "Disp", 0xDE ∷ [])
    ∷ (codes "prgm", 0x5F ∷ [])
    ∷ (codes "Repeat", 0xD2 ∷ [])
    ∷ (codes "While", 0xD1 ∷ [])
    ∷ (codes "Return", 0xD5 ∷ [])
    ∷ (codes "Then", 0xCF ∷ [])
    ∷ (codes "Else", 0xD0 ∷ [])
    ∷ (codes "Stop", 0xD9 ∷ [])
    ∷ (codes "Goto", 0xD7 ∷ [])
    ∷ (codes "Lbl", 0xD6 ∷ [])
    ∷ (codes "End", 0xD4 ∷ [])
    ∷ (codes "If", 0xCE ∷ [])
    ∷ (codes "Output(", 0xE0 ∷ [])
    ∷ (codes "getKey", 0xAD ∷ [])
    ∷ (codes "or", 0x3C ∷ [])
    ∷ (codes "xor", 0x3D ∷ [])
    ∷ (codes "and", 0x40 ∷ [])
    ∷ (codes "Str1", 0xAA ∷ 0x00 ∷ [])
    ∷ (codes "Str2", 0xAA ∷ 0x01 ∷ [])
    ∷ (codes "Str3", 0xAA ∷ 0x02 ∷ [])
    ∷ (codes "Str4", 0xAA ∷ 0x03 ∷ [])
    ∷ (codes "Str5", 0xAA ∷ 0x04 ∷ [])
    ∷ (codes "Str6", 0xAA ∷ 0x05 ∷ [])
    ∷ (codes "Str7", 0xAA ∷ 0x06 ∷ [])
    ∷ (codes "Str8", 0xAA ∷ 0x07 ∷ [])
    ∷ (codes "Str9", 0xAA ∷ 0x08 ∷ [])
    ∷ (codes "Str0", 0xAA ∷ 0x09 ∷ [])
    ∷ (codes "->", 0x04 ∷ [])
    ∷ []

abbrev pub punct : List (ℕ × ℕ)
punct =
    (b'(', 0x10)
    ∷ (b')', 0x11)
    ∷ (b'"', 0x2A)
    ∷ (b',', 0x2B)
    ∷ (b'.', 0x3A)
    ∷ (b':', 0x3E)
    ∷ (b'+', 0x70)
    ∷ (b'-', 0x71)
    ∷ (b'*', 0x82)
    ∷ (b'/', 0x83)
    ∷ (b'=', 0x6A)
    ∷ (b'<', 0x6B)
    ∷ (b'>', 0x6C)
    ∷ (b'^', 0xF0)
    ∷ (b' ', 0x29)
    ∷ (b'?', 0xAF)
    ∷ (b'!', 0x2D)
    ∷ []

-- The token of a character, if the table has one.
punct_token : List (ℕ × ℕ) → ℕ → Option ℕ
punct_token [] c = none
punct_token ((k, t) ∷ table) c = if k == c then some t else punct_token table c

abbrev is_name_char : ℕ → Bool
is_name_char c = (leb b'A' c && leb c b'Z') || (leb b'0' c && leb c b'9')

abbrev or_blank_token : Option ℕ → ℕ
or_blank_token none = 0x29
or_blank_token (some t) = t

-- A character of a string literal; an unknown one becomes a space.
string_token : ℕ → ℕ
unfolding punct_token
string_token c = if is_name_char c then c else or_blank_token (punct_token punct c)

-- One round: the tokens it emits, whether a string literal is open behind it, and what is left.
pub record Round : Type 0 where
  pub emitted : Bytes
  pub in_string : Bool
  pub left : Bytes

abbrev go : Bytes → Bool → Bytes → Option Round
go emitted in_string left = some (record { emitted = emitted; in_string = in_string; left = left })

abbrev plain_round : Option ℕ → Bytes → Option Round
plain_round none cs = none
plain_round (some t) cs = go (t ∷ []) false cs

-- No keyword is empty, and it starts at the character `c`.
keyword_round : List (Bytes × Bytes) → ℕ → Bytes → Option Round
unfolding starts_with punct_token
keyword_round [] c cs =
    if is_name_char c then go (c ∷ []) false cs else plain_round (punct_token punct c) cs
keyword_round ((kw, toks) ∷ table) c cs =
    if starts_with kw (c ∷ cs)
    then go toks false (drop (length kw) (c ∷ cs))
    else keyword_round table c cs

string_round : ℕ → Bytes → Option Round
unfolding string_token
string_round c cs =
    if c == b'"'
    then go (0x2A ∷ []) false cs
    else if c == b'\n'
    then go (0x3F ∷ []) false cs
    else go (string_token c ∷ []) true cs

-- A newline ends a string literal too, and then gives its token.
pub round : Bool → ℕ → Bytes → Option Round
unfolding string_round keyword_round
round true c cs = string_round c cs
round false c cs =
    if c == b'\r'
    then go [] false cs
    else if c == b'\n'
    then go (0x3F ∷ []) false cs
    else if c == b' '
    then go [] false cs
    else if c == b'"'
    then go (0x2A ∷ []) true cs
    else keyword_round keywords c cs

abbrev emit_before : Bytes → Option Bytes → Option Bytes
emit_before toks none = none
emit_before toks (some rest) = some (toks ++ rest)

-- Each round takes a character at least, so the length of the source is enough fuel.
pub tokenize_loop : ℕ → Bool → Bytes → Option Bytes
unfolding round
tokenize_loop zero in_string source = some []
tokenize_loop (suc f) in_string [] = some []
tokenize_loop (suc f) in_string (c ∷ cs) = elim (round in_string c cs) [
  | none ↦ none
  | some r ↦ emit_before r.emitted (tokenize_loop f r.in_string r.left)
]

pub tokenize : Bytes → Option Bytes
unfolding tokenize_loop
tokenize source = tokenize_loop (length source) false source
