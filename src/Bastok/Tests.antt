-- ===== src/Bastok/Tests.antt =====
-- A program source at a concrete input.
use gpti84_plus.Base.{◌≡◌, refl, [], ◌∷◌, some}
use gpti84_plus.Base.Bytes.{Bytes, codes}
use gpti84_plus.Base.Text.{starts_with}
use gpti84_plus.Bastok.{
  punct_token, string_token, keyword_round, string_round, round, tokenize_loop, tokenize,
}

abbrev greeting : Bytes
greeting = codes "If N>0\nDisp \"HI\"\n"

greeting_tokens :
    tokenize greeting
    ≡ some (0xCE ∷ b'N' ∷ 0x6C ∷ b'0' ∷ 0x3F ∷ 0xDE ∷ 0x2A ∷ b'H' ∷ b'I' ∷ 0x2A ∷ 0x3F ∷ [])
unfolding tokenize tokenize_loop round string_round keyword_round string_token punct_token
    starts_with
greeting_tokens = refl
