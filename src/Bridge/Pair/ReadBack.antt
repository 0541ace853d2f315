-- ===== src/Bridge/Pair/ReadBack.antt =====
-- The relay's `_parse_pair` on the frames of the pair buffer.
use gpti84_plus.Base.{◌≡◌, ◌≢◌, refl, ap, ◌∙◌, [], ◌∷◌, ◌++◌, All, arith}
use gpti84_plus.Base.Bytes.{Bytes, IsPrintable, codes}
use gpti84_plus.Base.Text.{split, join, split-join, starts_with}
use gpti84_plus.Tokens.{Mode, tokens_to_ascii}
use gpti84_plus.Tokens.Printable.{tokens_to_ascii-IsPrintable}
use gpti84_plus.Relay.Frame.{pair_line, pair_lines, parse_pair}
use gpti84_plus.Bridge.Pair.{pair_frame}

frame_lines :
    (p m : Bytes)
    → pair_frame p m ≡ join b'\n' ((codes "prompt:" ++ p) ∷ (codes "math:" ++ m) ∷ [] ∷ [])
unfolding pair_frame join
frame_lines p m = refl

-- The relay reads back the two texts of a pair frame, if neither holds a newline.
pub parse_pair-pair_frame :
    (p m : Bytes)
    → All (λ c. c ≢ b'\n') p
    → All (λ c. c ≢ b'\n') m
    → parse_pair (pair_frame p m) ≡ (p, m)
unfolding parse_pair pair_lines pair_line starts_with
parse_pair-pair_frame p m hp hm =
    ap (λ x. pair_lines ([], []) (split b'\n' x)) (frame_lines p m)
    ∙ ap (pair_lines ([], [])) (
        split-join b'\n' (codes "prompt:" ++ p) ((codes "math:" ++ m) ∷ [] ∷ []) (
          (
            (λ e. omega arith),
            (
              (λ e. omega arith),
              (
                (λ e. omega arith),
                (
                  (λ e. omega arith),
                  ((λ e. omega arith), ((λ e. omega arith), ((λ e. omega arith), hp))),
                ),
              ),
            ),
          ),
          (
            (
              (λ e. omega arith),
              (
                (λ e. omega arith),
                ((λ e. omega arith), ((λ e. omega arith), ((λ e. omega arith), hm))),
              ),
            ),
            (tt, tt),
          ),
        ))

printable-ne : (s : Bytes) → All IsPrintable s → All (λ c. c ≢ b'\n') s
printable-ne [] h = tt
printable-ne (c ∷ cs) ((lo, hi), h) = ((λ e. omega arith), printable-ne cs h)

-- Whatever tokens the two strings hold, the relay reads from their frame the prompt and the math
-- that the bridge decoded.
pub parse_pair-tokens_to_ascii :
    (toks1 toks2 : Bytes)
    → parse_pair (pair_frame (tokens_to_ascii toks1 Mode.text) (tokens_to_ascii toks2 Mode.math))
      ≡ (tokens_to_ascii toks1 Mode.text, tokens_to_ascii toks2 Mode.math)
parse_pair-tokens_to_ascii toks1 toks2 =
    parse_pair-pair_frame (tokens_to_ascii toks1 Mode.text) (tokens_to_ascii toks2 Mode.math)
      (printable-ne _ (tokens_to_ascii-IsPrintable toks1 Mode.text))
      (printable-ne _ (tokens_to_ascii-IsPrintable toks2 Mode.math))
