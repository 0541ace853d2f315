-- ===== src/Container/Tests.antt =====
-- A program file at a concrete input.
use gpti84_plus.Base.{◌≡◌, [], ◌∷◌, ◌++◌, none, some, true, false, length, arith}
use gpti84_plus.Base.Bytes.{Bytes, codes}
use gpti84_plus.Container.{is_name, make_8xp, parse_8xp, size_bytes, type_of}
use gpti84_plus.Container.RoundTrip.{make_8xp-parse_8xp}

abbrev deck : Bytes
deck = codes "DECK1"

abbrev disp_hi : Bytes
disp_hi = 0xDE ∷ 0x2A ∷ b'H' ∷ b'I' ∷ 0x2A ∷ 0x3F ∷ []

make_8xp-parse_8xp_example :
    (is_name deck ≡ true
      → (file : Bytes) × (make_8xp deck disp_hi true ≡ some file)
        × (parse_8xp file
            ≡ some (record {
              name = deck;
              type_id = type_of true;
              locked = true;
              payload = size_bytes (length disp_hi) ++ disp_hi;
            })))
    × (is_name deck ≡ false → make_8xp deck disp_hi true ≡ none)
make_8xp-parse_8xp_example = make_8xp-parse_8xp deck disp_hi true (omega arith)
