-- ===== src/Container.antt =====
-- The .8Xp container: `make_8xp` of tools/bastok.py and `parse_8xp` of tools/extract_8xp.py. A
-- `ValueError` is `none`.
pub mod RoundTrip
mod Tests
use gpti84_plus.Base.{
  ℕ, zero, suc, ◌+◌, ◌-◌, ◌*◌, ◌/◌, ◌%◌, List, [], ◌∷◌, ◌++◌, Option, none, some, Bool, true, false,
  not, ◌&&◌, ◌||◌, ◌==◌, leb, ltb, if◌then◌else◌, length, take, drop, get_or, replicate,
}
use gpti84_plus.Base.Bytes.{Bytes, codes, lo_byte, hi_byte, word, same_bytes}
use gpti84_plus.Base.Text.{rstrip, starts_with}

abbrev pub is_name_char : ℕ → Bool
is_name_char c = (leb b'A' c && leb c b'Z') || (leb b'0' c && leb c b'9')

abbrev pub all_name_chars : Bytes → Bool
all_name_chars [] = true
all_name_chars (c ∷ cs) = is_name_char c && all_name_chars cs

unfoldable pub is_name : Bytes → Bool
is_name name = leb 1 (length name) && leb (length name) 8 && all_name_chars name

abbrev pub name_field : Bytes → Bytes
name_field name = name ++ replicate (8 - length name) 0

abbrev pub size_bytes : ℕ → Bytes
size_bytes n = lo_byte n ∷ hi_byte n ∷ []

pub sum : Bytes → ℕ
sum [] = 0
sum (b ∷ bs) = b + sum bs

-- `type_id` is that of a locked or an unlocked program.
pub entry : ℕ → Bytes → Bytes → Bytes
entry type_id field var_data =
    (0x0D ∷ 0x00 ∷ [])
    ++ (size_bytes (length var_data)
        ++ (type_id
            ∷ (field ++ ((0x00 ∷ 0x00 ∷ []) ++ (size_bytes (length var_data) ++ var_data)))))

abbrev pub signature : Bytes
signature = codes "**TI83F*" ++ (0x1A ∷ 0x0A ∷ 0x00 ∷ [])

abbrev pub comment : Bytes
comment = codes "chat deck                                 "

pub container : Bytes → Bytes
unfolding sum
container data_section =
    (signature ++ (comment ++ size_bytes (length data_section)))
    ++ (data_section ++ size_bytes (sum data_section % 65536))

abbrev pub type_of : Bool → ℕ
type_of locked = if locked then 0x06 else 0x05

unfoldable pub make_8xp : Bytes → Bytes → Bool → Option Bytes
unfolding is_name entry container
make_8xp name body locked =
    if is_name name
    then some
        (container (entry (type_of locked) (name_field name) (size_bytes (length body) ++ body)))
    else none

abbrev pub header_len : ℕ
header_len = 55

abbrev pub entry_fixed_len : ℕ
entry_fixed_len = 17

-- The name, the type, whether the program is locked, and the payload.
pub record Program : Type 0 where
  pub name : Bytes
  pub type_id : ℕ
  pub locked : Bool
  pub payload : Bytes

-- `.decode("ascii")` raises an error, which is a `ValueError`, unless all bytes are below 0x80.
abbrev pub all_ascii : Bytes → Bool
all_ascii [] = true
all_ascii (c ∷ cs) = ltb c 0x80 && all_ascii cs

abbrev pub parse_payload : ℕ → Bytes → ℕ → Bytes → Option Program
parse_payload type_id field var_size payload =
    if (length payload == var_size) && all_ascii (rstrip 0 field)
    then some (record {
      name = rstrip 0 field;
      type_id = type_id;
      locked = type_id == 0x06;
      payload = payload;
    })
    else none

abbrev pub parse_entry : Bytes → Option Program
parse_entry e =
    if not (word (get_or e 0 0) (get_or e 1 0) == 0x000D)
    then none
    else if not (word (get_or e 2 0) (get_or e 3 0) == word (get_or e 15 0) (get_or e 16 0))
    then none
    else parse_payload (get_or e 4 0) (take 8 (drop 5 e)) (word (get_or e 2 0) (get_or e 3 0))
        (take (word (get_or e 2 0) (get_or e 3 0)) (drop entry_fixed_len e))

-- The entry starts where the header ends.
pub parse_8xp : Bytes → Option Program
parse_8xp buf =
    if ltb (length buf) (header_len + entry_fixed_len + 2)
    then none
    else if not (same_bytes (take 8 buf) (codes "**TI83F*"))
    then none
    else parse_entry (drop header_len buf)
