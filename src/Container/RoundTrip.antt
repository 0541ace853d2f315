-- ===== src/Container/RoundTrip.antt =====
-- `parse_8xp` on the files of `make_8xp`.
use gpti84_plus.Base.{
  ℕ, suc, ◌-◌, ◌%◌, ◌≤◌, ◌<◌, ◌≡◌, ◌≢◌, refl, ap, ◌∙◌, [], ◌∷◌, ◌++◌, none, some, Bool, true, false,
  ◌&&◌, ◌==◌, ==_refl, le→ltb_false, leb, ltb, length, length-append, take-append, All, Bool-cases,
  inl, inr, arith,
}
use gpti84_plus.Base.Bytes.{Bytes, lo_byte, hi_byte, word}
use gpti84_plus.Base.Text.{rstrip, rstrip-append_replicate}
use gpti84_plus.Container.{
  is_name, is_name_char, all_name_chars, all_ascii, name_field, size_bytes, sum, entry, container,
  type_of, make_8xp, parse_entry, parse_8xp,
}

-- The bytes behind the entry's fixed part.
abbrev tail : Bytes → ℕ → Bytes
tail var_data check = var_data ++ size_bytes check

long : (n k : ℕ) → ltb (suc (suc n)) k ≡ false → k ≤ suc (suc n)
long n k e = ground arith

word_small : (n : ℕ) → n < 65536 → word (lo_byte n) (hi_byte n) ≡ n
word_small n lt = omega arith

-- An entry whose name field has the eight bytes given.
module _ (c0 c1 c2 c3 c4 c5 c6 c7 type_id : ℕ) where
  abbrev field : Bytes
  field = c0 ∷ c1 ∷ c2 ∷ c3 ∷ c4 ∷ c5 ∷ c6 ∷ c7 ∷ []

  entry_read :
      (var_data : Bytes) (check : ℕ)
      → length var_data < 65536
      → all_ascii (rstrip 0 field) ≡ true
      → parse_entry (entry type_id field var_data ++ size_bytes check)
        ≡ some (record {
          name = rstrip 0 field;
          type_id = type_id;
          locked = type_id == 0x06;
          payload = var_data;
        })
  unfolding entry
  entry_read var_data check lt ascii = rw (word_small (length var_data) lt) (
      rw (==_refl (length var_data)) (
        rw (take-append var_data (size_bytes check))
          (rw (==_refl (length var_data)) (rw ascii refl))))

  container_read :
      (var_data : Bytes)
      → 2 ≤ length var_data
      → parse_8xp (container (entry type_id field var_data))
        ≡ parse_entry (
            entry type_id field var_data ++ size_bytes (sum (entry type_id field var_data) % 65536))
  unfolding parse_8xp container entry
  container_read var_data le =
      rw
        (le→ltb_false (length (container (entry type_id field var_data))) 74 (
          omega (
            arith,
            le,
            length-append var_data (size_bytes (sum (entry type_id field var_data) % 65536)),
          )))
        refl

  pub field_read :
      (var_data : Bytes)
      → 2 ≤ length var_data
      → length var_data < 65536
      → all_ascii (rstrip 0 field) ≡ true
      → parse_8xp (container (entry type_id field var_data))
        ≡ some (record {
          name = rstrip 0 field;
          type_id = type_id;
          locked = type_id == 0x06;
          payload = var_data;
        })
  field_read var_data le lt ascii =
      container_read var_data le
      ∙ entry_read var_data (sum (entry type_id field var_data) % 65536) lt ascii

-- The name field of a name of one to eight characters has eight bytes.
named_read :
    (name : Bytes) (type_id : ℕ) (var_data : Bytes)
    → 1 ≤ length name
    → length name ≤ 8
    → 2 ≤ length var_data
    → length var_data < 65536
    → all_ascii (rstrip 0 (name_field name)) ≡ true
    → parse_8xp (container (entry type_id (name_field name) var_data))
      ≡ some (record {
        name = rstrip 0 (name_field name);
        type_id = type_id;
        locked = type_id == 0x06;
        payload = var_data;
      })
named_read [] t v a b le lt ascii = absurd (omega arith)
named_read (c0 ∷ []) t v a b le lt ascii = field_read c0 0 0 0 0 0 0 0 t v le lt ascii
named_read (c0 ∷ c1 ∷ []) t v a b le lt ascii = field_read c0 c1 0 0 0 0 0 0 t v le lt ascii
named_read (c0 ∷ c1 ∷ c2 ∷ []) t v a b le lt ascii = field_read c0 c1 c2 0 0 0 0 0 t v le lt ascii
named_read (c0 ∷ c1 ∷ c2 ∷ c3 ∷ []) t v a b le lt ascii =
    field_read c0 c1 c2 c3 0 0 0 0 t v le lt ascii
named_read (c0 ∷ c1 ∷ c2 ∷ c3 ∷ c4 ∷ []) t v a b le lt ascii =
    field_read c0 c1 c2 c3 c4 0 0 0 t v le lt ascii
named_read (c0 ∷ c1 ∷ c2 ∷ c3 ∷ c4 ∷ c5 ∷ []) t v a b le lt ascii =
    field_read c0 c1 c2 c3 c4 c5 0 0 t v le lt ascii
named_read (c0 ∷ c1 ∷ c2 ∷ c3 ∷ c4 ∷ c5 ∷ c6 ∷ []) t v a b le lt ascii =
    field_read c0 c1 c2 c3 c4 c5 c6 0 t v le lt ascii
named_read (c0 ∷ c1 ∷ c2 ∷ c3 ∷ c4 ∷ c5 ∷ c6 ∷ c7 ∷ []) t v a b le lt ascii =
    field_read c0 c1 c2 c3 c4 c5 c6 c7 t v le lt ascii
named_read (c0 ∷ c1 ∷ c2 ∷ c3 ∷ c4 ∷ c5 ∷ c6 ∷ c7 ∷ c8 ∷ cs) t v a b le lt ascii =
    absurd (omega arith)

name_chars-ne : (name : Bytes) → all_name_chars name ≡ true → All (λ c. c ≢ 0) name
name_chars-ne [] h = tt
name_chars-ne (c ∷ cs) h = elim (Bool-cases (is_name_char c)) [
  | inl e ↦ (name_char-ne c e, name_chars-ne cs (rw e at h))
  | inr e ↦ cc
]
  where
    name_char-ne : (c : ℕ) → is_name_char c ≡ true → c ≢ 0
    name_char-ne c e = ground arith

and_true : (a b : Bool) → (a && b) ≡ true → (a ≡ true) × (b ≡ true)
and_true true true h = (refl, refl)
and_true true false h = cc
and_true false b h = cc

leb→le : (a b : ℕ) → leb a b ≡ true → a ≤ b
leb→le a b h = ground arith

name_chars-ascii : (name : Bytes) → all_name_chars name ≡ true → all_ascii name ≡ true
name_chars-ascii [] h = refl
name_chars-ascii (c ∷ cs) h =
    let (now, later) = and_true _ _ h in rw (name_char-ascii c now) (name_chars-ascii cs later)
  where
    name_char-ascii : (c : ℕ) → is_name_char c ≡ true → ltb c 0x80 ≡ true
    name_char-ascii c e = ground arith

is_name-parts :
    (name : Bytes)
    → is_name name ≡ true
    → (1 ≤ length name) × (length name ≤ 8) × All (λ c. c ≢ 0) name × (all_ascii name ≡ true)
unfolding is_name
is_name-parts name h =
    let (front, chars) = and_true _ _ h in
    let (lo, hi) = and_true _ _ front in
    (
      leb→le 1 (length name) lo,
      leb→le (length name) 8 hi,
      name_chars-ne name chars,
      name_chars-ascii name chars,
    )

type_of_locked : (locked : Bool) → (type_of locked == 0x06) ≡ locked
type_of_locked true = refl
type_of_locked false = refl

-- A file that `make_8xp` builds is read back by `parse_8xp`: the same name, the type of a locked or
-- an unlocked program as it was asked for, and the body behind its size. The body has at most
-- 65533 bytes; a name that is not 1 to 8 characters out of A-Z and 0-9 is refused.
pub make_8xp-parse_8xp :
    (name body : Bytes) (locked : Bool)
    → length body < 65534
    → (is_name name ≡ true
        → (file : Bytes) × (make_8xp name body locked ≡ some file)
          × (parse_8xp file
              ≡ some (record {
                name = name;
                type_id = type_of locked;
                locked = locked;
                payload = size_bytes (length body) ++ body;
              })))
      × (is_name name ≡ false → make_8xp name body locked ≡ none)
unfolding make_8xp
make_8xp-parse_8xp name body locked lt = (accepts, λ no. rw no refl)
  where
    accepts :
        is_name name ≡ true
        → (file : Bytes) × (make_8xp name body locked ≡ some file)
          × (parse_8xp file
              ≡ some (record {
                name = name;
                type_id = type_of locked;
                locked = locked;
                payload = size_bytes (length body) ++ body;
              }))
    accepts ok =
        let (a, b, ne, ascii) = is_name-parts name ok in
        (
          _,
          rw ok refl,
          named_read name (type_of locked) (size_bytes (length body) ++ body) a b (omega arith)
                (omega arith)
                (ap all_ascii (rstrip-append_replicate 0 (8 - length name) name ne) ∙ ascii)
              ∙ ap
                  (λ n. some (record {
                    name = n;
                    type_id = type_of locked;
                    locked = type_of locked == 0x06;
                    payload = size_bytes (length body) ++ body;
                  }))
                  (rstrip-append_replicate 0 (8 - length name) name ne)
              ∙ ap
                  (λ b. some (record {
                    name = name;
                    type_id = type_of locked;
                    locked = b;
                    payload = size_bytes (length body) ++ body;
                  }))
                  (type_of_locked locked),
        )
