-- ===== src/VarTypes/Header.antt =====
-- What the header of `make_var_header` carries.
use gpti84_plus.Base.{
  ℕ, ◌/◌, ◌%◌, ◌≡◌, ◌≢◌, inl, inr, [], ◌∷◌, ◌++◌, none, some, true, false, ◌==◌, if◌then◌else◌,
  length, length-append, take, drop, get_or, take-append, take-le, All, All-append, Bool-cases,
  arith,
}
use mathlib.Core.Path.{refl, subst}
use mathlib.Core.Option.{some-injective}
use gpti84_plus.Base.Bytes.{Bytes, IsByte, word}
use gpti84_plus.VarTypes.{make_var_header}

-- The size of a header: 11 bytes under the TI-82 protocol, 13 under the others.
abbrev pub header_length : ℕ → ℕ
header_length proto = if proto == 82 then 11 else 13

pub record IsHeader (size type_id : ℕ) (name8 : Bytes) (proto : ℕ) (hdr : Bytes) : Type 0 where
  pub has_length : length hdr ≡ header_length proto
  pub has_size : word (get_or hdr 0 0) (get_or hdr 1 0) ≡ size % 65536
  pub has_type : get_or hdr 2 0 ≡ type_id
  pub has_name : take 8 (drop 3 hdr) ≡ name8

take_name : (name8 rest : Bytes) → length name8 ≡ 8 → take 8 (name8 ++ rest) ≡ name8
take_name name8 rest e = rw e at (take-append name8 rest)

short-IsHeader :
    (size type_id proto : ℕ) (name8 : Bytes)
    → length name8 ≡ 8
    → (proto == 82) ≡ true
    → IsHeader size type_id name8 proto (size % 256 ∷ size / 256 % 256 ∷ type_id ∷ name8)
short-IsHeader size type_id proto name8 e p = record {
  has_length = ground arith;
  has_size = omega arith;
  has_type = refl;
  has_name = take-le 8 name8 (omega arith);
}

long-IsHeader :
    (size type_id proto : ℕ) (name8 : Bytes)
    → length name8 ≡ 8
    → (proto == 82) ≡ false
    → IsHeader size type_id name8 proto
        ((size % 256 ∷ size / 256 % 256 ∷ type_id ∷ name8) ++ (0 ∷ 0 ∷ []))
long-IsHeader size type_id proto name8 e p = record {
  has_length = rw (p, length-append name8 (0 ∷ 0 ∷ [])) (omega arith);
  has_size = omega arith;
  has_type = refl;
  has_name = take_name name8 (0 ∷ 0 ∷ []) e;
}

-- A name of eight bytes always has a header, and from it the size modulo 2 ^ 16, the type and the name
-- are read back where the receiving side looks for them. Any other name is refused.
pub make_var_header-IsHeader :
    (size type_id proto : ℕ) (name8 : Bytes)
    → (length name8 ≡ 8
        → (hdr : Bytes) × (make_var_header size type_id name8 proto ≡ some hdr)
          × IsHeader size type_id name8 proto hdr)
      × (length name8 ≢ 8 → make_var_header size type_id name8 proto ≡ none)
unfolding make_var_header
make_var_header-IsHeader size type_id proto name8 = (accepts, λ ne. ground arith)
  where
    accepts :
        length name8 ≡ 8
        → (hdr : Bytes) × (make_var_header size type_id name8 proto ≡ some hdr)
          × IsHeader size type_id name8 proto hdr
    accepts e = elim (Bool-cases (proto == 82)) [
      | inl p ↦ (_, rw (e, p), short-IsHeader size type_id proto name8 e p)
      | inr p ↦ (_, rw (e, p), long-IsHeader size type_id proto name8 e p)
    ]

-- Its elements are bytes.
pub make_var_header-IsByte :
    (size type_id proto : ℕ) (name8 : Bytes) {hdr : Bytes}
    → IsByte type_id
    → All IsByte name8
    → make_var_header size type_id name8 proto ≡ some hdr
    → All IsByte hdr
unfolding make_var_header
make_var_header-IsByte size type_id proto name8 {hdr} ht hn e =
    elim (Bool-cases (length name8 == 8)) [
      | inl ok ↦ elim (Bool-cases (proto == 82)) [
        | inl p ↦ subst (All IsByte) (some-injective _ _ (rw (ok, p) at e)) base
        | inr p ↦ subst (All IsByte) (some-injective _ _ (rw (ok, p) at e)) (
            All-append IsByte (size % 256 ∷ size / 256 % 256 ∷ type_id ∷ name8) _ base
              (omega arith))
      ]
      | inr bad ↦ cc
    ]
  where
    base : All IsByte (size % 256 ∷ size / 256 % 256 ∷ type_id ∷ name8)
    base = (omega arith, (omega arith, (ht, hn)))
