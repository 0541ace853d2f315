-- ===== src/WsBridge/Preview.antt =====
-- The texts that the console shows of a frame.
use gpti84_plus.Base.{
  ℕ, ◌*◌, ◌/◌, ◌%◌, ◌≤◌, ◌<◌, [], ◌∷◌, ◌≡◌, refl, ltb, if◌then◌else◌, Bool-cases, inl, inr, length,
  length-append, length-take, length-map, map, take, All, All-append, All-take, arith,
}
use gpti84_plus.Base.Bytes.{Bytes, IsByte, IsPrintable, codes}
use gpti84_plus.WsBridge.{preview_bytes, hexlify, preview, shown, hex_digit}

hex_digit-IsPrintable : (d : ℕ) → d < 16 → IsPrintable (hex_digit d)
hex_digit-IsPrintable d h = ground arith

shown-IsPrintable : (b : ℕ) → IsPrintable (shown b)
shown-IsPrintable b = ground arith

hexlify-IsPrintable : (bs : Bytes) → All IsByte bs → All IsPrintable (hexlify bs)
unfolding hexlify
hexlify-IsPrintable [] h = tt
hexlify-IsPrintable (b ∷ bs) (hb, h) = (
  hex_digit-IsPrintable (b / 16) (omega arith),
  (hex_digit-IsPrintable (b % 16) (omega arith), hexlify-IsPrintable bs h),
)

length-hexlify : (bs : Bytes) → length (hexlify bs) ≡ 2 * length bs
unfolding hexlify
length-hexlify [] = refl
length-hexlify (b ∷ bs) = omega (arith, length-hexlify bs)

shown_all : (bs : Bytes) → All IsPrintable (map shown bs)
shown_all [] = tt
shown_all (b ∷ bs) = (shown-IsPrintable b, shown_all bs)

abbrev dots : Bytes → Bytes
dots bs = if ltb preview_bytes (length bs) then codes "..." else []

dots_cases : (bs : Bytes) → All IsPrintable (dots bs) × (length (dots bs) ≤ 3)
dots_cases bs = elim (Bool-cases (ltb preview_bytes (length bs))) [
  | inl more ↦ rw more (
    ((omega arith, omega arith), ((omega arith, omega arith), ((omega arith, omega arith), tt))),
    omega arith,
  )
  | inr all ↦ rw all (tt, omega arith)
]

-- Both texts are printable ASCII and bounded, however long the frame is: 131 characters of hex
-- digits and 67 of text at most.
pub preview-IsPrintable :
    (bs : Bytes)
    → All IsByte bs
    → All IsPrintable (preview bs).0
      × All IsPrintable (preview bs).1
      × (length (preview bs).0 ≤ 131)
      × (length (preview bs).1 ≤ 67)
unfolding preview
preview-IsPrintable bs h =
    let few = take preview_bytes bs in
    let short = length-take preview_bytes bs in
    let (clean, three) = dots_cases bs in
    (
      All-append _ (hexlify few) (dots bs) (hexlify-IsPrintable few (All-take _ preview_bytes bs h))
          clean,
      All-append _ (map shown few) (dots bs) (shown_all few) clean,
      omega (arith, short, three, length-hexlify few, length-append (hexlify few) (dots bs)),
      omega (arith, short, three, length-map shown few, length-append (map shown few) (dots bs)),
    )
