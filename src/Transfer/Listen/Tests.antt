-- ===== src/Transfer/Listen/Tests.antt =====
-- The loop at concrete inputs.
use gpti84_plus.Base.{
  ℕ, ◌≡◌, refl, List, [], ◌∷◌, ◌++◌, Option, none, some, Bool, true, false, ◌&&◌, arith,
}
use gpti84_plus.Base.Bytes.{Bytes}
use gpti84_plus.Link.{steady}
use gpti84_plus.Transfer.{header_type, header_name}
use gpti84_plus.Transfer.Listen.{Config, returned, type_passes, name_passes, listen_loop}
use gpti84_plus.Transfer.Listen.Several.{offers, takings, call_all, listen_loop-call_all}

-- A callback that keeps the payloads.
abbrev keep : ℕ → Bytes → Bytes → Bytes → List Bytes → Bool × List Bytes
keep type_id name8 hdr bs s = (true, bs ∷ s)

abbrev keeping : Option ℕ → Config (List Bytes)
keeping t = record { name8 = none; expected_type = t; on_var = some keep; on_req = none }

abbrev header_a : Bytes
header_a = 9 ∷ 0 ∷ 0 ∷ b'A' ∷ 0 ∷ 0 ∷ 0 ∷ 0 ∷ 0 ∷ 0 ∷ 0 ∷ 0 ∷ 0 ∷ []

abbrev real_two : Bytes
real_two = 0 ∷ 0x80 ∷ 0x20 ∷ 0 ∷ 0 ∷ 0 ∷ 0 ∷ 0 ∷ 0 ∷ []

all_types : type_passes none (header_type header_a) ≡ true
unfolding type_passes
all_types = refl

all_names : name_passes none (header_name header_a) ≡ true
unfolding name_passes
all_names = refl

not_program :
    type_passes (some 5) (header_type header_a) && name_passes none (header_name header_a) ≡ false
unfolding type_passes
not_program = refl

-- Two reals of the same name, and one bit behind the pause.
abbrev two_reals : List (Bytes × Bytes)
two_reals = (header_a, real_two) ∷ (header_a, real_two) ∷ []

both_kept : call_all (keeping none) keep two_reals [] ≡ (true, real_two ∷ real_two ∷ [])
unfolding type_passes name_passes
both_kept = refl

listen_loop-call_all_example :
    listen_loop 3 false (keeping none) (steady (offers 0x73 two_reals (some true ∷ [])) []) []
    ≡ (returned, steady (some true ∷ []) ([] ++ takings 0x73 two_reals), real_two ∷ real_two ∷ [])
listen_loop-call_all_example =
    listen_loop-call_all (keeping none) keep 3 0x73 two_reals (some true ∷ []) [] []
      (real_two ∷ real_two ∷ []) refl (omega arith) (omega arith) (omega arith) both_kept
