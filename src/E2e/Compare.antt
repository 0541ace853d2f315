-- ===== src/E2e/Compare.antt =====
-- The comparison at the end of the round trip.
use gpti84_plus.Base.{
  ℕ, ◌≡◌, ◌≢◌, ◌↔◌, ◌⊎◌, refl, ap, [], ◌∷◌, Option, none, some, true, ◌==◌, both, ==_iff, ==_refl,
  ==_false→ne, length, take, get_elem?, Bool-cases, inl, inr,
}
use mathlib.Core.Path.{subst}
use gpti84_plus.Base.Bytes.{Bytes, same_bytes}
use gpti84_plus.Bridge.{one_on}
use gpti84_plus.E2e.{Ended, finished, uncaught, exited, differs, first_diff, compared}

pub same_bytes_iff : (p q : Bytes) → (same_bytes p q ≡ true) ↔ (p ≡ q)
same_bytes_iff p q = (same p q, λ e. subst (λ t. same_bytes p t ≡ true) e (whole p))
  where
    same : (p q : Bytes) → same_bytes p q ≡ true → p ≡ q
    same [] [] e = refl
    same [] (d ∷ q) e = cc
    same (c ∷ p) [] e = cc
    same (c ∷ p) (d ∷ q) e =
        let (first, rest) = both (c == d) (same_bytes p q) e in
        let tail = same p q rest in let head = (==_iff c d).0 first in cc

    whole : (p : Bytes) → same_bytes p p ≡ true
    whole [] = refl
    whole (c ∷ p) = rw (==_refl c) (whole p)

-- The first index at which two byte strings differ; with none, one of them starts with the other.
abbrev pub Diverges : Bytes → Bytes → Option ℕ → Type 0
Diverges p q none = (take (length q) p ≡ q) ⊎ (take (length p) q ≡ p)
Diverges p q (some i) =
    (take i p ≡ take i q)
    × (a : ℕ) × (b : ℕ) × (get_elem? p i ≡ some a)
    × (get_elem? q i ≡ some b)
    × (a ≢ b)

one_on-Diverges :
    (c : ℕ) (p q : Bytes) (o : Option ℕ) → Diverges p q o → Diverges (c ∷ p) (c ∷ q) (one_on o)
one_on-Diverges c p q none (inl e) = inl (ap (λ t. c ∷ t) e)
one_on-Diverges c p q none (inr e) = inr (ap (λ t. c ∷ t) e)
one_on-Diverges c p q (some i) (e, a, b, ha, hb, ne) = (ap (λ t. c ∷ t) e, a, b, ha, hb, ne)

pub first_diff-Diverges : (p q : Bytes) → Diverges p q (first_diff p q)
unfolding first_diff
first_diff-Diverges [] q = inr refl
first_diff-Diverges (c ∷ p) [] = inl refl
first_diff-Diverges (c ∷ p) (d ∷ q) = elim (Bool-cases (c == d)) [
  | inl e ↦ rw e (
      subst (λ x. Diverges (c ∷ p) (x ∷ q) (one_on (first_diff p q))) ((==_iff c d).0 e)
        (one_on-Diverges c p q (first_diff p q) (first_diff-Diverges p q)))
  | inr e ↦ rw e (refl, c, d, refl, refl, ==_false→ne c d e)
]

-- The verdict on what came back.
abbrev pub Judged : Bytes → Bytes → Ended → Type 0
Judged payload got finished = got ≡ payload
Judged payload got (differs at) = (got ≢ payload) × Diverges payload got at
Judged payload got uncaught = ⊥
Judged payload got (exited n) = ⊥

pub compared-Judged : (payload got : Bytes) → Judged payload got (compared payload got)
unfolding compared
compared-Judged payload got = elim (Bool-cases (same_bytes got payload)) [
  | inl e ↦ rw e ((same_bytes_iff got payload).0 e)
  | inr e ↦
      rw e
        ((λ g. let yes = (same_bytes_iff got payload).1 g in cc), first_diff-Diverges payload got)
]
