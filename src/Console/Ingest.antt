-- ===== src/Console/Ingest.antt =====
-- What a POST comes to.
use gpti84_plus.Base.{◌≡◌, ◌⊎◌, inl, inr, refl, Option, none, some, Bool-cases}
use gpti84_plus.Base.Bytes.{Bytes}
use gpti84_plus.Console.{
  Body, Store, insert, Reply, server_error, loopback_only, missing_fields, bad_direction, answered,
  ingest_body, is_loopback, has_required, known_direction, ingest,
}

-- A POST is refused, or its body goes to the store.
abbrev pub Came : Option Body → Store → Reply × Store → Type 0
Came body s out =
    ((reason : Reply) × (out ≡ (reason, s)))
    ⊎ ((b : Body) × (body ≡ some b) × (out ≡ answered s (insert b s)))

body_cases : (body : Option Body) (s : Store) → Came body s (ingest_body body s)
body_cases none s = inl (server_error, refl)
body_cases (some b) s = elim (Bool-cases (has_required b)) [
  | inl there ↦ elim (Bool-cases (known_direction b.direction)) [
    | inl known ↦ rw there (rw known (inr (b, refl, refl)))
    | inr unknown ↦ rw there (rw unknown (inl (bad_direction, refl)))
  ]
  | inr lacks ↦ rw lacks (inl (missing_fields, refl))
]

pub ingest_cases :
    (host : Option Bytes) (body : Option Body) (s : Store) → Came body s (ingest host body s)
unfolding ingest
ingest_cases host body s = elim (Bool-cases (is_loopback host)) [
  | inl inside ↦ rw inside (body_cases body s)
  | inr outside ↦ rw outside (inl (loopback_only, refl))
]
