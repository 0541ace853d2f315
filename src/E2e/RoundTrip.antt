-- ===== src/E2e/RoundTrip.antt =====
-- The round trip of a program: what its verdict says, and a program file on its whole way.
use gpti84_plus.Base.{
  ℕ, ◌≡◌, ◌⊎◌, ◌∙◌, refl, sym, ap, Option, none, some, Bool, if◌then◌else◌, length, Option-cases,
  inl, inr,
}
use mathlib.Core.Path.{subst}
use gpti84_plus.Base.Bytes.{Bytes}
use gpti84_plus.Link.{Link}
use gpti84_plus.VarTypes.{t_prog, t_prog_locked, prog_name}
use gpti84_plus.Transfer.{req_var}
use gpti84_plus.Transfer.Shortcuts.{put_prog, put_prog_83p}
use gpti84_plus.Transfer.SendVar.{send_var_made}
use gpti84_plus.Transfer.Request.{req_var_made}
use gpti84_plus.VarTypes.Names.{prog_name_field}
use gpti84_plus.Bridge.Push.Steady.{header, header_made}
use gpti84_plus.E2e.{
  Ended, finished, uncaught, exited, differs, compared, requested, pushed, request_back,
  run_roundtrip,
}
use gpti84_plus.E2e.Compare.{Judged, compared-Judged}

abbrev pub type_byte : Bool → ℕ
type_byte locked = if locked then t_prog_locked else t_prog

-- What must have happened for each end of the script: with the link `l` before it.
abbrev pub Told : Bytes → Bytes → Bool → Link → Ended × Link → Type 0
Told name payload locked l (uncaught, l') = (prog_name name ≡ none) × (l' ≡ l)
Told name payload locked l (exited n, l') =
    ((n ≡ 1) × (put_prog_83p name payload locked l ≡ some (none, l')))
    ⊎ ((n ≡ 2)
        × (m : Link) × (name8 : Bytes) × (put_prog_83p name payload locked l ≡ some (some tt, m))
        × (req_var (type_byte locked) name8 0x73 m ≡ some (none, l')))
Told name payload locked l (e, l') =
    (m : Link) × (name8 : Bytes) × (hdr : Bytes) × (got : Bytes) × (prog_name name ≡ some name8)
    × (put_prog_83p name payload locked l ≡ some (some tt, m))
    × (req_var (type_byte locked) name8 0x73 m ≡ some (some (hdr, got), l'))
    × Judged payload got e

module _ (name payload : Bytes) (locked : Bool) (l : Link) where
  verdict-Told :
      (m k : Link) (name8 hdr got : Bytes) (v : Ended)
      → prog_name name ≡ some name8
      → put_prog_83p name payload locked l ≡ some (some tt, m)
      → req_var (type_byte locked) name8 0x73 m ≡ some (some (hdr, got), k)
      → Judged payload got v
      → Told name payload locked l (v, k)
  verdict-Told m k name8 hdr got finished e put back j = (m, name8, hdr, got, e, put, back, j)
  verdict-Told m k name8 hdr got (differs at) e put back j = (m, name8, hdr, got, e, put, back, j)
  verdict-Told m k name8 hdr got uncaught e put back j = elim j [ ]
  verdict-Told m k name8 hdr got (exited n) e put back j = elim j [ ]

  requested-Told :
      (m : Link) (name8 : Bytes) (r : Option (Bytes × Bytes) × Link)
      → prog_name name ≡ some name8
      → put_prog_83p name payload locked l ≡ some (some tt, m)
      → req_var (type_byte locked) name8 0x73 m ≡ some r
      → Told name payload locked l (requested payload m (some r))
  requested-Told m name8 (none, k) e put back = inr (refl, m, name8, put, back)
  requested-Told m name8 (some (hdr, got), k) e put back =
      verdict-Told m k name8 hdr got (compared payload got) e put back (compared-Judged payload got)

  pushed-Told :
      (name8 : Bytes) (r : Option (Unit {0}) × Link)
      → prog_name name ≡ some name8
      → put_prog_83p name payload locked l ≡ some r
      → Told name payload locked l
          (pushed (λ m. request_back locked (some name8) payload m) l (some r))
  pushed-Told name8 (none, m) e put = inl (refl, put)
  pushed-Told name8 (some tt, m) e put =
      let (r, back) =
        req_var_made (type_byte locked) 0x73 name8 (header 0 (type_byte locked) name8) m
          (header_made 0 (type_byte locked) name8 (prog_name_field name name8 e).0) in
      subst (λ o. Told name payload locked l (requested payload m o)) (sym back)
        (requested-Told m name8 r e put back)

  put_made :
      (name8 : Bytes)
      → prog_name name ≡ some name8
      → (r : Option (Unit {0}) × Link) × (put_prog_83p name payload locked l ≡ some r)
  unfolding put_prog_83p put_prog
  put_made name8 e =
      let size = length payload in
      let (r, s) =
        send_var_made (type_byte locked) 0x73 name8 payload (header size (type_byte locked) name8) l
          (header_made size (type_byte locked) name8 (prog_name_field name name8 e).0) in
      (r, rw e s)

  roundtrip_runs :
      (name8 : Bytes) (r : Option (Unit {0}) × Link)
      → prog_name name ≡ some name8
      → put_prog_83p name payload locked l ≡ some r
      → run_roundtrip name payload locked l
        ≡ pushed (λ m. request_back locked (some name8) payload m) l (some r)
  unfolding run_roundtrip
  roundtrip_runs name8 r e put =
      ap (λ o. pushed (λ m. request_back locked o payload m) l (put_prog_83p name payload locked l))
        e
      ∙ ap (pushed (λ m. request_back locked (some name8) payload m) l) put

  -- The script ends in success only if the push succeeded and the same bytes came back for the name
  -- and the type that were sent; with code 3 only if other bytes came back, and the index in the log
  -- is the first at which they differ, or one of the two starts with the other; with 2 only if
  -- the push succeeded and the request failed; with 1 only if the push failed; and with an exception
  -- only if the name is no program name, and then nothing is sent.
  pub run_roundtrip-Told : Told name payload locked l (run_roundtrip name payload locked l)
  unfolding run_roundtrip put_prog_83p put_prog
  run_roundtrip-Told = elim (Option-cases (prog_name name)) [
    | inl e ↦ rw e (e, refl)
    | inr (name8, e) ↦
        let (r, put) = put_made name8 e in
        subst (Told name payload locked l) (sym (roundtrip_runs name8 r e put))
          (pushed-Told name8 r e put)
  ]
