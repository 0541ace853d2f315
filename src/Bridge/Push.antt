-- ===== src/Bridge/Push.antt =====
-- The push of a paginated reply to the calculator. A `send_var` that raises counts as refused, and
-- the pauses between the pushes are not modelled.
pub mod Steady
use gpti84_plus.Base.{
  ℕ, ◌+◌, ◌-◌, ◌*◌, ◌%◌, List, [], ◌∷◌, ◌++◌, Option, none, some, Bool, ◌==◌, if◌then◌else◌, length,
  take, replicate,
}
use gpti84_plus.Base.Bytes.{Bytes, codes}
use gpti84_plus.Base.Text.{decimal}
use gpti84_plus.Link.{Link, Io, pure, give_up, continue, ◌>>=◌, ◌>>◌}
use gpti84_plus.VarTypes.{
  str_name, real_name, str_index, str_field, is_upper, t_string, t_real, encode_natural,
}
use gpti84_plus.Transfer.{Call, send_var}
use gpti84_plus.Bridge.{ascii_to_str_payload, parse_pages_frame}

abbrev named : Option Bytes → List Bytes → List Bytes
named none names = names
named (some n) names = n ∷ names

-- Str3 to Str9, then Str0.
pub page_str_names : List Bytes
unfolding str_name str_index str_field
page_str_names = named (str_name 3) (
    named (str_name 4) (
      named (str_name 5) (
        named (str_name 6)
          (named (str_name 7) (named (str_name 8) (named (str_name 9) (named (str_name 0) [])))))))

abbrev pub max_pages : ℕ
max_pages = 8

abbrev pub settle : {A : Type 0} → Link → Option (Option A × Link) → Option A × Link
settle l none = (none, l)
settle l (some r) = r

-- `except Exception: return False`
abbrev pub caught : {A : Type 0} → Call A → Io A
caught c l = settle l (c l)

pub push_one_str : Bytes → Bytes → Io (Unit {0})
push_one_str name8 text = caught (send_var t_string name8 (ascii_to_str_payload text) 0x73)

pub push_pagecount : ℕ → Io (Unit {0})
unfolding real_name
push_pagecount n = elim (real_name (codes "N")) [
  | none ↦ give_up
  | some name ↦ caught (send_var t_real name (encode_natural n) 0x73)
]

-- The loop over the pages. There are no more pages than names.
pub push_pages : List Bytes → List Bytes → Io (Unit {0})
unfolding push_one_str
push_pages names [] = pure tt
push_pages [] (page ∷ pages) = give_up
push_pages (name ∷ names) (page ∷ pages) = do push_one_str name page; push_pages names pages

push_counted : List Bytes → Io (Unit {0})
unfolding push_pages push_pagecount
push_counted [] = give_up
push_counted (p ∷ ps) = do push_pages page_str_names (p ∷ ps); push_pagecount (length (p ∷ ps))

pub push_paginated_reply : Bytes → Io (Unit {0})
unfolding push_counted
push_paginated_reply frame = push_counted (take max_pages (parse_pages_frame frame))
