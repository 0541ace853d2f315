-- ===== src/Link/Waiting.antt =====
-- How many answers of the link are still to come.
use gpti84_plus.Base.{
  ℕ, ◌≤◌, ◌≡◌, Option, none, some, Bool, true, false, if◌then◌else◌, length, arith,
}
use gpti84_plus.Link.{Link, Io, continue}

abbrev pub waiting : Link → ℕ
waiting l = length l.incoming

-- The action takes answers of the link and adds none.
abbrev pub Takes : {A : Type 0} → Io A → Type 0
Takes m = (l : Link) → waiting (m l).1 ≤ waiting l

pub continue-waiting :
    {A B : Type 0} (f : A → Io B) (r : Option A × Link) (n : ℕ)
    → waiting r.1 ≤ n
    → ((a : A) → Takes (f a))
    → waiting (continue f r).1 ≤ n
continue-waiting f (none, l) n h t = h
continue-waiting f (some a, l) n h t = omega (arith, h, t a l)

pub Takes-bind :
    {A B : Type 0} (m : Io A) (f : A → Io B)
    → Takes m
    → ((a : A) → Takes (f a))
    → Takes (λ l. continue f (m l))
Takes-bind m f tm tf l = continue-waiting f (m l) (waiting l) (tm l) tf

pub Takes-if : {A : Type 0} (b : Bool) (m k : Io A) → Takes m → Takes k → Takes (if b then m else k)
Takes-if true m k tm tk = tm
Takes-if false m k tm tk = tk

pub Takes-eq :
    {A : Type 0} (m : Io A) (l : Link) {r : Option A} {k : Link}
    → Takes m
    → m l ≡ (r, k)
    → waiting k ≤ waiting l
Takes-eq m l t e = rw e at (t l)
