-- ===== src/Console/Rows.antt =====
-- The rows of the table, and what a query makes of rows with ascending numbers.
use gpti84_plus.Base.{
  ℕ, zero, suc, ◌+◌, ◌≤◌, ◌<◌, List, [], ◌∷◌, ◌++◌, ◌≡◌, refl, ap, Bool-cases, inl, inr, ltb,
  lt→ltb, le→leb, le→ltb_false, ltb→lt, take, drop, arith,
}
use gpti84_plus.Console.{Row, Store, after, place, order_by_id, recent}

-- Numbers that ascend, above `n` and up to `m`.
abbrev pub Between : ℕ → List Row → ℕ → Type 0
Between n [] m = n ≤ m
Between n (r ∷ rs) m = (n < r.id) × Between r.id rs m

abbrev pub IsStore : Store → Type 0
IsStore s = Between 0 s.rows s.last

pub Between-append :
    (n m : ℕ) (rs : List Row) (r : Row)
    → Between n rs m
    → m < r.id
    → Between n (rs ++ (r ∷ [])) r.id
Between-append n m [] r h lt = (omega arith, omega arith)
Between-append n m (q ∷ rs) r (low, h) lt = (low, Between-append q.id m rs r h lt)

lower : (k n m : ℕ) (rs : List Row) → k ≤ n → Between n rs m → Between k rs m
lower k n m [] le h = omega arith
lower k n m (r ∷ rs) le (low, h) = (omega arith, h)

higher : (n m k : ℕ) (rs : List Row) → m ≤ k → Between n rs m → Between n rs k
higher n m k [] le h = omega arith
higher n m k (r ∷ rs) le (low, h) = (low, higher r.id m k rs le h)

place-Between : (r : Row) (m : ℕ) (rs : List Row) → Between r.id rs m → place r rs ≡ r ∷ rs
place-Between r m [] h = refl
place-Between r m (q ∷ rs) (low, h) = rw (le→leb r.id q.id (omega arith)) refl

order_by_id-Between : (n m : ℕ) (rs : List Row) → Between n rs m → order_by_id rs ≡ rs
unfolding order_by_id
order_by_id-Between n m [] h = refl
order_by_id-Between n m (r ∷ rs) (low, h) =
    rw (order_by_id-Between r.id m rs h) (place-Between r m rs h)

-- Rows above a bound are all that a query from there finds.
after_below : (a m : ℕ) (rs : List Row) → Between a rs m → after a rs ≡ rs
unfolding after
after_below a m [] h = refl
after_below a m (r ∷ rs) (low, h) =
    rw (lt→ltb a r.id low, after_below a m rs (lower a r.id m rs (omega arith) h)) refl

after-Between : (a n m : ℕ) (rs : List Row) → a ≤ m → Between n rs m → Between a (after a rs) m
unfolding after
after-Between a n m [] le h = le
after-Between a n m (r ∷ rs) le (low, h) = elim (Bool-cases (ltb a r.id)) [
  | inl lt ↦ rw lt (
    ltb→lt a r.id lt,
    rw (after_below a m rs (lower a r.id m rs (omega (arith, ltb→lt a r.id lt)) h)) h,
  )
  | inr ge ↦ rw ge (after-Between a r.id m rs le h)
]

pub after-after : (a b : ℕ) (rs : List Row) → a ≤ b → after b (after a rs) ≡ after b rs
unfolding after
after-after a b [] le = refl
after-after a b (r ∷ rs) le = grind (arith, after-after a b rs le)

pub after-append : (a : ℕ) (xs ys : List Row) → after a (xs ++ ys) ≡ after a xs ++ after a ys
unfolding after
after-append a [] ys = refl
after-append a (r ∷ xs) ys = ground (arith, after-append a xs ys)

-- Any bound leaves room above it.
pub after_ascends : (a m : ℕ) (rs : List Row) → Between 0 rs m → Between a (after a rs) (a + m)
after_ascends a m rs h =
    after-Between a 0 (a + m) rs (omega arith) (higher 0 m (a + m) rs (omega arith) h)

pub recent-after : (a k : ℕ) (s : Store) → IsStore s → recent a k s ≡ take k (after a s.rows)
unfolding recent
recent-after a k s h =
    ap (take k)
      (order_by_id-Between a (a + s.last) (after a s.rows) (after_ascends a s.last s.rows h))

-- The number of the last row of a page, or where the page began.
abbrev pub last_id : ℕ → List Row → ℕ
last_id a [] = a
last_id a (r ∷ rs) = last_id r.id rs

pub last_id_le : (k n m : ℕ) (rs : List Row) → Between n rs m → n ≤ last_id n (take k rs)
last_id_le zero n m rs h = omega arith
last_id_le (suc k) n m [] h = omega arith
last_id_le (suc k) n m (r ∷ rs) (low, h) = omega (arith, last_id_le k r.id m rs h)

-- From the last row of a page on come the rows that the page left.
pub after-last_id :
    (k n m : ℕ) (rs : List Row) → Between n rs m → after (last_id n (take k rs)) rs ≡ drop k rs
unfolding after
after-last_id zero n m rs h = after_below n m rs h
after-last_id (suc k) n m [] h = refl
after-last_id (suc k) n m (r ∷ rs) (low, h) =
    rw (le→ltb_false (last_id r.id (take k rs)) r.id (last_id_le k r.id m rs h))
      (after-last_id k r.id m rs h)
