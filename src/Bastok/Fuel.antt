-- ===== src/Bastok/Fuel.antt =====
-- The fuel of the tokenizer.
use gpti84_plus.Base.{
  ℕ, zero, suc, ◌≤◌, ◌≡◌, refl, ap, List, [], ◌∷◌, Option, none, some, Bool, true, false, ◌==◌,
  length, length-drop, All, Bool-cases, inl, inr, arith,
}
use gpti84_plus.Base.Bytes.{Bytes}
use gpti84_plus.Base.Text.{starts_with}
use gpti84_plus.Bastok.{
  keywords, punct, punct_token, is_name_char, Round, plain_round, keyword_round, string_round,
  round, emit_before, tokenize_loop, tokenize,
}

-- What a round leaves, if it does not fail.
abbrev Leaves : ℕ → Option Round → Type 0
Leaves n none = Unit
Leaves n (some r) = length r.left ≤ n

abbrev NonEmpty : Bytes × Bytes → Type 0
NonEmpty p = 1 ≤ length p.0

string_round-Leaves : (c : ℕ) (cs : Bytes) → Leaves (length cs) (string_round c cs)
unfolding string_round
string_round-Leaves c cs = elim (Bool-cases (c == b'"')) [
  | inl e ↦ rw e (omega arith)
  | inr e ↦
      rw e
        (elim (Bool-cases (c == b'\n')) [ inl n ↦ rw n (omega arith) | inr n ↦ rw n (omega arith) ])
]

plain_round-Leaves : (t : Option ℕ) (cs : Bytes) → Leaves (length cs) (plain_round t cs)
plain_round-Leaves none cs = tt
plain_round-Leaves (some t) cs = omega arith

keyword_round-Leaves :
    (table : List (Bytes × Bytes)) (c : ℕ) (cs : Bytes)
    → All NonEmpty table
    → Leaves (length cs) (keyword_round table c cs)
unfolding keyword_round
keyword_round-Leaves [] c cs h = elim (Bool-cases (is_name_char c)) [
  | inl e ↦ rw e (omega arith)
  | inr e ↦ rw e (plain_round-Leaves (punct_token punct c) cs)
]
keyword_round-Leaves ((kw, toks) ∷ table) c cs (hk, h) =
    let later = keyword_round-Leaves table c cs h in
    elim (Bool-cases (starts_with kw (c ∷ cs))) [
      | inl e ↦ rw e (omega (arith, hk, length-drop (length kw) (c ∷ cs)))
      | inr e ↦ rw e later
    ]

keywords-NonEmpty : All NonEmpty keywords
keywords-NonEmpty = omega arith

round-Leaves : (m : Bool) (c : ℕ) (cs : Bytes) → Leaves (length cs) (round m c cs)
unfolding round
round-Leaves true c cs = string_round-Leaves c cs
round-Leaves false c cs = elim (Bool-cases (c == b'\r')) [
  | inl e ↦ rw e (omega arith)
  | inr e ↦ rw e (elim (Bool-cases (c == b'\n')) [
    | inl n ↦ rw n (omega arith)
    | inr n ↦ rw n (elim (Bool-cases (c == b' ')) [
      | inl b ↦ rw b (omega arith)
      | inr b ↦ rw b (elim (Bool-cases (c == b'"')) [
        | inl q ↦ rw q (omega arith)
        | inr q ↦ rw q (keyword_round-Leaves keywords c cs keywords-NonEmpty)
      ])
    ])
  ])
]

same_fuel :
    (f g : ℕ) (m : Bool) (s : Bytes)
    → length s ≤ f
    → length s ≤ g
    → tokenize_loop f m s ≡ tokenize_loop g m s
unfolding tokenize_loop
same_fuel zero zero m s lf lg = refl
same_fuel zero (suc g) m [] lf lg = refl
same_fuel zero (suc g) m (c ∷ cs) lf lg = absurd (omega arith)
same_fuel (suc f) zero m [] lf lg = refl
same_fuel (suc f) zero m (c ∷ cs) lf lg = absurd (omega arith)
same_fuel (suc f) (suc g) m [] lf lg = refl
same_fuel (suc f) (suc g) m (c ∷ cs) lf lg =
    after (round m c cs) (round-Leaves m c cs) (λ n s a b. same_fuel f g n s a b) (omega arith)
      (omega arith)
  where
    after :
        (o : Option Round)
        → Leaves (length cs) o
        → ((n : Bool) (s : Bytes)
            → length s ≤ f
            → length s ≤ g
            → tokenize_loop f n s ≡ tokenize_loop g n s)
        → length cs ≤ f
        → length cs ≤ g
        → elim o [
          | none ↦ none
          | some r ↦ emit_before r.emitted (tokenize_loop f r.in_string r.left)
        ]
          ≡ elim o [
            | none ↦ none
            | some r ↦ emit_before r.emitted (tokenize_loop g r.in_string r.left)
          ]
    after none h ih a b = refl
    after (some r) h ih a b =
        ap (emit_before r.emitted) (ih r.in_string r.left (omega arith) (omega arith))

-- The tokenizer ends by itself: with any fuel from the length of the source on, the loop gives what
-- `tokenize` gives.
pub tokenize_loop-tokenize :
    (f : ℕ) (source : Bytes) → length source ≤ f → tokenize_loop f false source ≡ tokenize source
unfolding tokenize
tokenize_loop-tokenize f source le = same_fuel f (length source) false source le (omega arith)
