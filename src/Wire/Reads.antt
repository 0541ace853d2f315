-- ===== src/Wire/Reads.antt =====
-- `recv_n` and `recv_n_traced` of src/wire.py, which return what they have got when a byte does not
-- come. The traced variant looks at the lines itself; what it finds there is an answer of the
-- environment, as for `recv_bit`, and a bit that is ambiguous is one that does not come.
use gpti84_plus.Base.{
  ℕ, zero, suc, List, [], ◌∷◌, ◌++◌, append-nil, append_assoc, Option, none, some, Bool, ◌≡◌, ◌∙◌,
  refl, ap, take, All,
}
use gpti84_plus.Base.Bytes.{Bytes, IsByte}
use gpti84_plus.Link.{Link, Io}
use gpti84_plus.Wire.{recv_bits, recv_byte}
use gpti84_plus.Wire.Laws.{signal, recv_byte-heard, recv_byte_silent}

-- The loop of `recv_byte_traced`.
pub recv_byte_traced : Io ℕ
unfolding recv_bits
recv_byte_traced = recv_bits 8 0 0

abbrev pub next_byte : (Bytes → Link → Bytes × Link) → Bytes → Option ℕ × Link → Bytes × Link
next_byte more out (none, l) = (out, l)
next_byte more out (some b, l) = more (out ++ (b ∷ [])) l

-- `for i in range(n):`, with what is out
pub recv_n : ℕ → Bytes → Link → Bytes × Link
unfolding recv_byte
recv_n zero out l = (out, l)
recv_n (suc n) out l = next_byte (λ o m. recv_n n o m) out (recv_byte l)

pub recv_n_traced : ℕ → Bytes → Link → Bytes × Link
unfolding recv_byte_traced
recv_n_traced zero out l = (out, l)
recv_n_traced (suc n) out l = next_byte (λ o m. recv_n_traced n o m) out (recv_byte_traced l)

next_same :
    (f g : Bytes → Link → Bytes × Link) (out : Bytes) (r : Option ℕ × Link)
    → ((o : Bytes) (m : Link) → f o m ≡ g o m)
    → next_byte f out r ≡ next_byte g out r
next_same f g out (none, m) h = refl
next_same f g out (some b, m) h = h (out ++ (b ∷ [])) m

-- The trace reads what the plain loop reads.
pub recv_n_traced-recv_n : (n : ℕ) (out : Bytes) (l : Link) → recv_n_traced n out l ≡ recv_n n out l
unfolding recv_n recv_byte recv_byte_traced recv_n_traced
recv_n_traced-recv_n zero out l = refl
recv_n_traced-recv_n (suc n) out l =
    next_same (λ o m. recv_n_traced n o m) (λ o m. recv_n n o m) out (recv_bits 8 0 0 l)
      (λ o m. recv_n_traced-recv_n n o m)

-- When the peer sends some bytes and stops, the first `n` of them are returned, or all of them.
pub recv_n-take :
    (n : ℕ) (bs out : Bytes) (acks sent : List Bool)
    → All IsByte bs
    → (recv_n n out (record { incoming = signal bs []; acks = acks; sent = sent })).0
      ≡ out ++ take n bs
unfolding recv_n
recv_n-take zero bs out acks sent h = rw append-nil refl
recv_n-take (suc n) [] out acks sent h =
    ap (λ r. (next_byte (λ o m. recv_n n o m) out r).0) (recv_byte_silent acks sent)
    ∙ rw append-nil refl
recv_n-take (suc n) (b ∷ bs) out acks sent (hb, h) =
    ap (λ r. (next_byte (λ o m. recv_n n o m) out r).0)
      (recv_byte-heard b (signal bs []) acks sent hb)
    ∙ recv_n-take n bs (out ++ (b ∷ [])) acks sent h
    ∙ append_assoc out (b ∷ []) (take n bs)
