-- ===== src/Net/WebSocket/Unmask.antt =====
-- A server's reading of what `_send_message` writes, after RFC 6455.
use Prim.Native.Nat.{bit_xor}
use gpti84_plus.Base.{
  ℕ, zero, suc, ◌+◌, ◌*◌, ◌/◌, ◌%◌, ◌^◌, ◌<◌, ◌≡◌, ◌∙◌, refl, sym, ap, List, [], ◌∷◌, ◌++◌,
  append-nil, append_assoc, true, false, ◌==◌, ==_iff, ltb, lt→ltb, ltb→lt, if◌then◌else◌, length,
  get_or, take, drop, take-append, drop-append, All, Bool-cases, inl, inr, arith,
}
use gpti84_plus.Base.Below.{passes_below, passes_below-true}
use gpti84_plus.Base.Bytes.{Bytes, IsByte}
use gpti84_plus.Net.WebSocket.{message_header, apply_mask}

xor_table : passes_below (λ m. passes_below (λ x. bit_xor (bit_xor x m) m == x) 256) 256 ≡ true
unfolding passes_below
xor_table = refl

xor_twice : (x m : ℕ) → x < 256 → m < 256 → bit_xor (bit_xor x m) m ≡ x
xor_twice x m hx hm = (==_iff _ x).0 (
    passes_below-true (λ x. bit_xor (bit_xor x m) m == x) 256 x hx
      (passes_below-true (λ m. passes_below (λ x. bit_xor (bit_xor x m) m == x) 256) 256 m hm
        xor_table))

get_or-IsByte : (mask : Bytes) (i : ℕ) → All IsByte mask → IsByte (get_or mask i 0)
get_or-IsByte [] i h = omega arith
get_or-IsByte (m ∷ ms) zero (hm, h) = hm
get_or-IsByte (m ∷ ms) (suc i) (hm, h) = get_or-IsByte ms i h

-- Masking twice is no masking.
pub apply_mask_twice :
    (mask : Bytes) (i : ℕ) (p : Bytes)
    → All IsByte mask
    → All IsByte p
    → apply_mask mask i (apply_mask mask i p) ≡ p
unfolding apply_mask
apply_mask_twice mask i [] hm h = refl
apply_mask_twice mask i (c ∷ cs) hm (hc, h) =
    let rest = apply_mask_twice mask (suc i) cs hm h in
    rw (xor_twice c (get_or mask (i % 4) 0) hc (get_or-IsByte mask (i % 4) hm))
      (ap (λ x. c ∷ x) rest)

pub length-apply_mask : (mask : Bytes) (i : ℕ) (p : Bytes) → length (apply_mask mask i p) ≡ length p
unfolding apply_mask
length-apply_mask mask i [] = refl
length-apply_mask mask i (c ∷ cs) = ap suc (length-apply_mask mask (suc i) cs)

-- A number in big-endian bytes.
abbrev value : ℕ → Bytes → ℕ
value acc [] = acc
value acc (b ∷ bs) = value (acc * 256 + b) bs

-- How many bytes of a longer length follow the second byte, and the length.
abbrev extra : ℕ → ℕ
extra b2 = if b2 % 128 == 126 then 2 else if b2 % 128 == 127 then 8 else 0

abbrev length_of : ℕ → Bytes → ℕ
length_of b2 ext = if ltb (b2 % 128) 126 then b2 % 128 else value 0 ext

-- The opcode and the payload of a masked message in one frame, and what follows it.
abbrev payload_behind : ℕ → ℕ → Bytes → (ℕ × Bytes) × Bytes
payload_behind opcode n s =
    ((opcode, apply_mask (take 4 s) 0 (take n (drop 4 s))), drop n (drop 4 s))

abbrev read_rest : ℕ → ℕ → Bytes → (ℕ × Bytes) × Bytes
read_rest b1 b2 s = payload_behind (b1 % 16) (length_of b2 (take (extra b2) s)) (drop (extra b2) s)

abbrev pub server_reads : Bytes → (ℕ × Bytes) × Bytes
server_reads [] = ((0, []), [])
server_reads (b1 ∷ []) = ((0, []), [])
server_reads (b1 ∷ b2 ∷ s) = read_rest b1 b2 s

payload_read :
    (opcode : ℕ) (m0 m1 m2 m3 : ℕ) (p rest : Bytes)
    → All IsByte (m0 ∷ m1 ∷ m2 ∷ m3 ∷ [])
    → All IsByte p
    → payload_behind opcode
        (length p)
        (m0 ∷ m1 ∷ m2 ∷ m3 ∷ (apply_mask (m0 ∷ m1 ∷ m2 ∷ m3 ∷ []) 0 p ++ rest))
      ≡ ((opcode, p), rest)
payload_read opcode m0 m1 m2 m3 p rest hm hp =
    let mask = m0 ∷ m1 ∷ m2 ∷ m3 ∷ [] in
    let body = apply_mask mask 0 p in
    let len = length-apply_mask mask 0 p in
    let whole : take (length p) (body ++ rest) ≡ body =
      ap (λ n. take n (body ++ rest)) (sym len) ∙ take-append body rest in
    let behind : drop (length p) (body ++ rest) ≡ rest =
      ap (λ n. drop n (body ++ rest)) (sym len) ∙ drop-append body rest in
    ap (λ t. ((opcode, apply_mask mask 0 t), drop (length p) (body ++ rest))) whole
    ∙ ap (λ t. ((opcode, t), drop (length p) (body ++ rest))) (apply_mask_twice mask 0 p hm hp)
    ∙ ap (λ t. ((opcode, p), t)) behind

ne_test : (n k : ℕ) → n < k → (n == k) ≡ false
ne_test n k lt = ground arith

short_read :
    (b1 n : ℕ) (s : Bytes) → n < 126 → read_rest b1 (0x80 + n) s ≡ payload_behind (b1 % 16) n s
short_read b1 n s lt =
    let low : (0x80 + n) % 128 ≡ n = omega arith in
    rw low (rw (lt→ltb n 126 lt) (rw (ne_test n 126 lt) (rw (ne_test n 127 (omega arith)) refl)))

word_value : (n : ℕ) → n < 65536 → value 0 (n / 256 % 256 ∷ n % 256 ∷ []) ≡ n
word_value n lt = omega arith

long_value :
    (n : ℕ)
    → n < 2 ^ 64
    → value 0 (
        n / 2 ^ 56 % 256
        ∷ n / 2 ^ 48 % 256
        ∷ n / 2 ^ 40 % 256
        ∷ n / 2 ^ 32 % 256
        ∷ n / 2 ^ 24 % 256
        ∷ n / 2 ^ 16 % 256
        ∷ n / 2 ^ 8 % 256
        ∷ n % 256
        ∷ [])
      ≡ n
long_value n lt = omega arith

opcode_of : (opcode : ℕ) → (0x80 + opcode % 16) % 16 ≡ opcode % 16
opcode_of opcode = omega arith

header_read :
    (opcode n : ℕ) (s : Bytes)
    → n < 2 ^ 64
    → server_reads (message_header opcode n ++ s) ≡ payload_behind (opcode % 16) n s
unfolding message_header
header_read opcode n s lt = elim (Bool-cases (ltb n 126)) [
  | inl t ↦ rw t (
      short_read (0x80 + opcode % 16) n s (ltb→lt _ _ t)
      ∙ ap (λ o. payload_behind o n s) (opcode_of opcode))
  | inr t ↦ rw t (elim (Bool-cases (ltb n 65536)) [
    | inl k ↦ rw k (
        rw (opcode_of opcode)
          (ap (λ v. payload_behind (opcode % 16) v s) (word_value n (ltb→lt _ _ k))))
    | inr k ↦
        rw k (rw (opcode_of opcode) (ap (λ v. payload_behind (opcode % 16) v s) (long_value n lt)))
  ])
]

abbrev pub concat_all : List Bytes → Bytes
concat_all [] = []
concat_all (b ∷ bs) = b ++ concat_all bs

-- What a message is in the two writes of `_send_message`.
abbrev pub message : ℕ → Bytes → Bytes → List Bytes
message opcode mask [] = (message_header opcode 0 ++ mask) ∷ []
message opcode mask (c ∷ cs) =
    (message_header opcode (length (c ∷ cs)) ++ mask) ∷ apply_mask mask 0 (c ∷ cs) ∷ []

message_bytes :
    (opcode : ℕ) (mask p : Bytes)
    → concat_all (message opcode mask p)
      ≡ message_header opcode (length p) ++ (mask ++ apply_mask mask 0 p)
unfolding apply_mask
message_bytes opcode mask [] = append_assoc (message_header opcode 0) mask []
message_bytes opcode mask (c ∷ cs) =
    append_assoc (message_header opcode (length (c ∷ cs))) mask (apply_mask mask 0 (c ∷ cs) ++ [])
    ∙ ap (λ x. message_header opcode (length (c ∷ cs)) ++ (mask ++ x))
        (append-nil (apply_mask mask 0 (c ∷ cs)))

-- A server that reads frames as RFC 6455 says gets from the bytes of a message its opcode and its
-- payload, and is left with what stands behind it, if the mask has four bytes and the payload fewer
-- than 2 ^ 64.
pub server_reads-message :
    (opcode m0 m1 m2 m3 : ℕ) (p rest : Bytes)
    → All IsByte (m0 ∷ m1 ∷ m2 ∷ m3 ∷ [])
    → All IsByte p
    → length p < 2 ^ 64
    → server_reads (concat_all (message opcode (m0 ∷ m1 ∷ m2 ∷ m3 ∷ []) p) ++ rest)
      ≡ ((opcode % 16, p), rest)
server_reads-message opcode m0 m1 m2 m3 p rest hm hp lt =
    let mask = m0 ∷ m1 ∷ m2 ∷ m3 ∷ [] in
    ap (λ s. server_reads (s ++ rest)) (message_bytes opcode mask p)
    ∙ ap server_reads
        (append_assoc (message_header opcode (length p)) (mask ++ apply_mask mask 0 p) rest)
    ∙ header_read opcode (length p) ((mask ++ apply_mask mask 0 p) ++ rest) lt
    ∙ payload_read (opcode % 16) m0 m1 m2 m3 p rest hm hp
