-- ===== src/Net/WebSocket/Upgrade/Delivery.antt =====
-- A response whose header is read without a byte of the frames behind it.
use gpti84_plus.Base.{
  ℕ, zero, suc, ◌+◌, ◌^◌, ◌≤◌, ◌<◌, List, [], ◌∷◌, ◌++◌, append-nil, append_assoc, ◌≡◌, ◌∙◌, refl,
  sym, ap, Option, some, Option-cases, Bool, true, false, inl, inr, le→ltb_false, if◌then◌else◌,
  length, length-append, take, drop, take-append, arith,
}
use mathlib.Core.Option.{some-injective}
use mathlib.Core.Path.{subst}
use gpti84_plus.Base.Bytes.{Bytes}
use gpti84_plus.Base.Text.Find.{find_text, find_text_le, find_text-append}
use gpti84_plus.Net.Stream.{Answer, chunk, nothing, os_error, bytes_of}
use gpti84_plus.Net.Reader.Progress.{AllChunks}
use gpti84_plus.Net.WebSocket.{Client}
use gpti84_plus.Net.WebSocket.Pump.Recv.{bytes, recv}
use gpti84_plus.Net.WebSocket.Pump.Within.{IsData, idle}
use gpti84_plus.Net.WebSocket.Pump.Delivery.{server_frame, recv-server_frame}
use gpti84_plus.Net.WebSocket.Upgrade.{
  blank_line, request, byte, read_one, whole, has_end, extended, read_head, is_switching, leftover,
  bad_status, split_head, with_head, do_handshake, new_client, connected, connect,
}

-- The header ends where its blank line is, and not before.
abbrev pub EndsAt : Bytes → ℕ → Type 0
EndsAt response k = (find_text blank_line response ≡ some k) × (length response ≡ k + 4)

found_end : (buf : Bytes) (k : ℕ) → find_text blank_line buf ≡ some k → has_end buf ≡ true
found_end buf k e = rw e refl

no_end :
    (done more : Bytes) (k : ℕ) → EndsAt (done ++ more) k → 0 < length more → has_end done ≡ false
no_end done more k (found, len) pos = elim (Option-cases (find_text blank_line done)) [
  | inl e ↦ rw e refl
  | inr (j, e) ↦ absurd (
      let same =
        some-injective _ _ (sym (find_text-append 13 (10 ∷ 13 ∷ 10 ∷ []) done more j e) ∙ found) in
      omega
        (arith, same, find_text_le 13 (10 ∷ 13 ∷ 10 ∷ []) done j e, len, length-append done more))
]

-- One byte of a stream that has bytes.
read_one-byte :
    (ans : List Answer) (c : ℕ) (more : Bytes)
    → AllChunks ans
    → bytes_of ans ≡ c ∷ more
    → (ans' : List Answer) × (read_one ans ≡ byte c ans') × (bytes_of ans' ≡ more) × AllChunks ans'
read_one-byte [] c more h e = cc
read_one-byte (nothing ∷ ans) c more h e = elim h [ ]
read_one-byte (os_error x ∷ ans) c more h e = elim h [ ]
read_one-byte (chunk [] ∷ ans) c more h e = elim h [ ]
read_one-byte (chunk (x ∷ []) ∷ ans) c more h e = (ans, cc, cc, h)
read_one-byte (chunk (x ∷ y ∷ xs) ∷ ans) c more h e = (chunk (y ∷ xs) ∷ ans, cc, cc, h)

read_head_done :
    (r k : ℕ) (done : Bytes) (ans : List Answer)
    → find_text blank_line done ≡ some k
    → read_head r done ans ≡ whole done ans
unfolding read_head
read_head_done zero k done ans e = rw (found_end done k e) refl
read_head_done (suc r) k done ans e = rw (found_end done k e) refl

read_head_byte :
    (r c : ℕ) (done : Bytes) (ans ans' : List Answer)
    → has_end done ≡ false
    → read_one ans ≡ byte c ans'
    → length (done ++ (c ∷ [])) ≤ 4096
    → read_head (suc r) done ans ≡ read_head r (done ++ (c ∷ [])) ans'
unfolding read_head
read_head_byte r c done ans ans' e one small = rw e (
    ap (extended (λ b a. read_head r b a) done) one
    ∙ rw (le→ltb_false 4096 (length (done ++ (c ∷ []))) small) refl)

read_head-EndsAt :
    (r k : ℕ) (done todo rest : Bytes) (ans : List Answer)
    → EndsAt (done ++ todo) k
    → k + 4 ≤ 4096
    → length todo ≤ r
    → AllChunks ans
    → bytes_of ans ≡ todo ++ rest
    → (ans' : List Answer) × (read_head r done ans ≡ whole (done ++ todo) ans')
      × (bytes_of ans' ≡ rest)
      × AllChunks ans'
read_head-EndsAt r k done [] rest ans (found, len) small le h e =
    let same = append-nil done in
    (
      ans,
      read_head_done r k done ans (ap (find_text blank_line) (sym same) ∙ found)
          ∙ ap (λ b. whole b ans) (sym same),
      e,
      h,
    )
read_head-EndsAt zero k done (c ∷ todo) rest ans ends small le h e = absurd (omega arith)
read_head-EndsAt (suc r) k done (c ∷ todo) rest ans ends small le h e =
    let (ans', one, left, h') = read_one-byte ans c (todo ++ rest) h e in
    let same = append_assoc done (c ∷ []) todo in
    let (ans'', ran, left', h'') =
      read_head-EndsAt r k (done ++ (c ∷ [])) todo rest ans'
        (subst (λ b. EndsAt b k) (sym same) ends) small (omega arith) h' left in
    (
      ans'',
      read_head_byte r c done ans ans' (no_end done (c ∷ todo) k ends (omega arith)) one
            (omega (arith, ends.1, length-append done (c ∷ todo), length-append done (c ∷ [])))
          ∙ ran
          ∙ ap (λ b. whole b ans'') same,
      left',
      h'',
    )

split_head-blank_line :
    (head : Bytes) (ans : List Answer)
    → find_text blank_line (head ++ blank_line) ≡ some (length head)
    → is_switching head ≡ true
    → with_head (whole (head ++ blank_line) ans) ≡ leftover [] ans
split_head-blank_line head ans found ok =
    let none_left : drop (length head + 4) (head ++ blank_line) ≡ [] =
      let total : length (head ++ blank_line) ≡ length head + 4 =
        omega (arith, length-append head blank_line) in
      ap (λ n. drop n (head ++ blank_line)) (sym total) ∙ drop_all (head ++ blank_line) in
    ap (λ o. split_head o (head ++ blank_line) ans) found
    ∙ ap
        (λ h.
          if is_switching h
          then leftover (drop (length head + 4) (head ++ blank_line)) ans
          else bad_status (take 200 h))
        (take-append head blank_line)
    ∙ rw ok (ap (λ l. leftover l ans) none_left)
  where
    drop_all : (xs : Bytes) → drop (length xs) xs ≡ []
    drop_all [] = refl
    drop_all (x ∷ xs) = drop_all xs

-- A response with the status 101, whose header ends at its first blank line and has at most 4096
-- bytes, is read byte by byte and not further: nothing is left over, and all that comes behind the
-- header is still in the socket, however the stream is cut into chunks. The deadline allows as many
-- rounds as the header has bytes.
pub do_handshake-head :
    (rounds : ℕ) (head rest : Bytes) (ans : List Answer)
    → find_text blank_line (head ++ blank_line) ≡ some (length head)
    → length head + 4 ≤ 4096
    → length head + 4 ≤ rounds
    → is_switching head ≡ true
    → AllChunks ans
    → bytes_of ans ≡ (head ++ blank_line) ++ rest
    → (ans' : List Answer) × (do_handshake rounds ans ≡ leftover [] ans')
      × (bytes_of ans' ≡ rest)
      × AllChunks ans'
unfolding do_handshake
do_handshake-head rounds head rest ans found small enough ok h e =
    let total : length (head ++ blank_line) ≡ length head + 4 =
      omega (arith, length-append head blank_line) in
    let (ans', ran, left, h') =
      read_head-EndsAt rounds (length head) [] (head ++ blank_line) rest ans (found, total) small
        (omega (arith, total)) h e in
    (ans', ap with_head ran ∙ split_head-blank_line head ans' found ok, left, h')

-- A response with the status 101, whose header ends at its first blank line and has at most 4096
-- bytes, connects the client, and the client delivers the first data frame of the server to its
-- caller, also when the frame comes in one chunk with the header: a `recv` that does not block gives
-- up to `k` bytes of the payload, which is not empty and has fewer than 2 ^ 64 bytes, and keeps the
-- others. The deadline allows as many rounds as the header has bytes, and the stream may be cut into
-- any chunks.
pub recv-connect :
    (raises : List Bool) (masks : ℕ → Bytes) (rounds k opcode : ℕ) (key host path : Bytes)
    (client_id client_secret : Option Bytes) (head p rest : Bytes) (ans : List Answer)
    → find_text blank_line (head ++ blank_line) ≡ some (length head)
    → length head + 4 ≤ 4096
    → length head + 4 ≤ rounds
    → is_switching head ≡ true
    → IsData opcode
    → 0 < length p
    → length p < 2 ^ 64
    → AllChunks ans
    → bytes_of ans ≡ (head ++ blank_line) ++ (server_frame opcode p ++ rest)
    → (c : Client) × (ans' : List Answer) × (connect raises rounds key host path client_id
          client_secret ans
        ≡ some c)
      × (recv masks k c ≡ (bytes (take k p), idle c ans' (drop k p)))
      × (bytes_of ans' ≡ rest)
unfolding connect
recv-connect raises masks rounds k opcode key host path client_id client_secret head p rest ans
      found small enough ok hop pos short h e =
    let sent = request key host path client_id client_secret in
    let (mid, up, left, h') =
      do_handshake-head rounds head (server_frame opcode p ++ rest) ans found small enough ok h e in
    let c = new_client raises sent [] mid in
    let (ans', got, behind, h'') =
      recv-server_frame masks c k opcode p rest mid hop h' left pos short in
    (c, ans', ap (connected raises sent) up, got, behind)
