-- ===== src/Net/WebSocket/Coalesce.antt =====
-- `send_framed` on a `WSClient`: its two `sendall` calls against the messages that are written.
use gpti84_plus.Base.{
  ℕ, zero, suc, ◌+◌, ◌≤◌, ◌<◌, ◌≡◌, ◌∙◌, refl, ap, List, [], ◌∷◌, ◌++◌, append_assoc, Bool, true,
  false, lt→ltb, le→ltb_false, if◌then◌else◌, length, take, drop, take-le, arith,
}
use gpti84_plus.Base.Bytes.{Bytes}
use gpti84_plus.Net.Stream.{Answer}
use gpti84_plus.Net.Framing.{be32, from_be32, framed, from_be32-be32}
use gpti84_plus.Net.WebSocket.Unmask.{message}
use gpti84_plus.Net.WebSocket.{
  Wire, Client, write, apply_mask, send_message, with_wire, drain, sendall,
}

-- A socket that takes every write.
abbrev pub sound : List Answer → List Bytes → ℕ → Wire
sound answers written drawn = record {
  answers = answers;
  raises = [];
  written = written;
  drawn = drawn;
}

module _ (masks : ℕ → Bytes) (answers : List Answer) (written : List Bytes) (drawn : ℕ) where
  pub send_message-message :
      (p : Bytes) (opcode : ℕ)
      → send_message masks p opcode (sound answers written drawn)
        ≡ (true, sound answers (written ++ message opcode (masks drawn) p) (suc drawn))
  unfolding send_message write apply_mask
  send_message-message [] opcode = refl
  send_message-message (c ∷ cs) opcode =
      ap (λ ws. (true, sound answers ws (suc drawn))) (append_assoc written _ _)

  -- The client before and behind the frame.
  abbrev pub holding : Client → Bytes → Client
  holding c buf = record c { wire = sound answers written drawn; send_buf = buf }

  abbrev sent : Client → Bytes → Client
  sent c p = record c {
    wire = sound answers (written ++ message 2 (masks drawn) (framed p)) (suc drawn);
    send_buf = [];
  }

  drop_all : (n : ℕ) (s : Bytes) → length s ≤ n → drop n s ≡ []
  drop_all zero [] le = refl
  drop_all zero (x ∷ s) le = absurd (omega arith)
  drop_all (suc n) [] le = refl
  drop_all (suc n) (x ∷ s) le = drop_all n s (omega arith)

  drain_empty : (f : ℕ) (c : Client) → c.send_buf ≡ [] → drain masks f c ≡ (true, c)
  unfolding drain
  drain_empty zero c e = refl
  drain_empty (suc f) c e = rw (lt→ltb (length c.send_buf) 4 (omega (arith, ap length e))) refl

  drain_frame :
      (f : ℕ) (c : Client) (p : Bytes)
      → length p < 4294967296
      → drain masks (suc f) (holding c (framed p)) ≡ (true, sent c p)
  unfolding drain
  drain_frame f c p lt =
      let val : from_be32 (framed p) ≡ length p = from_be32-be32 (length p) lt in
      let whole : take (4 + from_be32 (framed p)) (framed p) ≡ framed p =
        take-le _ (framed p) (omega (arith, val)) in
      let none_left = drop_all (4 + from_be32 (framed p)) (framed p) (omega (arith, val)) in
      rw (le→ltb_false (length (framed p)) 4 (omega arith)) (
        rw (le→ltb_false (length (framed p)) (4 + from_be32 (framed p)) (omega (arith, val))) (
          ap
            (λ t.
              with_wire masks (drain masks f)
                (holding c (drop (4 + from_be32 (framed p)) (framed p)))
                (send_message masks t 2 (sound answers written drawn)))
            whole
          ∙ ap
              (λ t.
                with_wire masks (drain masks f) (holding c t)
                  (send_message masks (framed p) 2 (sound answers written drawn)))
              none_left
          ∙ ap (with_wire masks (drain masks f) (holding c [])) (send_message-message (framed p) 2)
          ∙ drain_empty f (sent c p) refl))

  open_sendall :
      (bs : Bytes) (c : Client)
      → c.closed ≡ false
      → sendall masks bs c
        ≡ drain masks (length (c.send_buf ++ bs)) (record c { send_buf = c.send_buf ++ bs })
  unfolding sendall
  open_sendall bs c up =
      let c' : Client = record c { send_buf = c.send_buf ++ bs } in
      ap (λ b. if b then (false, c) else drain masks (length c'.send_buf) c') up

  abbrev pub then_sendall : Bytes → Bool × Client → Bool × Client
  then_sendall bs (true, c) = sendall masks bs c
  then_sendall bs (false, c) = (false, c)

  -- The length alone is kept back until its payload comes, unless that is empty.
  first_call :
      (c : Client) (q : ℕ) (qs : Bytes)
      → length (q ∷ qs) < 4294967296
      → c.closed ≡ false
      → sendall masks (be32 (length (q ∷ qs))) (holding c [])
        ≡ (true, holding c (be32 (length (q ∷ qs))))
  unfolding drain
  first_call c q qs lt up =
      open_sendall (be32 (length (q ∷ qs))) (holding c []) up
      ∙ rw
          (lt→ltb 4 (4 + from_be32 (be32 (length (q ∷ qs))))
            (omega (arith, from_be32-be32 (length (q ∷ qs)) lt)))
          refl

  -- The two `sendall` calls of `send_framed`, on an open client that holds nothing back and a socket
  -- that takes every write, put one binary message on the wire, the whole frame, and hold nothing
  -- back: no message has the length or the payload alone. The payload has fewer than 2 ^ 32 bytes.
  pub sendall-message :
      (c : Client) (p : Bytes)
      → length p < 4294967296
      → c.closed ≡ false
      → then_sendall p (sendall masks (be32 (length p)) (holding c [])) ≡ (true, sent c p)
  sendall-message c [] lt up =
      ap (then_sendall []) (open_sendall (be32 0) (holding c []) up ∙ drain_frame 3 c [] lt)
      ∙ open_sendall [] (sent c []) up
      ∙ drain_empty 0 (sent c []) refl
  sendall-message c (q ∷ qs) lt up =
      ap (then_sendall (q ∷ qs)) (first_call c q qs lt up)
      ∙ open_sendall (q ∷ qs) (holding c (be32 (length (q ∷ qs)))) up
      ∙ drain_frame _ c (q ∷ qs) lt
