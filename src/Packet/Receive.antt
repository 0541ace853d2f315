-- ===== src/Packet/Receive.antt =====
-- What `recv_packet` makes of the bytes that it hears.
use gpti84_plus.Base.{
  ℕ, ◌<◌, ◌≡◌, ◌≢◌, ◌⊎◌, inl, inr, ◌∙◌, refl, List, [], ◌∷◌, ◌++◌, append-nil, append_assoc, Option,
  none, some, Bool, true, false, ◌==◌, length, All, arith,
}
use gpti84_plus.Base.Bytes.{Bytes, IsByte, word, lo_byte, hi_byte}
use gpti84_plus.Link.{Link}
use gpti84_plus.Wire.Laws.{
  signal, signal-append, recv_byte-heard, recv_byte_silent, recv_byte_pause,
}
use gpti84_plus.Packet.{
  packet_bytes, is_header_only, recv_data, recv_checksum, recv_body, recv_rest, recv_packet,
  checksum,
}

word_of_length : (n : ℕ) → n < 65536 → word (lo_byte n) (hi_byte n) ≡ n
word_of_length n h = omega arith

module _ (acks sent : List Bool) where
  -- The link on which the calls to come hear `incoming`.
  abbrev pub hearing : List (Option Bool) → Link
  hearing incoming = record { incoming = incoming; acks = acks; sent = sent }

  recv_data_heard :
      (bs out : Bytes) (rest : List (Option Bool))
      → All IsByte bs
      → recv_data (length bs) out (hearing (signal bs rest)) ≡ (some (out ++ bs), hearing rest)
  unfolding recv_data
  recv_data_heard [] out rest h = rw append-nil
  recv_data_heard (b ∷ bs) out rest (hb, h) =
      rw (recv_byte-heard b (signal bs rest) acks sent hb)
        (rw (recv_data_heard bs (out ++ (b ∷ [])) rest h) (simp append_assoc))

  recv_checksum_heard :
      (lo hi : ℕ) (rest : List (Option Bool))
      → IsByte lo
      → IsByte hi
      → recv_checksum (hearing (signal (lo ∷ hi ∷ []) rest)) ≡ (some (word lo hi), hearing rest)
  unfolding recv_checksum
  recv_checksum_heard lo hi rest hl hh =
      rw (recv_byte-heard lo (signal (hi ∷ []) rest) acks sent hl)
        (rw (recv_byte-heard hi rest acks sent hh))

  recv_header_heard :
      (machine cmd lo hi : ℕ) (rest : List (Option Bool))
      → All IsByte (machine ∷ cmd ∷ lo ∷ hi ∷ [])
      → recv_packet (hearing (signal (machine ∷ cmd ∷ lo ∷ hi ∷ []) rest))
        ≡ recv_rest machine cmd (word lo hi) (hearing rest)
  unfolding recv_packet
  recv_header_heard machine cmd lo hi rest (hm, (hc, (hl, (hh, _)))) =
      rw (recv_byte-heard machine _ acks sent hm) (
        rw (recv_byte-heard cmd _ acks sent hc)
          (rw (recv_byte-heard lo _ acks sent hl) (rw (recv_byte-heard hi _ acks sent hh))))

  -- A header-only command is read as its four bytes, whatever its length field says.
  pub recv_packet_header_only :
      (machine cmd lo hi : ℕ) (rest : List (Option Bool))
      → All IsByte (machine ∷ cmd ∷ lo ∷ hi ∷ [])
      → is_header_only cmd ≡ true
      → recv_packet (hearing (signal (machine ∷ cmd ∷ lo ∷ hi ∷ []) rest))
        ≡ (some (record { machine = machine; cmd = cmd; body = [] }), hearing rest)
  unfolding recv_rest
  recv_packet_header_only machine cmd lo hi rest h e =
      recv_header_heard machine cmd lo hi rest h ∙ rw e

  recv_body_heard :
      (b : ℕ) (bs : Bytes) (lo hi : ℕ) (rest : List (Option Bool))
      → All IsByte (b ∷ bs)
      → IsByte lo
      → IsByte hi
      → recv_body (length (b ∷ bs)) (hearing (signal ((b ∷ bs) ++ (lo ∷ hi ∷ [])) rest))
        ≡ (some (b ∷ bs, word lo hi == checksum (b ∷ bs)), hearing rest)
  unfolding recv_body
  recv_body_heard b bs lo hi rest h hl hh = rw (signal-append (b ∷ bs) (lo ∷ hi ∷ []) rest) (
      rw (recv_data_heard (b ∷ bs) [] (signal (lo ∷ hi ∷ []) rest) h)
        (rw (recv_checksum_heard lo hi rest hl hh)))

  -- A body is delivered whatever the two checksum bytes behind it are: a mismatch is not an error.
  pub recv_packet_any_checksum :
      (machine cmd lo hi : ℕ) (bs : Bytes) (rest : List (Option Bool))
      → IsByte machine
      → IsByte cmd
      → IsByte lo
      → IsByte hi
      → All IsByte bs
      → length bs < 65536
      → bs ≢ []
      → is_header_only cmd ≡ false
      → recv_packet (
          hearing (
            signal
              (machine ∷ cmd ∷ lo_byte (length bs) ∷ hi_byte (length bs) ∷ (bs ++ (lo ∷ hi ∷ [])))
              rest))
        ≡ (some (record { machine = machine; cmd = cmd; body = bs }), hearing rest)
  unfolding recv_rest
  recv_packet_any_checksum machine cmd lo hi [] rest hm hc hl hh h fits ne e = absurd (ne refl)
  recv_packet_any_checksum machine cmd lo hi (b ∷ bs) rest hm hc hl hh h fits ne e =
      recv_header_heard machine cmd (lo_byte n) (hi_byte n) _ (omega arith)
      ∙ rw e (rw (word_of_length n fits) (rw (recv_body_heard b bs lo hi rest h hl hh)))
    where
      n : ℕ
      n = length (b ∷ bs)

  -- `recv_packet` reads back what `send_packet` writes, and nothing behind it: machine, command and
  -- body, for a body of fewer than 2 ^ 16 bytes, which is empty if the command is header-only.
  pub recv_packet-packet_bytes :
      (machine cmd : ℕ) (bs : Bytes) (rest : List (Option Bool))
      → IsByte machine
      → IsByte cmd
      → All IsByte bs
      → length bs < 65536
      → (bs ≡ []) ⊎ (is_header_only cmd ≡ false)
      → recv_packet (hearing (signal (packet_bytes cmd bs machine) rest))
        ≡ (some (record { machine = machine; cmd = cmd; body = bs }), hearing rest)
  unfolding packet_bytes recv_rest recv_body
  recv_packet-packet_bytes machine cmd [] rest hm hc h fits e =
      recv_header_heard machine cmd 0 0 rest (omega arith) ∙ ground arith
  recv_packet-packet_bytes machine cmd (b ∷ bs) rest hm hc h fits (inl e) = cc
  recv_packet-packet_bytes machine cmd (b ∷ bs) rest hm hc h fits (inr e) =
      recv_packet_any_checksum machine cmd _ _ (b ∷ bs) rest hm hc (omega arith) (omega arith) h
        fits (cc) e

  -- On a silent link `recv_packet` gives up.
  pub recv_packet_silent : recv_packet (hearing []) ≡ (none, hearing [])
  unfolding recv_packet
  recv_packet_silent = rw (recv_byte_silent acks sent)

  -- And a bit that does not come ends it, whatever comes behind.
  pub recv_packet_pause :
      (rest : List (Option Bool)) → recv_packet (hearing (none ∷ rest)) ≡ (none, hearing rest)
  unfolding recv_packet
  recv_packet_pause rest = rw (recv_byte_pause rest acks sent)
