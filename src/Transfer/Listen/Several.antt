-- ===== src/Transfer/Listen/Several.antt =====
-- Several variables, one after the other, and then a pause.
use gpti84_plus.Base.{
  ℕ, zero, suc, ◌+◌, ◌≤◌, ◌<◌, ◌≡◌, ◌∙◌, refl, sym, ap, List, [], ◌∷◌, ◌++◌, append-nil,
  append_assoc, Option, none, some, Bool, true, false, ◌&&◌, le→ltb_false, if◌then◌else◌,
  Bool-cases, inl, inr, both, length, All, arith,
}
use gpti84_plus.Base.Bytes.{Bytes, IsByte}
use gpti84_plus.Command
use gpti84_plus.Link.{Link, steady}
use gpti84_plus.Wire.Laws.{signal}
use gpti84_plus.Packet.{packet_bytes, pc_id_for}
use gpti84_plus.Packet.Receive.{recv_packet_pause}
use gpti84_plus.Transfer.{header_type, header_name}
use gpti84_plus.Transfer.Steady.{IsBody, frame}
use gpti84_plus.Transfer.Receive.{taking}
use gpti84_plus.Transfer.Listen.{
  Config, again, idle, raised, returned, type_passes, name_passes, call_on_var, deliver,
  listen_round, listen_next, listen_loop, round,
}
use gpti84_plus.Transfer.Listen.Delivery.{offer_then, round_rts, deliver_drops}

-- What the calculator sends; the `none` is the timeout of the loop.
abbrev pub offers : ℕ → List (Bytes × Bytes) → List (Option Bool) → List (Option Bool)
offers machine [] rest = none ∷ rest
offers machine ((hdr, bs) ∷ vs) rest = offer_then machine hdr bs (offers machine vs rest)

-- What the Pico answers.
abbrev pub takings : ℕ → List (Bytes × Bytes) → List Bool
takings machine [] = []
takings machine (v ∷ vs) = taking (pc_id_for machine) ++ takings machine vs

-- A variable with a header that holds a type and a name.
abbrev pub IsVariable : Bytes × Bytes → Type 0
IsVariable (hdr, bs) = IsBody hdr × IsBody bs × (11 ≤ length hdr)

length-signal :
    (bs : Bytes) (rest : List (Option Bool)) → length bs + length rest ≤ length (signal bs rest)
length-signal [] rest = omega arith
length-signal (b ∷ bs) rest = omega (arith, length-signal bs rest)

length-frame :
    (cmd : ℕ) (bs : Bytes) (machine : ℕ) (rest : List (Option Bool))
    → length rest < length (frame cmd bs machine rest)
unfolding packet_bytes
length-frame cmd [] machine rest = omega (arith, length-signal (packet_bytes cmd [] machine) rest)
length-frame cmd (b ∷ bs) machine rest =
    omega (arith, length-signal (packet_bytes cmd (b ∷ bs) machine) rest)

-- There is an answer of the link for each variable at least.
pub length-offers :
    (machine : ℕ) (vs : List (Bytes × Bytes)) (rest : List (Option Bool))
    → length vs < length (offers machine vs rest)
length-offers machine [] rest = omega arith
length-offers machine ((hdr, bs) ∷ vs) rest =
    let later = offers machine vs rest in
    let eot = frame Command.eot [] machine later in
    let dat = frame Command.data_cmd bs machine eot in
    let ackn = frame Command.ack [] machine dat in
    omega (
      arith,
      length-offers machine vs rest,
      length-frame Command.eot [] machine later,
      length-frame Command.data_cmd bs machine eot,
      length-frame Command.ack [] machine dat,
      length-frame Command.rts hdr machine ackn,
    )

module _ {S : Type 0} (c : Config S) (on_var : ℕ → Bytes → Bytes → Bytes → S → Bool × S) where
  abbrev pub passes : Bytes → Bool
  passes hdr =
      type_passes c.expected_type (header_type hdr) && name_passes c.name8 (header_name hdr)

  abbrev pub heeded : Bytes → Bytes → S → Bool × S
  heeded hdr bs s =
      if passes hdr then on_var (header_type hdr) (header_name hdr) hdr bs s else (true, s)

  abbrev pub and_then : (S → Bool × S) → Bool × S → Bool × S
  and_then more (true, s) = more s
  and_then more (false, s) = (false, s)

  -- The callback on each variable that passes the filters, up to one on which it raises an error.
  abbrev pub call_all : List (Bytes × Bytes) → S → Bool × S
  call_all [] s = (true, s)
  call_all ((hdr, bs) ∷ vs) s = and_then (call_all vs) (heeded hdr bs s)

  round_pause :
      (rest : List (Option Bool)) (sent : List Bool) (s : S)
      → listen_round false c (steady (none ∷ rest) sent) s ≡ (idle, steady rest sent, s)
  unfolding listen_round round
  round_pause rest sent s = rw (recv_packet_pause [] sent rest)

  deliver-heeded :
      (hdr bs : Bytes) (l : Link) (s : S)
      → c.on_var ≡ some on_var
      → 11 ≤ length hdr
      → deliver c s (some (hdr, bs), l)
        ≡ ((if (heeded hdr bs s).0 then again else raised), l, (heeded hdr bs s).1)
  unfolding deliver call_on_var
  deliver-heeded hdr bs l s has long = elim (Bool-cases (passes hdr)) [
    | inl e ↦
        let (tp, np) =
          both (type_passes c.expected_type (header_type hdr))
            (name_passes c.name8 (header_name hdr)) e in
        rw (le→ltb_false (length hdr) 11 long) (rw tp (rw np (rw has refl)))
    | inr e ↦ rw e (deliver_drops c hdr bs l s e)
  ]

  loop_step :
      (f : ℕ) (l l' : Link) (s : S) (r : Bool × S)
      → listen_round false c l s ≡ ((if r.0 then again else raised), l', r.1)
      → (vs : List (Bytes × Bytes)) (s' : S) → and_then (call_all vs) r ≡ (true, s')
      → (listen_loop (suc f) false c l s ≡ listen_loop f false c l' r.1)
        × (call_all vs r.1 ≡ (true, s'))
  unfolding listen_loop listen_next
  loop_step f l l' s (true, t) e vs s' ok = (rw e refl, ok)
  loop_step f l l' s (false, t) e vs s' bad = cc

  -- A calculator sends some variables one after the other, each by RTS, ACK, DATA and EOT, and then
  -- pauses. If the callback raises no error, `listen_loop` with a timeout calls it on each variable
  -- that passes the filters, in order, with the type and the name in the header, the header and the
  -- data as they were sent; it answers each variable by ACK, CTS and ACK; and it returns at the pause,
  -- with the state that the calls left, and nothing behind the pause is read.
  pub listen_loop-call_all :
      (fuel machine : ℕ) (vs : List (Bytes × Bytes)) (rest : List (Option Bool)) (sent : List Bool)
      (s s' : S)
      → c.on_var ≡ some on_var
      → IsByte machine
      → All IsVariable vs
      → length vs < fuel
      → call_all vs s ≡ (true, s')
      → listen_loop fuel false c (steady (offers machine vs rest) sent) s
        ≡ (returned, steady rest (sent ++ takings machine vs), s')
  unfolding listen_loop listen_next
  listen_loop-call_all zero machine vs rest sent s s' has hm hv lt ok = absurd (omega arith)
  listen_loop-call_all (suc f) machine [] rest sent s s' has hm hv lt ok =
      rw (round_pause rest sent s) (
        ap (λ b. (returned, steady rest b, s)) (sym (append-nil sent))
        ∙ ap (λ r. (returned, steady rest (sent ++ []), r.1)) ok)
  listen_loop-call_all (suc f) machine ((hdr, bs) ∷ vs) rest sent s s' has hm ((hh, hb, long), hv)
        lt ok =
      let now = sent ++ taking (pc_id_for machine) in
      let (step, ok') =
        loop_step f (steady (offers machine ((hdr, bs) ∷ vs) rest) sent)
          (steady (offers machine vs rest) now) s (heeded hdr bs s)
          (round_rts c machine hdr bs (offers machine vs rest) sent s hm hh hb
            ∙ deliver-heeded hdr bs (steady (offers machine vs rest) now) s has long)
          vs s' ok in
      step
      ∙ listen_loop-call_all f machine vs rest now (heeded hdr bs s).1 s' has hm hv (omega arith)
          ok'
      ∙ ap (λ b. (returned, steady rest b, s'))
          (append_assoc sent (taking (pc_id_for machine)) (takings machine vs))
