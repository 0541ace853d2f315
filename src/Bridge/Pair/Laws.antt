-- ===== src/Bridge/Pair/Laws.antt =====
-- What the pair buffer holds, and the frames that it makes.
use gpti84_plus.Base.{
  ℕ, suc, ◌-◌, ◌≤◌, ◌<◌, ◌≡◌, refl, List, [], ◌∷◌, ◌++◌, replicate, Option, none, some, true, false,
  ◌==◌, le→leb, leb, length, get_or, Bool-cases, inl, inr, arith,
}
use gpti84_plus.Base.Bytes.{Bytes, word, lo_byte, hi_byte}
use gpti84_plus.Tokens.{Mode, tokens_to_ascii}
use gpti84_plus.Bridge.{with_size}
use gpti84_plus.Bridge.Pair.{
  Pair, no_pair, Net, State, Outcome, returned, raised, ship, pair_frame, flush_pair,
  strip_size_prefix, on_prompt, on_math, on_var, maybe_flush_stale_pair, relay_raw, is_string,
  str_slot_text, str_slot_math,
}

-- Nothing is buffered, or one half and the time of its arrival.
abbrev Half : Option Bytes → Option Bytes → Option ℕ → Type 0
Half none none none = Unit
Half (some p) none (some t) = Unit
Half none (some m) (some t) = Unit
Half _ _ _ = ⊥

pub IsHalf : Pair → Type 0
IsHalf p = Half p.prompt p.math p.first_arrival_ms

pub no_pair-IsHalf : IsHalf no_pair
unfolding IsHalf
no_pair-IsHalf = tt

flush_pair-IsHalf : (s : State) → IsHalf (flush_pair s).1.pair
unfolding flush_pair IsHalf
flush_pair-IsHalf s = tt

-- A flush empties the buffer whether or not the frame goes out.
flushed-no_pair : (s : State) → (flush_pair s).1.pair ≡ no_pair
unfolding flush_pair
flushed-no_pair s = refl

on_prompt-IsHalf :
    (text : Bytes) (now : ℕ) (p m : Option Bytes) (t : Option ℕ) (n : Net)
    → Half p m t
    → IsHalf
        (on_prompt text now
          (record { pair = record { prompt = p; math = m; first_arrival_ms = t }; net = n })).1.pair
unfolding on_prompt IsHalf flush_pair
on_prompt-IsHalf text now none none none n h = tt
on_prompt-IsHalf text now none none (some t) n h = elim h [ ]
on_prompt-IsHalf text now none (some m) none n h = elim h [ ]
on_prompt-IsHalf text now (some p) none none n h = elim h [ ]
on_prompt-IsHalf text now (some p) (some m) t n h = elim h [ ]
on_prompt-IsHalf text now (some p) none (some t) n h = tt
on_prompt-IsHalf text now none (some m) (some t) n h = tt

on_math-IsHalf :
    (text : Bytes) (now : ℕ) (p m : Option Bytes) (t : Option ℕ) (n : Net)
    → Half p m t
    → IsHalf
        (on_math text now
          (record { pair = record { prompt = p; math = m; first_arrival_ms = t }; net = n })).1.pair
unfolding on_math IsHalf flush_pair
on_math-IsHalf text now none none none n h = tt
on_math-IsHalf text now none none (some t) n h = elim h [ ]
on_math-IsHalf text now none (some m) none n h = elim h [ ]
on_math-IsHalf text now (some p) none none n h = elim h [ ]
on_math-IsHalf text now (some p) (some m) t n h = elim h [ ]
on_math-IsHalf text now (some p) none (some t) n h = tt
on_math-IsHalf text now none (some m) (some t) n h = tt

shipped-IsHalf : (payload : Bytes) (s : State) → IsHalf s.pair → IsHalf (relay_raw payload s).1.pair
shipped-IsHalf payload s h = h

-- Whatever variable comes and however the network answers, `on_var` leaves at most one half in the
-- buffer, with the time of its arrival, and no time without a half, if that was so before.
pub on_var-IsHalf :
    (type_id : ℕ) (name8 bs : Bytes) (now : ℕ) (s : State)
    → IsHalf s.pair
    → IsHalf (on_var type_id name8 bs now s).1.pair
unfolding on_var IsHalf
on_var-IsHalf type_id name8 bs now s h =
    let payload = strip_size_prefix type_id bs in
    let p = s.pair in
    elim (Bool-cases (is_string type_id name8)) [
      | inl e ↦ rw e (elim (Bool-cases (get_or name8 1 0 == str_slot_text)) [
        | inl t ↦ rw t (
            on_prompt-IsHalf (tokens_to_ascii payload Mode.text) now p.prompt p.math
              p.first_arrival_ms s.net h)
        | inr t ↦ rw t (elim (Bool-cases (get_or name8 1 0 == str_slot_math)) [
          | inl m ↦ rw m (
              on_math-IsHalf (tokens_to_ascii payload Mode.math) now p.prompt p.math
                p.first_arrival_ms s.net h)
          | inr m ↦ rw m h
        ])
      ])
      | inr e ↦ rw e h
    ]

-- Two halves.
strip_size_prefix-with_size :
    (toks : Bytes) → length toks < 65536 → strip_size_prefix 0x04 (with_size toks) ≡ toks
unfolding strip_size_prefix
strip_size_prefix-with_size toks lt = rw (two (length toks)) (rw (sized (length toks) lt) refl)
  where
    two : (n : ℕ) → leb 2 (suc (suc n)) ≡ true
    two n = ground arith

    sized : (n : ℕ) → n < 65536 → (word (lo_byte n) (hi_byte n) == suc (suc n) - 2) ≡ true
    sized n lt = ground arith

abbrev pub name_of : ℕ → Bytes
name_of slot = 0xAA ∷ slot ∷ replicate 6 0

-- One socket that sends.
abbrev pub open_net : List Bytes → Net
open_net frames = record { up = true; raises = []; frames = frames }

abbrev pub waiting : Pair → List Bytes → State
waiting p frames = record { pair = p; net = open_net frames }

-- Then the second call of `on_var`, if the first one returned.
abbrev pub then_on_var : ℕ → Bytes → Bytes → ℕ → Outcome × State → Outcome × State
then_on_var type_id name8 bs now (returned, s) = on_var type_id name8 bs now s
then_on_var type_id name8 bs now (raised, s) = (raised, s)

-- Str1 and Str2, sent in this order to an empty buffer while the socket is up and its sends do not
-- raise, make one frame, of both texts, and leave the buffer empty, if neither has more than 65535
-- token bytes.
pub on_var-pair_frame :
    (toks1 toks2 : Bytes) (now now' : ℕ) (frames : List Bytes)
    → length toks1 < 65536
    → length toks2 < 65536
    → then_on_var 0x04
        (name_of str_slot_math)
        (with_size toks2)
        now'
        (on_var 0x04 (name_of str_slot_text) (with_size toks1) now (waiting no_pair frames))
      ≡ (
        returned,
        waiting no_pair (
            frames
            ++ (pair_frame (tokens_to_ascii toks1 Mode.text) (tokens_to_ascii toks2 Mode.math)
                ∷ [])),
      )
unfolding on_var on_prompt on_math flush_pair ship
on_var-pair_frame toks1 toks2 now now' frames lt lt' =
    rw (strip_size_prefix-with_size toks1 lt, strip_size_prefix-with_size toks2 lt') refl

-- Under the same conditions Str2 and then Str1 have the same outcome as Str1 and then Str2.
pub on_var-pair_frame_comm :
    (toks1 toks2 : Bytes) (now now' : ℕ) (frames : List Bytes)
    → length toks1 < 65536
    → length toks2 < 65536
    → then_on_var 0x04
        (name_of str_slot_text)
        (with_size toks1)
        now'
        (on_var 0x04 (name_of str_slot_math) (with_size toks2) now (waiting no_pair frames))
      ≡ then_on_var 0x04
          (name_of str_slot_math)
          (with_size toks2)
          now'
          (on_var 0x04 (name_of str_slot_text) (with_size toks1) now (waiting no_pair frames))
unfolding on_var on_prompt on_math flush_pair ship
on_var-pair_frame_comm toks1 toks2 now now' frames lt lt' =
    rw (strip_size_prefix-with_size toks1 lt, strip_size_prefix-with_size toks2 lt') refl

module _ (ticks_diff : ℕ → ℕ → ℕ) where
  -- What the check for a stale half does to a prompt that waits, while the socket is up and its
  -- sends do not raise: the prompt is sent with an empty math and the buffer is emptied, if 2500 ms
  -- or more have passed; else nothing happens.
  pub maybe_flush_stale_pair-half :
      (p : Bytes) (t now : ℕ) (frames : List Bytes)
      → let half : Pair = record { prompt = some p; math = none; first_arrival_ms = some t } in
        (2500 ≤ ticks_diff now t
          → maybe_flush_stale_pair ticks_diff now (waiting half frames)
            ≡ (returned, waiting no_pair (frames ++ (pair_frame p [] ∷ []))))
        × (ticks_diff now t < 2500
            → maybe_flush_stale_pair ticks_diff now (waiting half frames)
              ≡ (returned, waiting half frames))
  unfolding maybe_flush_stale_pair flush_pair ship
  maybe_flush_stale_pair-half p t now frames = (
    (λ h. rw (le→leb 2500 (ticks_diff now t) h) refl),
    (λ h. rw (young (ticks_diff now t) h) refl),
  )
    where
      young : (d : ℕ) → d < 2500 → leb 2500 d ≡ false
      young d h = ground arith

  -- Nothing waits, nothing happens.
  pub maybe_flush_stale_pair-no_pair :
      (now : ℕ) (n : Net)
      → maybe_flush_stale_pair ticks_diff now (record { pair = no_pair; net = n })
        ≡ (returned, record { pair = no_pair; net = n })
  unfolding maybe_flush_stale_pair
  maybe_flush_stale_pair-no_pair now n = refl

  -- The check keeps the invariant of `on_var`.
  stale-IsHalf :
      (p m : Option Bytes) (t : Option ℕ) (now : ℕ) (n : Net)
      → Half p m t
      → IsHalf
          (maybe_flush_stale_pair ticks_diff now (record {
            pair = record { prompt = p; math = m; first_arrival_ms = t };
            net = n;
          })).1.pair
  unfolding maybe_flush_stale_pair flush_pair IsHalf
  stale-IsHalf none none none now n h = tt
  stale-IsHalf (some p) none (some t) now n h = elim (Bool-cases (leb 2500 (ticks_diff now t))) [
    | inl e ↦ rw e tt
    | inr e ↦ rw e tt
  ]
  stale-IsHalf none (some m) (some t) now n h = elim (Bool-cases (leb 2500 (ticks_diff now t))) [
    | inl e ↦ rw e tt
    | inr e ↦ rw e tt
  ]
  stale-IsHalf none none (some t) now n h = elim h [ ]
  stale-IsHalf none (some m) none now n h = elim h [ ]
  stale-IsHalf (some p) none none now n h = elim h [ ]
  stale-IsHalf (some p) (some m) t now n h = elim h [ ]
