-- ===== src/Bridge/Pair.antt =====
-- The pair buffer of src/bridge.py: `_emit_pair`, `_flush_pair`, the `on_var` callback and
-- `_maybe_flush_stale_pair`. `ticks_diff` is MicroPython's (0 stands for a negative value, which
-- is only compared with a positive number), and the network decides whether a send raises.
pub mod Laws
pub mod ReadBack
pub mod Up
use gpti84_plus.Base.{
  ℕ, zero, suc, ◌-◌, List, [], ◌∷◌, ◌++◌, Option, none, some, Bool, true, false, ◌&&◌, ◌==◌, leb,
  if◌then◌else◌, length, drop, get_or,
}
use gpti84_plus.Base.Bytes.{Bytes, codes, word}
use gpti84_plus.Tokens.{Mode, tokens_to_ascii}

abbrev pub str_slot_text : ℕ
str_slot_text = 0x00

abbrev pub str_slot_math : ℕ
str_slot_math = 0x01

abbrev pub pair_timeout_ms : ℕ
pair_timeout_ms = 2500

pub record Pair : Type 0 where
  pub prompt : Option Bytes
  pub math : Option Bytes
  pub first_arrival_ms : Option ℕ

abbrev pub no_pair : Pair
no_pair = record { prompt = none; math = none; first_arrival_ms = none }

-- `up` is whether `sock_holder` holds a socket; `raises` tells for the sends to come which of them
-- raise an `OSError` (behind its end none does); `frames` are the frames that were sent.
pub record Net : Type 0 where
  pub up : Bool
  pub raises : List Bool
  pub frames : List Bytes

pub record State : Type 0 where
  pub pair : Pair
  pub net : Net

-- How a call ends.
pub data Outcome : Type 0 where
  returned : Outcome
  raised : Outcome

abbrev send_answer : List Bool → Bytes → Net → Outcome × Net
send_answer [] frame n = (returned, record n { frames = n.frames ++ (frame ∷ []) })
send_answer (false ∷ rs) frame n =
    (returned, record n { raises = rs; frames = n.frames ++ (frame ∷ []) })
send_answer (true ∷ rs) frame n = (raised, record n { up = false; raises = rs })

-- A frame is dropped if the socket is down; a send that raises closes the socket.
pub ship : Bytes → Net → Outcome × Net
ship frame n = if n.up then send_answer n.raises frame n else (returned, n)

unfoldable pub pair_frame : Bytes → Bytes → Bytes
pair_frame prompt_text math_text =
    (codes "prompt:" ++ prompt_text) ++ (codes "\nmath:" ++ (math_text ++ codes "\n"))

abbrev or_empty : Option Bytes → Bytes
or_empty none = []
or_empty (some t) = t

abbrev with_pair : Pair → Outcome × Net → Outcome × State
with_pair p (o, n) = (o, record { pair = p; net = n })

pub flush_pair : State → Outcome × State
unfolding ship pair_frame
flush_pair s =
    with_pair no_pair (ship (pair_frame (or_empty s.pair.prompt) (or_empty s.pair.math)) s.net)

abbrev is_size_prefixed : ℕ → Bool
is_size_prefixed t =
    if t == 0x04 then true else if t == 0x05 then true else if t == 0x06 then true else t == 0x15

abbrev declared_size : Bytes → ℕ
declared_size bs = word (get_or bs 0 0) (get_or bs 1 0)

pub strip_size_prefix : ℕ → Bytes → Bytes
strip_size_prefix type_id bs =
    if is_size_prefixed type_id && leb 2 (length bs) && (declared_size bs == length bs - 2)
    then drop 2 bs
    else bs

-- `if pair["first_arrival_ms"] is None: pair["first_arrival_ms"] = time.ticks_ms()`
abbrev arrival : Option ℕ → ℕ → Option ℕ
arrival none now = some now
arrival (some t) now = some t

-- `if other is not None: _flush_pair(...)`
abbrev flush_if : Option Bytes → State → Outcome × State
flush_if none s = (returned, s)
flush_if (some t) s = flush_pair s

pub on_prompt : Bytes → ℕ → State → Outcome × State
unfolding flush_pair
on_prompt text now s = flush_if s.pair.math (record s {
  pair = record {
    prompt = some text;
    math = s.pair.math;
    first_arrival_ms = arrival s.pair.first_arrival_ms now;
  };
})

pub on_math : Bytes → ℕ → State → Outcome × State
unfolding flush_pair
on_math text now s = flush_if s.pair.prompt (record s {
  pair = record {
    prompt = s.pair.prompt;
    math = some text;
    first_arrival_ms = arrival s.pair.first_arrival_ms now;
  };
})

abbrev relay_raw : Bytes → State → Outcome × State
relay_raw payload s = with_pair s.pair (ship payload s.net)

abbrev is_string : ℕ → Bytes → Bool
is_string type_id name8 = (type_id == 0x04) && leb 2 (length name8) && (get_or name8 0 0 == 0xAA)

-- The header `hdr` is not used.
pub on_var : ℕ → Bytes → Bytes → ℕ → State → Outcome × State
unfolding strip_size_prefix on_prompt on_math ship
on_var type_id name8 bs now s =
    let payload = strip_size_prefix type_id bs in
    if is_string type_id name8
    then (if get_or name8 1 0 == str_slot_text
        then on_prompt (tokens_to_ascii payload Mode.text) now s
        else if get_or name8 1 0 == str_slot_math
        then on_math (tokens_to_ascii payload Mode.math) now s
        else relay_raw (tokens_to_ascii payload Mode.text) s)
    else relay_raw payload s

module _ (ticks_diff : ℕ → ℕ → ℕ) where
  abbrev flush_stale : Option ℕ → Option Bytes → Option Bytes → ℕ → State → Outcome × State
  flush_stale none prompt math now s = (returned, s)
  flush_stale (some t) (some p) (some m) now s = flush_pair s
  flush_stale (some t) prompt math now s =
      if leb pair_timeout_ms (ticks_diff now t) then flush_pair s else (returned, s)

  pub maybe_flush_stale_pair : ℕ → State → Outcome × State
  unfolding flush_pair
  maybe_flush_stale_pair now s = flush_stale s.pair.first_arrival_ms s.pair.prompt s.pair.math now s
