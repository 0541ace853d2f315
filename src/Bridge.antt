-- ===== src/Bridge.antt =====
-- src/bridge.py: what the Pico does with a variable from the calculator and with a reply from the
-- desktop. The LED and log output are not modelled.
pub mod Frames
pub mod Pair
pub mod Push
pub mod Supervisor
pub mod Retry
mod Tests
use gpti84_plus.Base.{
  ℕ, zero, suc, ◌+◌, List, [], ◌∷◌, ◌++◌, map, Option, none, some, Bool, true, false, ◌&&◌, ◌==◌,
  leb, ltb, if◌then◌else◌, length, take, drop,
}
use gpti84_plus.Base.Bytes.{Bytes, codes, lo_byte, hi_byte}
use gpti84_plus.Base.Text.{split, starts_with}
use gpti84_plus.Tokens.{ascii_to_tokens_lossy}

abbrev pub inmax_chars : ℕ
inmax_chars = 128

-- `bytes([len(body) & 0xFF, (len(body) >> 8) & 0xFF]) + body`
abbrev pub with_size : Bytes → Bytes
with_size body = lo_byte (length body) ∷ hi_byte (length body) ∷ body

pub ascii_to_str_payload : Bytes → Bytes
ascii_to_str_payload text = with_size (ascii_to_tokens_lossy (take inmax_chars text) false)

pub bytes_to_ascii : Bytes → Bytes
bytes_to_ascii bs = map (λ b. if leb 0x20 b && ltb b 0x7F then b else b'?') bs

abbrev pub one_on : Option ℕ → Option ℕ
one_on none = none
one_on (some i) = some (suc i)

-- `data.find(z)`; `none` is -1.
pub find_byte : ℕ → Bytes → Option ℕ
find_byte z [] = none
find_byte z (c ∷ cs) = if c == z then some 0 else one_on (find_byte z cs)

-- `pages or [""]`
abbrev pub or_blank : List Bytes → List Bytes
or_blank [] = [] ∷ []
or_blank (p ∷ ps) = p ∷ ps

-- `body.split(b"\x00") if body else []`
abbrev pub body_chunks : Bytes → List Bytes
body_chunks [] = []
body_chunks (c ∷ cs) = split 0 (c ∷ cs)

abbrev pub frame_pages : Bytes → Option ℕ → List Bytes
frame_pages bs none = bytes_to_ascii bs ∷ []
frame_pages bs (some nl) = or_blank (map bytes_to_ascii (body_chunks (drop (suc nl) bs)))

-- The number in the header only goes to the log.
pub parse_pages_frame : Bytes → List Bytes
unfolding bytes_to_ascii find_byte
parse_pages_frame bs =
    if starts_with (codes "pages:") bs
    then frame_pages bs (find_byte b'\n' bs)
    else bytes_to_ascii bs ∷ []
