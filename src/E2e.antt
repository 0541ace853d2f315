-- ===== src/E2e.antt =====
-- tools/build_e2e.py: which script `main` writes, and what the scripts do on the Pico. The text of a
-- script is the template with its arguments, so a script is given by these; the prints are left out.
pub mod Compare
pub mod RoundTrip
pub mod File
pub mod Serve
mod Tests
use gpti84_plus.Base.{
  ℕ, List, [], ◌∷◌, ◌++◌, Option, none, some, Bool, true, false, not, ◌||◌, ◌==◌, if◌then◌else◌,
  length,
}
use gpti84_plus.Base.Bytes.{Bytes, codes, lo_byte, hi_byte, same_bytes}
use gpti84_plus.Link.{Link}
use gpti84_plus.VarTypes.{t_prog, t_prog_locked, prog_name}
use gpti84_plus.Transfer.{Call, send_var, req_var}
use gpti84_plus.Transfer.Listen.{Config, NameFilter, any_name, text, field, filter_name8}
use gpti84_plus.Transfer.Shortcuts.{put_prog_83p}
use gpti84_plus.Container.{Program, parse_8xp}
use gpti84_plus.Bridge.{one_on}

-- The six templates with what they are filled with.
pub data Script : Type 0 where
  push roundtrip : Bytes → Bytes → Bool → Script
  listen bridge : Option Bytes → Option ℕ → Script
  reqtest pushvar : Bytes → Script

-- A script is written, the usage is (with exit code 2), or an exception ends the program.
pub data Built : Type 0 where
  written : Script → Built
  usage failed : Built

abbrev pub is_mode : Bytes → Bool
is_mode mode =
    same_bytes mode (codes "push")
    || same_bytes mode (codes "roundtrip")
    || same_bytes mode (codes "listen")
    || same_bytes mode (codes "bridge")
    || same_bytes mode (codes "reqtest")
    || same_bytes mode (codes "pushvar")

abbrev pub text_or : Bytes → List Bytes → Bytes
text_or default [] = default
text_or default (t ∷ args) = t

abbrev with_type : (Option ℕ → Script) → Option ℕ → Built
with_type script none = failed
with_type script (some t) = written (script (some t))

abbrev fill_program : (Bytes → Bytes → Bool → Script) → Option Program → Built
fill_program script none = failed
fill_program script (some p) = written (script p.name p.payload p.locked)

-- The bytes of a file, if it can be read, and Python's `int(s, 16)`, if it does not raise an error; the
-- text of a negative number is left out.
module _ (read_bytes : Bytes → Option Bytes) (int_16 : Bytes → Option ℕ) where
  abbrev pub listen_args : (Option Bytes → Option ℕ → Script) → List Bytes → Built
  listen_args script [] = written (script none none)
  listen_args script (name ∷ []) = written (script (some name) none)
  listen_args script (name ∷ type_hex ∷ args) = with_type (script (some name)) (int_16 type_hex)

  abbrev pub parse_file : Option Bytes → Option Program
  parse_file none = none
  parse_file (some buf) = parse_8xp buf

  -- `none` is any exception: of the file system, or a `ValueError`.
  pub read_8xp : Bytes → Option Program
  read_8xp path = parse_file (read_bytes path)

  abbrev file_args : (Bytes → Bytes → Bool → Script) → List Bytes → Built
  file_args script (path ∷ []) = fill_program script (read_8xp path)
  file_args script args = usage

  -- The arguments behind the program's name.
  pub main : List Bytes → Built
  unfolding read_8xp
  main [] = usage
  main (mode ∷ args) =
      if not (is_mode mode)
      then usage
      else if same_bytes mode (codes "listen")
      then listen_args listen args
      else if same_bytes mode (codes "bridge")
      then listen_args bridge args
      else if same_bytes mode (codes "reqtest")
      then written (reqtest (text_or (codes "hello calc") args))
      else if same_bytes mode (codes "pushvar")
      then written (pushvar (text_or (codes "hello") args))
      else if same_bytes mode (codes "push")
      then file_args push args
      else file_args roundtrip args

-- How a script ends: it runs to its end, `sys.exit` with a code, or an exception. `differs` is the
-- exit with code 3, with the index that the log shows.
pub data Ended : Type 0 where
  finished uncaught : Ended
  exited : ℕ → Ended
  differs : Option ℕ → Ended

-- `if not ok: sys.exit(1)`
abbrev pub pushed : (Link → Ended × Link) → Link → Option (Option (Unit {0}) × Link) → Ended × Link
pushed more l none = (uncaught, l)
pushed more l (some (none, m)) = (exited 1, m)
pushed more l (some (some _, m)) = more m

pub run_push : Bytes → Bytes → Bool → Link → Ended × Link
run_push name payload locked l = pushed (λ m. (finished, m)) l (put_prog_83p name payload locked l)

-- `for i in range(n): if PAYLOAD[i] != data[i]: ...; break`
pub first_diff : Bytes → Bytes → Option ℕ
first_diff (p ∷ payload) (d ∷ got) = if p == d then one_on (first_diff payload got) else some 0
first_diff _ _ = none

pub compared : Bytes → Bytes → Ended
unfolding first_diff
compared payload got = if same_bytes got payload then finished else differs (first_diff payload got)

abbrev pub requested : Bytes → Link → Option (Option (Bytes × Bytes) × Link) → Ended × Link
requested payload l none = (uncaught, l)
requested payload l (some (none, m)) = (exited 2, m)
requested payload l (some (some (hdr, got), m)) = (compared payload got, m)

abbrev pub request_back : Bool → Option Bytes → Bytes → Link → Ended × Link
request_back locked none payload l = (uncaught, l)
request_back locked (some name8) payload l =
    requested payload l (req_var (if locked then t_prog_locked else t_prog) name8 0x73 l)

pub run_roundtrip : Bytes → Bytes → Bool → Link → Ended × Link
unfolding compared
run_roundtrip name payload locked l =
    pushed (λ m. request_back locked (prog_name name) payload m) l
      (put_prog_83p name payload locked l)

abbrev pub appvar : ℕ
appvar = 0x15

abbrev pub chatin : Bytes
chatin = codes "CHATIN" ++ (0 ∷ 0 ∷ [])

-- `[size_le16][bytes]` of an ASCII text.
abbrev pub wire_payload : Bytes → Bytes
wire_payload body = (lo_byte (length body) ∷ hi_byte (length body) ∷ []) ++ body

pub run_pushvar : Bytes → Link → Ended × Link
run_pushvar body l =
    pushed (λ m. (finished, m)) l (send_var appvar chatin (wire_payload body) 0x73 l)

-- The callback of `reqtest`, with its WIRE_PAYLOAD.
pub on_req : Bytes → ℕ → Bytes → Option Bytes
on_req bs type_id name8 =
    if not (type_id == appvar)
    then none
    else if not (same_bytes name8 chatin)
    then none
    else some bs

abbrev filtered :
    {S : Type 0}
    → Option (Option Bytes)
    → Option ℕ
    → Option (ℕ → Bytes → Option Bytes)
    → Option (Config S)
filtered none t f = none
filtered (some n) t f = some (record { name8 = n; expected_type = t; on_var = none; on_req = f })

-- The calls of `listen_loop`, which wait forever; `none` is the `ValueError` of a name field.
pub reqtest_config : {S : Type 0} → Bytes → Option (Config S)
unfolding on_req
reqtest_config bs = filtered (filter_name8 (field chatin)) (some appvar) (some (on_req bs))

abbrev listen_name : Option Bytes → NameFilter
listen_name none = any_name
listen_name (some s) = text s

pub listen_config : {S : Type 0} → Option Bytes → Option ℕ → Option (Config S)
listen_config name type_id = filtered (filter_name8 (listen_name name)) type_id none
