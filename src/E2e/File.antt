-- ===== src/E2e/File.antt =====
-- A program file on its way through the round trip.
use gpti84_plus.Base.{
  ℕ, ◌<◌, ◌≡◌, ◌↔◌, ◌∙◌, refl, sym, ap, List, [], ◌∷◌, ◌++◌, append_assoc, Option, some, Bool, true,
  length, Bool-cases, inl, inr, arith,
}
use mathlib.Core.Path.{subst}
use mathlib.Core.Option.{some-injective}
use gpti84_plus.Base.Bytes.{Bytes, IsByte, codes}
use gpti84_plus.Command
use gpti84_plus.Link.{steady}
use gpti84_plus.Wire.Laws.{bits_of}
use gpti84_plus.Packet.{packet_bytes, pc_id_for}
use gpti84_plus.VarTypes.{is_upper, is_digit, all_prog_chars, is_prog_name, prog_name}
use gpti84_plus.VarTypes.Names.{prog_name_field}
use gpti84_plus.Transfer.Steady.{IsBody, frame}
use gpti84_plus.Transfer.Receive.{taking}
use gpti84_plus.Transfer.Request.{req_var-steady}
use gpti84_plus.Transfer.Shortcuts.{put_prog, put_prog_83p}
use gpti84_plus.Container.{
  Program, is_name, all_name_chars, name_field, size_bytes, type_of, make_8xp, parse_8xp,
}
use gpti84_plus.Container.RoundTrip.{make_8xp-parse_8xp}
use gpti84_plus.Bridge.Push.Steady.{accept, header, header_made, var_bits, send_var-accept}
use gpti84_plus.E2e.{
  Ended, finished, uncaught, exited, differs, compared, requested, pushed, request_back,
  run_roundtrip, roundtrip, written, main, read_8xp,
}
use gpti84_plus.E2e.Compare.{Judged, compared-Judged, same_bytes_iff}
use gpti84_plus.E2e.RoundTrip.{type_byte}

-- The names of files and of the calculator's programs are the same.
same_chars : (name : Bytes) → all_prog_chars name ≡ all_name_chars name
unfolding all_prog_chars is_upper is_digit
same_chars [] = refl
same_chars (c ∷ name) = rw (same_chars name) refl

prog_name-is_name : (name : Bytes) → is_name name ≡ true → prog_name name ≡ some (name_field name)
unfolding prog_name is_prog_name is_name
prog_name-is_name name e = rw (same_chars name) (rw e refl)

-- What stands in the file.
abbrev program_of : Bytes → Bytes → Bool → Program
program_of name body locked = record {
  name = name;
  type_id = type_of locked;
  locked = locked;
  payload = size_bytes (length body) ++ body;
}

made-is_name :
    (name body file : Bytes) (locked : Bool)
    → make_8xp name body locked ≡ some file
    → length body < 65534
    → (is_name name ≡ true) × (parse_8xp file ≡ some (program_of name body locked))
made-is_name name body file locked made lt =
    let (good, bad) = make_8xp-parse_8xp name body locked (omega arith) in
    elim (Bool-cases (is_name name)) [
      | inl e ↦
          let (file', made', parsed) = good e in
          (
            e,
            subst (λ f. parse_8xp f ≡ some (program_of name body locked))
                (some-injective file' file (sym made' ∙ made)) parsed,
          )
      | inr e ↦ (let no = bad e in cc)
    ]

-- The calculator accepts a variable, and gives back the bytes `got` for the request that follows.
abbrev pub gives_back : ℕ → Bytes → Bytes → List (Option Bool) → List (Option Bool)
gives_back machine var_hdr got rest = accept (
    frame Command.ack [] machine (
      frame Command.var var_hdr machine
        (frame Command.ack [] machine (frame Command.data_cmd got machine rest))))

-- What the Pico sends: the program, and the request with the answers to what comes back.
abbrev pub there_and_back : ℕ → Bytes → Bytes → List Bool
there_and_back type_id name8 payload =
    var_bits type_id name8 payload
    ++ (bits_of (packet_bytes Command.req (header 0 type_id name8) (pc_id_for 0x73))
        ++ taking (pc_id_for 0x73))

runs_back :
    (name8 name payload var_hdr got : Bytes) (locked : Bool) (machine : ℕ)
    (rest : List (Option Bool)) (sent : List Bool)
    → prog_name name ≡ some name8
    → IsByte machine
    → IsBody var_hdr
    → IsBody got
    → run_roundtrip name payload locked (steady (gives_back machine var_hdr got rest) sent) ≡ (
      compared payload got,
      steady rest (sent ++ there_and_back (type_byte locked) name8 payload),
    )
unfolding run_roundtrip put_prog_83p put_prog
runs_back name8 name payload var_hdr got locked machine rest sent e hm hv hg =
    let len = (prog_name_field name name8 e).0 in
    let t = type_byte locked in
    let back = frame Command.ack [] machine (
      frame Command.var var_hdr machine
        (frame Command.ack [] machine (frame Command.data_cmd got machine rest))) in
    let l = steady (accept back) sent in
    rw e (
      ap (pushed (λ m. request_back locked (some name8) payload m) l)
        (send_var-accept t name8 payload back sent len)
      ∙ ap (requested payload (steady back (sent ++ var_bits t name8 payload))) (
          req_var-steady machine hm 0x73 t name8 (header 0 t name8) var_hdr got rest
            (sent ++ var_bits t name8 payload) hv hg (header_made 0 t name8 len))
      ∙ ap (λ b. (compared payload got, steady rest b))
          (append_assoc sent (var_bits t name8 payload) _))

Judged-finished :
    (payload got : Bytes) (v : Ended) → Judged payload got v → v ≡ finished → got ≡ payload
Judged-finished payload got finished j e = j
Judged-finished payload got uncaught j e = elim j [ ]
Judged-finished payload got (exited n) j e = elim j [ ]
Judged-finished payload got (differs at) j e = cc

pub compared_iff : (payload got : Bytes) → (compared payload got ≡ finished) ↔ (got ≡ payload)
unfolding compared
compared_iff payload got = (
  Judged-finished payload got (compared payload got) (compared-Judged payload got),
  λ e. rw ((same_bytes_iff got payload).1 e) refl,
)

module _ (read_bytes : Bytes → Option Bytes) (int_16 : Bytes → Option ℕ) where
  -- A file that `make_8xp` has made is turned into the script that tests the program on the
  -- calculator: its name, its body behind its size, and whether it is locked are those that the file
  -- was made of. When the calculator accepts the program and gives back some bytes for the request, the
  -- script has put the program and the request of the same type and name on the wire, and ends in
  -- success exactly if the bytes are those of the program. The body has less than 65534 bytes.
  pub main-run_roundtrip :
      (path name body file var_hdr got : Bytes) (locked : Bool) (machine : ℕ)
      (rest : List (Option Bool)) (sent : List Bool)
      → read_bytes path ≡ some file
      → make_8xp name body locked ≡ some file
      → length body < 65534
      → IsByte machine
      → IsBody var_hdr
      → IsBody got
      → let payload = size_bytes (length body) ++ body in
        (main read_bytes int_16 (codes "roundtrip" ∷ path ∷ [])
          ≡ written (roundtrip name payload locked))
        × (run_roundtrip name payload locked (steady (gives_back machine var_hdr got rest) sent) ≡ (
          compared payload got,
          steady rest (sent ++ there_and_back (type_byte locked) (name_field name) payload),
        ))
        × ((compared payload got ≡ finished) ↔ (got ≡ payload))
  unfolding main read_8xp
  main-run_roundtrip path name body file var_hdr got locked machine rest sent found made lt hm hv
        hg =
      let payload = size_bytes (length body) ++ body in
      let (named, parsed) = made-is_name name body file locked made lt in
      (
        rw found (rw parsed refl),
        runs_back (name_field name) name payload var_hdr got locked machine rest sent
            (prog_name-is_name name named) hm hv hg,
        compared_iff payload got,
      )
