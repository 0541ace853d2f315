-- ===== src/E2e/Tests.antt =====
-- The scripts at concrete inputs.
use gpti84_plus.Base.{
  ℕ, ◌≡◌, ◌≢◌, ◌↔◌, ◌⊎◌, refl, [], ◌∷◌, ◌++◌, Option, none, some, true, length, arith,
}
use gpti84_plus.Base.Bytes.{Bytes, codes}
use gpti84_plus.Command
use gpti84_plus.Link.{Link, steady}
use gpti84_plus.Wire.Laws.{bits_of}
use gpti84_plus.Packet.{packet_bytes, pc_id_for}
use gpti84_plus.Transfer.{header_type, header_name}
use gpti84_plus.Transfer.Steady.{frame}
use gpti84_plus.Transfer.Loopback.{supply}
use gpti84_plus.Transfer.Listen.{again, listen_round}
use gpti84_plus.Transfer.Listen.Requests.{asks}
use gpti84_plus.Container.{is_name, container, entry, type_of, name_field, size_bytes, make_8xp}
use gpti84_plus.E2e.{
  finished, compared, run_roundtrip, roundtrip, written, main, appvar, chatin, wire_payload,
  reqtest_config,
}
use gpti84_plus.E2e.RoundTrip.{Told, type_byte, run_roundtrip-Told}
use gpti84_plus.E2e.File.{gives_back, there_and_back, main-run_roundtrip}
use gpti84_plus.E2e.Serve.{serving, chatin_header, reqtest_answers}

abbrev deck : Bytes
deck = codes "DECK1"

abbrev disp_hi : Bytes
disp_hi = 0xDE ∷ 0x2A ∷ b'H' ∷ b'I' ∷ 0x2A ∷ 0x3F ∷ []

abbrev payload : Bytes
payload = size_bytes (length disp_hi) ++ disp_hi

-- One byte of the program comes back wrong.
abbrev spoilt : Bytes
spoilt = 6 ∷ 0 ∷ 0xDE ∷ 0x2A ∷ b'H' ∷ b'O' ∷ 0x2A ∷ 0x3F ∷ []

abbrev var_hdr : Bytes
var_hdr = 8 ∷ 0 ∷ 6 ∷ name_field deck

abbrev spoiling : Link
spoiling = steady (gives_back 0x73 var_hdr spoilt []) []

run_roundtrip-Told_example :
    Told deck payload true spoiling (run_roundtrip deck payload true spoiling)
run_roundtrip-Told_example = run_roundtrip-Told deck payload true spoiling

abbrev file : Bytes
file = container (entry (type_of true) (name_field deck) payload)

file_made : make_8xp deck disp_hi true ≡ some file
unfolding make_8xp is_name
file_made = refl

abbrev disk : Bytes → Option Bytes
disk path = some file

main-run_roundtrip_example :
    (main disk (λ s. none) (codes "roundtrip" ∷ codes "DECK1.8xp" ∷ [])
      ≡ written (roundtrip deck payload true))
    × (run_roundtrip deck payload true (steady (gives_back 0x73 var_hdr spoilt []) []) ≡ (
      compared payload spoilt,
      steady [] ([] ++ there_and_back (type_byte true) (name_field deck) payload),
    ))
    × ((compared payload spoilt ≡ finished) ↔ (spoilt ≡ payload))
main-run_roundtrip_example =
    main-run_roundtrip disk (λ s. none) (codes "DECK1.8xp") deck disp_hi file var_hdr spoilt true
      0x73 [] [] refl file_made (omega arith) (omega arith) (omega arith) (omega arith)

abbrev hello : Bytes
hello = wire_payload (codes "HELLO")

abbrev request : Bytes
request = 0 ∷ 0 ∷ appvar ∷ (chatin ++ (0 ∷ 0 ∷ []))

reqtest_answers_example :
    (reqtest_config hello ≡ some (serving {S = ℕ} hello))
    × (header_type request ≡ appvar
        → header_name request ≡ chatin
        → listen_round {S = ℕ} true (serving hello) (steady (asks 0x73 request []) []) 0 ≡ (
          again,
          steady [] ([] ++ supply (pc_id_for 0x73) (chatin_header (length hello)) hello),
          0,
        ))
    × ((header_type request ≢ appvar) ⊎ (header_name request ≢ chatin)
        → listen_round {S = ℕ} true
            (serving hello)
            (steady (frame Command.req request 0x73 []) [])
            0
          ≡ (again, steady [] ([] ++ bits_of (packet_bytes Command.skip [] (pc_id_for 0x73))), 0))
reqtest_answers_example =
    reqtest_answers hello 0x73 request [] [] 0 (omega arith) (λ e. omega arith) (omega arith)
      (omega arith)
