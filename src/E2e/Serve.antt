-- ===== src/E2e/Serve.antt =====
-- The server that the reqtest script runs.
use gpti84_plus.Base.{
  ℕ, ◌≤◌, ◌≡◌, ◌≢◌, ◌⊎◌, refl, List, [], ◌∷◌, ◌++◌, Option, none, some, Bool, true, false, ◌&&◌,
  ◌==◌, ==_iff, ne→==_false, both, length, Bool-cases, inl, inr,
}
use gpti84_plus.Base.Bytes.{Bytes, IsByte, lo_byte, hi_byte, same_bytes}
use gpti84_plus.Command
use gpti84_plus.Link.{steady}
use gpti84_plus.Wire.Laws.{bits_of}
use gpti84_plus.Packet.{packet_bytes, pc_id_for}
use gpti84_plus.VarTypes.{make_var_header}
use gpti84_plus.Transfer.{proto_of, header_type, header_name}
use gpti84_plus.Transfer.Steady.{IsBody, frame}
use gpti84_plus.Transfer.Loopback.{supply}
use gpti84_plus.Transfer.Listen.{
  Config, filter_name8, again, type_passes, name_passes, listen_round,
}
use gpti84_plus.Transfer.Listen.Requests.{asks, listen_round_serves, listen_round_refuses}
use gpti84_plus.E2e.{appvar, chatin, on_req, reqtest_config}
use gpti84_plus.E2e.Compare.{same_bytes_iff}

abbrev pub serving : {S : Type 0} → Bytes → Config S
serving bs = record {
  name8 = some chatin;
  expected_type = some appvar;
  on_var = none;
  on_req = some (on_req bs);
}

-- The header of the AppVar for a machine that does not speak the TI-82 protocol.
abbrev pub chatin_header : ℕ → Bytes
chatin_header size = (lo_byte size ∷ hi_byte size ∷ appvar ∷ chatin) ++ (0 ∷ 0 ∷ [])

abbrev is_chatin : ℕ → Bytes → Bool
is_chatin type_id name8 = type_id == appvar && same_bytes name8 chatin

wanted : (t : ℕ) (n : Bytes) → t ≡ appvar → n ≡ chatin → is_chatin t n ≡ true
wanted t n et en = rw ((==_iff t appvar).1 et, (same_bytes_iff n chatin).1 en) refl

unwanted : (t : ℕ) (n : Bytes) → (t ≢ appvar) ⊎ (n ≢ chatin) → is_chatin t n ≡ false
unwanted t n (inl ne) = rw (ne→==_false t appvar ne) refl
unwanted t n (inr ne) = elim (Bool-cases (is_chatin t n)) [
  | inl e ↦ absurd (ne ((same_bytes_iff n chatin).0 (both (t == appvar) (same_bytes n chatin) e).1))
  | inr e ↦ e
]

served :
    (t : ℕ) (n bs : Bytes) (machine : ℕ)
    → t ≡ appvar
    → n ≡ chatin
    → machine ≢ 0x82
    → (on_req bs t n ≡ some bs)
      × (make_var_header (length bs) t n (proto_of machine) ≡ some (chatin_header (length bs)))
unfolding on_req make_var_header
served t n bs machine et en ne = (
  rw ((==_iff t appvar).1 et) (rw ((same_bytes_iff n chatin).1 en) refl),
  rw (et, en) (rw (ne→==_false machine 0x82 ne) refl),
)

-- The server of reqtest answers each request for the AppVar CHATIN by its bytes, under a header with
-- their number, and refuses by SKIP every request of another type or name; in both cases it goes on
-- to listen. The machine does not speak the TI-82 protocol, and the header of a request holds a type
-- and a name.
pub reqtest_answers :
    {S : Type 0} (bs : Bytes) (machine : ℕ) (hdr : Bytes) (rest : List (Option Bool))
    (sent : List Bool) (s : S)
    → IsByte machine
    → machine ≢ 0x82
    → IsBody hdr
    → 11 ≤ length hdr
    → (reqtest_config bs ≡ some (serving {S = S} bs))
      × (header_type hdr ≡ appvar
          → header_name hdr ≡ chatin
          → listen_round true (serving bs) (steady (asks machine hdr rest) sent) s ≡ (
            again,
            steady rest (sent ++ supply (pc_id_for machine) (chatin_header (length bs)) bs),
            s,
          ))
      × ((header_type hdr ≢ appvar) ⊎ (header_name hdr ≢ chatin)
          → listen_round true (serving bs) (steady (frame Command.req hdr machine rest) sent) s ≡ (
            again,
            steady rest (sent ++ bits_of (packet_bytes Command.skip [] (pc_id_for machine))),
            s,
          ))
unfolding reqtest_config filter_name8 type_passes name_passes
reqtest_answers bs machine hdr rest sent s hm ne hh long = (
  refl,
  λ t n.
      let (held, made) = served (header_type hdr) (header_name hdr) bs machine t n ne in
      listen_round_serves (serving bs) (on_req bs) true machine hdr bs (chatin_header (length bs))
        rest sent s refl hm hh long (wanted (header_type hdr) (header_name hdr) t n) held made,
  λ other.
      listen_round_refuses (serving bs) (on_req bs) true machine hdr rest sent s refl hm hh long
        (unwanted (header_type hdr) (header_name hdr) other),
)
