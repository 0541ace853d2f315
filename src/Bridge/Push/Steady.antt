-- ===== src/Bridge/Push/Steady.antt =====
-- The push of a reply to a calculator that accepts every variable.
use gpti84_plus.Base.{
  ℕ, zero, suc, ◌≤◌, ◌<◌, ◌≡◌, refl, sym, ap, ◌∙◌, List, [], ◌∷◌, ◌++◌, append-nil, append_assoc,
  Option, none, some, Bool, length, length-take, take, All, Bool-cases, inl, inr, arith,
}
use gpti84_plus.Base.Bytes.{Bytes, codes, lo_byte, hi_byte}
use gpti84_plus.Base.Text.{starts_with}
use gpti84_plus.Command
use gpti84_plus.Link.{steady}
use gpti84_plus.Wire.Laws.{bits_of}
use gpti84_plus.Packet.{packet_bytes, pc_id_for}
use gpti84_plus.VarTypes.{
  make_var_header, str_name, str_index, str_field, real_name, is_upper, t_string, t_real,
  encode_natural,
}
use gpti84_plus.Transfer.{send_var}
use gpti84_plus.Transfer.Steady.{frame}
use gpti84_plus.Transfer.SendVar.{closing, send_var-steady}
use gpti84_plus.Bridge.{ascii_to_str_payload, parse_pages_frame, frame_pages, or_blank, find_byte}
use gpti84_plus.Bridge.Push.{
  max_pages, page_str_names, settle, caught, push_one_str, push_pagecount, push_pages, push_counted,
  push_paginated_reply,
}

-- The calculator accepts one variable, or some number of them: ACK, CTS, ACK for each.
abbrev pub accept : List (Option Bool) → List (Option Bool)
accept rest = frame Command.ack [] 0x73 (frame Command.cts [] 0x73 (frame Command.ack [] 0x73 rest))

pub accepts : ℕ → List (Option Bool) → List (Option Bool)
accepts zero rest = rest
accepts (suc n) rest = accept (accepts n rest)

-- The header of a variable for an 84+.
abbrev pub header : ℕ → ℕ → Bytes → Bytes
header size type_id name8 = (lo_byte size ∷ hi_byte size ∷ type_id ∷ name8) ++ (0 ∷ 0 ∷ [])

-- What one `send_var` to the 84+ puts on the wire.
pub var_bits : ℕ → Bytes → Bytes → List Bool
var_bits type_id name8 bs =
    bits_of (packet_bytes Command.rts (header (length bs) type_id name8) (pc_id_for 0x73))
    ++ (bits_of (packet_bytes Command.ack [] (pc_id_for 0x73))
        ++ (bits_of (packet_bytes Command.data_cmd bs (pc_id_for 0x73)) ++ closing 0x73))

-- Each page goes to the string of its place.
pub pages_bits : List Bytes → List Bytes → List Bool
unfolding var_bits
pages_bits names [] = []
pages_bits [] (page ∷ pages) = []
pages_bits (name ∷ names) (page ∷ pages) =
    var_bits t_string name (ascii_to_str_payload page) ++ pages_bits names pages

pub header_made :
    (size type_id : ℕ) (name8 : Bytes)
    → length name8 ≡ 8
    → make_var_header size type_id name8 83 ≡ some (header size type_id name8)
unfolding make_var_header
header_made size type_id name8 len = rw len refl

pub send_var-accept :
    (type_id : ℕ) (name8 bs : Bytes) (rest : List (Option Bool)) (sent : List Bool)
    → length name8 ≡ 8
    → send_var type_id name8 bs 0x73 (steady (accept rest) sent)
      ≡ some (some tt, steady rest (sent ++ var_bits type_id name8 bs))
unfolding var_bits
send_var-accept type_id name8 bs rest sent len =
    send_var-steady 0x73 0x73 bs (omega arith) rest type_id name8 (header (length bs) type_id name8)
      sent (header_made (length bs) type_id name8 len)

caught_send :
    (type_id : ℕ) (name8 bs : Bytes) (rest : List (Option Bool)) (sent : List Bool)
    → length name8 ≡ 8
    → caught (send_var type_id name8 bs 0x73) (steady (accept rest) sent)
      ≡ (some tt, steady rest (sent ++ var_bits type_id name8 bs))
caught_send type_id name8 bs rest sent len =
    ap (settle (steady (accept rest) sent)) (send_var-accept type_id name8 bs rest sent len)

push_pages-steady :
    (names pages : List Bytes) (rest : List (Option Bool)) (sent : List Bool)
    → length pages ≤ length names
    → All (λ n. length n ≡ 8) names
    → push_pages names pages (steady (accepts (length pages) rest) sent)
      ≡ (some tt, steady rest (sent ++ pages_bits names pages))
unfolding push_pages push_one_str accepts pages_bits
push_pages-steady names [] rest sent le h =
    ap (λ x. (some tt, steady rest x)) (sym (append-nil sent))
push_pages-steady [] (page ∷ pages) rest sent le h = absurd (omega arith)
push_pages-steady (name ∷ names) (page ∷ pages) rest sent le (hn, h) =
    let later =
      push_pages-steady names pages rest
        (sent ++ var_bits t_string name (ascii_to_str_payload page)) (omega arith) h in
    rw (caught_send t_string name (ascii_to_str_payload page) (accepts (length pages) rest) sent hn)
      (later
        ∙ ap (λ x. (some tt, steady rest x))
            (append_assoc sent (var_bits t_string name (ascii_to_str_payload page))
              (pages_bits names pages)))

names_valid : (length page_str_names ≡ 8) × All (λ n. length n ≡ 8) page_str_names
unfolding page_str_names str_name str_index str_field
names_valid = (refl, (refl, (refl, (refl, (refl, (refl, (refl, (refl, (refl, tt)))))))))

-- The real variable N.
abbrev pub count_name : Bytes
count_name = b'N' ∷ 0 ∷ 0 ∷ 0 ∷ 0 ∷ 0 ∷ 0 ∷ 0 ∷ []

push_pagecount-steady :
    (n : ℕ) (rest : List (Option Bool)) (sent : List Bool)
    → push_pagecount n (steady (accept rest) sent)
      ≡ (some tt, steady rest (sent ++ var_bits t_real count_name (encode_natural n)))
unfolding push_pagecount real_name is_upper
push_pagecount-steady n rest sent = caught_send t_real count_name (encode_natural n) rest sent refl

push_counted-steady :
    (ps : List Bytes) (rest : List (Option Bool)) (sent : List Bool)
    → 0 < length ps
    → length ps ≤ 8
    → push_counted ps (steady (accepts (length ps) (accept rest)) sent) ≡ (
      some tt,
      steady rest (
          sent
          ++ (pages_bits page_str_names ps
              ++ var_bits t_real count_name (encode_natural (length ps)))),
    )
unfolding push_counted
push_counted-steady [] rest sent pos le = absurd (omega arith)
push_counted-steady (p ∷ ps) rest sent pos le =
    rw
      (push_pages-steady page_str_names (p ∷ ps) (accept rest) sent (omega (arith, names_valid.0))
        names_valid.1)
      (push_pagecount-steady (length (p ∷ ps)) rest (sent ++ pages_bits page_str_names (p ∷ ps))
        ∙ ap (λ x. (some tt, steady rest x))
            (append_assoc sent (pages_bits page_str_names (p ∷ ps))
              (var_bits t_real count_name (encode_natural (length (p ∷ ps))))))

or_blank_pos : (ps : List Bytes) → 0 < length (or_blank ps)
or_blank_pos [] = omega arith
or_blank_pos (p ∷ ps) = omega arith

frame_pages_pos : (bs : Bytes) (nl : Option ℕ) → 0 < length (frame_pages bs nl)
frame_pages_pos bs none = omega arith
frame_pages_pos bs (some nl) = or_blank_pos _

parse_pages_frame_pos : (bs : Bytes) → 0 < length (parse_pages_frame bs)
unfolding parse_pages_frame
parse_pages_frame_pos bs = elim (Bool-cases (starts_with (codes "pages:") bs)) [
  | inl e ↦ rw e (frame_pages_pos bs (find_byte b'\n' bs))
  | inr e ↦ rw e (omega arith)
]

-- If the calculator accepts every variable, the reply is pushed whole and succeeds: each of the
-- first eight pages goes to the string of its place, and only then their number goes to N.
pub push_paginated_reply-steady :
    (bs : Bytes) (rest : List (Option Bool)) (sent : List Bool)
    → let pages = take max_pages (parse_pages_frame bs) in
      push_paginated_reply bs (steady (accepts (length pages) (accept rest)) sent) ≡ (
        some tt,
        steady rest (
            sent
            ++ (pages_bits page_str_names pages
                ++ var_bits t_real count_name (encode_natural (length pages)))),
      )
unfolding push_paginated_reply
push_paginated_reply-steady bs rest sent =
    let n = length-take 8 (parse_pages_frame bs) in
    push_counted-steady (take max_pages (parse_pages_frame bs)) rest sent
      (omega (arith, n, parse_pages_frame_pos bs)) (omega (arith, n))
