-- ===== src/Relay/Server/Frames.antt =====
-- Frame after frame: what one connection makes of a stream, and how its frames are answered.
use gpti84_plus.Base.{
  ℕ, zero, suc, ◌≤◌, ◌<◌, ◌≡◌, ◌∙◌, refl, ap, List, [], ◌∷◌, ◌++◌, append_assoc, Bool, true,
  le→ltb_false, length, length-append, All, arith,
}
use gpti84_plus.Base.Bytes.{Bytes}
use gpti84_plus.Net.Stream.{Answer, chunk, nothing, os_error, filled, fill, bytes_of}
use gpti84_plus.Net.Framing.{be32, from_be32, framed, from_be32-be32}
use gpti84_plus.Net.Reader.Progress.{AllChunks, fill_takes, framed_all}
use gpti84_plus.Relay.Server.{
  blocked, Server, set_active, is_ascii, frame, stop, header_of, body_of, read_frame, on_body,
  after_frame, serve, leave, handle,
}

-- A payload that a bridge may send: ASCII, and not oversize.
abbrev pub IsQuestion : Bytes → Type 0
IsQuestion p = (is_ascii p ≡ true) × (length p ≤ 1048576)

header_small :
    (n : ℕ) (hdr : Bytes) (ans : List Answer)
    → from_be32 hdr ≡ n
    → n ≤ 1048576
    → header_of (filled hdr ans) ≡ body_of (fill n [] ans)
header_small n hdr ans val small = rw val (rw (le→ltb_false 1048576 n small) refl)

read_frame-framed :
    (p rest : Bytes) (ans : List Answer)
    → AllChunks ans
    → length p ≤ 1048576
    → bytes_of ans ≡ framed p ++ rest
    → (ans' : List Answer) × (read_frame ans ≡ frame p ans')
      × (bytes_of ans' ≡ rest)
      × AllChunks ans'
unfolding read_frame
read_frame-framed p rest ans h small e =
    let (mid, ran, left, h') =
      fill_takes 4 [] (be32 (length p)) (p ++ rest) ans h
        (e ∙ append_assoc (be32 (length p)) p rest) (omega arith) refl in
    let (ans', ran', left', h'') = fill_takes (length p) [] p rest mid h' left (omega arith) refl in
    (
      ans',
      ap header_of ran
          ∙ header_small (length p) (be32 (length p)) mid (from_be32-be32 (length p) (omega arith))
              small
          ∙ ap body_of ran',
      left',
      h'',
    )

read_frame_empty :
    (ans : List Answer) → AllChunks ans → bytes_of ans ≡ [] → read_frame ans ≡ stop blocked
unfolding read_frame fill
read_frame_empty [] h e = refl
read_frame_empty (chunk [] ∷ ans) h e = elim h [ ]
read_frame_empty (chunk (c ∷ cs) ∷ ans) h e = cc
read_frame_empty (nothing ∷ ans) h e = elim h [ ]
read_frame_empty (os_error x ∷ ans) h e = elim h [ ]

module _ (echo_mode llm_mode : Bool) (i : ℕ) where
  -- The frames of one connection, one after the other.
  abbrev pub on_bodies : List Bytes → Server → Server
  on_bodies [] s = s
  on_bodies (p ∷ ps) s = on_bodies ps (on_body echo_mode llm_mode i p s)

  serve_all :
      (f : ℕ) (ps : List Bytes) (s : Server) (ans : List Answer)
      → AllChunks ans
      → All IsQuestion ps
      → bytes_of ans ≡ framed_all ps
      → length ps < f
      → serve echo_mode llm_mode f i s ans ≡ (blocked, on_bodies ps s)
  unfolding serve
  serve_all zero ps s ans h q e lt = absurd (omega arith)
  serve_all (suc f) [] s ans h q e lt =
      ap (after_frame echo_mode llm_mode (λ t rest. serve echo_mode llm_mode f i t rest) i s)
        (read_frame_empty ans h e)
  serve_all (suc f) (p ∷ ps) s ans h ((ascii, small), q) e lt =
      let (ans', ran, left, h') = read_frame-framed p (framed_all ps) ans h small e in
      ap (after_frame echo_mode llm_mode (λ t rest. serve echo_mode llm_mode f i t rest) i s) ran
      ∙ serve_all f ps (on_body echo_mode llm_mode i p s) ans' h' q left (omega arith)

  frames_counted : (ps : List Bytes) → length ps ≤ length (framed_all ps)
  frames_counted [] = omega arith
  frames_counted (p ∷ ps) =
      let more = frames_counted ps in omega (arith, length-append (framed p) (framed_all ps))

  pub handle_all :
      (ps : List Bytes) (s : Server) (ans : List Answer)
      → AllChunks ans
      → All IsQuestion ps
      → bytes_of ans ≡ framed_all ps
      → handle echo_mode llm_mode i s ans ≡ (blocked, on_bodies ps (set_active i s))
  unfolding handle
  handle_all ps s ans h q e = ap (leave echo_mode llm_mode i) (
      serve_all (suc (length (bytes_of ans))) ps (set_active i s) ans h q e
        (omega (arith, ap length e, frames_counted ps)))
