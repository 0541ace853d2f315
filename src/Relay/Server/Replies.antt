-- ===== src/Relay/Server/Replies.antt =====
-- The replies of a server whose sends do not fail.
use mathlib.Core.List.{Perm}
use mathlib.Core.List.Perm
use gpti84_plus.Base.{
  both, ℕ, ◌≡◌, ◌∙◌, sym, refl, ap, List, [], ◌∷◌, ◌++◌, append-nil, append_assoc, map, Option,
  none, some, Bool, true, false, ltb, All,
}
use gpti84_plus.Base.Bytes.{Bytes, codes}
use gpti84_plus.Net.Stream.{Answer, bytes_of}
use gpti84_plus.Net.Framing.{framed}
use gpti84_plus.Net.Reader.Progress.{AllChunks, framed_all}
use gpti84_plus.Relay.Frame.{encode_replace}
use gpti84_plus.Relay.Server.{
  blocked, Server, send_reply, set_active, is_ascii, on_body, handle, send_answer, run_worker,
}
use gpti84_plus.Relay.Server.Frames.{IsQuestion, on_bodies, handle_all}

encode_replace-is_ascii : (p : Bytes) → is_ascii p ≡ true → encode_replace p ≡ p
unfolding encode_replace
encode_replace-is_ascii [] e = refl
encode_replace-is_ascii (c ∷ cs) e =
    let (low, rest) = both (ltb c 0x80) (is_ascii cs) e in
    rw low (ap (λ t. c ∷ t) (encode_replace-is_ascii cs rest))

-- The reply to one frame of an echo server.
abbrev pub echo : ℕ → Bytes → ℕ × Bytes
echo i p = (i, framed (codes "echo: " ++ p))

module _ (llm_mode : Bool) (i : ℕ) where
  echoed :
      (p : Bytes) (s : Server)
      → s.raises ≡ []
      → is_ascii p ≡ true
      → on_body true llm_mode i p s ≡ record s { out = s.out ++ (echo i p ∷ []) }
  unfolding on_body send_reply
  echoed p s quiet ascii = rw ascii (
      ap (λ r. send_answer r i (framed (encode_replace (codes "echo: " ++ p))) s) quiet
      ∙ ap (λ b. record s { out = s.out ++ ((i, framed b) ∷ []) })
          (encode_replace-is_ascii (codes "echo: " ++ p) ascii))

  echo_all :
      (ps : List Bytes) (s : Server)
      → s.raises ≡ []
      → All IsQuestion ps
      → on_bodies true llm_mode i ps s ≡ record s { out = s.out ++ map (echo i) ps }
  echo_all [] s quiet q = ap (λ o. record s { out = o }) (sym (append-nil s.out))
  echo_all (p ∷ ps) s quiet ((ascii, small), q) =
      ap (on_bodies true llm_mode i ps) (echoed p s quiet ascii)
      ∙ echo_all ps (record s { out = s.out ++ (echo i p ∷ []) }) quiet q
      ∙ ap (λ o. record s { out = o }) (append_assoc s.out (echo i p ∷ []) (map (echo i) ps))

  -- In echo mode, with sends that do not fail, the handler of a connection answers every frame, and
  -- in order, however the stream is cut into chunks, and then waits for more: the frames are ASCII,
  -- with at most 2 ^ 20 bytes each, and the connection is the active client.
  pub handle-echo :
      (ps : List Bytes) (s : Server) (ans : List Answer)
      → s.raises ≡ []
      → AllChunks ans
      → All IsQuestion ps
      → bytes_of ans ≡ framed_all ps
      → handle true llm_mode i s ans
        ≡ (blocked, record s { active = some i; out = s.out ++ map (echo i) ps })
  unfolding set_active
  handle-echo ps s ans quiet h q e =
      handle_all true llm_mode i ps s ans h q e
      ∙ ap (λ t. (blocked, t)) (echo_all ps (set_active i s) quiet q)

module _ (i : ℕ) where
  asked :
      (p : Bytes) (s : Server)
      → is_ascii p ≡ true
      → on_body false true i p s ≡ record s { workers = s.workers ++ ((i, p) ∷ []) }
  unfolding on_body
  asked p s ascii = rw ascii refl

  ask_all :
      (ps : List Bytes) (s : Server)
      → All IsQuestion ps
      → on_bodies false true i ps s ≡ record s { workers = s.workers ++ map (λ p. (i, p)) ps }
  ask_all [] s q = ap (λ o. record s { workers = o }) (sym (append-nil s.workers))
  ask_all (p ∷ ps) s ((ascii, small), q) =
      ap (on_bodies false true i ps) (asked p s ascii)
      ∙ ask_all ps (record s { workers = s.workers ++ ((i, p) ∷ []) }) q
      ∙ ap (λ o. record s { workers = o })
          (append_assoc s.workers ((i, p) ∷ []) (map (λ p. (i, p)) ps))

  -- With the model every frame gets a worker.
  pub handle-asked :
      (ps : List Bytes) (s : Server) (ans : List Answer)
      → AllChunks ans
      → All IsQuestion ps
      → bytes_of ans ≡ framed_all ps
      → handle false true i s ans
        ≡ (blocked, record s { active = some i; workers = s.workers ++ map (λ p. (i, p)) ps })
  unfolding set_active
  handle-asked ps s ans h q e =
      handle_all false true i ps s ans h q e
      ∙ ap (λ t. (blocked, t)) (ask_all ps (set_active i s) q)

module _ (reply_pages : Bytes → Bytes) where
  -- The reply of a worker.
  abbrev pub answer_of : ℕ × Bytes → ℕ × Bytes
  answer_of w = (w.0, framed (reply_pages w.1))

  -- What was sent, and what the workers will send.
  abbrev pub owed : Server → List (ℕ × Bytes)
  owed s = s.out ++ map answer_of s.workers

  abbrev Picked : List (ℕ × Bytes) → Option ((ℕ × Bytes) × List (ℕ × Bytes)) → Type 0
  Picked ws none = Unit {0}
  Picked ws (some (w, rest)) = Perm (map answer_of (w ∷ rest)) (map answer_of ws)

  -- Workers end, in the order of the picks.
  abbrev pub run_workers : List ℕ → Server → Server
  run_workers [] s = s
  run_workers (n ∷ ns) s = run_workers ns (run_worker reply_pages n s)
