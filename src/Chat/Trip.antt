-- ===== src/Chat/Trip.antt =====
-- From the two strings of the calculator to the strings that the bridge pushes back to it.
use gpti84_plus.Base.{
  ℕ, ◌<◌, ◌≡◌, ◌∙◌, ap, List, [], ◌∷◌, ◌++◌, take, take-le, Option, some, Bool, length, ◌⊎◌, arith,
}
use mathlib.Core.Path.{subst}
use gpti84_plus.Base.Bytes.{Bytes}
use gpti84_plus.Link.{steady}
use gpti84_plus.VarTypes.{t_real, encode_natural}
use gpti84_plus.Net.Stream.{Answer, bytes_of}
use gpti84_plus.Net.Reader.{new_reader}
use gpti84_plus.Net.Reader.Progress.{AllChunks, framed_all}
use gpti84_plus.Bridge.{parse_pages_frame}
use gpti84_plus.Bridge.Frames.{parse_pages_frame-llm_reply_pages}
use gpti84_plus.Bridge.Pair.Laws.{on_var-pair_frame}
use gpti84_plus.Bridge.Pair.ReadBack.{parse_pair-tokens_to_ascii}
use gpti84_plus.Bridge.Push.{page_str_names, push_paginated_reply}
use gpti84_plus.Bridge.Push
use gpti84_plus.Bridge.Push.Steady.{
  accept, accepts, var_bits, pages_bits, count_name, push_paginated_reply-steady,
}
use gpti84_plus.Bridge.Supervisor.Whole.{fresh_desk, push_inbound-framed_all}
use gpti84_plus.Bridge.Supervisor.{quiet, push_inbound, enough}
use gpti84_plus.Relay.Wrap.{page_cols, page_rows, max_pages}
use gpti84_plus.Relay.Layout.{Entry, layout_pages}
use gpti84_plus.Relay.Layout.Grid.{layout_pages_count}
use gpti84_plus.Relay.Frame.{raw_pages, reply_entries, llm_reply_pages}
use gpti84_plus.Relay.Server.{send_reply, run_worker}
use gpti84_plus.Relay.Server.Frames.{IsQuestion}
use gpti84_plus.Relay.Server.Replies.{handle-asked}
use gpti84_plus.Relay.Server.EchoTrip.{sent_bytes}
use gpti84_plus.Chat.{question, asked, idle, replied, answer_pages, desk_of}
use gpti84_plus.Chat.Sizes.{pair_frame-is_ascii, length-question, length-llm_reply_pages}

module _ (call_ollama : Bytes → Bytes → List Entry ⊎ Bytes) where
  -- One frame makes one reply.
  pub replied-framed :
      (i : ℕ) (p : Bytes) (there : List Answer)
      → AllChunks there
      → IsQuestion p
      → bytes_of there ≡ framed_all (p ∷ [])
      → sent_bytes (replied call_ollama i there).out
        ≡ framed_all (llm_reply_pages call_ollama p ∷ [])
  unfolding run_worker send_reply
  replied-framed i p there h q e =
      ap (λ r. sent_bytes (run_worker (λ p. llm_reply_pages call_ollama p) 0 r.1).out)
        (handle-asked i (p ∷ []) idle there h (q, tt) e)

  -- The reply to the question holds the pages of the answer.
  answer_pages_lem :
      (toks1 toks2 : Bytes)
      → take Push.max_pages (parse_pages_frame (llm_reply_pages call_ollama (question toks1 toks2)))
        ≡ answer_pages call_ollama toks1 toks2
  unfolding reply_entries
  answer_pages_lem toks1 toks2 =
      let pages = answer_pages call_ollama toks1 toks2 in
      let asked_for =
        ap (λ q. layout_pages page_cols page_rows max_pages (raw_pages (call_ollama q.0 q.1)))
          (parse_pair-tokens_to_ascii toks1 toks2) in
      ap (take Push.max_pages)
        (parse_pages_frame-llm_reply_pages call_ollama (question toks1 toks2) ∙ asked_for)
      ∙ take-le Push.max_pages pages
          (layout_pages_count page_cols page_rows max_pages _ (omega arith)).1

  -- Whatever tokens stand in Str1 and Str2, and whatever the model makes of them, the question goes
  -- out, one reply comes back, and what the bridge pushes is the model's answer to the decoded texts:
  -- each page of its layout to the string of its place, and then their number to N; the calculator
  -- accepts every variable and the bridge is then ready for the next frame. The strings have less than
  -- 65536 token bytes each, the sends do not fail, and the two streams may be cut into any chunks.
  pub push_inbound-answer_pages :
      (toks1 toks2 : Bytes) (now now' i : ℕ) (there back : List Answer) (rest : List (Option Bool))
      (sent : List Bool)
      → length toks1 < 65536
      → length toks2 < 65536
      → AllChunks there
      → bytes_of there ≡ framed_all (asked toks1 toks2 now now').1.net.frames
      → AllChunks back
      → bytes_of back ≡ sent_bytes (replied call_ollama i there).out
      → let pages = answer_pages call_ollama toks1 toks2 in
        let d = desk_of pages back rest sent in
        push_inbound (enough d) d ≡ (
          quiet,
          record {
            reader = new_reader;
            answers = [];
            link = steady rest (
                sent
                ++ (pages_bits page_str_names pages
                    ++ var_bits t_real count_name (encode_natural (length pages))));
          },
        )
  push_inbound-answer_pages toks1 toks2 now now' i there back rest sent lt lt' ht et hb eb =
      let p = question toks1 toks2 in
      let reply = llm_reply_pages call_ollama p in
      let pages = answer_pages call_ollama toks1 toks2 in
      let came =
        et
        ∙ ap (λ r. framed_all r.1.net.frames) (on_var-pair_frame toks1 toks2 now now' [] lt lt') in
      let sends =
        eb
        ∙ replied-framed i p there ht
            (pair_frame-is_ascii toks1 toks2, length-question toks1 toks2 lt lt') came in
      push_inbound-framed_all (reply ∷ []) back (steady (accepts (length pages) (accept rest)) sent)
        hb (length-llm_reply_pages call_ollama p, tt) sends
      ∙ ap (λ r. (quiet, fresh_desk [] r.1))
          (subst
            (λ ps. push_paginated_reply reply (steady (accepts (length ps) (accept rest)) sent) ≡ (
              some tt,
              steady rest (
                  sent
                  ++ (pages_bits page_str_names ps
                      ++ var_bits t_real count_name (encode_natural (length ps)))),
            ))
            (answer_pages_lem toks1 toks2) (push_paginated_reply-steady reply rest sent))
