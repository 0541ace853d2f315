-- ===== src/Bridge/Tests.antt =====
-- The bridge at concrete inputs.
use gpti84_plus.Base.{ℕ, ◌≡◌, ◌-◌, List, [], ◌∷◌, ◌++◌, ◌⊎◌, inl, none, some, length, take, arith}
use gpti84_plus.Base.Bytes.{Bytes, codes}
use gpti84_plus.Link.{steady}
use gpti84_plus.VarTypes.{t_real, encode_natural}
use gpti84_plus.Tokens.{Mode, tokens_to_ascii}
use gpti84_plus.Relay.Wrap
use gpti84_plus.Relay.Layout.{Entry, lines, layout_pages}
use gpti84_plus.Relay.Frame.{reply_entries, llm_reply_pages}
use gpti84_plus.Bridge.{with_size, parse_pages_frame}
use gpti84_plus.Bridge.Frames.{parse_pages_frame-llm_reply_pages}
use gpti84_plus.Bridge.Pair.{
  no_pair, Pair, on_var, returned, pair_frame, str_slot_text, str_slot_math,
}
use gpti84_plus.Bridge.Pair.Laws.{name_of, waiting, then_on_var, on_var-pair_frame}
use gpti84_plus.Bridge.Push.{max_pages, page_str_names, push_paginated_reply}
use gpti84_plus.Bridge.Push.Steady.{
  accept, accepts, pages_bits, var_bits, count_name, push_paginated_reply-steady,
}

-- A model that repeats the prompt and the math.
abbrev parrot : Bytes → Bytes → List Entry ⊎ Bytes
parrot prompt math = inl (lines (prompt ∷ math ∷ []) ∷ [])

abbrev question : Bytes
question = codes "prompt:WHAT IS X\nmath:2*X=4\n"

parse_pages_frame-llm_reply_pages_example :
    parse_pages_frame (llm_reply_pages parrot question)
    ≡ layout_pages Wrap.page_cols Wrap.page_rows Wrap.max_pages (reply_entries parrot question)
parse_pages_frame-llm_reply_pages_example = parse_pages_frame-llm_reply_pages parrot question

-- HI, and 2X.
abbrev hi : Bytes
hi = b'H' ∷ b'I' ∷ []

abbrev two_x : Bytes
two_x = b'2' ∷ b'X' ∷ []

on_var-pair_frame_example :
    then_on_var 0x04
      (name_of str_slot_math)
      (with_size two_x)
      250
      (on_var 0x04 (name_of str_slot_text) (with_size hi) 100 (waiting no_pair []))
    ≡ (
      returned,
      waiting no_pair (
          [] ++ (pair_frame (tokens_to_ascii hi Mode.text) (tokens_to_ascii two_x Mode.math) ∷ [])),
    )
on_var-pair_frame_example = on_var-pair_frame hi two_x 100 250 [] (omega arith) (omega arith)

abbrev waited : ℕ → ℕ → ℕ
waited now t = now - t

abbrev half_hi : Pair
half_hi = record { prompt = some hi; math = none; first_arrival_ms = some 100 }

abbrev reply : Bytes
reply = codes "pages:1\nHELLO"

push_paginated_reply-steady_example :
    push_paginated_reply reply
      (steady (accepts (length (take max_pages (parse_pages_frame reply))) (accept [])) [])
    ≡ (
      some tt,
      steady [] (
          []
          ++ (pages_bits page_str_names (take max_pages (parse_pages_frame reply))
              ++ var_bits t_real count_name
                  (encode_natural (length (take max_pages (parse_pages_frame reply)))))),
    )
push_paginated_reply-steady_example = push_paginated_reply-steady reply [] []
