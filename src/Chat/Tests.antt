-- ===== src/Chat/Tests.antt =====
-- One question at a concrete model.
use gpti84_plus.Base.{refl, sym, List, [], ◌∷◌, ◌++◌, some, ◌≡◌, ◌⊎◌, inl, length, arith}
use gpti84_plus.Base.Bytes.{Bytes}
use gpti84_plus.Link.{steady}
use gpti84_plus.VarTypes.{t_real, encode_natural}
use gpti84_plus.Transfer.Listen.Several.{offers, takings}
use gpti84_plus.Net.Stream.{Answer, chunk}
use gpti84_plus.Net.Framing.{framed}
use gpti84_plus.Net.Reader.{new_reader}
use gpti84_plus.Bridge.Pair.{no_pair}
use gpti84_plus.Bridge.Pair.Laws.{waiting}
use gpti84_plus.Bridge.Push.{page_str_names}
use gpti84_plus.Bridge.Push.Steady.{accept, accepts, var_bits, pages_bits, count_name}
use gpti84_plus.Bridge.Supervisor.{served, turn}
use gpti84_plus.Relay.Layout.{Entry, lines}
use gpti84_plus.Relay.Frame.{llm_reply_pages}
use gpti84_plus.Chat.{question, answer_pages}
use gpti84_plus.Chat.Sizes.{pair_frame-is_ascii, length-question}
use gpti84_plus.Chat.Trip.{replied-framed}
use gpti84_plus.Chat.Turn.{both_vars, turn-answer_pages}

-- A model that repeats the prompt and the math.
abbrev parrot : Bytes → Bytes → List Entry ⊎ Bytes
parrot prompt math = inl (lines (prompt ∷ math ∷ []) ∷ [])

-- HI, and 2X.
abbrev hi : Bytes
hi = b'H' ∷ b'I' ∷ []

abbrev two_x : Bytes
two_x = b'2' ∷ b'X' ∷ []

abbrev there : List Answer
there = chunk (framed (question hi two_x)) ∷ []

abbrev back : List Answer
back = chunk (framed (llm_reply_pages parrot (question hi two_x))) ∷ []

abbrev pages : List Bytes
pages = answer_pages parrot hi two_x

turn-answer_pages_example :
    turn
      (λ a b. a)
      (λ k. k)
      (λ k. [])
      (record {
        state = waiting no_pair [];
        reads = 0;
        opened = 1;
        reader = some new_reader;
        answers = back;
        link = steady (offers 0x73 (both_vars hi two_x) (accepts (length pages) (accept []))) [];
      })
    ≡ (
      served,
      record {
        state = waiting no_pair (question hi two_x ∷ []);
        reads = 2;
        opened = 1;
        reader = some new_reader;
        answers = [];
        link = steady [] (
            ([] ++ takings 0x73 (both_vars hi two_x))
            ++ (pages_bits page_str_names pages
                ++ var_bits t_real count_name (encode_natural (length pages))));
      },
    )
turn-answer_pages_example =
    turn-answer_pages (λ a b. a) (λ k. k) (λ k. []) parrot hi two_x 0 1 0x73 7 there back [] []
      (omega arith) (omega arith) (omega arith) (omega arith) (omega arith) tt refl tt
      (sym (
        replied-framed parrot 7 (question hi two_x) there tt
          (pair_frame-is_ascii hi two_x, length-question hi two_x (omega arith) (omega arith))
          refl))
