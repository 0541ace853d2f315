-- ===== src/Chat/Turn.antt =====
-- One turn of the supervisor, from the two strings to the pushes.
use gpti84_plus.Base.{
  ℕ, suc, ◌<◌, ◌≡◌, ◌∙◌, refl, sym, ap, List, [], ◌∷◌, ◌++◌, Option, some, Bool, true, false,
  length, All, ◌⊎◌, arith,
}
use gpti84_plus.Base.Bytes.{Bytes, IsByte, lo_byte, hi_byte}
use gpti84_plus.Link.{steady}
use gpti84_plus.VarTypes.{t_real, encode_natural}
use gpti84_plus.Transfer.Listen.{type_passes, name_passes}
use gpti84_plus.Transfer.Listen.Several.{
  offers, takings, IsVariable, call_all, and_then, listen_loop-call_all, length-offers,
}
use gpti84_plus.Net.Stream.{Answer, bytes_of}
use gpti84_plus.Net.Reader.{new_reader}
use gpti84_plus.Net.Reader.Progress.{AllChunks, framed_all}
use gpti84_plus.Bridge.{with_size}
use gpti84_plus.Bridge.Pair.{Outcome, State, no_pair, on_var, str_slot_text, str_slot_math}
use gpti84_plus.Bridge.Pair.Laws.{
  name_of, waiting, then_on_var, open_net, on_var-pair_frame, maybe_flush_stale_pair-no_pair,
}
use gpti84_plus.Bridge.Push.{page_str_names}
use gpti84_plus.Bridge.Push.Steady.{accept, accepts, var_bits, pages_bits, count_name}
use gpti84_plus.Bridge.Supervisor.{
  Supervisor, Clocked, heed, listening, served, turn, after_listen, after_flush, after_push,
}
use gpti84_plus.Relay.Layout.{Entry}
use gpti84_plus.Relay.Server.EchoTrip.{sent_bytes}
use gpti84_plus.Chat.{question, replied, answer_pages}
use gpti84_plus.Chat.Trip.{push_inbound-answer_pages}

-- A string of the calculator, with its header.
abbrev pub str_var : ℕ → Bytes → Bytes × Bytes
str_var slot toks = (
  lo_byte (length (with_size toks))
      ∷ hi_byte (length (with_size toks))
      ∷ 0x04
      ∷ (name_of slot ++ (0 ∷ 0 ∷ [])),
  with_size toks,
)

abbrev pub both_vars : Bytes → Bytes → List (Bytes × Bytes)
both_vars toks1 toks2 = str_var str_slot_text toks1 ∷ str_var str_slot_math toks2 ∷ []

str_var-IsVariable :
    (slot : ℕ) (toks : Bytes)
    → IsByte slot
    → All IsByte toks
    → length toks < 65534
    → IsVariable (str_var slot toks)
str_var-IsVariable slot toks hs h lt = (
  (
    (
      omega arith,
      (
        omega arith,
        (
          omega arith,
          (
            omega arith,
            (
              hs,
              (
                omega arith,
                (
                  omega arith,
                  (
                    omega arith,
                    (omega arith, (omega arith, (omega arith, (omega arith, (omega arith, tt))))),
                  ),
                ),
              ),
            ),
          ),
        ),
      ),
    ),
    omega arith,
  ),
  ((omega arith, (omega arith, h)), omega arith),
  omega arith,
)

module _ (ticks_diff : ℕ → ℕ → ℕ) (clock : ℕ → ℕ) (connections : ℕ → List Answer) where
  abbrev on_clocked : ℕ → Bytes → Bytes → Bytes → Clocked → Bool × Clocked
  on_clocked type_id name8 hdr bs c =
      heed ticks_diff clock connections (suc c.reads)
        (on_var type_id name8 bs (clock c.reads) c.state)

  no_more :
      (r : Bool × Clocked)
      → and_then (listening ticks_diff clock connections) on_clocked (λ c. (true, c)) r ≡ r
  no_more (true, c) = refl
  no_more (false, c) = refl

  second_heard :
      (toks2 : Bytes) (k : ℕ) (r : Outcome × State) (st : State)
      → then_on_var 0x04 (name_of str_slot_math) (with_size toks2) (clock (suc k)) r
        ≡ (Outcome.returned, st)
      → and_then
          (listening ticks_diff clock connections)
          on_clocked
          (call_all
            (listening ticks_diff clock connections)
            on_clocked
            (str_var str_slot_math toks2 ∷ []))
          (heed ticks_diff clock connections (suc k) r)
        ≡ (true, record { state = st; reads = suc (suc k) })
  unfolding type_passes name_passes
  second_heard toks2 k (Outcome.returned, s) st e =
      no_more _ ∙ ap (heed ticks_diff clock connections (suc (suc k))) e
  second_heard toks2 k (Outcome.raised, s) st e = cc

  both_heard :
      (toks1 toks2 : Bytes) (k : ℕ)
      → length toks1 < 65536
      → length toks2 < 65536
      → call_all
          (listening ticks_diff clock connections)
          on_clocked
          (both_vars toks1 toks2)
          (record { state = waiting no_pair []; reads = k })
        ≡ (
          true,
          record { state = waiting no_pair (question toks1 toks2 ∷ []); reads = suc (suc k) },
        )
  unfolding type_passes name_passes
  both_heard toks1 toks2 k lt lt' =
      second_heard toks2 k _ _ (on_var-pair_frame toks1 toks2 (clock k) (clock (suc k)) [] lt lt')

  -- One whole turn. The calculator sends Str1 and Str2 and pauses, the relay answers the frame that
  -- the bridge makes of them by the model's pages, and the bridge pushes these: the turn ends in
  -- peace, with the question sent, an empty buffer, a reader between two polls, and on the wire the
  -- answers to the two variables, each page of the answer to the decoded texts, for the string of its
  -- place, and their number, for N. The socket is up, its sends do not raise, and the reply has come
  -- when the bridge polls; the calculator accepts what is pushed; the strings have less than 65534
  -- token bytes each, and the two streams may be cut into any chunks.
  pub turn-answer_pages :
      (call_ollama : Bytes → Bytes → List Entry ⊎ Bytes) (toks1 toks2 : Bytes)
      (k opened machine i : ℕ) (there back : List Answer) (rest : List (Option Bool))
      (sent : List Bool)
      → IsByte machine
      → All IsByte toks1
      → All IsByte toks2
      → length toks1 < 65534
      → length toks2 < 65534
      → AllChunks there
      → bytes_of there ≡ framed_all (question toks1 toks2 ∷ [])
      → AllChunks back
      → bytes_of back ≡ sent_bytes (replied call_ollama i there).out
      → let pages = answer_pages call_ollama toks1 toks2 in
        let vars = both_vars toks1 toks2 in
        turn ticks_diff clock connections (record {
          state = waiting no_pair [];
          reads = k;
          opened = opened;
          reader = some new_reader;
          answers = back;
          link = steady (offers machine vars (accepts (length pages) (accept rest))) sent;
        })
        ≡ (
          served,
          record {
            state = waiting no_pair (question toks1 toks2 ∷ []);
            reads = suc (suc k);
            opened = opened;
            reader = some new_reader;
            answers = [];
            link = steady rest (
                (sent ++ takings machine vars)
                ++ (pages_bits page_str_names pages
                    ++ var_bits t_real count_name (encode_natural (length pages))));
          },
        )
  unfolding turn
  turn-answer_pages call toks1 toks2 k opened machine i there back rest sent hm h1 h2 lt lt' ht et
        hb eb =
      let pages = answer_pages call toks1 toks2 in
      let vars = both_vars toks1 toks2 in
      let incoming = offers machine vars (accepts (length pages) (accept rest)) in
      let listened =
        listen_loop-call_all (listening ticks_diff clock connections) on_clocked
          (suc (length incoming)) machine vars (accepts (length pages) (accept rest)) sent
          (record { state = waiting no_pair []; reads = k })
          (record { state = waiting no_pair (question toks1 toks2 ∷ []); reads = suc (suc k) }) refl
          hm
          (
            str_var-IsVariable str_slot_text toks1 (omega arith) h1 lt,
            (str_var-IsVariable str_slot_math toks2 (omega arith) h2 lt', tt),
          )
          (omega (arith, length-offers machine vars (accepts (length pages) (accept rest))))
          (both_heard toks1 toks2 k (omega arith) (omega arith)) in
      let came =
        et
        ∙ ap (λ r. framed_all r.1.net.frames)
            (sym (on_var-pair_frame toks1 toks2 0 0 [] (omega arith) (omega arith))) in
      let pushed =
        push_inbound-answer_pages call toks1 toks2 0 0 i there back rest
          (sent ++ takings machine vars) (omega arith) (omega arith) ht came hb eb in
      let s : Supervisor = record {
        state = waiting no_pair [];
        reads = k;
        opened = opened;
        reader = some new_reader;
        answers = back;
        link = steady incoming sent;
      } in
      let heard : Supervisor = record s {
        state = waiting no_pair (question toks1 toks2 ∷ []);
        reads = suc (suc k);
        link = steady (accepts (length pages) (accept rest)) (sent ++ takings machine vars);
      } in
      ap (after_listen ticks_diff clock connections s) listened
      ∙ ap (after_flush heard) (
          maybe_flush_stale_pair-no_pair ticks_diff (clock (suc (suc k)))
            (open_net (question toks1 toks2 ∷ [])))
      ∙ ap (after_push heard) pushed
