-- ===== src/Chat.antt =====
-- A question of the calculator on its way through src/bridge.py and tools/relay_server.py, and the
-- reply on its way back.
pub mod Sizes
pub mod Trip
pub mod Turn
mod Tests
use gpti84_plus.Base.{ℕ, List, [], ◌∷◌, Option, none, ◌⊎◌, length, Bool, false, true}
use gpti84_plus.Base.Bytes.{Bytes}
use gpti84_plus.Link.{steady}
use gpti84_plus.Tokens.{Mode, tokens_to_ascii}
use gpti84_plus.Net.Stream.{Answer}
use gpti84_plus.Net.Reader.{new_reader}
use gpti84_plus.Bridge.{with_size}
use gpti84_plus.Bridge.Pair.{
  Outcome, State, no_pair, pair_frame, on_var, str_slot_text, str_slot_math,
}
use gpti84_plus.Bridge.Pair.Laws.{name_of, waiting, then_on_var}
use gpti84_plus.Bridge.Push.Steady.{accept, accepts}
use gpti84_plus.Bridge.Supervisor.{Desk}
use gpti84_plus.Relay.Wrap.{page_cols, page_rows, max_pages}
use gpti84_plus.Relay.Layout.{Entry, layout_pages}
use gpti84_plus.Relay.Frame.{raw_pages, llm_reply_pages}
use gpti84_plus.Relay.Server.{Server, handle}
use gpti84_plus.Relay.Server.Replies.{run_workers}

-- Str1 holds the tokens of the prompt and Str2 those of the math.
abbrev pub question : Bytes → Bytes → Bytes
question toks1 toks2 =
    pair_frame (tokens_to_ascii toks1 Mode.text) (tokens_to_ascii toks2 Mode.math)

-- The bridge when both have come, to an empty buffer and with a socket that sends.
abbrev pub asked : Bytes → Bytes → ℕ → ℕ → Outcome × State
asked toks1 toks2 now now' =
    then_on_var 0x04 (name_of str_slot_math) (with_size toks2) now'
      (on_var 0x04 (name_of str_slot_text) (with_size toks1) now (waiting no_pair []))

abbrev pub idle : Server
idle = record { active = none; workers = []; raises = []; out = [] }

module _ (call_ollama : Bytes → Bytes → List Entry ⊎ Bytes) where
  -- The relay when its one worker has answered the connection `i`.
  abbrev pub replied : ℕ → List Answer → Server
  replied i there =
      run_workers (λ p. llm_reply_pages call_ollama p) (0 ∷ []) (handle false true i idle there).1

  -- The pages of the model's answer to the prompt and the math.
  abbrev pub answer_pages : Bytes → Bytes → List Bytes
  answer_pages toks1 toks2 =
      layout_pages page_cols page_rows max_pages (
        raw_pages (call_ollama (tokens_to_ascii toks1 Mode.text) (tokens_to_ascii toks2 Mode.math)))

-- A calculator that accepts the pages and their number.
abbrev pub desk_of : List Bytes → List Answer → List (Option Bool) → List Bool → Desk
desk_of pages back rest sent = record {
  reader = new_reader;
  answers = back;
  link = steady (accepts (length pages) (accept rest)) sent;
}
