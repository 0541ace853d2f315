-- ===== src/Bridge/Supervisor/Tests.antt =====
-- The supervisor at concrete states.
use gpti84_plus.Base.{◌≡◌, arith, refl, List, [], ◌∷◌, ◌++◌, none, false}
use gpti84_plus.Base.Bytes.{codes}
use gpti84_plus.Link.{steady}
use gpti84_plus.Net.Stream.{Answer, chunk, nothing, bytes_of}
use gpti84_plus.Net.Reader.{new_reader}
use gpti84_plus.Net.Reader.Laws.{taken, new_reader-IsReady}
use gpti84_plus.Bridge.Pair.{no_pair}
use gpti84_plus.Bridge.Supervisor.{Desk, quiet, push_inbound, enough, Supervisor}
use gpti84_plus.Bridge.Supervisor.Drain.{Drained, push_all, push_inbound-Drained}
use gpti84_plus.Bridge.Supervisor.Whole.{fresh_desk, push_inbound-framed_all}

-- A reply of one page, and the start of the next frame.
abbrev reply : List Answer
reply = chunk (0 ∷ 0 ∷ 0 ∷ 10 ∷ codes "pages:1\nOK") ∷ chunk (0 ∷ []) ∷ nothing ∷ []

abbrev desk : Desk
desk = record { reader = new_reader; answers = reply; link = steady [] [] }

push_inbound-Drained_example :
    Drained (taken new_reader ++ bytes_of reply) (steady [] []) (push_inbound (enough desk) desk)
push_inbound-Drained_example = push_inbound-Drained desk new_reader-IsReady

abbrev first : Supervisor
first = record {
  state = record { pair = no_pair; net = record { up = false; raises = []; frames = [] } };
  reads = 0;
  opened = 0;
  reader = none;
  answers = [];
  link = steady [] [];
}

-- Two frames, cut inside the second length.
abbrev two_frames : List Answer
two_frames = chunk (0 ∷ 0 ∷ 0 ∷ 1 ∷ b'A' ∷ 0 ∷ []) ∷ chunk (0 ∷ 0 ∷ 1 ∷ b'B' ∷ []) ∷ []

push_inbound-framed_all_example :
    push_inbound
      (enough (fresh_desk two_frames (steady [] [])))
      (fresh_desk two_frames (steady [] []))
    ≡ (quiet, fresh_desk [] (push_all ((b'A' ∷ []) ∷ (b'B' ∷ []) ∷ []) (steady [] [])))
push_inbound-framed_all_example =
    push_inbound-framed_all ((b'A' ∷ []) ∷ (b'B' ∷ []) ∷ []) two_frames (steady [] []) tt
      (omega arith) refl
