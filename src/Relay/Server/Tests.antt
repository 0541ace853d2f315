-- ===== src/Relay/Server/Tests.antt =====
-- The relay server at concrete streams.
use gpti84_plus.Base.{
  ◌≡◌, ◌≢◌, sym, ap, refl, true, false, List, [], ◌∷◌, ◌++◌, map, none, some, arith,
}
use gpti84_plus.Base.Bytes.{codes, Bytes}
use gpti84_plus.Net.Stream.{Answer, chunk}
use gpti84_plus.Relay.Server.{Server, blocked, out_of_fuel, handle}
use gpti84_plus.Relay.Server.Replies.{echo, handle-echo}
use gpti84_plus.Relay.Server.Ends.{handle-ends}
use gpti84_plus.Relay.Server.EchoTrip.{sent_bytes, polls-handle}
use gpti84_plus.Net.Reader.{new_reader}
use gpti84_plus.Net.Reader.Polls.{polls}

abbrev fresh : Server
fresh = record { active = none; workers = []; raises = []; out = [] }

abbrev hi : Bytes
hi = b'H' ∷ b'I' ∷ []

abbrev ok : Bytes
ok = b'O' ∷ b'K' ∷ []

-- HI and OK, cut inside both.
abbrev two_frames : List Answer
two_frames =
    chunk (0 ∷ 0 ∷ 0 ∷ [])
    ∷ chunk (2 ∷ b'H' ∷ [])
    ∷ chunk (b'I' ∷ 0 ∷ 0 ∷ 0 ∷ 2 ∷ b'O' ∷ b'K' ∷ [])
    ∷ []

two_frames_echoed : handle true false 7 fresh two_frames ≡ (
  blocked,
  record { active = some 7; workers = []; raises = []; out = map (echo 7) (hi ∷ ok ∷ []) },
)
two_frames_echoed =
    handle-echo false 7 (hi ∷ ok ∷ []) fresh two_frames refl tt
      ((refl, omega arith), ((refl, omega arith), tt)) refl

handle-ends_example :
    (handle true true 7 fresh (chunk (0 ∷ 0 ∷ 0 ∷ 1 ∷ []) ∷ chunk [] ∷ [])).0 ≢ out_of_fuel
handle-ends_example = handle-ends true true 7 fresh (chunk (0 ∷ 0 ∷ 0 ∷ 1 ∷ []) ∷ chunk [] ∷ [])

-- The replies, cut behind the first length.
abbrev replies : List Answer
replies =
    chunk (0 ∷ 0 ∷ 0 ∷ 8 ∷ []) ∷ chunk (codes "echo: HI" ++ (0 ∷ 0 ∷ 0 ∷ 8 ∷ codes "echo: OK")) ∷ []

polls-handle_example : (polls 2 new_reader replies).got ≡ codes "echo: HI" ∷ codes "echo: OK" ∷ []
polls-handle_example =
    polls-handle false 7 (hi ∷ ok ∷ []) fresh two_frames replies refl refl
      ((refl, omega arith), ((refl, omega arith), tt)) tt refl tt
      (sym (ap (λ r. sent_bytes r.1.out) two_frames_echoed))
