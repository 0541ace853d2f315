-- ===== src/Bridge/Retry/Tests.antt =====
-- Seven failures in a row.
use gpti84_plus.Base.{◌≡◌, refl, [], ◌∷◌, ◌++◌, some, true, false, replicate}
use gpti84_plus.Bridge.Retry.{connect_socket, pauses_from, connect_socket-replicate}

seven_pauses : pauses_from 0 7 ≡ 1 ∷ 2 ∷ 4 ∷ 8 ∷ 16 ∷ 30 ∷ 30 ∷ []
seven_pauses = refl

connect_socket-replicate_example :
    connect_socket (replicate 7 true ++ (false ∷ true ∷ [])) ≡ (some (true ∷ []), pauses_from 0 7)
connect_socket-replicate_example = connect_socket-replicate 7 (true ∷ [])
