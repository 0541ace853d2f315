-- ===== src/Bridge/Retry.antt =====
-- `_connect_socket` and `_wifi_with_retry` of src/bridge.py: attempts with growing pauses.
mod Tests
use gpti84_plus.Base.{
  ℕ, zero, suc, ◌+◌, ◌*◌, ◌^◌, ◌≤◌, ◌<◌, min, ◌≡◌, ◌∙◌, refl, sym, ap, List, [], ◌∷◌, ◌++◌, Option,
  none, some, Bool, true, false, replicate, arith, All,
}

-- The pauses in seconds, and the attempts that are left behind the one that succeeds; `none` while
-- none has.
abbrev pub paused : ℕ → Option (List Bool) × List ℕ → Option (List Bool) × List ℕ
paused seconds (o, pauses) = (o, seconds ∷ pauses)

-- `while True: try: return ...; except OSError: ...`, where an attempt that raises is `true`
pub retry : ℕ → List Bool → Option (List Bool) × List ℕ
retry backoff [] = (none, [])
retry backoff (false ∷ attempts) = (some attempts, [])
retry backoff (true ∷ attempts) = paused backoff (retry (min (backoff * 2) 30) attempts)

pub connect_socket : List Bool → Option (List Bool) × List ℕ
unfolding retry
connect_socket attempts = retry 1 attempts

pub wifi_with_retry : List Bool → Option (List Bool) × List ℕ
unfolding retry
wifi_with_retry attempts = retry 1 attempts

-- The pauses of `k` failures behind `i`: powers of two, up to half a minute.
abbrev pub pauses_from : ℕ → ℕ → List ℕ
pauses_from i zero = []
pauses_from i (suc k) = min (2 ^ i) 30 ∷ pauses_from (suc i) k

next_pause : (i : ℕ) → min (min (2 ^ i) 30 * 2) 30 ≡ min (2 ^ suc i) 30
next_pause i = omega arith

retry-replicate :
    (i k : ℕ) (rest : List Bool)
    → retry (min (2 ^ i) 30) (replicate k true ++ (false ∷ rest)) ≡ (some rest, pauses_from i k)
unfolding retry
retry-replicate i zero rest = refl
retry-replicate i (suc k) rest =
    ap (λ b. paused (min (2 ^ i) 30) (retry b (replicate k true ++ (false ∷ rest)))) (next_pause i)
    ∙ ap (paused (min (2 ^ i) 30)) (retry-replicate (suc i) k rest)

-- However often the connection fails, the first attempt that does not is the last: it comes behind
-- one pause for each failure, of 1, 2, 4, 8 and 16 seconds and then of 30 each.
pub connect_socket-replicate :
    (k : ℕ) (rest : List Bool)
    → connect_socket (replicate k true ++ (false ∷ rest)) ≡ (some rest, pauses_from 0 k)
unfolding connect_socket
connect_socket-replicate k rest = retry-replicate 0 k rest
