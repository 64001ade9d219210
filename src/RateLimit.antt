-- ===== src/RateLimit.antt =====
-- The rate limiter of API keys in web_server.go: the times of the requests of a key in the last
-- minute. A method body runs under the limiter's lock, so a call is one step. Times are nanoseconds.
pub mod History
use gomsggw.Base.{
  ℕ, ◌+◌, Bool, true, false, List, [], ◌∷◌, ◌++◌, Option, none, some, leb, ltb, length, Eq_ℕ,
  if◌then◌else◌,
}
use gomsggw.Base.Map.{lookup, insert}
use gomsggw.Limits.{minute}

-- `windows map[uint][]time.Time`
abbrev pub Windows : Type 0
Windows = List (ℕ × List ℕ)

abbrev pub times_or_nil : Option (List ℕ) → List ℕ
times_or_nil none = []
times_or_nil (some times) = times

unfoldable pub window_of : ℕ → Windows → List ℕ
window_of key_id windows = times_or_nil (lookup key_id windows)

-- The loop that keeps each `t` after `now` less one minute.
unfoldable pub prune : ℕ → List ℕ → List ℕ
prune now [] = []
prune now (t ∷ times) =
    let active = prune now times in if ltb now (t + minute) then t ∷ active else active

unfoldable pub check_rate_limit : ℕ → ℕ → ℕ → Windows → Windows × Bool
unfolding window_of prune
check_rate_limit now key_id max_requests windows =
    let active = prune now (window_of key_id windows) in
    if leb max_requests 0
    then (windows, true)
    else if leb max_requests (length active)
    then (insert key_id active windows, false)
    else (insert key_id (active ++ (now ∷ [])) windows, true)
