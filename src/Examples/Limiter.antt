-- ===== src/Examples/Limiter.antt =====
-- Examples for the rate limiter of web_server.go.
use gomsggw.Base.{◌<◌, true, List, [], ◌∷◌, ◌≡◌, ◌↔◌, arith, refl}
use gomsggw.Base.Map.{lookup, insert, delete}
use gomsggw.RateLimit.{check_rate_limit, window_of, prune}
use gomsggw.RateLimit.History.{
  Request, check_all, allowed_times, recent, InOrder, check_rate_limit-recent,
}

-- Two requests of key 7, which may send two a minute, and one of another key.
abbrev requests : List Request
requests =
    record { key_id = 7; max_requests = 2; time = 100 }
    ∷ record { key_id = 8; max_requests = 1; time = 200 }
    ∷ record { key_id = 7; max_requests = 2; time = 300 }
    ∷ []

requests-InOrder : InOrder 0 requests 400
requests-InOrder = ground arith

two_allowed : allowed_times 7 requests [] ≡ 100 ∷ 300 ∷ []
unfolding allowed_times check_rate_limit window_of prune lookup insert delete
two_allowed = refl

check_rate_limit-recent_example :
    ((check_rate_limit 400 7 2 (check_all requests [])).1 ≡ true)
    ↔ (recent 400 (allowed_times 7 requests []) < 2)
check_rate_limit-recent_example =
    check_rate_limit-recent requests 400 7 2 requests-InOrder (omega arith)
