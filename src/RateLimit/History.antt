-- ===== src/RateLimit/History.antt =====
-- The rate limiter of web_server.go against the whole history of a key's requests.
use mathlib.Core.List.{append-nil, append_assoc}
use native.Mathlib.Decide.{dec_le}
use gomsggw.Base.{
  ℕ, ◌+◌, ◌≤◌, ◌<◌, Bool, true, false, ◌&&◌, List, [], ◌∷◌, ◌++◌, leb, ltb, nat_eq, nat_eq_iff,
  length, Eq_ℕ, if◌then◌else◌, ◌≡◌, ◌↔◌, refl, sym, ap, ◌∙◌, arith, Bool-cases, inl, inr,
}
use gomsggw.Base.Map.{lookup, insert, lookup-insert}
use gomsggw.Limits.{minute}
use gomsggw.RateLimit.{Windows, window_of, prune, check_rate_limit}

-- A call of the limiter.
pub record Request : Type 0 where
  pub key_id : ℕ
  pub max_requests : ℕ
  pub time : ℕ

abbrev pub check_request : Request → Windows → Windows × Bool
check_request r windows = check_rate_limit r.time r.key_id r.max_requests windows

-- The windows after a sequence of calls.
unfoldable pub check_all : List Request → Windows → Windows
check_all [] windows = windows
check_all (r ∷ rs) windows = check_all rs (check_request r windows).0

-- The times of all requests of one key that were allowed under a limit, in a sequence of calls.
unfoldable pub allowed_times : ℕ → List Request → Windows → List ℕ
allowed_times key [] windows = []
allowed_times key (r ∷ rs) windows =
    let later = allowed_times key rs (check_request r windows).0 in
    if leb 1 r.max_requests && (check_request r windows).1 && nat_eq r.key_id key
    then r.time ∷ later
    else later

-- How many of some times lie in the minute before `now`.
unfoldable pub recent : ℕ → List ℕ → ℕ
recent now [] = 0
recent now (t ∷ times) = (if ltb now (t + minute) then 1 else 0) + recent now times

-- The calls come in the order of their times, from `start` to `end`.
abbrev pub InOrder : ℕ → List Request → ℕ → Type 0
InOrder start [] end = start ≤ end
InOrder start (r ∷ rs) end = (start ≤ r.time) × InOrder r.time rs end

prune-append : (t : ℕ) (xs ys : List ℕ) → prune t (xs ++ ys) ≡ prune t xs ++ prune t ys
unfolding prune
prune-append t [] ys = refl
prune-append t (x ∷ xs) ys = ground (arith, prune-append t xs ys)

prune-prune : (s t : ℕ) (xs : List ℕ) → s ≤ t → prune t (prune s xs) ≡ prune t xs
unfolding prune
prune-prune s t [] h = refl
prune-prune s t (x ∷ xs) h = ground (arith, prune-prune s t xs h)

length-prune : (t : ℕ) (xs : List ℕ) → length (prune t xs) ≡ recent t xs
unfolding prune recent
length-prune t [] = refl
length-prune t (x ∷ xs) = ground (arith, length-prune t xs)

window_of-insert :
    (set key : ℕ) (times : List ℕ) (windows : Windows)
    → window_of key (insert set times windows)
      ≡ (if nat_eq set key then times else window_of key windows)
unfolding window_of
window_of-insert set key times windows = ground (arith, lookup-insert set key times windows)

-- The three outcomes of a call.
check_unlimited :
    (now key max : ℕ) (windows : Windows)
    → max ≡ 0
    → check_rate_limit now key max windows ≡ (windows, true)
unfolding check_rate_limit
check_unlimited now key max windows h = ground arith

check_refused :
    (now key max : ℕ) (windows : Windows)
    → 1 ≤ max
    → max ≤ length (prune now (window_of key windows))
    → check_rate_limit now key max windows
      ≡ (insert key (prune now (window_of key windows)) windows, false)
unfolding check_rate_limit
check_refused now key max windows h full = ground arith

check_allowed :
    (now key max : ℕ) (windows : Windows)
    → length (prune now (window_of key windows)) < max
    → check_rate_limit now key max windows
      ≡ (insert key (prune now (window_of key windows) ++ (now ∷ [])) windows, true)
unfolding check_rate_limit
check_allowed now key max windows room = ground arith

-- The time that a call adds to the history of a key.
abbrev added : ℕ → Request → Bool → List ℕ
added key r allowed =
    if leb 1 r.max_requests && allowed && nat_eq r.key_id key then r.time ∷ [] else []

added-unlimited :
    (key : ℕ) (r : Request) (allowed : Bool) → r.max_requests ≡ 0 → added key r allowed ≡ []
added-unlimited key r allowed h = ground arith

added-refused : (key : ℕ) (r : Request) → added key r false ≡ []
added-refused key r = ground arith

added-allowed :
    (key : ℕ) (r : Request)
    → 1 ≤ r.max_requests
    → added key r true ≡ (if nat_eq r.key_id key then r.time ∷ [] else [])
added-allowed key r h = ground arith

-- Replacing a key's window by one that is the same from now on keeps what is recent later.
insert-prune :
    (key t : ℕ) (r : Request) (more : List ℕ) (windows : Windows)
    → r.time ≤ t
    → prune t (
        window_of key (insert r.key_id (prune r.time (window_of r.key_id windows) ++ more) windows))
      ≡ prune t (window_of key windows ++ (if nat_eq r.key_id key then more else []))
insert-prune key t r more windows h = elim (Bool-cases (nat_eq r.key_id key)) [
  | inl same ↦
      rw
        (
          window_of-insert r.key_id key (prune r.time (window_of r.key_id windows) ++ more) windows,
          same,
          (nat_eq_iff r.key_id key).0 same,
          prune-append,
          prune-prune r.time t (window_of key windows) h,
        )
        (sym (prune-append t (window_of key windows) more))
  | inr other ↦ rw (
    window_of-insert r.key_id key (prune r.time (window_of r.key_id windows) ++ more) windows,
    other,
    append-nil,
  )
]

nothing_more :
    (key : ℕ) (r : Request) (windows : Windows) (t : ℕ)
    → r.time ≤ t
    → prune t (window_of key (insert r.key_id (prune r.time (window_of r.key_id windows)) windows))
      ≡ prune t (window_of key windows)
nothing_more key r windows t h =
    let law = insert-prune key t r [] windows h in
    rw (if-same (nat_eq r.key_id key) [], append-nil, append-nil) at law
  where
    if-same : (b : Bool) (times : List ℕ) → (if b then times else times) ≡ times
    if-same true times = refl
    if-same false times = refl

check_request-prune :
    (key : ℕ) (r : Request) (windows : Windows) (t : ℕ)
    → r.time ≤ t
    → prune t (window_of key (check_request r windows).0)
      ≡ prune t (window_of key windows ++ added key r (check_request r windows).1)
check_request-prune key r windows t h = elim (dec_le r.max_requests 0) [
  | yes none_set ↦
      let z : r.max_requests ≡ 0 = omega arith in
      rw (
        check_unlimited r.time r.key_id r.max_requests windows z,
        added-unlimited key r true z,
        append-nil,
      )
  | no limited ↦ elim (dec_le r.max_requests (length (prune r.time (window_of r.key_id windows)))) [
    | yes full ↦
        rw
          (
            check_refused r.time r.key_id r.max_requests windows (omega arith) full,
            added-refused key r,
            append-nil,
          )
          (nothing_more key r windows t h)
    | no room ↦
        rw
          (
            check_allowed r.time r.key_id r.max_requests windows (omega arith),
            added-allowed key r (omega arith),
          )
          (insert-prune key t r (r.time ∷ []) windows h)
  ]
]

allowed_times-nil : (key : ℕ) (windows : Windows) → allowed_times key [] windows ≡ []
unfolding allowed_times
allowed_times-nil key windows = refl

allowed_times-cons :
    (key : ℕ) (r : Request) (rs : List Request) (windows : Windows)
    → allowed_times key (r ∷ rs) windows
      ≡ added key r (check_request r windows).1 ++ allowed_times key rs (check_request r windows).0
unfolding allowed_times
allowed_times-cons key r rs windows =
    elim (Bool-cases (leb 1 r.max_requests && (check_request r windows).1 && nat_eq r.key_id key)) [
      | inl counted ↦ rw counted
      | inr not_counted ↦ rw not_counted
    ]

-- The window of a key and its whole history have the same recent times.
check_all-prune :
    (key : ℕ) (rs : List Request) (start end t : ℕ) (windows : Windows) (past : List ℕ)
    → InOrder start rs end
    → end ≤ t
    → ((u : ℕ) → start ≤ u → prune u (window_of key windows) ≡ prune u past)
    → prune t (window_of key (check_all rs windows))
      ≡ prune t (past ++ allowed_times key rs windows)
unfolding check_all
check_all-prune key [] start end t windows past order h same =
    rw (allowed_times-nil key windows, append-nil) (same t (omega (arith, order)))
check_all-prune key (r ∷ rs) start end t windows past order h same =
    let new = added key r (check_request r windows).1 in
    let next : (u : ℕ)
        → r.time ≤ u
        → prune u (window_of key (check_request r windows).0) ≡ prune u (past ++ new) =
      λ u late.
        check_request-prune key r windows u late
        ∙ prune-append u (window_of key windows) new
        ∙ ap (λ times. times ++ prune u new) (same u (omega (arith, order.0)))
        ∙ sym (prune-append u past new) in
    rw
      (
        allowed_times-cons key r rs windows,
        ← append_assoc past new (allowed_times key rs (check_request r windows).0),
      )
      (check_all-prune key rs r.time end t (check_request r windows).0 (past ++ new) order.1 h next)

-- After every sequence of calls of the limiter in the order of their times, for any keys and
-- limits, a call for a key with a positive limit is allowed exactly when fewer requests of that key
-- than the limit were allowed in the minute before it.
pub check_rate_limit-recent :
    (rs : List Request) (now key max : ℕ)
    → InOrder 0 rs now
    → 1 ≤ max
    → ((check_rate_limit now key max (check_all rs [])).1 ≡ true)
      ↔ (recent now (allowed_times key rs []) < max)
check_rate_limit-recent rs now key max order limited = (to, back)
  where
    windows : Windows
    windows = check_all rs []

    count : length (prune now (window_of key windows)) ≡ recent now (allowed_times key rs [])
    count =
        ap length (
          check_all-prune key rs 0 now now [] [] order (omega arith)
            (λ u late. unfold window_of lookup in refl))
        ∙ length-prune now (allowed_times key rs [])

    to :
        (check_rate_limit now key max windows).1 ≡ true → recent now (allowed_times key rs []) < max
    to allowed = elim (dec_le max (length (prune now (window_of key windows)))) [
      | yes full ↦ absurd (ground (arith, check_refused now key max windows limited full, allowed))
      | no room ↦ omega (arith, count)
    ]

    back :
        recent now (allowed_times key rs []) < max → (check_rate_limit now key max windows).1 ≡ true
    back room = rw (check_allowed now key max windows (omega (arith, count)))
