-- ===== src/Message/Retries.antt =====
-- `Retry` of msg_queue.go over the whole life of a message whose delivery keeps failing.
use gomsggw.Base.{
  ℕ, zero, suc, ◌+◌, ◌≤◌, Bool, true, false, Option, none, some, String, ◌≡◌, refl, ap, ◌∙◌, List,
  [], ◌∷◌, length, All, arith,
}
use gomsggw.Message.{MsgQueueItem, retry, current_delivery, black_hole, max_retries}

-- The attempts counted so far.
unfoldable pub attempts : MsgQueueItem → ℕ
unfolding current_delivery
attempts msg = (current_delivery 0 msg.delivery).retry_count

-- The queued copies of a message whose every delivery fails, and how its life ends: `some true`
-- when it is discarded, `some false` when it is swallowed, `none` when the fuel runs out.
unfoldable pub life : ℕ → ℕ → String → MsgQueueItem → List MsgQueueItem × Option Bool
life zero now err msg = ([], none)
life (suc fuel) now err msg =
    let r = retry now err msg in
    elim r.queued [
      | none ↦ ([], some r.discarded)
      | some next ↦ let (rest, end) = life fuel now err next in (next ∷ rest, end)
    ]

-- Two messages that differ at most in their delivery state.
abbrev pub SamePayload : MsgQueueItem → MsgQueueItem → Type 0
SamePayload a b = record a { delivery = none } ≡ record b { delivery = none }

retry_below :
    (now : ℕ) (err : String) (msg : MsgQueueItem)
    → suc (attempts msg) ≤ max_retries
    → ((retry now err msg).queued ≡ some (retry now err msg).item)
      × (attempts (retry now err msg).item ≡ attempts msg + 1)
      × SamePayload (retry now err msg).item msg
unfolding attempts retry
retry_below now err msg h = (ground arith, ground arith, ground arith)

retry_at_limit :
    (now : ℕ) (err : String) (msg : MsgQueueItem)
    → attempts msg ≡ max_retries
    → ((retry now err msg).queued ≡ none) × ((retry now err msg).discarded ≡ true)
unfolding attempts retry
retry_at_limit now err msg h = ground arith

life-requeued :
    (fuel now : ℕ) (err : String) (msg : MsgQueueItem) {next : MsgQueueItem}
    → (retry now err msg).queued ≡ some next
    → life (suc fuel) now err msg ≡ (next ∷ (life fuel now err next).0, (life fuel now err next).1)
unfolding life
life-requeued fuel now err msg h = rw (h, life)

life_from :
    (k now : ℕ) (err : String) (first msg : MsgQueueItem)
    → attempts msg + k ≡ max_retries
    → SamePayload msg first
    → (length (life (suc k) now err msg).0 ≡ k)
      × ((life (suc k) now err msg).1 ≡ some true)
      × All (λ q. SamePayload q first) (life (suc k) now err msg).0
unfolding life
life_from zero now err first msg h p = ground (arith, retry_at_limit now err msg)
life_from (suc k) now err first msg h p =
    let (queued, counted, same) = retry_below now err msg (omega arith) in
    let same' = same ∙ p in
    let (a, b, c) = life_from k now err first (retry now err msg).item (omega arith) same' in
    rw (life-requeued (suc k) now err msg queued) (ap suc a, b, (same', c))

-- A message that has been tried `n` times, at most 3, and whose every delivery fails is queued
-- exactly `3 - n` more times, each time the same in all but its delivery state, and is then
-- discarded; `4 - n` rounds of fuel are enough. Nothing is said of other counts, such as the 666 of
-- a message that is never retried.
pub life-bounded :
    (k now : ℕ) (err : String) (msg : MsgQueueItem)
    → attempts msg + k ≡ max_retries
    → (length (life (suc k) now err msg).0 ≡ k)
      × ((life (suc k) now err msg).1 ≡ some true)
      × All (λ q. SamePayload q msg) (life (suc k) now err msg).0
life-bounded k now err msg h = life_from k now err msg msg h refl

-- A message with the count 666 is neither queued again nor reported as discarded, for any error.
pub retry-black_hole :
    (now : ℕ) (err : String) (msg : MsgQueueItem)
    → attempts msg ≡ black_hole
    → ((retry now err msg).queued ≡ none)
      × ((retry now err msg).discarded ≡ false)
      × SamePayload (retry now err msg).item msg
unfolding attempts retry
retry-black_hole now err msg h = (ground arith, ground arith, ground arith)
