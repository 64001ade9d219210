-- ===== src/Examples/Batches.antt =====
-- Examples for batch.go.
use gomsggw.Base.{
  ℕ, zero, suc, ◌+◌, ◌*◌, ◌≤◌, false, List, [], ◌∷◌, Option, none, some, String, text_eq, codes,
  Eq_Text, Eq_String, Eq_ℕ, length, count, All, ◌≡◌, ◌⊎◌, refl, ap, arith,
}
use gomsggw.Examples.{alice, bob, client_of, limit_env}
use gomsggw.Batch.{
  BatchJob, BatchState, Cancel, find_message, cancel_message, waiting, completed, job_failed,
  is_sent, is_cancelled, is_open, cancel, find_batch_message, cancel_batch_message,
}
use gomsggw.Base.Strings.{contains}
use gomsggw.Limits.{get_effective_limit}
use gomsggw.Limits.Check.{check_message_limits, check_period, find_limit_number}
use gomsggw.Batch.Messages.{BatchMessage, make_items}
use gomsggw.Batch.Items.{BatchEnv, save_counts, pass_items}
use gomsggw.Batch.Process.{
  retry_interval, max_retry, start, retry_queued, finalize, process_batch_job,
}
use gomsggw.Batch.Waiting.{Pushed, pushes}
use gomsggw.Batch.Outcome.{process_batch_job-settles, process_batch_job-pushes}

-- UUIDs that grow.
abbrev new_id : ℕ → String
new_id zero = String.[]
new_id (suc n) = String.◌∷◌ "x" (new_id n)

new_id-injective : (i j : ℕ) → new_id i ≡ new_id j → i ≡ j
new_id-injective zero zero h = refl
new_id-injective zero (suc j) h = cc
new_id-injective (suc i) zero h = cc
new_id-injective (suc i) (suc j) h = ap suc (new_id-injective i j (cc))

-- A client whose limit is used up sends two messages, of which one has no number; the first is
-- cancelled while it waits for the limit.
abbrev env : BatchEnv
env = record {
  client = client_of 1 alice 2;
  limits = λ tick. limit_env;
  elapsed = λ tick. 1;
  new_id = new_id;
  limit_message = λ r. "limit";
  e164_error = λ number. "invalid";
}

abbrev job : BatchJob
job = record {
  id = "job";
  client_id = 1;
  api_key_id = none;
  status = waiting;
  total_count = 2;
  sent_count = 0;
  failed_count = 0;
  queued_count = 0;
  from_number = codes alice;
  webhook_url = "";
  throttle_rps = 0;
  max_retry_mins = 1;
  completed_at = none;
  errors = [];
}

abbrev messages : List BatchMessage
messages =
    record { to = codes bob; text = codes "hello"; variables = [] }
    ∷ record { to = codes "none"; text = codes "hello"; variables = [] }
    ∷ []

abbrev schedule : List (List Cancel)
schedule = [] ∷ [] ∷ [] ∷ (find_message (new_id 0) ∷ []) ∷ (cancel_message (new_id 0) ∷ []) ∷ []

two_rounds : max_retry job ≤ 2 * retry_interval
unfolding max_retry
two_rounds = omega arith

process_batch_job-settles_example :
    (st : BatchState) × (process_batch_job env 3 100 schedule job messages [] ≡ some st)
    × (length st.rows ≡ 2)
    × All (λ r. is_open r ≡ false) st.rows
    × (count is_sent st.rows ≤ st.stored.sent_count)
    × (st.stored.sent_count ≤ 2)
    × (2 ≤ st.stored.sent_count + st.stored.failed_count)
    × (((st.stored.status ≡ completed) × (1 ≤ st.stored.sent_count))
        ⊎ ((st.stored.status ≡ job_failed) × (st.stored.sent_count ≡ 0)))
process_batch_job-settles_example =
    process_batch_job-settles env new_id-injective 2 100 schedule job messages [] two_rounds
      (omega arith)

process_batch_job-pushes_example :
    (st : BatchState) × (process_batch_job env 3 100 schedule job messages [] ≡ some st)
    × All (λ r. Pushed r (pushes r.id st.client_msg_chan)) st.rows
    × (st.stored.sent_count ≤ length st.client_msg_chan)
    × (length st.client_msg_chan ≤ 2)
process_batch_job-pushes_example =
    process_batch_job-pushes env new_id-injective 2 100 schedule job messages [] two_rounds
      (omega arith)

-- One message without limits: a request finds it open, it is sent, and the request writes between the
-- queries for the sent and the cancelled rows.
abbrev raced : List (List Cancel)
raced = (find_message (new_id 0) ∷ []) ∷ [] ∷ [] ∷ (cancel_message (new_id 0) ∷ []) ∷ []

abbrev free_env : BatchEnv
free_env = record env { client = client_of 1 alice 0 }

-- The stored sent and failed counts, the messages on the channel, and the cancelled rows.
abbrev counts_of : Option BatchState → ℕ × ℕ × ℕ × ℕ
counts_of none = (0, 0, 0, 0)
counts_of (some st) = (
  st.stored.sent_count,
  st.stored.failed_count,
  length st.client_msg_chan,
  count is_cancelled st.rows,
)

abbrev one_message : List BatchMessage
one_message = record { to = codes bob; text = codes "hello"; variables = [] } ∷ []

-- The message is on the channel, its row is cancelled, and it is counted as sent and as failed.
raced-cancelled :
    counts_of (process_batch_job free_env 3 100 raced job one_message []) ≡ (1, 1, 1, 1)
unfolding process_batch_job retry_queued save_counts pass_items make_items start cancel
    find_batch_message text_eq check_message_limits check_period get_effective_limit
    find_limit_number contains finalize cancel_batch_message
raced-cancelled = refl
