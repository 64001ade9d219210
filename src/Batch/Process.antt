-- ===== src/Batch/Process.antt =====
-- `processBatchJob` of batch.go: the passes over the messages, and the end of the job. The database
-- does every read and write that it is asked for.
use gomsggw.Base.{
  Bool, ℕ, zero, suc, ◌+◌, ◌*◌, ◌%◌, not, ◌&&◌, ◌||◌, List, [], ◌∷◌, ◌++◌, Option, none, some, Text,
  Eq_String, Eq_Text, ◌==◌, leb, ltb, length, count, if◌then◌else◌,
}
use gomsggw.Batch.{
  BatchMessageItem, BatchJob, BatchMessageError, BatchState, processing, partially_queued,
  completed, job_failed, Cancel, is_sent, is_failed, is_cancelled, update_row, queued_rows,
}
use gomsggw.AutoReply.{second}
use gomsggw.Batch.Messages.{BatchMessage, make_items}
use gomsggw.Batch.Items.{BatchEnv, later, set_failed, save_counts, pass_items, retry_items}

abbrev pub retry_interval : ℕ
retry_interval = 30 * second

-- A `time.Duration` has 64 bits: a product of 2 ^ 63 and more is negative.
unfoldable pub max_retry : BatchJob → ℕ
max_retry job =
    let wrapped = (job.max_retry_mins * (60 * second)) % 18_446_744_073_709_551_616 in
    if leb 1 wrapped && ltb wrapped 9_223_372_036_854_775_808 then wrapped else 60 * (60 * second)

abbrev pub save_progress : BatchState → BatchState
save_progress st = record st {
  stored = record st.stored { sent_count = st.job.sent_count; queued_count = st.job.queued_count };
}

abbrev pub retry_phase : BatchState → BatchState
retry_phase st = record st {
  job = record st.job { status = partially_queued };
  stored = record st.stored { status = partially_queued };
}

-- The rows of the query for failed and cancelled messages, as errors.
unfoldable pub errors_of : List BatchMessageItem → List BatchMessageError
errors_of [] = []
errors_of (r ∷ rows) =
    let rest = errors_of rows in
    if is_failed r || is_cancelled r
    then record { index = r.index; to = r.to; error = r.error; code = r.error_code } ∷ rest
    else rest

abbrev pub save_final : BatchJob → BatchJob → BatchJob
save_final job stored = record stored {
  status = job.status;
  sent_count = job.sent_count;
  failed_count = job.failed_count;
  queued_count = 0;
  errors = job.errors;
  completed_at = job.completed_at;
}

-- The job as it is stored when the goroutine starts, with rows for its messages.
unfoldable pub start : ℕ → List (List Cancel) → BatchJob → List BatchMessageItem → BatchState
start now schedule job items = record {
  rows = items;
  stored = record job { status = processing };
  job = record job { status = processing };
  client_msg_chan = [];
  webhooks = [];
  now = now;
  tick = 0;
  schedule = schedule;
  found = [];
}

-- `time.NewTicker` panics where the whole nanoseconds of `time.Second / throttle` are none.
abbrev pub ticker_panics : BatchJob → Bool
ticker_panics job = ltb second job.throttle_rps

module _ (env : BatchEnv) where
  -- `time.Sleep(retryInterval)`
  unfoldable pub sleep : BatchState → BatchState
  unfolding later
  sleep st = let awake = later env st in record awake { now = awake.now + retry_interval }

  -- A round that finds queued messages.
  unfoldable pub retry_round : BatchState → BatchState
  unfolding retry_items queued_rows
  retry_round st = save_progress (retry_items env (queued_rows st.rows) st)

  -- The retry loop, on fuel; `none` means that the fuel ran out.
  unfoldable pub retry_loop : ℕ → ℕ → BatchState → Option BatchState
  unfolding sleep retry_round queued_rows
  retry_loop zero deadline st = none
  retry_loop (suc fuel) deadline st =
      let awake = sleep st in
      let next = retry_loop fuel deadline (retry_round awake) in
      if not (ltb st.now deadline && leb 1 st.job.queued_count)
      then some st
      else if leb (length (queued_rows awake.rows)) 0
      then some (record awake { job = record awake.job { queued_count = 0 } })
      else next

  unfoldable pub expire_items : List BatchMessageItem → BatchState → BatchState
  unfolding later update_row
  expire_items [] st = st
  expire_items (item ∷ items) st =
      let now = later env st in
      expire_items items (record now {
        rows = update_row item.id (set_failed "retry deadline exceeded" 429) now.rows;
      })

  -- What is still queued after the deadline fails.
  unfoldable pub expire : BatchState → BatchState
  unfolding expire_items queued_rows
  expire st =
      let remaining = queued_rows st.rows in
      let done = expire_items remaining st in
      if leb 1 st.job.queued_count
      then record done {
        job = record done.job {
          failed_count = done.job.failed_count + length remaining;
          queued_count = 0;
        };
      }
      else st

  abbrev pub expire_after : Option BatchState → Option BatchState
  expire_after none = none
  expire_after (some st) = some (expire st)

  unfoldable pub retry_queued : ℕ → BatchState → Option BatchState
  retry_queued fuel st =
      let retried = retry_phase st in
      if leb 1 st.job.queued_count
      then expire_after (retry_loop fuel (retried.now + max_retry retried.job) retried)
      else some st

  -- The job after the queries for the sent, the failed and the cancelled rows and for the errors, in
  -- this order; requests come between them.
  abbrev pub final_job : BatchState → BatchJob
  final_job st =
      let failed_seen = later env st in
      let cancelled_seen = later env failed_seen in
      let errors_seen = later env cancelled_seen in
      record st.job {
        completed_at = some st.now;
        queued_count = 0;
        sent_count = count is_sent st.rows;
        failed_count = count is_failed failed_seen.rows + count is_cancelled cancelled_seen.rows;
        status = if leb (count is_sent st.rows) 0 then job_failed else completed;
        errors = errors_of errors_seen.rows;
      }

  -- The state in which the final update is made.
  abbrev pub finalizing : BatchState → BatchState
  finalizing st = later env (later env (later env (later env st)))

  unfoldable pub finalize : BatchState → BatchState
  unfolding errors_of later
  finalize st =
      let last = finalizing st in
      record last {
        job = final_job st;
        stored = save_final (final_job st) last.stored;
        webhooks =
            if not (st.job.webhook_url == "")
            then last.webhooks ++ (final_job st ∷ [])
            else last.webhooks;
      }

  abbrev pub finalize_after : Option BatchState → Option BatchState
  finalize_after none = none
  finalize_after (some st) = some (finalize (later env st))

  -- `none` means that the goroutine panicked, or that the fuel ran out.
  unfoldable pub process_batch_job :
      ℕ → ℕ → List (List Cancel) → BatchJob → List BatchMessage → Text → Option BatchState
  process_batch_job fuel now schedule job messages template =
      let items = make_items env.new_id template 0 messages in
      if ticker_panics job
      then none
      else finalize_after
          (retry_queued fuel (save_counts (pass_items env items (start now schedule job items))))
