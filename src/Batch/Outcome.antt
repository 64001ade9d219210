-- ===== src/Batch/Outcome.antt =====
-- What `processBatchJob` leaves of a whole batch.
use gomsggw.Base.{
  ℕ, suc, ◌+◌, ◌*◌, ◌≤◌, false, List, some, String, Text, Eq_String, leb, length, count, All, ◌≡◌,
  ◌⊎◌, inl, inr, ap, ◌∙◌, Bool-cases, arith,
}
use gomsggw.Batch.{BatchState, BatchJob, Cancel, completed, job_failed, is_sent, is_open}
use gomsggw.Batch.Messages.{BatchMessage}
use gomsggw.Batch.Items.{BatchEnv}
use gomsggw.AutoReply.{second}
use gomsggw.Batch.Process.{retry_interval, max_retry, finalizing, finalize, process_batch_job}
use gomsggw.Batch.Rows.{ids, Distinct}
use gomsggw.Batch.Waiting.{Pushed, pushes}
use gomsggw.Batch.Ends.{items, distinct, process_ends, length-make_items}
use gomsggw.Batch.Finals.{
  finalizing-Settled, finalizing-sent, closed, pushed, counted, on_channel, length-ids,
}

module _ (env : BatchEnv) (new : (i j : ℕ) → env.new_id i ≡ env.new_id j → i ≡ j) (fuel now : ℕ)
    (schedule : List (List Cancel)) (job : BatchJob) (messages : List BatchMessage)
    (template : Text) (enough : max_retry job ≤ fuel * retry_interval)
    (throttled : job.throttle_rps ≤ second) where
  abbrev all : List String
  all = ids (items env new fuel now schedule job messages template enough throttled)

  one : Distinct all
  one = distinct env new fuel now schedule job messages template enough throttled

  each_message : length all ≡ length messages
  each_message = length-make_items env.new_id template 0 messages

  -- When the UUIDs of the messages differ, the fuel covers the retry time and the throttle is at most
  -- 1,000,000,000 a second, `processBatchJob` returns, whatever the cancel requests do between its
  -- steps and whatever the limits say. Then there is a row for each message and none is pending or
  -- queued. The stored sent count is at least the number of sent rows and at most that of the
  -- messages, and with the stored failed count it comes to at least the number of messages: a message
  -- that is cancelled between the final queries is counted twice. The stored status is "completed"
  -- with something sent or "failed" with nothing sent, also for a job that was cancelled.
  pub process_batch_job-settles :
      (st : BatchState) × (process_batch_job env (suc fuel) now schedule job messages template
        ≡ some st)
      × (length st.rows ≡ length messages)
      × All (λ r. is_open r ≡ false) st.rows
      × (count is_sent st.rows ≤ st.stored.sent_count)
      × (st.stored.sent_count ≤ length messages)
      × (length messages ≤ st.stored.sent_count + st.stored.failed_count)
      × (((st.stored.status ≡ completed) × (1 ≤ st.stored.sent_count))
          ⊎ ((st.stored.status ≡ job_failed) × (st.stored.sent_count ≡ 0)))
  unfolding finalize
  process_batch_job-settles =
      let (st, done, law) =
        process_ends env new fuel now schedule job messages template enough throttled in
      let last = finalizing-Settled env all one st law in
      let (lower, upper) = on_channel env all one st law in
      (
        finalize env st,
        done,
        length-ids (finalizing env st).rows ∙ ap length last.same_ids ∙ each_message,
        closed env all one st law (finalizing env st) last,
        finalizing-sent env all one st law,
        omega (arith, lower, upper, each_message),
        omega (arith, counted env all one st law, each_message),
        elim (Bool-cases (leb (count is_sent st.rows) 0)) [
          | inl nothing ↦ inr (rw nothing, ground (arith, nothing))
          | inr something ↦ inl (rw something, ground (arith, something))
        ],
      )

  -- When the UUIDs of the messages differ, the fuel covers the retry time and the throttle is at most
  -- 1,000,000,000 a second, `processBatchJob` returns, and then the id of a row stands on
  -- `ClientMsgChan` as the log id of a message once if the row is sent, at most once if it is
  -- cancelled, and never if it is failed; the channel holds at least as many messages as the stored
  -- sent count says, and at most as many as the batch has.
  pub process_batch_job-pushes :
      (st : BatchState) × (process_batch_job env (suc fuel) now schedule job messages template
        ≡ some st)
      × All (λ r. Pushed r (pushes r.id st.client_msg_chan)) st.rows
      × (st.stored.sent_count ≤ length st.client_msg_chan)
      × (length st.client_msg_chan ≤ length messages)
  unfolding finalize
  process_batch_job-pushes =
      let (st, done, law) =
        process_ends env new fuel now schedule job messages template enough throttled in
      let (lower, upper) = on_channel env all one st law in
      (
        finalize env st,
        done,
        pushed env all one st law (finalizing env st) (finalizing-Settled env all one st law),
        lower,
        omega (arith, upper, each_message),
      )
