-- ===== src/Batch/Items.antt =====
-- What `processBatchJob` of batch.go does with one message. Requests of the client come between the steps of the goroutine:
-- before each look at a row, and again before what the goroutine then writes to it. The waits of
-- the throttle are part of the time that passes between the steps. `-` stops at 0, where the code
-- would count below.
use gomsggw.Base.{
  ℕ, ◌+◌, ◌-◌, ◌%◌, nat_eq, Bool, false, not, List, [], ◌∷◌, ◌++◌, Option, none, some, String, Text,
  Eq_String, Eq_Text, ◌==◌, if◌then◌else◌,
}
use gomsggw.Client.{Client}
use gomsggw.Message.{MsgQueueItem, sms_type}
use gomsggw.Numbers.{format_to_e164}
use gomsggw.Limits.Check.{LimitEnv, LimitCheckResult, check_message_limits}
use gomsggw.Batch.{
  BatchMessageItem, BatchState, sent, queued, failed, is_cancelled, find_row, update_row, interrupt,
}

-- What the environment gives: the client, what the limit queries see at a step, the time that
-- passes after a step, the UUID for the message at an index, and two texts for the user: that of a
-- refusal, and that for a number which `FormatToE164` refuses.
pub record BatchEnv : Type 1 where
  pub client : Client
  pub limits : ℕ → LimitEnv
  pub elapsed : ℕ → ℕ
  pub new_id : ℕ → String
  pub limit_message : LimitCheckResult → String
  pub e164_error : Text → String

-- A row that is not there has no status.
abbrev pub was_cancelled : Option BatchMessageItem → Bool
was_cancelled none = false
was_cancelled (some r) = is_cancelled r

abbrev pub refuses : Option LimitCheckResult → Bool
refuses none = false
refuses (some r) = not r.allowed

abbrev pub batch_item : BatchState → BatchMessageItem → MsgQueueItem
batch_item st item = record {
  to = item.to;
  from = st.job.from_number;
  received_timestamp = st.now;
  queued_timestamp = 0;
  type = sms_type;
  files = [];
  message = item.text;
  skip_number_check = false;
  log_id = item.id;
  source_carrier = "";
  source_ip = "";
  original_size_bytes = 0;
  delivery = none;
}

abbrev pub set_sent : ℕ → BatchMessageItem → BatchMessageItem
set_sent now r = record r { status = sent; sent_at = some now; error = ""; error_code = 0 }

abbrev pub set_failed : String → ℕ → BatchMessageItem → BatchMessageItem
set_failed err code r = record r { status = failed; error = err; error_code = code }

abbrev pub set_queued : String → ℕ → BatchMessageItem → BatchMessageItem
set_queued err now r = record r {
  status = queued;
  error = err;
  error_code = 429;
  queued_at = some now;
}

unfoldable pub send_batch_message : BatchMessageItem → BatchState → BatchState
unfolding update_row
send_batch_message item st = record st {
  client_msg_chan = st.client_msg_chan ++ (batch_item st item ∷ []);
  rows = update_row item.id (set_sent st.now) st.rows;
}

unfoldable pub fail_item : BatchMessageItem → String → BatchState → BatchState
unfolding update_row
fail_item item err st = record st {
  rows = update_row item.id (set_failed err 400) st.rows;
  job = record st.job { failed_count = st.job.failed_count + 1 };
}

unfoldable pub queue_item : BatchMessageItem → String → BatchState → BatchState
unfolding update_row
queue_item item err st = record st {
  rows = update_row item.id (set_queued err st.now) st.rows;
  job = record st.job { queued_count = st.job.queued_count + 1 };
}

unfoldable pub save_counts : BatchState → BatchState
save_counts st = record st {
  stored = record st.stored {
    sent_count = st.job.sent_count;
    failed_count = st.job.failed_count;
    queued_count = st.job.queued_count;
  };
}

-- Every 100 messages the progress is saved.
unfoldable pub checkpoint : BatchMessageItem → BatchState → BatchState
unfolding save_counts
checkpoint item st = if nat_eq ((item.index + 1) % 100) 0 then save_counts st else st

unfoldable pub send_first : BatchMessageItem → BatchState → BatchState
unfolding send_batch_message checkpoint
send_first item st =
    let next = send_batch_message item st in
    checkpoint item (record next { job = record next.job { sent_count = next.job.sent_count + 1 } })

-- A queued message that is sent at a retry.
unfoldable pub send_again : BatchMessageItem → BatchState → BatchState
unfolding send_batch_message
send_again item st =
    let next = send_batch_message item st in
    record next {
      job = record next.job {
        sent_count = next.job.sent_count + 1;
        queued_count = next.job.queued_count - 1;
      };
    }

module _ (env : BatchEnv) where
  unfoldable pub limit_result : BatchState → Option LimitCheckResult
  limit_result st =
      check_message_limits (env.limits st.tick) (some env.client) st.job.from_number "sms"
        "outbound"

  abbrev pub message_of : Option LimitCheckResult → String
  message_of none = ""
  message_of (some r) = env.limit_message r

  unfoldable pub later : BatchState → BatchState
  unfolding interrupt
  later st = interrupt env.elapsed st

  -- What the initial pass writes for a message that was not cancelled.
  unfoldable pub pass_write : BatchMessageItem → Option LimitCheckResult → BatchState → BatchState
  unfolding fail_item queue_item send_first format_to_e164
  pass_write item result st =
      if item.text == []
      then fail_item item "no message text (no per-message text and no template)" st
      else if not (format_to_e164 item.to).1
      then fail_item item (env.e164_error item.to) st
      else if refuses result
      then queue_item item (message_of result) st
      else send_first item st

  -- One message of the initial pass.
  unfoldable pub pass_item : BatchMessageItem → BatchState → BatchState
  unfolding later limit_result pass_write find_row
  pass_item item st =
      let now = later st in
      if was_cancelled (find_row item.id now.rows)
      then now
      else pass_write item (limit_result now) (later now)

  -- The initial pass.
  unfoldable pub pass_items : List BatchMessageItem → BatchState → BatchState
  unfolding pass_item
  pass_items [] st = st
  pass_items (item ∷ items) st = pass_items items (pass_item item st)

  -- One message of a round of the retry loop.
  unfoldable pub retry_item : BatchMessageItem → BatchState → BatchState
  unfolding later limit_result find_row send_again
  retry_item item st =
      let now = later st in
      if was_cancelled (find_row item.id now.rows)
      then record now { job = record now.job { queued_count = now.job.queued_count - 1 } }
      else if refuses (limit_result now)
      then now
      else send_again item (later now)

  unfoldable pub retry_items : List BatchMessageItem → BatchState → BatchState
  unfolding retry_item
  retry_items [] st = st
  retry_items (item ∷ items) st = retry_items items (retry_item item st)
