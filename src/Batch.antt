-- ===== src/Batch.antt =====
-- batch.go and the cancel requests of batch_routes.go: the data of a batch job, its rows in the
-- database, and the steps that change them. Times are nanoseconds.
pub mod Messages
pub mod Items
pub mod Process
pub mod Rows
pub mod Interrupts
pub mod Waiting
pub mod Passes
pub mod Initial
pub mod Retry
pub mod Rounds
pub mod Deadline
pub mod Ends
pub mod Finals
pub mod Outcome
pub mod Csv
pub mod CsvRows
pub mod Submit
pub mod Submitted
pub mod Precheck
pub mod Fits
pub mod Prechecked
use gomsggw.Base.{
  ℕ, ◌+◌, ◌-◌, Bool, true, false, not, ◌&&◌, ◌||◌, List, [], ◌∷◌, ◌++◌, map, Option, none, some,
  String, Text, Eq_String, ◌==◌, if◌then◌else◌, length, count,
}
use gomsggw.Message.{MsgQueueItem, sms_type}

pub data ItemStatus : Type 0 where
  pending sent queued failed cancelled : ItemStatus

pub data JobStatus : Type 0 where
  waiting processing partially_queued completed job_failed job_cancelled : JobStatus

pub record BatchMessageError : Type 0 where
  pub index : ℕ
  pub to : Text
  pub error : String
  pub code : ℕ

-- `errors` is the list that the code keeps as JSON.
pub record BatchJob : Type 0 where
  pub id : String
  pub client_id : ℕ
  pub api_key_id : Option ℕ
  pub status : JobStatus
  pub total_count : ℕ
  pub sent_count : ℕ
  pub failed_count : ℕ
  pub queued_count : ℕ
  pub from_number : Text
  pub webhook_url : String
  pub throttle_rps : ℕ
  pub max_retry_mins : ℕ
  pub completed_at : Option ℕ
  pub errors : List BatchMessageError

pub record BatchMessageItem : Type 0 where
  pub id : String
  pub index : ℕ
  pub to : Text
  pub text : Text
  pub status : ItemStatus
  pub error : String
  pub error_code : ℕ
  pub queued_at : Option ℕ
  pub sent_at : Option ℕ

abbrev pub is_sent : BatchMessageItem → Bool
is_sent r = elim r.status [ sent ↦ true | _ ↦ false ]

abbrev pub is_queued : BatchMessageItem → Bool
is_queued r = elim r.status [ queued ↦ true | _ ↦ false ]

abbrev pub is_failed : BatchMessageItem → Bool
is_failed r = elim r.status [ failed ↦ true | _ ↦ false ]

abbrev pub is_cancelled : BatchMessageItem → Bool
is_cancelled r = elim r.status [ cancelled ↦ true | _ ↦ false ]

-- `status IN ('pending', 'queued')`
abbrev pub is_open : BatchMessageItem → Bool
is_open r = elim r.status [ pending ↦ true | queued ↦ true | _ ↦ false ]

-- `WHERE id = ?`, the first such row
unfoldable pub find_row : String → List BatchMessageItem → Option BatchMessageItem
find_row id [] = none
find_row id (r ∷ rows) = let later = find_row id rows in if r.id == id then some r else later

abbrev pub if_row :
    String → (BatchMessageItem → BatchMessageItem) → BatchMessageItem → BatchMessageItem
if_row id f r = if r.id == id then f r else r

-- `UPDATE ... WHERE id = ?`
unfoldable pub update_row :
    String → (BatchMessageItem → BatchMessageItem) → List BatchMessageItem → List BatchMessageItem
update_row id f rows = map (if_row id f) rows

unfoldable pub queued_rows : List BatchMessageItem → List BatchMessageItem
queued_rows [] = []
queued_rows (r ∷ rows) = let later = queued_rows rows in if is_queued r then r ∷ later else later

-- What requests of the job's client do while it runs: the cancel of the job, and for the cancel of a
-- message the look at its row and the write to it, which are apart.
pub data Cancel : Type 0 where
  cancel_job : Cancel
  find_message cancel_message : String → Cancel

-- The job and its rows in the database, the job of the goroutine, what the goroutine has put on
-- `ClientMsgChan`, the webhook calls that it has made, the clock, the steps that it has taken, what
-- the requests do at its next steps, and the messages that requests have found open.
pub record BatchState : Type 0 where
  pub rows : List BatchMessageItem
  pub stored : BatchJob
  pub job : BatchJob
  pub client_msg_chan : List MsgQueueItem
  pub webhooks : List BatchJob
  pub now : ℕ
  pub tick : ℕ
  pub schedule : List (List Cancel)
  pub found : List String

abbrev pub set_cancelled : String → BatchMessageItem → BatchMessageItem
set_cancelled reason r = record r { status = cancelled; error = reason }

abbrev pub if_open : BatchMessageItem → BatchMessageItem
if_open r = if is_open r then set_cancelled "batch job cancelled by user" r else r

-- `Updates` on the rows that are pending or queued
unfoldable pub cancel_open : List BatchMessageItem → List BatchMessageItem
cancel_open rows = map if_open rows

abbrev pub is_over : JobStatus → Bool
is_over completed = true
is_over job_failed = true
is_over job_cancelled = true
is_over _ = false

abbrev pub failed_in : List BatchMessageItem → ℕ
failed_in rows = count is_failed rows + count is_cancelled rows

-- POST /messages/batch/{id}/cancel, as one step
unfoldable pub cancel_batch : ℕ → BatchState → BatchState
unfolding cancel_open
cancel_batch now st =
    let rows = cancel_open st.rows in
    if is_over st.stored.status then st else record st {
      rows = rows;
      stored = record st.stored {
        status = job_cancelled;
        sent_count = count is_sent rows;
        failed_count = failed_in rows;
        queued_count = 0;
        completed_at = some now;
      };
    }

abbrev pub open_in : Option BatchMessageItem → Bool
open_in none = false
open_in (some r) = is_open r

-- DELETE /messages/batch/{id}/messages/{msg_id} up to its test of the status
unfoldable pub find_batch_message : String → BatchState → BatchState
unfolding find_row
find_batch_message id st =
    if open_in (find_row id st.rows) then record st { found = id ∷ st.found } else st

unfoldable pub was_found : String → List String → Bool
was_found id [] = false
was_found id (x ∷ xs) = x == id || was_found id xs

-- The rest of this request: it writes whatever the row is by then.
unfoldable pub cancel_batch_message : String → BatchState → BatchState
unfolding was_found update_row
cancel_batch_message id st =
    if was_found id st.found
    then record st { rows = update_row id (set_cancelled "cancelled by user") st.rows }
    else st

unfoldable pub cancel : ℕ → Cancel → BatchState → BatchState
cancel now cancel_job st = cancel_batch now st
cancel now (find_message id) st = find_batch_message id st
cancel now (cancel_message id) st = cancel_batch_message id st

unfoldable pub cancel_each : ℕ → List Cancel → BatchState → BatchState
cancel_each now [] st = st
cancel_each now (c ∷ cs) st = cancel_each now cs (cancel now c st)

abbrev pub due : List (List Cancel) → List Cancel
due [] = []
due (now ∷ later) = now

abbrev pub not_due : List (List Cancel) → List (List Cancel)
not_due [] = []
not_due (now ∷ later) = later

-- Time passes, and the requests come that are due before the goroutine's next step.
unfoldable pub interrupt : (ℕ → ℕ) → BatchState → BatchState
unfolding cancel_each
interrupt elapsed st = cancel_each st.now (due st.schedule) (record st {
  schedule = not_due st.schedule;
  tick = st.tick + 1;
  now = st.now + elapsed st.tick;
})
