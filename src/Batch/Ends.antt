-- ===== src/Batch/Ends.antt =====
-- A whole run of `processBatchJob`, from its first step to its end.
use gomsggw.Base.{
  ℕ, suc, ◌+◌, ◌*◌, ◌≤◌, ◌<◌, true, false, List, [], ◌∷◌, some, String, Text, Eq_String, ==_iff,
  leb, length, count, All, ◌≡◌, inl, inr, refl, sym, ◌∙◌, Bool-cases, arith,
}
use gomsggw.Batch.{BatchMessageItem, pending, BatchState, BatchJob, Cancel, is_queued, is_open}
use gomsggw.Message.{MsgQueueItem}
use gomsggw.Batch.Messages.{BatchMessage, make_items}
use gomsggw.Batch.Items.{BatchEnv, later, save_counts, pass_items}
use gomsggw.AutoReply.{second}
use gomsggw.Batch.Process.{
  ticker_panics, retry_interval, max_retry, retry_phase, retry_queued, expire, finalize, start,
  process_batch_job,
}
use gomsggw.Batch.Rows.{has, ids, Distinct, All-both, All-weaken}
use gomsggw.Batch.Waiting.{expiring, retrying, passing, RowIn, Pushed-zero}
use gomsggw.Batch.Passes.{RowsIn, later-RowsIn}
use gomsggw.Batch.Initial.{PassIn, pass_items-PassIn}
use gomsggw.Batch.Rounds.{has_self, unsettled_nil}
use gomsggw.Batch.Deadline.{Settled, Settled-none_queued, retry_loop-Retried, expire-Settled}

module _ (env : BatchEnv) (new : (i j : ℕ) → env.new_id i ≡ env.new_id j → i ≡ j) where
  earlier_id :
      (template : Text) (i j : ℕ) (messages : List BatchMessage)
      → i < j
      → has (env.new_id i) (ids (make_items env.new_id template j messages)) ≡ false
  unfolding make_items
  earlier_id template i j [] h = refl
  earlier_id template i j (m ∷ messages) h =
      ground (
        arith,
        new i j,
        ==_iff (env.new_id j) (env.new_id i),
        earlier_id template i (j + 1) messages,
      )

  make_items-Distinct :
      (template : Text) (i : ℕ) (messages : List BatchMessage)
      → Distinct (ids (make_items env.new_id template i messages))
  unfolding make_items
  make_items-Distinct template i [] = tt
  make_items-Distinct template i (m ∷ messages) = (
    earlier_id template i (i + 1) messages (omega arith),
    make_items-Distinct template (i + 1) messages,
  )

make_items-pending :
    (new_id : ℕ → String) (template : Text) (i : ℕ) (messages : List BatchMessage)
    → All (λ r. r.status ≡ pending) (make_items new_id template i messages)
unfolding make_items
make_items-pending new_id template i [] = tt
make_items-pending new_id template i (m ∷ messages) =
    (refl, make_items-pending new_id template (i + 1) messages)

pub length-make_items :
    (new_id : ℕ → String) (template : Text) (i : ℕ) (messages : List BatchMessage)
    → length (ids (make_items new_id template i messages)) ≡ length messages
unfolding make_items
length-make_items new_id template i [] = refl
length-make_items new_id template i (m ∷ messages) =
    omega (arith, length-make_items new_id template (i + 1) messages)

All-ids :
    (P : String → Type 0) (rows : List BatchMessageItem) → All P (ids rows) → All (λ r. P r.id) rows
All-ids P [] h = tt
All-ids P (r ∷ rows) h = (h.0, All-ids P rows h.1)

start_row :
    (all : List String) (r : BatchMessageItem)
    → has r.id all ≡ true
    → r.status ≡ pending
    → RowIn passing all [] r
start_row all r h k = record {
  must_wait = λ e. h;
  may_wait = ground (arith, k);
  fresh = λ e. refl;
  pushed = Pushed-zero r 0 (ground (arith, k)) refl;
}

none_queued_yet :
    (rows : List BatchMessageItem) → All (λ r. r.status ≡ pending) rows → count is_queued rows ≤ 0
none_queued_yet [] h = omega arith
none_queued_yet (r ∷ rows) h = ground (arith, h.0, none_queued_yet rows h.1)

max_retry-mins : (j k : BatchJob) → j.max_retry_mins ≡ k.max_retry_mins → max_retry j ≡ max_retry k
unfolding max_retry
max_retry-mins j k h = rw h

between :
    (chan : List MsgQueueItem) (r : BatchMessageItem)
    → RowIn passing [] chan r
    → RowIn retrying [] chan r
between chan r k = record {
  must_wait = ground (arith, k.must_wait);
  may_wait = ground arith;
  fresh = ground arith;
  pushed = k.pushed;
}

module _ (env : BatchEnv) (all : List String) (one : Distinct all) where
  retry_queued-Settled :
      (fuel mins : ℕ) (job : BatchJob) (st : BatchState)
      → job.max_retry_mins ≡ mins
      → max_retry job ≤ fuel * retry_interval
      → PassIn mins all [] st
      → (st' : BatchState) × (retry_queued env (suc fuel) st ≡ some st') × Settled all st'
  unfolding retry_queued
  retry_queued-Settled fuel mins job st same enough h =
      let rows_in : RowsIn retrying all [] st.rows st.client_msg_chan = record {
        same_ids = h.rows_in.same_ids;
        each = All-weaken _ _ st.rows (between st.client_msg_chan) h.rows_in.each;
        known = h.rows_in.known;
      } in
      elim (Bool-cases (leb 1 st.job.queued_count)) [
        | inr no_retry ↦ (
          st,
          rw no_retry,
          Settled-none_queued env all one st rows_in (ground (arith, h.counted)),
        )
        | inl again ↦
            let (st', done, law) =
              retry_loop-Retried env all one fuel st.now (st.now + max_retry (retry_phase st).job)
                (retry_phase st)
                (omega
                  (arith, enough, max_retry-mins (retry_phase st).job job (h.same_mins ∙ sym same)))
                (record {
                  rows_in = rows_in;
                  counted = omega (arith, h.counted, unsettled_nil st.rows);
                  late = omega arith;
                }) in
            (expire env st', rw (again, done), expire-Settled env all one st' law)
      ]

pub settled_row :
    (chan : List MsgQueueItem) (r : BatchMessageItem) → RowIn expiring [] chan r → is_open r ≡ false
settled_row chan r k = ground (arith, k.must_wait)

module _ (env : BatchEnv) (new : (i j : ℕ) → env.new_id i ≡ env.new_id j → i ≡ j) (fuel now : ℕ)
    (schedule : List (List Cancel)) (job : BatchJob) (messages : List BatchMessage)
    (template : Text) (enough : max_retry job ≤ fuel * retry_interval)
    (throttled : job.throttle_rps ≤ second) where
  abbrev pub items : List BatchMessageItem
  items = make_items env.new_id template 0 messages

  pub distinct : Distinct (ids items)
  distinct = make_items-Distinct env new template 0 messages

  start-PassIn : PassIn job.max_retry_mins (ids items) (ids items) (start now schedule job items)
  unfolding start
  start-PassIn = record {
    rows_in = record {
      same_ids = refl;
      each =
          All-weaken _ _ items (λ r k. start_row (ids items) r k.0 k.1)
            (All-both _ _ items (All-ids _ items (has_self (ids items)))
              (make_items-pending env.new_id template 0 messages));
      known = tt;
    };
    counted =
        omega (arith, none_queued_yet items (make_items-pending env.new_id template 0 messages));
    same_mins = refl;
  }

  passed-PassIn :
      PassIn job.max_retry_mins
        (ids items)
        []
        (save_counts (pass_items env items (start now schedule job items)))
  unfolding save_counts
  passed-PassIn =
      let h =
        pass_items-PassIn env job.max_retry_mins (ids items) distinct items
          (start now schedule job items) distinct (has_self (ids items)) start-PassIn in
      record { rows_in = h.rows_in; counted = h.counted; same_mins = h.same_mins }

  -- The run ends, with the state that it ends in.
  pub process_ends :
      (st : BatchState) × (process_batch_job env (suc fuel) now schedule job messages template
        ≡ some (finalize env st))
      × Settled (ids items) st
  unfolding process_batch_job
  process_ends =
      let ticks : ticker_panics job ≡ false = ground (arith, throttled) in
      let (st, done, law) =
        retry_queued-Settled env (ids items) distinct fuel job.max_retry_mins job
          (save_counts (pass_items env items (start now schedule job items))) refl enough
          passed-PassIn in
      (later env st, rw (ticks, done), later-RowsIn expiring (ids items) distinct [] env st law)
