-- ===== src/Batch/Deadline.antt =====
-- The retry loop of `processBatchJob` until its deadline, and the expiry of what it leaves.
use gomsggw.Base.{
  ℕ, zero, suc, ◌+◌, ◌*◌, ◌≤◌, false, ◌&&◌, List, [], ◌∷◌, some, String, leb, ltb, length, count,
  All, ◌≡◌, inl, inr, refl, sym, subst, Bool-cases, arith,
}
use gomsggw.Batch.{BatchMessageItem, BatchState, is_queued, queued_rows}
use gomsggw.Batch.Items.{BatchEnv, later}
use gomsggw.Batch.Process.{retry_interval, sleep, retry_round, retry_loop, expire_items, expire}
use gomsggw.Batch.Rows.{ids, Distinct, All-both, All-weaken}
use gomsggw.Batch.Waiting.{retrying, expiring}
use gomsggw.Batch.Passes.{RowsIn, later-RowsIn, fail-RowsIn}
use gomsggw.Batch.Retry.{RetryIn}
use gomsggw.Batch.Rounds.{
  queued_rows-Distinct, queued-among, begin_expiry, retry_round-RetryIn, sleep-RetryIn,
  unsettled_nil,
}

length-queued_rows :
    (rows : List BatchMessageItem) → length (queued_rows rows) ≡ count is_queued rows
unfolding queued_rows
length-queued_rows [] = refl
length-queued_rows (r ∷ rows) = ground (arith, length-queued_rows rows)

pub none_queued :
    (rows : List BatchMessageItem) → count is_queued rows ≤ 0 → All (λ r. is_queued r ≡ false) rows
none_queued [] h = tt
none_queued (r ∷ rows) h = (ground (arith, h), none_queued rows (ground (arith, h)))

-- What the retry loop leaves.
pub record Retried (all : List String) (st : BatchState) : Type 0 where
  pub rows_in : RowsIn retrying all [] st.rows st.client_msg_chan
  pub counted : count is_queued st.rows ≤ st.job.queued_count

-- No row is pending or queued.
abbrev pub Settled : List String → BatchState → Type 0
Settled all st = RowsIn expiring all [] st.rows st.client_msg_chan

module _ (env : BatchEnv) (all : List String) (one : Distinct all) where
  between_rounds : (start : ℕ) (st : BatchState) → RetryIn start all [] st → Retried all st
  between_rounds start st h = record {
    rows_in = h.rows_in;
    counted = omega (arith, h.counted, unsettled_nil st.rows);
  }

  pub retry_loop-Retried :
      (fuel start deadline : ℕ) (st : BatchState)
      → deadline ≤ start + fuel * retry_interval
      → RetryIn start all [] st
      → (st' : BatchState) × (retry_loop env (suc fuel) deadline st ≡ some st') × Retried all st'
  unfolding retry_loop
  retry_loop-Retried zero start deadline st enough h = (
    st,
    let past : (ltb st.now deadline && leb 1 st.job.queued_count) ≡ false =
          ground (arith, enough, h.late) in
        rw past,
    between_rounds start st h,
  )
  retry_loop-Retried (suc fuel) start deadline st enough h =
      elim (Bool-cases (ltb st.now deadline && leb 1 st.job.queued_count)) [
        | inr over ↦ (st, rw over, between_rounds start st h)
        | inl again ↦
            let h' = sleep-RetryIn env start all one st h in
            elim (Bool-cases (leb (length (queued_rows (sleep env st).rows)) 0)) [
              | inl empty ↦ (
                record (sleep env st) { job = record (sleep env st).job { queued_count = 0 } },
                rw (again, empty),
                record {
                  rows_in = h'.rows_in;
                  counted = ground (arith, length-queued_rows (sleep env st).rows, empty);
                },
              )
              | inr some_left ↦
                  let (st', done, law) =
                    retry_loop-Retried fuel (start + retry_interval) deadline
                      (retry_round env (sleep env st)) (omega (arith, enough))
                      (retry_round-RetryIn env (start + retry_interval) all one (sleep env st)
                        h') in
                  (st', rw (again, some_left) done, law)
            ]
      ]

  expire_items-Settled :
      (items : List BatchMessageItem) (st : BatchState)
      → Distinct (ids items)
      → RowsIn expiring all (ids items) st.rows st.client_msg_chan
      → Settled all (expire_items env items st)
  unfolding expire_items
  expire_items-Settled [] st new h = h
  expire_items-Settled (item ∷ items) st new h =
      let now = later env st in
      expire_items-Settled items _ new.1 (
        fail-RowsIn expiring all one item.id (ids items) now.rows now.client_msg_chan new.0
          (later-RowsIn expiring all one (item.id ∷ ids items) env st h) "retry deadline exceeded"
          429)

  -- Rows of which none is queued
  pub Settled-none_queued :
      (st : BatchState)
      → RowsIn retrying all [] st.rows st.client_msg_chan
      → count is_queued st.rows ≤ 0
      → Settled all st
  Settled-none_queued st h few = record {
    same_ids = h.same_ids;
    each =
        All-weaken _ _ st.rows (λ r k. begin_expiry [] st.client_msg_chan r (sym k.0) k.1)
          (All-both _ _ st.rows (none_queued st.rows few) h.each);
    known = h.known;
  }

  pub expire-Settled : (st : BatchState) → Retried all st → Settled all (expire env st)
  unfolding expire
  expire-Settled st h = elim (Bool-cases (leb 1 st.job.queued_count)) [
    | inl left_over ↦ rw left_over (
        expire_items-Settled (queued_rows st.rows) st
          (queued_rows-Distinct st.rows (subst Distinct (sym h.rows_in.same_ids) one))
          (record {
            same_ids = h.rows_in.same_ids;
            each =
                All-weaken _ _ st.rows
                  (λ r k. begin_expiry (ids (queued_rows st.rows)) st.client_msg_chan r k.0 k.1)
                  (All-both _ _ st.rows
                    (queued-among st.rows (subst Distinct (sym h.rows_in.same_ids) one))
                    h.rows_in.each);
            known = h.rows_in.known;
          }))
    | inr all_done ↦ rw all_done (Settled-none_queued st h.rows_in (ground (arith, h.counted)))
  ]
