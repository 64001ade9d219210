-- ===== src/Batch/Retry.antt =====
-- One round of the retry loop of `processBatchJob`.
use gomsggw.Base.{
  ℕ, ◌+◌, ◌≤◌, Bool, true, false, ◌||◌, List, [], ◌∷◌, map, String, Eq_String, ◌==◌, ==_iff, count,
  All, ◌≡◌, inl, inr, refl, ap, Bool-cases, arith,
}
use gomsggw.Message.{MsgQueueItem}
use gomsggw.Batch.{
  BatchMessageItem, BatchState, is_queued, is_cancelled, find_row, if_row, update_row,
}
use gomsggw.Batch.Items.{
  BatchEnv, was_cancelled, refuses, batch_item, set_sent, later, limit_result, retry_item,
  retry_items,
}
use gomsggw.Batch.Rows.{
  has, ids, Distinct, Pointwise-map, Pointwise-refl, All-weaken, count-le, Drops, count-lt,
}
use gomsggw.Batch.Interrupts.{CancelsRow, later-Interrupted, All-rows}
use gomsggw.Batch.Waiting.{retrying, RowIn, CancelsRow-is_queued, ==_comm}
use gomsggw.Batch.Passes.{RowsIn, later-RowsIn, skip-RowsIn, send-RowsIn, cancelled_rows}

-- A row that is queued, or whose message is still to come in the round.
abbrev pub unsettled : List String → BatchMessageItem → Bool
unsettled waiting r = is_queued r || has r.id waiting

-- The invariant of a round of the retry loop.
pub record RetryIn (start : ℕ) (all waiting : List String) (st : BatchState) : Type 0 where
  pub rows_in : RowsIn retrying all waiting st.rows st.client_msg_chan
  pub counted : count (unsettled waiting) st.rows ≤ st.job.queued_count
  pub late : start ≤ st.now

blocked_row :
    (q : String) (waiting : List String) (chan : List MsgQueueItem) (r : BatchMessageItem)
    → RowIn retrying (q ∷ waiting) chan r
    → RowIn retrying waiting chan r
blocked_row q waiting chan r k = record {
  must_wait = ground (arith, k.must_wait, k.may_wait);
  may_wait = ground (arith, k.may_wait);
  fresh = ground (arith, k.fresh);
  pushed = k.pushed;
}

gone_row :
    (q : String) (waiting : List String) (r : BatchMessageItem)
    → has q waiting ≡ false
    → ((r.id == q) ≡ true → is_cancelled r ≡ true)
    → Drops (unsettled (q ∷ waiting)) (unsettled waiting) q r r
gone_row q waiting r new gone = record {
  no_more = ground arith;
  counted = ground (arith, ==_comm r.id q);
  dropped = λ e.
      let absent : has r.id waiting ≡ false = rw ((==_iff r.id q).0 e) new in
      ground (arith, absent, gone e);
}

sent_row :
    (q : String) (waiting : List String) (now : ℕ) (r : BatchMessageItem)
    → has q waiting ≡ false
    → Drops (unsettled (q ∷ waiting)) (unsettled waiting) q r (if_row q (set_sent now) r)
sent_row q waiting now r new = record {
  no_more = ground arith;
  counted = ground (arith, ==_comm r.id q);
  dropped = λ e.
      let absent : has r.id waiting ≡ false = rw ((==_iff r.id q).0 e) new in
      ground (arith, absent, e);
}

CancelsRow-unsettled :
    (waiting : List String) (r s : BatchMessageItem)
    → CancelsRow r s
    → unsettled waiting s ≡ true
    → unsettled waiting r ≡ true
CancelsRow-unsettled waiting r s h e = elim (Bool-cases (has r.id waiting)) [
  | inl waits ↦ ground (arith, waits)
  | inr not_there ↦ ground (arith, CancelsRow-is_queued r s h, ap (λ x. has x waiting) h.same_id)
]

module _ (q : String) (waiting : List String) (rows : List BatchMessageItem) where
  keeps : count (unsettled waiting) rows ≤ count (unsettled (q ∷ waiting)) rows
  keeps =
      count-le ◌≡◌ (unsettled (q ∷ waiting)) (unsettled waiting) rows rows
        (λ r s same e. let e' : unsettled waiting r ≡ true = rw same e in ground (arith, e'))
        (Pointwise-refl ◌≡◌ rows (All-rows _ (λ r. refl) rows))

  drops_gone :
      has q waiting ≡ false
      → All (λ r. (r.id == q) ≡ true → is_cancelled r ≡ true) rows
      → has q (ids rows) ≡ true
      → count (unsettled waiting) rows + 1 ≤ count (unsettled (q ∷ waiting)) rows
  drops_gone new gone here =
      count-lt (unsettled (q ∷ waiting)) (unsettled waiting) q rows rows
        (Pointwise-refl _ rows (All-weaken _ _ rows (λ r. gone_row q waiting r new) gone)) here

  drops_sent :
      (now : ℕ)
      → has q waiting ≡ false
      → has q (ids rows) ≡ true
      → count (unsettled waiting) (update_row q (set_sent now) rows) + 1
        ≤ count (unsettled (q ∷ waiting)) rows
  unfolding update_row
  drops_sent now new here =
      count-lt (unsettled (q ∷ waiting)) (unsettled waiting) q rows
        (map (if_row q (set_sent now)) rows)
        (Pointwise-map _ (if_row q (set_sent now)) rows
          (All-rows _ (λ r. sent_row q waiting now r new) rows))
        here

module _ (env : BatchEnv) (start : ℕ) (all : List String) (one : Distinct all) where
  pub later-RetryIn :
      (waiting : List String) (st : BatchState)
      → RetryIn start all waiting st
      → RetryIn start all waiting (later env st)
  later-RetryIn waiting st h =
      let law = later-Interrupted env st in
      record {
        rows_in = later-RowsIn retrying all one waiting env st h.rows_in;
        counted =
            let fewer : count (unsettled waiting) (later env st).rows
                ≤ count (unsettled waiting) st.rows =
              count-le CancelsRow (unsettled waiting) (unsettled waiting) st.rows
                (later env st).rows (CancelsRow-unsettled waiting) law.rows in
            rw law.same_job (omega (arith, h.counted));
        late = omega (arith, h.late, law.now);
      }

  retry_item-RetryIn :
      (item : BatchMessageItem) (waiting : List String) (st : BatchState)
      → has item.id waiting ≡ false
      → has item.id all ≡ true
      → RetryIn start all (item.id ∷ waiting) st
      → RetryIn start all waiting (retry_item env item st)
  unfolding retry_item
  retry_item-RetryIn item waiting st new here h =
      let now = later env st in
      let h' = later-RetryIn (item.id ∷ waiting) st h in
      let next = later env now in
      let h'' = later-RetryIn (item.id ∷ waiting) now h' in
      elim (Bool-cases (was_cancelled (find_row item.id now.rows))) [
        | inl gone ↦ rw gone (record {
          rows_in =
              skip-RowsIn retrying all one item.id waiting now.rows now.client_msg_chan new
                h'.rows_in gone;
          counted = omega (
            arith,
            h'.counted,
            drops_gone item.id waiting now.rows new
                (cancelled_rows retrying all one item.id now.rows h'.rows_in.same_ids gone)
                (rw h'.rows_in.same_ids here),
          );
          late = h'.late;
        })
        | inr there ↦ rw there (elim (Bool-cases (refuses (limit_result env now))) [
          | inl over ↦ rw over (record {
            rows_in = record {
              same_ids = h'.rows_in.same_ids;
              each =
                  All-weaken _ _ now.rows (λ r. blocked_row item.id waiting now.client_msg_chan r)
                    h'.rows_in.each;
              known = h'.rows_in.known;
            };
            counted = omega (arith, h'.counted, keeps item.id waiting now.rows);
            late = h'.late;
          })
          | inr under ↦ rw under (record {
            rows_in =
                send-RowsIn retrying all one item.id waiting next.rows next.client_msg_chan new
                  h''.rows_in next.now (batch_item next item) refl here;
            counted = omega (
              arith,
              h''.counted,
              drops_sent item.id waiting next.rows next.now new (rw h''.rows_in.same_ids here),
            );
            late = h''.late;
          })
        ])
      ]

  pub retry_items-RetryIn :
      (items : List BatchMessageItem) (st : BatchState)
      → Distinct (ids items)
      → All (λ q. has q all ≡ true) (ids items)
      → RetryIn start all (ids items) st
      → RetryIn start all [] (retry_items env items st)
  unfolding retry_items
  retry_items-RetryIn [] st new here h = h
  retry_items-RetryIn (item ∷ items) st new here h =
      retry_items-RetryIn items (retry_item env item st) new.1 here.1
        (retry_item-RetryIn item (ids items) st new.0 here.0 h)
