-- ===== src/Batch/Initial.antt =====
-- The initial pass of `processBatchJob`, run to its end.
use gomsggw.Base.{
  ℕ, ◌+◌, ◌%◌, ◌≤◌, nat_eq, true, false, List, [], ◌∷◌, map, Option, String, Eq_Text, Eq_String,
  ◌==◌, ==_iff, count, All, ◌≡◌, inl, inr, refl, sym, subst, Bool-cases, arith,
}
use gomsggw.Numbers.{format_to_e164}
use gomsggw.Limits.Check.{LimitCheckResult}
use gomsggw.Batch.{BatchMessageItem, BatchState, is_queued, find_row, if_row, update_row}
use gomsggw.Batch.Items.{
  BatchEnv, was_cancelled, refuses, batch_item, set_sent, set_failed, set_queued, fail_item,
  queue_item, send_first, later, limit_result, message_of, pass_write, pass_item, pass_items,
}
use gomsggw.Batch.Rows.{has, ids, Distinct, count-le}
use gomsggw.Batch.Interrupts.{CancelsRow, later-Interrupted}
use gomsggw.Batch.Waiting.{passing, CancelsRow-is_queued}
use gomsggw.Batch.Passes.{RowsIn, later-RowsIn, skip-RowsIn, fail-RowsIn, queue-RowsIn, send-RowsIn}

-- An update after which a row is not queued queues no further row.
pub count-if_row :
    (q : String) (f : BatchMessageItem → BatchMessageItem) (rows : List BatchMessageItem)
    → ((r : BatchMessageItem) → is_queued (f r) ≡ false)
    → count is_queued (map (if_row q f) rows) ≤ count is_queued rows
count-if_row q f [] law = omega arith
count-if_row q f (r ∷ rows) law = ground (arith, law r, count-if_row q f rows law)

no_row :
    (q : String) (f : BatchMessageItem → BatchMessageItem) (rows : List BatchMessageItem)
    → has q (ids rows) ≡ false
    → map (if_row q f) rows ≡ rows
no_row q f [] h = refl
no_row q f (r ∷ rows) h = ground (arith, no_row q f rows)

-- An update queues at most one row.
count-if_row_one :
    (q : String) (f : BatchMessageItem → BatchMessageItem) (rows : List BatchMessageItem)
    → Distinct (ids rows)
    → count is_queued (map (if_row q f) rows) ≤ count is_queued rows + 1
count-if_row_one q f [] one = omega arith
count-if_row_one q f (r ∷ rows) one = elim (Bool-cases (r.id == q)) [
  | inl here ↦ rw (here, no_row q f rows (rw ((==_iff r.id q).0 here) at one.0)) (ground arith)
  | inr elsewhere ↦ rw elsewhere (omega (arith, count-if_row_one q f rows one.1))
]

-- The invariant of the initial pass.
pub record PassIn (mins : ℕ) (all waiting : List String) (st : BatchState) : Type 0 where
  pub rows_in : RowsIn passing all waiting st.rows st.client_msg_chan
  pub counted : count is_queued st.rows ≤ st.job.queued_count
  pub same_mins : st.job.max_retry_mins ≡ mins

module _ (env : BatchEnv) (mins : ℕ) (all : List String) (one : Distinct all) where
  later-PassIn :
      (waiting : List String) (st : BatchState)
      → PassIn mins all waiting st
      → PassIn mins all waiting (later env st)
  later-PassIn waiting st h =
      let law = later-Interrupted env st in
      record {
        rows_in = later-RowsIn passing all one waiting env st h.rows_in;
        counted =
            let fewer : count is_queued (later env st).rows ≤ count is_queued st.rows =
              count-le CancelsRow is_queued is_queued st.rows (later env st).rows
                CancelsRow-is_queued law.rows in
            rw law.same_job (omega (arith, h.counted));
        same_mins = rw law.same_job h.same_mins;
      }

  module _ (item : BatchMessageItem) (waiting : List String) (new : has item.id waiting ≡ false)
      (here : has item.id all ≡ true) where
    fail_item-PassIn :
        (err : String) (st : BatchState)
        → PassIn mins all (item.id ∷ waiting) st
        → PassIn mins all waiting (fail_item item err st)
    unfolding fail_item
    fail_item-PassIn err st h = record {
      rows_in =
          fail-RowsIn passing all one item.id waiting st.rows st.client_msg_chan new h.rows_in err
            400;
      counted =
          unfold update_row in
          omega (arith, h.counted, count-if_row item.id (set_failed err 400) st.rows (λ r. refl));
      same_mins = h.same_mins;
    }

    queue_item-PassIn :
        (err : String) (st : BatchState)
        → PassIn mins all (item.id ∷ waiting) st
        → PassIn mins all waiting (queue_item item err st)
    unfolding queue_item
    queue_item-PassIn err st h = record {
      rows_in =
          queue-RowsIn passing all one item.id waiting st.rows st.client_msg_chan new h.rows_in err
            st.now refl;
      counted =
          unfold update_row in
          omega (
            arith,
            h.counted,
            count-if_row_one item.id (set_queued err st.now) st.rows
                (subst Distinct (sym h.rows_in.same_ids) one),
          );
      same_mins = h.same_mins;
    }

    send_first-PassIn :
        (st : BatchState)
        → PassIn mins all (item.id ∷ waiting) st
        → PassIn mins all waiting (send_first item st)
    unfolding send_first
    send_first-PassIn st h =
        let sent =
          send-RowsIn passing all one item.id waiting st.rows st.client_msg_chan new h.rows_in
            st.now (batch_item st item) refl here in
        let fewer : count is_queued (update_row item.id (set_sent st.now) st.rows)
            ≤ st.job.queued_count =
          unfold update_row in
          omega (arith, h.counted, count-if_row item.id (set_sent st.now) st.rows (λ r. refl)) in
        elim (Bool-cases (nat_eq ((item.index + 1) % 100) 0)) [
          | inl saved ↦
              rw saved (record { rows_in = sent; counted = fewer; same_mins = h.same_mins })
          | inr not_saved ↦
              rw not_saved (record { rows_in = sent; counted = fewer; same_mins = h.same_mins })
        ]

    pass_write-PassIn :
        (result : Option LimitCheckResult) (st : BatchState)
        → PassIn mins all (item.id ∷ waiting) st
        → PassIn mins all waiting (pass_write env item result st)
    unfolding pass_write
    pass_write-PassIn result st h = elim (Bool-cases (item.text == [])) [
      | inl empty ↦
          rw empty (fail_item-PassIn "no message text (no per-message text and no template)" st h)
      | inr text ↦ rw text (elim (Bool-cases (format_to_e164 item.to).1) [
        | inr bad ↦ rw bad (fail_item-PassIn (env.e164_error item.to) st h)
        | inl good ↦ rw good (elim (Bool-cases (refuses result)) [
          | inl over ↦ rw over (queue_item-PassIn (message_of env result) st h)
          | inr under ↦ rw under (send_first-PassIn st h)
        ])
      ])
    ]

    pass_item-PassIn :
        (st : BatchState)
        → PassIn mins all (item.id ∷ waiting) st
        → PassIn mins all waiting (pass_item env item st)
    unfolding pass_item
    pass_item-PassIn st h =
        let now = later env st in
        let h' = later-PassIn (item.id ∷ waiting) st h in
        elim (Bool-cases (was_cancelled (find_row item.id now.rows))) [
          | inl gone ↦ rw gone (record {
            rows_in =
                skip-RowsIn passing all one item.id waiting now.rows now.client_msg_chan new
                  h'.rows_in gone;
            counted = h'.counted;
            same_mins = h'.same_mins;
          })
          | inr there ↦ rw there (
              pass_write-PassIn (limit_result env now) (later env now)
                (later-PassIn (item.id ∷ waiting) now h'))
        ]

  pub pass_items-PassIn :
      (items : List BatchMessageItem) (st : BatchState)
      → Distinct (ids items)
      → All (λ q. has q all ≡ true) (ids items)
      → PassIn mins all (ids items) st
      → PassIn mins all [] (pass_items env items st)
  unfolding pass_items
  pass_items-PassIn [] st new here h = h
  pass_items-PassIn (item ∷ items) st new here h =
      pass_items-PassIn items (pass_item env item st) new.1 here.1
        (pass_item-PassIn item (ids items) new.0 here.0 st h)
