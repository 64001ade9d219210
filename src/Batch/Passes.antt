-- ===== src/Batch/Passes.antt =====
-- The invariant of a batch job's rows and channel during a pass of `processBatchJob`.
use gomsggw.Base.{
  ℕ, true, false, List, [], ◌∷◌, ◌++◌, map, String, Eq_Text, Eq_String, ◌==◌, All, ◌≡◌, inl, inr,
  refl, sym, subst, ◌∙◌, Bool-cases, Option-cases, arith,
}
use gomsggw.Message.{MsgQueueItem}
use gomsggw.Batch.{BatchMessageItem, BatchState, queued, is_cancelled, find_row, if_row, update_row}
use gomsggw.Batch.Items.{BatchEnv, was_cancelled, set_sent, set_failed, set_queued, later}
use gomsggw.Batch.Rows.{
  has, ids, Distinct, All-Pointwise, All-map, All-both, All-weaken, find_row-All,
}
use gomsggw.Batch.Interrupts.{CancelsRow, Cancels-ids, later-Interrupted}
use gomsggw.Batch.Waiting.{
  Phase, must, RowIn, CancelsRow-RowIn, skip_row, fail_row, queue_row, send_row,
}

-- The rows have the ids `all`, each is as its phase wants it, and the messages on the channel have
-- ids of rows.
pub record RowsIn (phase : Phase) (all waiting : List String) (rows : List BatchMessageItem)
    (chan : List MsgQueueItem) : Type 0 where
  pub same_ids : ids rows ≡ all
  pub each : All (RowIn phase waiting chan) rows
  pub known : All (λ m. has m.log_id all ≡ true) chan

ids-if_row :
    (q : String) (f : BatchMessageItem → BatchMessageItem) (rows : List BatchMessageItem)
    → ((r : BatchMessageItem) → (f r).id ≡ r.id)
    → ids (map (if_row q f) rows) ≡ ids rows
ids-if_row q f [] law = refl
ids-if_row q f (r ∷ rows) law = elim (Bool-cases (r.id == q)) [
  | inl here ↦ rw here (ground (arith, law r, ids-if_row q f rows law))
  | inr elsewhere ↦ rw elsewhere (ground (arith, ids-if_row q f rows law))
]

known-append :
    (all : List String) (chan : List MsgQueueItem) (m : MsgQueueItem)
    → All (λ m. has m.log_id all ≡ true) chan
    → has m.log_id all ≡ true
    → All (λ m. has m.log_id all ≡ true) (chan ++ (m ∷ []))
known-append all [] m h k = (k, tt)
known-append all (n ∷ chan) m h k = (h.0, known-append all chan m h.1 k)

module _ (phase : Phase) (all : List String) (one : Distinct all) where
  pub later-RowsIn :
      (waiting : List String) (env : BatchEnv) (st : BatchState)
      → RowsIn phase all waiting st.rows st.client_msg_chan
      → RowsIn phase all waiting (later env st).rows (later env st).client_msg_chan
  later-RowsIn waiting env st h =
      let law = later-Interrupted env st in
      rw law.same_chan (record {
        same_ids = Cancels-ids _ _ law.rows ∙ h.same_ids;
        each =
            All-Pointwise CancelsRow _ _ st.rows (later env st).rows
              (λ r s. CancelsRow-RowIn phase waiting st.client_msg_chan r s) law.rows h.each;
        known = h.known;
      })

  pub cancelled_rows :
      (q : String) (rows : List BatchMessageItem)
      → ids rows ≡ all
      → was_cancelled (find_row q rows) ≡ true
      → All (λ s. (s.id == q) ≡ true → is_cancelled s ≡ true) rows
  cancelled_rows q rows same gone = elim (Option-cases (find_row q rows)) [
    | inl none_found ↦ absurd (ground (arith, none_found, gone))
    | inr (r, found) ↦
        All-weaken _ _ rows (λ s law e. ground (arith, law e, found, gone))
          (find_row-All q rows (subst Distinct (sym same) one) found)
  ]

  module _ (q : String) (waiting : List String) (rows : List BatchMessageItem)
      (chan : List MsgQueueItem) (new : has q waiting ≡ false)
      (h : RowsIn phase all (q ∷ waiting) rows chan) where
    pub skip-RowsIn : was_cancelled (find_row q rows) ≡ true → RowsIn phase all waiting rows chan
    skip-RowsIn gone = record {
      same_ids = h.same_ids;
      each =
          All-weaken _ _ rows (λ r k. skip_row phase q waiting chan r new k.1 k.0)
            (All-both _ _ rows h.each (cancelled_rows q rows h.same_ids gone));
      known = h.known;
    }

    pub fail-RowsIn :
        (err : String) (code : ℕ)
        → RowsIn phase all waiting (update_row q (set_failed err code) rows) chan
    unfolding update_row
    fail-RowsIn err code = record {
      same_ids = ids-if_row q (set_failed err code) rows (λ r. refl) ∙ h.same_ids;
      each = All-map _ _ _ rows (λ r k. fail_row phase q waiting chan r new k err code) h.each;
      known = h.known;
    }

    pub queue-RowsIn :
        (err : String) (now : ℕ)
        → must phase queued ≡ false
        → RowsIn phase all waiting (update_row q (set_queued err now) rows) chan
    unfolding update_row
    queue-RowsIn err now never = record {
      same_ids = ids-if_row q (set_queued err now) rows (λ r. refl) ∙ h.same_ids;
      each =
          All-map _ _ _ rows (λ r k. queue_row phase q waiting chan r new k err now never) h.each;
      known = h.known;
    }

    pub send-RowsIn :
        (now : ℕ) (m : MsgQueueItem)
        → m.log_id ≡ q
        → has q all ≡ true
        → RowsIn phase all waiting (update_row q (set_sent now) rows) (chan ++ (m ∷ []))
    unfolding update_row
    send-RowsIn now m same here = record {
      same_ids = ids-if_row q (set_sent now) rows (λ r. refl) ∙ h.same_ids;
      each = All-map _ _ _ rows (λ r k. send_row phase q waiting chan r new k now m same) h.each;
      known = known-append all chan m h.known (rw same here);
    }
