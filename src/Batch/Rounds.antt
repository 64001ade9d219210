-- ===== src/Batch/Rounds.antt =====
-- The retry loop of `processBatchJob`, and the expiry of what it leaves.
use gomsggw.Base.{
  ℕ, ◌+◌, Bool, true, false, List, [], ◌∷◌, String, Eq_String, ◌==◌, ==_iff, count, All, ◌≡◌, inl,
  inr, refl, sym, subst, ◌∙◌, Bool-cases, arith,
}
use gomsggw.Message.{MsgQueueItem}
use gomsggw.Batch.{BatchMessageItem, BatchState, is_queued, queued_rows}
use gomsggw.Batch.Items.{BatchEnv}
use gomsggw.Batch.Process.{retry_interval, sleep, retry_round}
use gomsggw.Batch.Rows.{has, ids, Distinct, All-both, All-weaken}
use gomsggw.Batch.Waiting.{retrying, expiring, RowIn, ==_comm}
use gomsggw.Batch.Retry.{unsettled, RetryIn, later-RetryIn, retry_items-RetryIn}

not_among :
    (q : String) (rows : List BatchMessageItem)
    → has q (ids rows) ≡ false
    → has q (ids (queued_rows rows)) ≡ false
unfolding queued_rows
not_among q [] h = refl
not_among q (r ∷ rows) h = ground (arith, not_among q rows)

pub queued_rows-Distinct :
    (rows : List BatchMessageItem) → Distinct (ids rows) → Distinct (ids (queued_rows rows))
unfolding queued_rows
queued_rows-Distinct [] one = tt
queued_rows-Distinct (r ∷ rows) one = elim (Bool-cases (is_queued r)) [
  | inl is ↦ rw is (not_among r.id rows one.0, queued_rows-Distinct rows one.1)
  | inr not_queued ↦ rw not_queued (queued_rows-Distinct rows one.1)
]

All-queued_rows :
    (P : String → Type 0) (rows : List BatchMessageItem)
    → All P (ids rows)
    → All P (ids (queued_rows rows))
unfolding queued_rows
All-queued_rows P [] h = tt
All-queued_rows P (r ∷ rows) h = elim (Bool-cases (is_queued r)) [
  | inl is ↦ rw is (h.0, All-queued_rows P rows h.1)
  | inr not_queued ↦ rw not_queued (All-queued_rows P rows h.1)
]

All-weaken_ids :
    (P Q : String → Type 0) (xs : List String) → ((x : String) → P x → Q x) → All P xs → All Q xs
All-weaken_ids P Q [] law h = tt
All-weaken_ids P Q (x ∷ xs) law h = (law x h.0, All-weaken_ids P Q xs law h.1)

pub has_self : (xs : List String) → All (λ x. has x xs ≡ true) xs
has_self [] = tt
has_self (x ∷ xs) = (
  ground (arith, ==_iff x x),
  All-weaken_ids (λ y. has y xs ≡ true) (λ y. has y (x ∷ xs) ≡ true) xs (λ y h. ground (arith, h))
      (has_self xs),
)

apart :
    (q : String) (rows : List BatchMessageItem)
    → has q (ids rows) ≡ false
    → All (λ s. (q == s.id) ≡ false) rows
apart q [] h = tt
apart q (r ∷ rows) h = (ground (arith, ==_comm q r.id), apart q rows (ground arith))

queued_rows-taken :
    (r : BatchMessageItem) (rows : List BatchMessageItem)
    → is_queued r ≡ true
    → queued_rows (r ∷ rows) ≡ r ∷ queued_rows rows
unfolding queued_rows
queued_rows-taken r rows h = rw h

queued_rows-left :
    (r : BatchMessageItem) (rows : List BatchMessageItem)
    → is_queued r ≡ false
    → queued_rows (r ∷ rows) ≡ queued_rows rows
unfolding queued_rows
queued_rows-left r rows h = rw h

-- The queued rows are those with an id among the ids of the queued rows.
pub queued-among :
    (rows : List BatchMessageItem)
    → Distinct (ids rows)
    → All (λ r. has r.id (ids (queued_rows rows)) ≡ is_queued r) rows
queued-among [] one = tt
queued-among (r ∷ rows) one = elim (Bool-cases (is_queued r)) [
  | inl is ↦
      subst (λ taken. All (λ s. has s.id (ids taken) ≡ is_queued s) (r ∷ rows))
        (sym (queued_rows-taken r rows is))
        (
          ground (arith, ==_iff r.id r.id, is),
          All-weaken _ _ rows (λ s h. ground (arith, h.0, h.1))
              (All-both _ _ rows (queued-among rows one.1) (apart r.id rows one.0)),
        )
  | inr not_queued ↦
      subst (λ taken. All (λ s. has s.id (ids taken) ≡ is_queued s) (r ∷ rows))
        (sym (queued_rows-left r rows not_queued))
        (not_among r.id rows one.0 ∙ sym not_queued, queued-among rows one.1)
]

-- What holds of a row between two rounds, and of a row that a round or the expiry begins with.
begin_round :
    (waiting : List String) (chan : List MsgQueueItem) (r : BatchMessageItem)
    → has r.id waiting ≡ is_queued r
    → RowIn retrying [] chan r
    → RowIn retrying waiting chan r
begin_round waiting chan r among k = record {
  must_wait = ground (arith, k.must_wait);
  may_wait = ground (arith, among);
  fresh = λ e. k.pushed.else_never (ground (arith, among, e));
  pushed = k.pushed;
}

pub begin_expiry :
    (waiting : List String) (chan : List MsgQueueItem) (r : BatchMessageItem)
    → has r.id waiting ≡ is_queued r
    → RowIn retrying [] chan r
    → RowIn expiring waiting chan r
begin_expiry waiting chan r among k = record {
  must_wait = ground (arith, k.must_wait, among);
  may_wait = ground (arith, among);
  fresh = λ e. k.pushed.else_never (ground (arith, among, e));
  pushed = k.pushed;
}

pub count-eq :
    (p p' : BatchMessageItem → Bool) (rows : List BatchMessageItem)
    → All (λ r. p r ≡ p' r) rows
    → count p rows ≡ count p' rows
count-eq p p' [] h = refl
count-eq p p' (r ∷ rows) h = ground (arith, h.0, count-eq p p' rows h.1)

pub unsettled_nil :
    (rows : List BatchMessageItem) → count (unsettled []) rows ≡ count is_queued rows
unsettled_nil [] = refl
unsettled_nil (r ∷ rows) = ground (arith, unsettled_nil rows)

module _ (env : BatchEnv) (start : ℕ) (all : List String) (one : Distinct all) where
  pub retry_round-RetryIn :
      (st : BatchState) → RetryIn start all [] st → RetryIn start all [] (retry_round env st)
  unfolding retry_round
  retry_round-RetryIn st h =
      let distinct : Distinct (ids st.rows) = subst Distinct (sym h.rows_in.same_ids) one in
      let among = queued-among st.rows distinct in
      let done =
        retry_items-RetryIn env start all one (queued_rows st.rows) st
          (queued_rows-Distinct st.rows distinct)
          (All-queued_rows _ st.rows (rw h.rows_in.same_ids (has_self all)))
          (record {
            rows_in = record {
              same_ids = h.rows_in.same_ids;
              each =
                  All-weaken _ _ st.rows
                    (λ r k. begin_round (ids (queued_rows st.rows)) st.client_msg_chan r k.0 k.1)
                    (All-both _ _ st.rows among h.rows_in.each);
              known = h.rows_in.known;
            };
            counted = omega (
              arith,
              h.counted,
              count-eq (unsettled (ids (queued_rows st.rows))) (unsettled []) st.rows
                  (All-weaken _ _ st.rows (λ r k. ground (arith, k)) among),
            );
            late = h.late;
          }) in
      record { rows_in = done.rows_in; counted = done.counted; late = done.late }

  pub sleep-RetryIn :
      (st : BatchState)
      → RetryIn start all [] st
      → RetryIn (start + retry_interval) all [] (sleep env st)
  unfolding sleep
  sleep-RetryIn st h =
      let awake = later-RetryIn env start all one [] st h in
      record { rows_in = awake.rows_in; counted = awake.counted; late = omega (arith, awake.late) }
