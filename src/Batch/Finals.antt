-- ===== src/Batch/Finals.antt =====
-- The final queries of `processBatchJob` of batch.go, with requests between them.
use gomsggw.Base.{
  ℕ, ◌+◌, ◌≤◌, ◌||◌, true, false, List, [], ◌∷◌, String, Eq_String, ◌==◌, ==_iff, length, count,
  All, ◌≡◌, inl, inr, refl, sym, ap, ◌∙◌, if◌then◌else◌, Bool-cases, arith,
}
use gomsggw.Message.{MsgQueueItem}
use gomsggw.Batch.{BatchMessageItem, BatchState, is_sent, is_failed, is_cancelled, is_open}
use gomsggw.Batch.Items.{BatchEnv, later}
use gomsggw.Batch.Interrupts.{CancelsRow, Cancels, later-Interrupted}
use gomsggw.Batch.Passes.{later-RowsIn}
use gomsggw.Batch.Deadline.{Settled}
use gomsggw.Batch.Process.{finalizing}
use gomsggw.Batch.Rows.{has, ids, Distinct, All-weaken, count-le}
use gomsggw.Batch.Waiting.{expiring, Pushed, pushes, ==_comm}
use gomsggw.Batch.Ends.{settled_row}

-- How often one id stands among some ids, and how often the messages of a channel stand there.
abbrev hits : String → List String → ℕ
hits q [] = 0
hits q (x ∷ xs) = (if q == x then 1 else 0) + hits q xs

abbrev all_pushes : List String → List MsgQueueItem → ℕ
all_pushes [] chan = 0
all_pushes (x ∷ xs) chan = pushes x chan + all_pushes xs chan

no_hit : (q : String) (xs : List String) → has q xs ≡ false → hits q xs ≡ 0
no_hit q [] h = refl
no_hit q (x ∷ xs) h = ground (arith, ==_comm q x, no_hit q xs)

one_hit : (q : String) (xs : List String) → Distinct xs → has q xs ≡ true → hits q xs ≡ 1
one_hit q [] one h = cc
one_hit q (x ∷ xs) one h = elim (Bool-cases (q == x)) [
  | inl here ↦ rw here (omega (arith, no_hit q xs (rw ((==_iff q x).0 here) one.0)))
  | inr elsewhere ↦ rw elsewhere (omega (arith, one_hit q xs one.1 (ground (arith, ==_comm q x))))
]

all_pushes-cons :
    (xs : List String) (m : MsgQueueItem) (chan : List MsgQueueItem)
    → all_pushes xs (m ∷ chan) ≡ hits m.log_id xs + all_pushes xs chan
all_pushes-cons [] m chan = omega arith
all_pushes-cons (x ∷ xs) m chan = omega (arith, all_pushes-cons xs m chan)

all_pushes-nil : (xs : List String) → all_pushes xs [] ≡ 0
all_pushes-nil [] = refl
all_pushes-nil (x ∷ xs) = omega (arith, all_pushes-nil xs)

length-chan :
    (xs : List String) (chan : List MsgQueueItem)
    → Distinct xs
    → All (λ m. has m.log_id xs ≡ true) chan
    → all_pushes xs chan ≡ length chan
length-chan xs [] one h = all_pushes-nil xs
length-chan xs (m ∷ chan) one h =
    omega
      (arith, all_pushes-cons xs m chan, one_hit m.log_id xs one h.0, length-chan xs chan one h.1)

count-Pushed :
    (rows : List BatchMessageItem) (chan : List MsgQueueItem)
    → All (λ r. Pushed r (pushes r.id chan)) rows
    → (count is_sent rows ≤ all_pushes (ids rows) chan)
      × (all_pushes (ids rows) chan ≤ length (ids rows))
count-Pushed [] chan h = (omega arith, omega arith)
count-Pushed (r ∷ rows) chan h =
    let (lower, upper) = count-Pushed rows chan h.1 in
    (ground (arith, h.0.sent_once, lower), omega (arith, h.0.at_most_once, upper))

pub length-ids : (rows : List BatchMessageItem) → length rows ≡ length (ids rows)
length-ids [] = refl
length-ids (r ∷ rows) = omega (arith, length-ids rows)

-- A closed row is counted at least once by the three queries, whatever is cancelled between them.
counted_row :
    (r s t : BatchMessageItem)
    → CancelsRow r s
    → CancelsRow s t
    → is_open r ≡ false
    → (is_sent r || is_failed s || is_cancelled t) ≡ true
counted_row r s t h k closed = elim k.kept [
  | inr gone ↦ ground (arith, gone)
  | inl same ↦ elim h.kept [
    | inr gone ↦ ground (arith, gone, same)
    | inl again ↦ ground (arith, again, same, closed)
  ]
]

counted_rows :
    (rows ss ts : List BatchMessageItem)
    → Cancels rows ss
    → Cancels ss ts
    → All (λ r. is_open r ≡ false) rows
    → length (ids rows) ≤ count is_sent rows + (count is_failed ss + count is_cancelled ts)
counted_rows [] [] [] h k closed = omega arith
counted_rows (r ∷ rows) (s ∷ ss) (t ∷ ts) h k closed =
    ground (arith, counted_row r s t h.0 k.0 closed.0, counted_rows rows ss ts h.1 k.1 closed.1)
counted_rows [] [] (t ∷ ts) h k closed = absurd k
counted_rows [] (s ∷ ss) ts h k closed = absurd h
counted_rows (r ∷ rows) [] ts h k closed = absurd h
counted_rows (r ∷ rows) (s ∷ ss) [] h k closed = absurd k

CancelsRow-is_sent : (r s : BatchMessageItem) → CancelsRow r s → is_sent s ≡ true → is_sent r ≡ true
CancelsRow-is_sent r s h e = elim h.kept [
  | inl same ↦ ground (arith, same)
  | inr gone ↦ absurd (ground (arith, gone))
]

module _ (env : BatchEnv) (all : List String) (one : Distinct all) (st : BatchState)
    (law : Settled all st) where
  again : (s : BatchState) → Settled all s → Settled all (later env s)
  again s k = later-RowsIn expiring all one [] env s k

  -- The rows when the final update is made.
  pub finalizing-Settled : Settled all (finalizing env st)
  finalizing-Settled =
      again (later env (later env (later env st)))
        (again (later env (later env st)) (again (later env st) (again st law)))

  fewer_sent : (s : BatchState) → count is_sent (later env s).rows ≤ count is_sent s.rows
  fewer_sent s =
      count-le CancelsRow is_sent is_sent s.rows (later env s).rows CancelsRow-is_sent
        (later-Interrupted env s).rows

  pub finalizing-sent : count is_sent (finalizing env st).rows ≤ count is_sent st.rows
  finalizing-sent = omega (
    arith,
    fewer_sent st,
    fewer_sent (later env st),
    fewer_sent (later env (later env st)),
    fewer_sent (later env (later env (later env st))),
  )

  finalizing-chan : (finalizing env st).client_msg_chan ≡ st.client_msg_chan
  finalizing-chan =
      (later-Interrupted env (later env (later env (later env st)))).same_chan
      ∙ (later-Interrupted env (later env (later env st))).same_chan
      ∙ (later-Interrupted env (later env st)).same_chan
      ∙ (later-Interrupted env st).same_chan

  pub closed : (s : BatchState) → Settled all s → All (λ r. is_open r ≡ false) s.rows
  closed s k = All-weaken _ _ s.rows (settled_row s.client_msg_chan) k.each

  pub pushed :
      (s : BatchState) → Settled all s → All (λ r. Pushed r (pushes r.id s.client_msg_chan)) s.rows
  pushed s k = All-weaken _ _ s.rows (λ r x. x.pushed) k.each

  pub counted :
      length all
      ≤ count is_sent st.rows
        + (count is_failed (later env st).rows + count is_cancelled (later env (later env st)).rows)
  counted = rw (sym law.same_ids) (
      counted_rows st.rows (later env st).rows (later env (later env st)).rows
        (later-Interrupted env st).rows (later-Interrupted env (later env st)).rows (closed st law))

  pub on_channel :
      (count is_sent st.rows ≤ length (finalizing env st).client_msg_chan)
      × (length (finalizing env st).client_msg_chan ≤ length all)
  on_channel =
      let (lower, upper) = count-Pushed st.rows st.client_msg_chan (pushed st law) in
      let all_of : all_pushes all st.client_msg_chan ≡ length st.client_msg_chan =
        length-chan all st.client_msg_chan one law.known in
      let same = ap length finalizing-chan in
      let ids_of : all_pushes (ids st.rows) st.client_msg_chan ≡ all_pushes all st.client_msg_chan =
        ap (λ xs. all_pushes xs st.client_msg_chan) law.same_ids in
      (
        omega (arith, lower, all_of, same, ids_of),
        omega (arith, upper, all_of, same, ids_of, ap length law.same_ids),
      )
