-- ===== src/Batch/Interrupts.antt =====
-- What the cancel requests of batch_routes.go can do to a running batch job.
use gomsggw.Base.{
  ℕ, ◌+◌, ◌≤◌, List, [], ◌∷◌, String, Eq_String, ◌==◌, All, ◌≡◌, ◌⊎◌, inl, inr, refl, ◌∙◌,
  Bool-cases, arith,
}
use gomsggw.Batch.{
  BatchMessageItem, cancelled, Cancel, cancel_job, find_message, cancel_message, BatchState,
  is_open, is_over, open_in, find_row, update_row, if_row, if_open, set_cancelled, cancel_open,
  cancel_batch, find_batch_message, was_found, cancel_batch_message, cancel, cancel_each, due,
  not_due, interrupt,
}
use gomsggw.Batch.Items.{BatchEnv, later}
use gomsggw.Batch.Rows.{
  ids, ids-Pointwise, Pointwise, Pointwise-map, Pointwise-refl, Pointwise-trans,
}

-- A row keeps its status, or is cancelled, even if it was sent.
pub record CancelsRow (r s : BatchMessageItem) : Type 0 where
  pub same_id : s.id ≡ r.id
  pub kept : (s.status ≡ r.status) ⊎ (s.status ≡ cancelled)

abbrev pub Cancels : List BatchMessageItem → List BatchMessageItem → Type 0
Cancels rows ss = Pointwise CancelsRow rows ss

CancelsRow-refl : (r : BatchMessageItem) → CancelsRow r r
CancelsRow-refl r = record { same_id = refl; kept = inl refl }

CancelsRow-trans : (r s t : BatchMessageItem) → CancelsRow r s → CancelsRow s t → CancelsRow r t
CancelsRow-trans r s t h k = record {
  same_id = k.same_id ∙ h.same_id;
  kept = elim h.kept [
    | inl same ↦ elim k.kept [ inl again ↦ inl (again ∙ same) | inr e ↦ inr e ]
    | inr e ↦ elim k.kept [ inl again ↦ inr (again ∙ e) | inr e' ↦ inr e' ]
  ];
}

pub All-rows :
    (P : BatchMessageItem → Type 0)
    → ((r : BatchMessageItem) → P r)
    → (rows : List BatchMessageItem) → All P rows
All-rows P law [] = tt
All-rows P law (r ∷ rows) = (law r, All-rows P law rows)

pub Cancels-refl : (rows : List BatchMessageItem) → Cancels rows rows
Cancels-refl rows = Pointwise-refl CancelsRow rows (All-rows _ CancelsRow-refl rows)

if_open-CancelsRow : (r : BatchMessageItem) → CancelsRow r (if_open r)
if_open-CancelsRow r = elim (Bool-cases (is_open r)) [
  | inl was ↦ rw was (record { same_id = refl; kept = inr refl })
  | inr closed ↦ rw closed (CancelsRow-refl r)
]

-- What a request leaves as it was, and what time does.
pub record Interrupted (st st' : BatchState) : Type 0 where
  pub rows : Cancels st.rows st'.rows
  pub same_job : st'.job ≡ st.job
  pub same_chan : st'.client_msg_chan ≡ st.client_msg_chan
  pub now : st.now ≤ st'.now

Interrupted-trans : (a b c : BatchState) → Interrupted a b → Interrupted b c → Interrupted a c
Interrupted-trans a b c h k = record {
  rows = Pointwise-trans CancelsRow a.rows b.rows c.rows CancelsRow-trans h.rows k.rows;
  same_job = k.same_job ∙ h.same_job;
  same_chan = k.same_chan ∙ h.same_chan;
  now = omega (arith, h.now, k.now);
}

cancel_batch-Interrupted : (now : ℕ) (st : BatchState) → Interrupted st (cancel_batch now st)
unfolding cancel_batch cancel_open
cancel_batch-Interrupted now st = elim (Bool-cases (is_over st.stored.status)) [
  | inl over ↦
      rw over (record {
        rows = Cancels-refl st.rows;
        same_job = refl;
        same_chan = refl;
        now = omega arith;
      })
  | inr running ↦ rw running (record {
    rows = Pointwise-map CancelsRow if_open st.rows (All-rows _ if_open-CancelsRow st.rows);
    same_job = refl;
    same_chan = refl;
    now = omega arith;
  })
]

pub Cancels-ids : (rows ss : List BatchMessageItem) → Cancels rows ss → ids ss ≡ ids rows
Cancels-ids rows ss h = ids-Pointwise CancelsRow rows ss (λ r s k. k.same_id) h

cancel_row :
    (id : String) (r : BatchMessageItem)
    → CancelsRow r (if_row id (set_cancelled "cancelled by user") r)
cancel_row id r = elim (Bool-cases (r.id == id)) [
  | inl here ↦ rw here (record { same_id = refl; kept = inr refl })
  | inr elsewhere ↦ rw elsewhere (CancelsRow-refl r)
]

Interrupted-refl : (st : BatchState) → Interrupted st st
Interrupted-refl st = record {
  rows = Cancels-refl st.rows;
  same_job = refl;
  same_chan = refl;
  now = omega arith;
}

find_batch_message-Interrupted :
    (id : String) (st : BatchState) → Interrupted st (find_batch_message id st)
unfolding find_batch_message
find_batch_message-Interrupted id st = elim (Bool-cases (open_in (find_row id st.rows))) [
  | inl is ↦
      rw is (record {
        rows = Cancels-refl st.rows;
        same_job = refl;
        same_chan = refl;
        now = omega arith;
      })
  | inr not_open ↦ rw not_open (Interrupted-refl st)
]

cancel_batch_message-Interrupted :
    (id : String) (st : BatchState) → Interrupted st (cancel_batch_message id st)
unfolding cancel_batch_message update_row
cancel_batch_message-Interrupted id st = elim (Bool-cases (was_found id st.found)) [
  | inl is ↦ rw is (record {
    rows =
        Pointwise-map CancelsRow (if_row id (set_cancelled "cancelled by user")) st.rows
          (All-rows _ (cancel_row id) st.rows);
    same_job = refl;
    same_chan = refl;
    now = omega arith;
  })
  | inr not_found ↦ rw not_found (Interrupted-refl st)
]

cancel-Interrupted : (now : ℕ) (c : Cancel) (st : BatchState) → Interrupted st (cancel now c st)
unfolding cancel
cancel-Interrupted now cancel_job st = cancel_batch-Interrupted now st
cancel-Interrupted now (find_message id) st = find_batch_message-Interrupted id st
cancel-Interrupted now (cancel_message id) st = cancel_batch_message-Interrupted id st

cancel_each-Interrupted :
    (now : ℕ) (cs : List Cancel) (st : BatchState) → Interrupted st (cancel_each now cs st)
unfolding cancel_each
cancel_each-Interrupted now [] st = Interrupted-refl st
cancel_each-Interrupted now (c ∷ cs) st =
    Interrupted-trans st (cancel now c st) (cancel_each now cs (cancel now c st))
      (cancel-Interrupted now c st) (cancel_each-Interrupted now cs (cancel now c st))

pub later-Interrupted : (env : BatchEnv) (st : BatchState) → Interrupted st (later env st)
unfolding later interrupt
later-Interrupted env st =
    let law = cancel_each-Interrupted st.now (due st.schedule) (record st {
      schedule = not_due st.schedule;
      tick = st.tick + 1;
      now = st.now + env.elapsed st.tick;
    }) in
    record {
      rows = law.rows;
      same_job = law.same_job;
      same_chan = law.same_chan;
      now = omega (arith, law.now);
    }
