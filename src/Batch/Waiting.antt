-- ===== src/Batch/Waiting.antt =====
-- What the passes of `processBatchJob` keep true of each row.
use gomsggw.Base.{
  ℕ, ◌+◌, Bool, true, false, ◌||◌, ◌≤◌, List, [], ◌∷◌, ◌++◌, String, Eq_Text, Eq_String, ◌==◌,
  ==_iff, count, ◌≡◌, inl, inr, refl, sym, subst, ◌∙◌, if◌then◌else◌, Bool-cases, arith,
}
use gomsggw.Message.{MsgQueueItem}
use gomsggw.Batch.{
  BatchMessageItem, ItemStatus, pending, sent, queued, failed, cancelled, is_sent, is_queued,
  is_cancelled, if_row,
}
use gomsggw.Batch.Items.{set_sent, set_failed, set_queued}
use gomsggw.Batch.Rows.{has}
use gomsggw.Batch.Interrupts.{CancelsRow}

-- How often a message with an id stands on a channel.
abbrev pub pushes : String → List MsgQueueItem → ℕ
pushes x chan = count (λ m. m.log_id == x) chan

pub pushes-append :
    (x : String) (chan : List MsgQueueItem) (m : MsgQueueItem)
    → pushes x (chan ++ (m ∷ [])) ≡ pushes x chan + (if m.log_id == x then 1 else 0)
pushes-append x [] m = omega arith
pushes-append x (n ∷ chan) m = omega (arith, pushes-append x chan m)

pub ==_comm : (x y : String) → (x == y) ≡ (y == x)
==_comm x y = ground (arith, ==_iff x y, ==_iff y x)

pub data Phase : Type 0 where
  passing retrying expiring : Phase

-- What a row may be, besides cancelled, while its message is still to come in a pass.
abbrev pub may : Phase → ItemStatus → Bool
may passing s = elim s [ pending ↦ true | _ ↦ false ]
may retrying s = elim s [ queued ↦ true | _ ↦ false ]
may expiring s = elim s [ queued ↦ true | _ ↦ false ]

-- What a row may be only while its message is still to come.
abbrev pub must : Phase → ItemStatus → Bool
must passing s = elim s [ pending ↦ true | _ ↦ false ]
must retrying s = elim s [ pending ↦ true | _ ↦ false ]
must expiring s = elim s [ pending ↦ true | queued ↦ true | _ ↦ false ]

-- How often a message is on the channel: once if its row is sent, at most once if it is cancelled, and
-- else not at all.
pub record Times (one_time stopped : Bool) (n : ℕ) : Type 0 where
  pub sent_once : one_time ≡ true → n ≡ 1
  pub at_most_once : n ≤ 1
  pub else_never : (one_time || stopped) ≡ false → n ≡ 0

abbrev pub Pushed : BatchMessageItem → ℕ → Type 0
Pushed r n = Times (is_sent r) (is_cancelled r) n

pub Pushed-zero : (r : BatchMessageItem) (n : ℕ) → is_sent r ≡ false → n ≡ 0 → Pushed r n
Pushed-zero r n not_sent h = record {
  sent_once = λ e. absurd (ground (arith, not_sent, e));
  at_most_once = omega (arith, h);
  else_never = λ e. h;
}

Pushed-one : (r : BatchMessageItem) (n : ℕ) → is_sent r ≡ true → n ≡ 1 → Pushed r n
Pushed-one r n is h = record {
  sent_once = λ e. h;
  at_most_once = omega (arith, h);
  else_never = λ e. absurd (ground (arith, is, e));
}

-- A row while messages with the ids `waiting` are still to come.
pub record RowIn (phase : Phase) (waiting : List String) (chan : List MsgQueueItem)
    (r : BatchMessageItem) : Type 0 where
  pub must_wait : must phase r.status ≡ true → has r.id waiting ≡ true
  pub may_wait : has r.id waiting ≡ true → (may phase r.status || is_cancelled r) ≡ true
  pub fresh : has r.id waiting ≡ true → pushes r.id chan ≡ 0
  pub pushed : Pushed r (pushes r.id chan)

must-cancelled : (phase : Phase) → must phase cancelled ≡ false
must-cancelled passing = refl
must-cancelled retrying = refl
must-cancelled expiring = refl

must-is_cancelled :
    (phase : Phase) (r : BatchMessageItem) → is_cancelled r ≡ true → must phase r.status ≡ false
must-is_cancelled passing r h = ground (arith, h)
must-is_cancelled retrying r h = ground (arith, h)
must-is_cancelled expiring r h = ground (arith, h)

must-failed : (phase : Phase) → must phase failed ≡ false
must-failed passing = refl
must-failed retrying = refl
must-failed expiring = refl

must-sent : (phase : Phase) → must phase sent ≡ false
must-sent passing = refl
must-sent retrying = refl
must-sent expiring = refl

pub CancelsRow-RowIn :
    (phase : Phase) (waiting : List String) (chan : List MsgQueueItem) (r s : BatchMessageItem)
    → CancelsRow r s
    → RowIn phase waiting chan r
    → RowIn phase waiting chan s
CancelsRow-RowIn phase waiting chan r s h k = elim h.kept [
  | inl same ↦
      rw (h.same_id, same)
        (record {
          must_wait = k.must_wait;
          may_wait = k.may_wait;
          fresh = k.fresh;
          pushed = k.pushed;
        })
  | inr e ↦
      rw (h.same_id, e)
        (record {
          must_wait = λ e. absurd (ground (arith, must-cancelled phase, e));
          may_wait = λ e. ground arith;
          fresh = k.fresh;
          pushed = record {
            sent_once = λ x. absurd (ground (arith, x));
            at_most_once = k.pushed.at_most_once;
            else_never = λ x. absurd (ground (arith, x));
          };
        })
]

pub CancelsRow-is_queued :
    (r s : BatchMessageItem) → CancelsRow r s → is_queued s ≡ true → is_queued r ≡ true
CancelsRow-is_queued r s h e = elim h.kept [
  | inl same ↦ ground (arith, same)
  | inr done ↦ absurd (ground (arith, done))
]

pub skip_row :
    (phase : Phase) (q : String) (waiting : List String) (chan : List MsgQueueItem)
    (r : BatchMessageItem)
    → has q waiting ≡ false
    → ((r.id == q) ≡ true → is_cancelled r ≡ true)
    → RowIn phase (q ∷ waiting) chan r
    → RowIn phase waiting chan r
skip_row phase q waiting chan r new gone k = record {
  must_wait = ground (arith, ==_comm r.id q, gone, k.must_wait, must-is_cancelled phase r);
  may_wait = ground (arith, k.may_wait);
  fresh = ground (arith, k.fresh);
  pushed = k.pushed;
}

module _ (phase : Phase) (q : String) (waiting : List String) (chan : List MsgQueueItem)
    (r : BatchMessageItem) (new : has q waiting ≡ false)
    (k : RowIn phase (q ∷ waiting) chan r) where
  -- the row of the message that is due
  was_open : (r.id == q) ≡ true → pushes r.id chan ≡ 0
  was_open here = ground (arith, k.fresh, ==_comm r.id q, here)

  written_row :
      (chan' : List MsgQueueItem) (s : BatchMessageItem)
      → (r.id == q) ≡ true
      → s.id ≡ r.id
      → must phase s.status ≡ false
      → Pushed s (pushes r.id chan')
      → RowIn phase waiting chan' s
  written_row chan' s here same closed law =
      let gone : has r.id waiting ≡ false = rw ((==_iff r.id q).0 here) new in
      rw same (record {
        must_wait = ground (arith, closed);
        may_wait = ground (arith, gone);
        fresh = ground (arith, gone);
        pushed = law;
      })

  other_row :
      (chan' : List MsgQueueItem)
      → (r.id == q) ≡ false
      → pushes r.id chan' ≡ pushes r.id chan
      → RowIn phase waiting chan' r
  other_row chan' elsewhere law = record {
    must_wait = ground (arith, ==_comm r.id q, elsewhere, k.must_wait);
    may_wait = ground (arith, k.may_wait);
    fresh = λ e. law ∙ k.fresh (ground (arith, e));
    pushed = subst (Pushed r) (sym law) k.pushed;
  }

  pub fail_row :
      (err : String) (code : ℕ) → RowIn phase waiting chan (if_row q (set_failed err code) r)
  fail_row err code = elim (Bool-cases (r.id == q)) [
    | inl here ↦ rw here (
        written_row chan (set_failed err code r) here refl (must-failed phase)
          (Pushed-zero (set_failed err code r) _ refl (was_open here)))
    | inr elsewhere ↦ rw elsewhere (other_row chan elsewhere refl)
  ]

  pub queue_row :
      (err : String) (now : ℕ)
      → must phase queued ≡ false
      → RowIn phase waiting chan (if_row q (set_queued err now) r)
  queue_row err now never = elim (Bool-cases (r.id == q)) [
    | inl here ↦ rw here (
        written_row chan (set_queued err now r) here refl never
          (Pushed-zero (set_queued err now r) _ refl (was_open here)))
    | inr elsewhere ↦ rw elsewhere (other_row chan elsewhere refl)
  ]

  pub send_row :
      (now : ℕ) (m : MsgQueueItem)
      → m.log_id ≡ q
      → RowIn phase waiting (chan ++ (m ∷ [])) (if_row q (set_sent now) r)
  send_row now m same = elim (Bool-cases (r.id == q)) [
    | inl here ↦ rw here (
        written_row (chan ++ (m ∷ [])) (set_sent now r) here refl (must-sent phase) (
          Pushed-one (set_sent now r) _ refl
            (pushes-append r.id chan m ∙ ground (arith, was_open here, same, ==_comm r.id q))))
    | inr elsewhere ↦ rw elsewhere (
        other_row (chan ++ (m ∷ [])) elsewhere
          (pushes-append r.id chan m ∙ ground (arith, same, ==_comm r.id q)))
  ]
