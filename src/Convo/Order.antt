-- ===== src/Convo/Order.antt =====
-- What one operation of convo.go does to the queue of any one conversation.
use mathlib.Core.List.{append-nil}
use gomsggw.Base.{
  ℕ, ◌+◌, ◌≤◌, false, List, [], ◌∷◌, ◌++◌, none, some, String, Text, Eq_Text, Eq_String, ◌==◌,
  ==_iff, if◌then◌else◌, length, ◌≡◌, arith, inl, inr, Option-cases, Bool-cases,
}
use gomsggw.Base.Map.{lookup, lookup-insert}
use gomsggw.Message.{MsgQueueItem}
use gomsggw.Convo.{
  ConvoQueue, ConvoManager, queue_of, put_queue, queue_add, queue_expect, queue_ack, queue_fail,
  on_queue,
}

abbrev pub busy : ConvoQueue → ℕ
busy cq = if cq.in_flight then 1 else 0

-- An operation that adds the messages `added` and may end `done` deliveries takes the queue `cq`
-- to `cq'` and releases `out`.
pub record QueueStep (added : List MsgQueueItem) (done : ℕ) (cq cq' : ConvoQueue)
    (out : List MsgQueueItem) : Type 0 where
  pub in_order : out ++ cq'.queue ≡ cq.queue ++ added
  pub one_at_a_time : length out + busy cq ≤ busy cq' + done
  pub none_stranded :
      (cq.in_flight ≡ false → cq.queue ≡ []) → cq'.in_flight ≡ false → cq'.queue ≡ []

pub QueueStep-refl : (done : ℕ) (cq : ConvoQueue) → QueueStep [] done cq cq []
QueueStep-refl done cq = record {
  in_order = rw append-nil;
  one_at_a_time = omega arith;
  none_stranded = λ h. h;
}

pub queue_add-QueueStep :
    (msg : MsgQueueItem) (cq : ConvoQueue)
    → QueueStep (msg ∷ []) 0 cq (queue_add msg cq).0 (queue_add msg cq).1
unfolding queue_add
queue_add-QueueStep msg cq = record {
  in_order = ground arith;
  one_at_a_time = ground arith;
  none_stranded = ground arith;
}

pub queue_ack-QueueStep :
    (received : String) (cq : ConvoQueue)
    → QueueStep [] 1 cq (queue_ack received cq).0 (queue_ack received cq).1
unfolding queue_ack
queue_ack-QueueStep received cq = record {
  in_order = rw append-nil (ground arith);
  one_at_a_time = ground arith;
  none_stranded = ground arith;
}

pub queue_fail-QueueStep : (cq : ConvoQueue) → QueueStep [] 1 cq (queue_fail cq).0 (queue_fail cq).1
unfolding queue_fail
queue_fail-QueueStep cq = record {
  in_order = rw append-nil (ground arith);
  one_at_a_time = ground arith;
  none_stranded = ground arith;
}

pub queue_expect-QueueStep :
    (id : String) (timeout : ℕ) (cq : ConvoQueue)
    → QueueStep [] 0 cq (queue_expect id timeout cq) []
unfolding queue_expect
queue_expect-QueueStep id timeout cq = record {
  in_order = rw append-nil;
  one_at_a_time = omega arith;
  none_stranded = λ h. h;
}

pub queue_of-put :
    (d c : Text) (cq : ConvoQueue) (cm : ConvoManager)
    → queue_of c (put_queue d cq cm) ≡ (if d == c then cq else queue_of c cm)
unfolding queue_of
queue_of-put d c cq cm = ground (arith, lookup-insert d c cq cm.queues)

pub queue_of_found :
    (d : Text) (cm : ConvoManager) {cq : ConvoQueue}
    → lookup d cm.queues ≡ some cq
    → queue_of d cm ≡ cq
unfolding queue_of
queue_of_found d cm h = rw (h, queue_of)

pub on_queue_missing :
    (d : Text) (f : ConvoQueue → ConvoQueue × List MsgQueueItem) (cm : ConvoManager)
    → lookup d cm.queues ≡ none
    → on_queue d f cm ≡ (cm, [])
unfolding on_queue
on_queue_missing d f cm h = rw (h, on_queue)

pub on_queue_found :
    (d : Text) (f : ConvoQueue → ConvoQueue × List MsgQueueItem) (cm : ConvoManager)
    {cq : ConvoQueue}
    → lookup d cm.queues ≡ some cq
    → on_queue d f cm ≡ (put_queue d (f cq).0 cm, (f cq).1)
unfolding on_queue
on_queue_found d f cm h = rw (h, on_queue)

-- A method body on the queue of `d` keeps a law of its queue for every conversation `c`, and
-- leaves the other conversations alone.
pub on_queue-QueueStep :
    (d c : Text) (done : ℕ) (f : ConvoQueue → ConvoQueue × List MsgQueueItem) (cm : ConvoManager)
    → ((cq : ConvoQueue) → QueueStep [] done cq (f cq).0 (f cq).1)
    → QueueStep []
        (if d == c then done else 0)
        (queue_of c cm)
        (queue_of c (on_queue d f cm).0)
        (if d == c then (on_queue d f cm).1 else [])
on_queue-QueueStep d c done f cm law = elim (Option-cases (lookup d cm.queues)) [
  | inl miss ↦ rw (on_queue_missing d f cm miss) (elim (Bool-cases (d == c)) [
    | inl same ↦ rw same (QueueStep-refl done _)
    | inr other ↦ rw other (QueueStep-refl 0 _)
  ])
  | inr (cq, hit) ↦
      rw (on_queue_found d f cm hit, queue_of-put d c (f cq).0 cm)
        (elim (Bool-cases (d == c)) [
          | inl same ↦
              let found : queue_of c cm ≡ cq =
                rw (← (==_iff d c).0 same) (queue_of_found d cm hit) in
              rw (same, found) (law cq)
          | inr other ↦ rw other (QueueStep-refl 0 _)
        ])
]
