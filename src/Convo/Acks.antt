-- ===== src/Convo/Acks.antt =====
-- Acks, failures and timeouts of convo.go: what ends a delivery, and what an ack that is not the
-- expected one leaves behind.
use gomsggw.Base.{
  ℕ, true, List, [], none, some, String, Text, Eq_Text, Eq_String, ◌==◌, ==_iff, ◌≡◌, ◌≢◌, refl, ap,
  ◌∙◌, arith, inl, inr, Option-cases,
}
use gomsggw.Base.Map.{lookup, insert, delete, lookup-insert, lookup-delete}
use gomsggw.Message.{MsgQueueItem}
use gomsggw.Convo.{
  ConvoQueue, ConvoManager, queue_of, put_queue, queue_ack, queue_done, queue_expect, queue_fail,
  on_queue, set_expected_ack, handle_ack, handle_failure, handle_carrier_ack, fire, timer_fires,
}
use gomsggw.Convo.Order.{on_queue_missing, on_queue_found, queue_of_found}

==-refl : (a : String) → (a == a) ≡ true
==-refl a = (==_iff a a).1 refl

lookup-insert_same {ℓ} :
    {V : Type ℓ} (convo : Text) (v : V) (m : List (Text × V))
    → lookup convo (insert convo v m) ≡ some v
lookup-insert_same convo v m = lookup-insert convo convo v m ∙ rw ((==_iff convo convo).1 refl)

-- A method body leaves the ack ids alone.
on_queue-ack_map :
    (convo : Text) (f : ConvoQueue → ConvoQueue × List MsgQueueItem) (cm : ConvoManager)
    → (on_queue convo f cm).0.ack_map ≡ cm.ack_map
on_queue-ack_map convo f cm = elim (Option-cases (lookup convo cm.queues)) [
  | inl miss ↦ rw (on_queue_missing convo f cm miss)
  | inr (cq, hit) ↦ rw (on_queue_found convo f cm hit)
]

handle_carrier_ack_unknown :
    (ack : String) (cm : ConvoManager)
    → lookup ack cm.ack_map ≡ none
    → handle_carrier_ack ack cm ≡ (cm, [])
unfolding handle_carrier_ack
handle_carrier_ack_unknown ack cm h = rw (h, handle_carrier_ack)

handle_carrier_ack_known :
    (ack : String) (convo : Text) (cm : ConvoManager)
    → lookup ack cm.ack_map ≡ some convo
    → handle_carrier_ack ack cm
      ≡ handle_ack convo ack (record cm { ack_map = delete ack cm.ack_map })
unfolding handle_carrier_ack
handle_carrier_ack_known ack convo cm h = rw (h, handle_carrier_ack)

-- A carrier's ack that arrives again, right after the first, changes nothing and releases nothing,
-- whatever the manager was before the first.
pub handle_carrier_ack_twice :
    (ack : String) (cm : ConvoManager)
    → handle_carrier_ack ack (handle_carrier_ack ack cm).0 ≡ ((handle_carrier_ack ack cm).0, [])
unfolding handle_ack
handle_carrier_ack_twice ack cm = elim (Option-cases (lookup ack cm.ack_map)) [
  | inl miss ↦ rw (handle_carrier_ack_unknown ack cm miss, handle_carrier_ack_unknown ack cm miss)
  | inr (convo, hit) ↦ rw (handle_carrier_ack_known ack convo cm hit) (
      handle_carrier_ack_unknown ack _ (
        ap (lookup ack) (on_queue-ack_map convo (queue_ack ack) _)
        ∙ lookup-delete ack ack cm.ack_map
        ∙ rw (==-refl ack)))
]

-- The manager after `SetExpectedAck` on a conversation that exists.
expecting : Text → String → ℕ → ConvoQueue → ConvoManager → ConvoManager
expecting convo ack timeout cq cm =
    put_queue convo (queue_expect ack timeout cq)
      (record cm { ack_map = insert ack convo cm.ack_map })

set_expected_ack_found :
    (convo : Text) (ack : String) (timeout : ℕ) (cm : ConvoManager) {cq : ConvoQueue}
    → lookup convo cm.queues ≡ some cq
    → set_expected_ack convo ack timeout cm ≡ expecting convo ack timeout cq cm
unfolding set_expected_ack expecting
set_expected_ack_found convo ack timeout cm hit =
    ap (λ r. r.0)
      (on_queue_found convo (λ cq. (queue_expect ack timeout cq, []))
        (record cm { ack_map = insert ack convo cm.ack_map }) hit)

-- A method body on the queue that a manager holds for a conversation.
on_put_queue :
    (convo : Text) (f : ConvoQueue → ConvoQueue × List MsgQueueItem) (cq : ConvoQueue)
    (cm : ConvoManager)
    → on_queue convo f (put_queue convo cq cm)
      ≡ (put_queue convo (f cq).0 (put_queue convo cq cm), (f cq).1)
on_put_queue convo f cq cm =
    on_queue_found convo f (put_queue convo cq cm) (lookup-insert_same convo cq cm.queues)

expected_ack-release :
    (ack : String) (timeout : ℕ) (cq : ConvoQueue)
    → (queue_ack ack (queue_expect ack timeout cq)).1 ≡ (queue_fail cq).1
unfolding queue_ack queue_expect queue_fail queue_done
expected_ack-release ack timeout cq = ground (arith, ==-refl ack)

handle_failure-out :
    (convo : Text) (cm : ConvoManager) {cq : ConvoQueue}
    → lookup convo cm.queues ≡ some cq
    → (handle_failure convo cm).1 ≡ (queue_fail cq).1
unfolding handle_failure
handle_failure-out convo cm hit = ap (λ r. r.1) (on_queue_found convo queue_fail cm hit)

-- On a conversation that exists: once `SetExpectedAck` has named an ack, the carrier's ack of that
-- name releases the same messages that a failure would have released.
pub handle_carrier_ack-set_expected_ack :
    (convo : Text) (ack : String) (timeout : ℕ) (cm : ConvoManager) {cq : ConvoQueue}
    → lookup convo cm.queues ≡ some cq
    → (handle_carrier_ack ack (set_expected_ack convo ack timeout cm)).1
      ≡ (handle_failure convo cm).1
unfolding expecting handle_ack
handle_carrier_ack-set_expected_ack convo ack timeout cm {cq} hit =
    rw
      (
        set_expected_ack_found convo ack timeout cm hit,
        handle_carrier_ack_known ack convo (expecting convo ack timeout cq cm)
            (lookup-insert ack ack convo cm.ack_map ∙ rw (==-refl ack)),
        handle_failure-out convo cm hit,
      )
      (ap (λ r. r.1)
          (on_put_queue convo (queue_ack ack) (queue_expect ack timeout cq)
            (record cm { ack_map = delete ack (insert ack convo cm.ack_map) }))
        ∙ expected_ack-release ack timeout cq)

-- A timer that runs out acts as the ack that it waits for.
timer_fires_put :
    (convo : Text) (ack : String) (timeout : ℕ) (cq : ConvoQueue) (cm : ConvoManager)
    → cq.ack_timer ≡ some (record { waits_for = ack; timeout = timeout })
    → timer_fires convo (put_queue convo cq cm)
      ≡ (put_queue convo (queue_ack ack cq).0 (put_queue convo cq cm), (queue_ack ack cq).1)
unfolding timer_fires handle_ack fire
timer_fires_put convo ack timeout cq cm running =
    ap (λ t. fire t convo (put_queue convo cq cm))
      (ap (λ q. q.ack_timer)
          (queue_of_found convo (put_queue convo cq cm) (lookup-insert_same convo cq cm.queues))
        ∙ running)
    ∙ on_put_queue convo (queue_ack ack) cq cm

-- On a conversation that exists: when the timer that `SetExpectedAck` starts runs out, the same
-- messages are released that a failure would have released.
pub timer_fires-set_expected_ack :
    (convo : Text) (ack : String) (timeout : ℕ) (cm : ConvoManager) {cq : ConvoQueue}
    → lookup convo cm.queues ≡ some cq
    → (timer_fires convo (set_expected_ack convo ack timeout cm)).1 ≡ (handle_failure convo cm).1
unfolding queue_expect expecting
timer_fires-set_expected_ack convo ack timeout cm {cq} hit =
    rw (set_expected_ack_found convo ack timeout cm hit, handle_failure-out convo cm hit)
      (ap (λ r. r.1)
          (timer_fires_put convo ack timeout (queue_expect ack timeout cq)
            (record cm { ack_map = insert ack convo cm.ack_map }) refl)
        ∙ expected_ack-release ack timeout cq)

abbrev stopped : ConvoQueue → ConvoQueue
stopped cq = record cq { ack_timer = none }

queue_ack_mismatch :
    (received : String) (cq : ConvoQueue)
    → cq.expected_ack_id ≢ received
    → queue_ack received cq ≡ (stopped cq, [])
unfolding queue_ack
queue_ack_mismatch received cq other = ground (arith, ==_iff cq.expected_ack_id received)

timer_fires-stopped :
    (convo : Text) (cq : ConvoQueue) (cm : ConvoManager)
    → timer_fires convo (put_queue convo (stopped cq) cm) ≡ (put_queue convo (stopped cq) cm, [])
unfolding timer_fires fire
timer_fires-stopped convo cq cm =
    ap (λ q. fire q.ack_timer convo (put_queue convo (stopped cq) cm))
      (queue_of_found convo (put_queue convo (stopped cq) cm)
        (lookup-insert_same convo (stopped cq) cm.queues))

-- On a conversation with a message in flight, an ack that is not the expected one releases
-- nothing and leaves the message in flight, and it stops the timer: the timeout of the message
-- then does nothing any more.
pub handle_ack-mismatch :
    (convo : Text) (received : String) (cm : ConvoManager) {cq : ConvoQueue}
    → lookup convo cm.queues ≡ some cq
    → cq.in_flight ≡ true
    → cq.expected_ack_id ≢ received
    → ((handle_ack convo received cm).1 ≡ [])
      × ((queue_of convo (handle_ack convo received cm).0).in_flight ≡ true)
      × (timer_fires convo (handle_ack convo received cm).0
          ≡ ((handle_ack convo received cm).0, []))
unfolding handle_ack
handle_ack-mismatch convo received cm {cq} hit busy other =
    rw (on_queue_found convo (queue_ack received) cm hit, queue_ack_mismatch received cq other)
      (
        refl,
        ap (λ q. q.in_flight)
              (queue_of_found convo (put_queue convo (stopped cq) cm)
                (lookup-insert_same convo (stopped cq) cm.queues))
            ∙ busy,
        timer_fires-stopped convo cq cm,
      )
