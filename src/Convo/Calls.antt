-- ===== src/Convo/Calls.antt =====
-- What one call of the manager of convo.go does to any one conversation.
use gomsggw.Base.{
  ℕ, Bool, false, List, [], ◌∷◌, Option, none, some, String, Text, Eq_Text, Eq_String, ◌==◌, ==_iff,
  if◌then◌else◌, ◌≡◌, refl, inl, inr, Option-cases, Bool-cases,
}
use gomsggw.Base.Map.{lookup, insert, delete}
use gomsggw.Message.{MsgQueueItem}
use gomsggw.Convo.{
  ConvoQueue, ConvoManager, queue_of, queue_add, queue_expect, queue_ack, queue_fail, add_message,
  set_expected_ack, handle_ack, handle_failure, handle_carrier_ack, timer_fires,
}
use gomsggw.Convo.Order.{
  QueueStep, QueueStep-refl, queue_add-QueueStep, queue_ack-QueueStep, queue_fail-QueueStep,
  queue_expect-QueueStep, on_queue-QueueStep, queue_of-put, on_queue_missing, on_queue_found,
  queue_of_found,
}

-- A call of the manager, from a client's submission, the router, a carrier or a timer.
pub data Call : Type 0 where
  add : Text → MsgQueueItem → Call
  expect : Text → String → ℕ → Call
  ack : Text → String → Call
  carrier_ack : String → Call
  fail : Text → Call
  timeout : Text → Call

unfoldable pub perform : Call → ConvoManager → ConvoManager × List MsgQueueItem
perform (add convo msg) cm = add_message convo msg cm
perform (expect convo id t) cm = (set_expected_ack convo id t cm, [])
perform (ack convo id) cm = handle_ack convo id cm
perform (carrier_ack id) cm = handle_carrier_ack id cm
perform (fail convo) cm = handle_failure convo cm
perform (timeout convo) cm = timer_fires convo cm

-- The conversation that a call is about; a carrier's ack finds it in the ack map.
unfoldable pub subject : Call → ConvoManager → Option Text
subject (add convo msg) cm = some convo
subject (expect convo id t) cm = some convo
subject (ack convo id) cm = some convo
subject (carrier_ack id) cm = lookup id cm.ack_map
subject (fail convo) cm = some convo
subject (timeout convo) cm = some convo

abbrev pub is_about : Text → Option Text → Bool
is_about c none = false
is_about c (some d) = d == c

-- The messages that a call adds to conversation `c`.
unfoldable pub adds : Text → Call → List MsgQueueItem
adds c (add convo msg) = if convo == c then msg ∷ [] else []
adds c _ = []

-- 1 for a call that may end a delivery of conversation `c`: an ack, a failure or a timeout.
unfoldable pub ends : Text → Call → ConvoManager → ℕ
unfolding subject
ends c (add convo msg) cm = 0
ends c (expect convo id t) cm = 0
ends c call cm = if is_about c (subject call cm) then 1 else 0

-- What a call sends for conversation `c`.
unfoldable pub sends : Text → Call → ConvoManager → List MsgQueueItem
unfolding subject
sends c call cm = if is_about c (subject call cm) then (perform call cm).1 else []

add_message-QueueStep :
    (d c : Text) (msg : MsgQueueItem) (cm : ConvoManager)
    → QueueStep
        (if d == c then msg ∷ [] else [])
        0
        (queue_of c cm)
        (queue_of c (add_message d msg cm).0)
        (if d == c then (add_message d msg cm).1 else [])
unfolding add_message
add_message-QueueStep d c msg cm =
    rw (queue_of-put d c (queue_add msg (queue_of d cm)).0 cm) (elim (Bool-cases (d == c)) [
      | inl same ↦ rw (same, (==_iff d c).0 same) (queue_add-QueueStep msg (queue_of c cm))
      | inr other ↦ rw other (QueueStep-refl 0 _)
    ])

-- a change of the ack map alone
queue_of-ack_map :
    (c : Text) (m : List (String × Text)) (cm : ConvoManager)
    → queue_of c (record cm { ack_map = m }) ≡ queue_of c cm
unfolding queue_of
queue_of-ack_map c m cm = refl

set_expected_ack-QueueStep :
    (d c : Text) (id : String) (t : ℕ) (cm : ConvoManager)
    → QueueStep [] 0 (queue_of c cm) (queue_of c (set_expected_ack d id t cm)) []
unfolding set_expected_ack queue_of
set_expected_ack-QueueStep d c id t cm =
    let mapped = record cm { ack_map = insert id d cm.ack_map } in
    let arm : ConvoQueue → ConvoQueue × List MsgQueueItem = λ cq. (queue_expect id t cq, []) in
    elim (Option-cases (lookup d cm.queues)) [
      | inl miss ↦ rw (on_queue_missing d arm mapped miss, set_expected_ack) (QueueStep-refl 0 _)
      | inr (cq, hit) ↦
          rw
            (
              on_queue_found d arm mapped hit,
              set_expected_ack,
              queue_of-put d c (queue_expect id t cq) mapped,
            )
            (elim (Bool-cases (d == c)) [
              | inl same ↦
                  let found : queue_of c cm ≡ cq =
                    rw (← (==_iff d c).0 same) (queue_of_found d cm hit) in
                  rw (same, found) (queue_expect-QueueStep id t cq)
              | inr other ↦ rw other (QueueStep-refl 0 _)
            ])
    ]

none-QueueStep :
    (c : Text) (o : Option Text) (cm : ConvoManager)
    → QueueStep []
        (if is_about c o then 1 else 0)
        (queue_of c cm)
        (queue_of c cm)
        (if is_about c o then [] else [])
none-QueueStep c none cm = QueueStep-refl 0 _
none-QueueStep c (some d) cm = elim (Bool-cases (d == c)) [
  | inl same ↦ rw same (QueueStep-refl 1 _)
  | inr other ↦ rw other (QueueStep-refl 0 _)
]

handle_carrier_ack-QueueStep :
    (c : Text) (id : String) (cm : ConvoManager)
    → QueueStep []
        (if is_about c (lookup id cm.ack_map) then 1 else 0)
        (queue_of c cm)
        (queue_of c (handle_carrier_ack id cm).0)
        (if is_about c (lookup id cm.ack_map) then (handle_carrier_ack id cm).1 else [])
unfolding handle_ack queue_of handle_carrier_ack
handle_carrier_ack-QueueStep c id cm = elim (Option-cases (lookup id cm.ack_map)) [
  | inl miss ↦ rw (miss, handle_carrier_ack) (QueueStep-refl 0 _)
  | inr (d, hit) ↦
      rw (hit, handle_carrier_ack)
        (on_queue-QueueStep d c 1 (queue_ack id) (record cm { ack_map = delete id cm.ack_map })
          (queue_ack-QueueStep id))
]

timer_fires-QueueStep :
    (d c : Text) (cm : ConvoManager)
    → QueueStep []
        (if d == c then 1 else 0)
        (queue_of c cm)
        (queue_of c (timer_fires d cm).0)
        (if d == c then (timer_fires d cm).1 else [])
unfolding handle_ack timer_fires queue_of
timer_fires-QueueStep d c cm = elim (Option-cases (queue_of d cm).ack_timer) [
  | inl idle ↦ rw (idle, timer_fires) (none-QueueStep c (some d) cm)
  | inr (t, armed) ↦
      rw (armed, timer_fires)
        (on_queue-QueueStep d c 1 (queue_ack t.waits_for) cm (queue_ack-QueueStep t.waits_for))
]

pub perform-QueueStep :
    (call : Call) (c : Text) (cm : ConvoManager)
    → QueueStep
        (adds c call)
        (ends c call cm)
        (queue_of c cm)
        (queue_of c (perform call cm).0)
        (sends c call cm)
unfolding perform adds ends sends handle_ack handle_failure
perform-QueueStep (add d msg) c cm = add_message-QueueStep d c msg cm
perform-QueueStep (expect d id t) c cm = elim (Bool-cases (d == c)) [
  | inl same ↦ rw same (set_expected_ack-QueueStep d c id t cm)
  | inr other ↦ rw other (set_expected_ack-QueueStep d c id t cm)
]
perform-QueueStep (ack d id) c cm =
    on_queue-QueueStep d c 1 (queue_ack id) cm (queue_ack-QueueStep id)
perform-QueueStep (carrier_ack id) c cm = handle_carrier_ack-QueueStep c id cm
perform-QueueStep (fail d) c cm = on_queue-QueueStep d c 1 queue_fail cm queue_fail-QueueStep
perform-QueueStep (timeout d) c cm = timer_fires-QueueStep d c cm
