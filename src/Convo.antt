-- ===== src/Convo.antt =====
-- convo.go: the conversation queues. One message of a conversation is meant to be with the carrier
-- at a time, while the others wait. An operation returns the new manager and what it sends to `ClientMsgChan`.
-- Each method body runs under the queue's lock, so a method is one step; `HandleCarrierAck` and
-- `SetExpectedAck` take the manager's lock first, and are taken as one step too.
pub mod Order
pub mod Calls
pub mod Trace
pub mod Acks
use gomsggw.Base.{
  ℕ, Bool, true, false, ◌&&◌, List, [], ◌∷◌, ◌++◌, map, Option, none, some, String, Text, codes,
  Eq_Text, Eq_String, ◌==◌, if◌then◌else◌, ltb, leb, ◌+◌,
}
use gomsggw.Base.Map.{lookup, insert, delete}
use gomsggw.Message.{MsgQueueItem}

-- A running timer: the ack that its goroutine gives up on, and the timeout in nanoseconds.
pub record AckTimer : Type 0 where
  pub waits_for : String
  pub timeout : ℕ

pub record ConvoQueue : Type 0 where
  pub queue : List MsgQueueItem
  pub in_flight : Bool
  pub expected_ack_id : String
  pub ack_timer : Option AckTimer

pub record ConvoManager : Type 0 where
  pub queues : List (Text × ConvoQueue)
  pub ack_map : List (String × Text)

unfoldable pub new_convo_manager : ConvoManager
new_convo_manager = record { queues = []; ack_map = [] }

abbrev pub empty_queue : ConvoQueue
empty_queue = record { queue = []; in_flight = false; expected_ack_id = ""; ack_timer = none }

-- The queue of a conversation; a conversation with no entry has the queue that is made for it.
unfoldable pub queue_of : Text → ConvoManager → ConvoQueue
queue_of convo cm = elim (lookup convo cm.queues) [ none ↦ empty_queue | some cq ↦ cq ]

abbrev pub put_queue : Text → ConvoQueue → ConvoManager → ConvoManager
put_queue convo cq cm = record cm { queues = insert convo cq cm.queues }

-- Takes the head of the queue, if there is one, and marks it in flight.
unfoldable pub release_next : ConvoQueue → List MsgQueueItem → ConvoQueue × List MsgQueueItem
release_next cq [] = (cq, [])
release_next cq (next ∷ rest) = (record cq { queue = rest; in_flight = true }, next ∷ [])

unfoldable pub queue_add : MsgQueueItem → ConvoQueue → ConvoQueue × List MsgQueueItem
unfolding release_next
queue_add msg cq =
    let longer = cq.queue ++ (msg ∷ []) in
    if cq.in_flight
    then (record cq { queue = longer }, [])
    else release_next (record cq { queue = longer }) longer

unfoldable pub queue_expect : String → ℕ → ConvoQueue → ConvoQueue
queue_expect ack timeout cq = record cq {
  expected_ack_id = ack;
  ack_timer = some (record { waits_for = ack; timeout = timeout });
}

-- Clears the in-flight state and releases the next message.
unfoldable pub queue_done : ConvoQueue → ConvoQueue × List MsgQueueItem
unfolding release_next
queue_done cq = release_next (record cq { in_flight = false; expected_ack_id = "" }) cq.queue

unfoldable pub queue_ack : String → ConvoQueue → ConvoQueue × List MsgQueueItem
unfolding queue_done
queue_ack received cq =
    let stopped = record cq { ack_timer = none } in
    if stopped.in_flight && stopped.expected_ack_id == received
    then queue_done stopped
    else (stopped, [])

unfoldable pub queue_fail : ConvoQueue → ConvoQueue × List MsgQueueItem
unfolding queue_done
queue_fail cq = if cq.in_flight then queue_done cq else (cq, [])

-- Runs a method body on the queue of a conversation that exists.
unfoldable pub on_queue :
    Text
    → (ConvoQueue → ConvoQueue × List MsgQueueItem)
    → ConvoManager
    → ConvoManager × List MsgQueueItem
on_queue convo f cm = elim (lookup convo cm.queues) [
  | none ↦ (cm, [])
  | some cq ↦ let (cq', out) = f cq in (put_queue convo cq' cm, out)
]

unfoldable pub add_message : Text → MsgQueueItem → ConvoManager → ConvoManager × List MsgQueueItem
unfolding queue_of
add_message convo msg cm =
    let (cq, out) = queue_add msg (queue_of convo cm) in (put_queue convo cq cm, out)

unfoldable pub set_expected_ack : Text → String → ℕ → ConvoManager → ConvoManager
set_expected_ack convo ack timeout cm =
    (on_queue convo (λ cq. (queue_expect ack timeout cq, []))
      (record cm { ack_map = insert ack convo cm.ack_map })).0

unfoldable pub handle_ack : Text → String → ConvoManager → ConvoManager × List MsgQueueItem
handle_ack convo received = on_queue convo (queue_ack received)

unfoldable pub handle_failure : Text → ConvoManager → ConvoManager × List MsgQueueItem
handle_failure convo = on_queue convo queue_fail

unfoldable pub handle_carrier_ack : String → ConvoManager → ConvoManager × List MsgQueueItem
handle_carrier_ack ack cm = elim (lookup ack cm.ack_map) [
  | none ↦ (cm, [])
  | some convo ↦ handle_ack convo ack (record cm { ack_map = delete ack cm.ack_map })
]

-- The goroutine of `SetExpectedAck`: the timer of a conversation runs out.
pub fire : Option AckTimer → Text → ConvoManager → ConvoManager × List MsgQueueItem
fire none convo cm = (cm, [])
fire (some t) convo cm = handle_ack convo t.waits_for cm

unfoldable pub timer_fires : Text → ConvoManager → ConvoManager × List MsgQueueItem
unfolding fire queue_of
timer_fires convo cm = fire (queue_of convo cm).ack_timer convo cm

-- `strings.ToLower` on ASCII, which is all that a formatted number holds.
unfoldable pub to_lower : ℕ → ℕ
to_lower c = if leb b'A' c && leb c b'Z' then c + 32 else c

unfoldable pub compute_correlation_key : Text → Text → Text
unfolding to_lower
compute_correlation_key from to = map to_lower from ++ (b'_' ∷ map to_lower to)
