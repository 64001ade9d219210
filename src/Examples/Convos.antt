-- ===== src/Examples/Convos.antt =====
-- Examples for convo.go and msg_queue.go.
use gomsggw.Base.{
  ◌+◌, ◌≤◌, true, false, List, [], ◌∷◌, ◌++◌, none, some, Text, codes, length, All, text_eq,
  Eq_Text, Eq_String, ==_iff, arith, ◌≡◌, ◌≢◌, refl,
}
use gomsggw.Base.Map.{lookup, insert, delete}
use gomsggw.Convo.{
  ConvoManager, ConvoQueue, queue_expect, queue_fail, new_convo_manager, queue_of, add_message,
  queue_add, release_next, set_expected_ack, handle_ack, handle_failure, handle_carrier_ack,
  timer_fires, queue_ack, queue_done, on_queue,
}
use gomsggw.Convo.Acks.{handle_ack-mismatch}
use gomsggw.Convo.Calls.{Call, add, expect, carrier_ack, fail, perform, sends, subject}
use gomsggw.Convo.Trace.{
  perform_all, added, released, endings, released-in_order, released_one_at_a_time,
  idle-queue_empty,
}
use gomsggw.Examples.{sms, alice, bob}
use gomsggw.Message.{MsgQueueItem, black_hole, max_retries, current_delivery}
use gomsggw.Message.Retries.{attempts, life, SamePayload, life-bounded}

abbrev hello : MsgQueueItem
hello = sms alice bob "hello"

abbrev again : MsgQueueItem
again = sms alice bob "again"

abbrev convo : Text
convo = codes "a_b"

-- Two messages, and the ack of the first.
abbrev calls : List Call
calls = add convo hello ∷ add convo again ∷ expect convo "id1" 10 ∷ carrier_ack "id1" ∷ []

-- One message, which fails.
abbrev failing : List Call
failing = add convo hello ∷ fail convo ∷ []

-- The queue with one message in flight, which waits for an ack, and one waiting message.
abbrev flying : ConvoQueue
flying = record { queue = again ∷ []; in_flight = true; expected_ack_id = "id1"; ack_timer = none }

abbrev manager : ConvoManager
manager = record { queues = (convo, flying) ∷ []; ack_map = ("id1", convo) ∷ [] }

manager-lookup : lookup convo manager.queues ≡ some flying
unfolding lookup text_eq
manager-lookup = refl

both_released : released convo calls new_convo_manager ≡ hello ∷ again ∷ []
unfolding released sends subject set_expected_ack queue_expect handle_carrier_ack handle_ack
    queue_ack lookup insert delete text_eq perform perform_all new_convo_manager queue_of
    add_message queue_add release_next on_queue handle_failure queue_fail queue_done
both_released = refl

released-in_order_example :
    released convo calls new_convo_manager
      ++ (queue_of convo (perform_all calls new_convo_manager)).queue
    ≡ added convo calls
released-in_order_example = released-in_order calls convo

released_one_at_a_time_example :
    length (released convo calls new_convo_manager) ≤ endings convo calls new_convo_manager + 1
released_one_at_a_time_example = released_one_at_a_time calls convo

failing_idle : (queue_of convo (perform_all failing new_convo_manager)).in_flight ≡ false
unfolding lookup insert delete text_eq perform perform_all new_convo_manager queue_of add_message
    queue_add release_next on_queue handle_failure queue_fail queue_done
failing_idle = refl

idle-queue_empty_example : (queue_of convo (perform_all failing new_convo_manager)).queue ≡ []
idle-queue_empty_example = idle-queue_empty failing convo failing_idle

other_id : flying.expected_ack_id ≢ "late"
other_id h = true_false ((==_iff flying.expected_ack_id "late").1 h)
  where
    true_false : false ≡ true → ⊥
    true_false e = ground (arith, e)

handle_ack-mismatch_example :
    ((handle_ack convo "late" manager).1 ≡ [])
    × ((queue_of convo (handle_ack convo "late" manager).0).in_flight ≡ true)
    × (timer_fires convo (handle_ack convo "late" manager).0
        ≡ ((handle_ack convo "late" manager).0, []))
handle_ack-mismatch_example = handle_ack-mismatch convo "late" manager manager-lookup refl other_id

hello-attempts : attempts hello + 3 ≡ max_retries
unfolding attempts current_delivery
hello-attempts = refl

life-bounded_example :
    (length (life 4 100 "timeout" hello).0 ≡ 3)
    × ((life 4 100 "timeout" hello).1 ≡ some true)
    × All (λ q. SamePayload q hello) (life 4 100 "timeout" hello).0
life-bounded_example = life-bounded 3 100 "timeout" hello hello-attempts

abbrev swallowed : MsgQueueItem
swallowed = record hello {
  delivery = some (record { error = "once"; retry_time = 0; retry_count = black_hole });
}

swallowed-attempts : attempts swallowed ≡ black_hole
unfolding attempts current_delivery
swallowed-attempts = refl
