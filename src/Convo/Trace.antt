-- ===== src/Convo/Trace.antt =====
-- Any sequence of calls of convo.go, for one conversation at a time.
use mathlib.Core.List.{append_assoc}
use gomsggw.Base.{
  ℕ, ◌+◌, ◌≤◌, false, List, [], ◌∷◌, ◌++◌, Text, length, length-append, ◌≡◌, refl, sym, ap, ◌∙◌,
  arith,
}
use gomsggw.Message.{MsgQueueItem}
use gomsggw.Convo.{ConvoQueue, ConvoManager, new_convo_manager, empty_queue, queue_of}
use gomsggw.Base.Map.{lookup}
use gomsggw.Convo.Calls.{Call, perform, adds, ends, sends, perform-QueueStep}
use gomsggw.Convo.Order.{QueueStep, QueueStep-refl, busy}

-- A sequence of calls: the manager after them, and for one conversation the messages that they
-- add, the messages that they send, and how many of them may end a delivery.
unfoldable pub perform_all : List Call → ConvoManager → ConvoManager
perform_all [] cm = cm
perform_all (call ∷ calls) cm = perform_all calls (perform call cm).0

unfoldable pub added : Text → List Call → List MsgQueueItem
added c [] = []
added c (call ∷ calls) = adds c call ++ added c calls

unfoldable pub released : Text → List Call → ConvoManager → List MsgQueueItem
released c [] cm = []
released c (call ∷ calls) cm = sends c call cm ++ released c calls (perform call cm).0

unfoldable pub endings : Text → List Call → ConvoManager → ℕ
endings c [] cm = 0
endings c (call ∷ calls) cm = ends c call cm + endings c calls (perform call cm).0

QueueStep-trans :
    (xs ys out out' : List MsgQueueItem) (m n : ℕ) {a b c : ConvoQueue}
    → QueueStep xs m a b out
    → QueueStep ys n b c out'
    → QueueStep (xs ++ ys) (m + n) a c (out ++ out')
QueueStep-trans xs ys out out' m n {a} {b} {c} p q = record {
  in_order =
      append_assoc out out' c.queue
      ∙ ap (λ t. out ++ t) q.in_order
      ∙ sym (append_assoc out b.queue ys)
      ∙ ap (λ t. t ++ ys) p.in_order
      ∙ append_assoc a.queue xs ys;
  one_at_a_time = rw length-append (omega (arith, p.one_at_a_time, q.one_at_a_time));
  none_stranded = λ h. q.none_stranded (p.none_stranded h);
}

trace-QueueStep :
    (calls : List Call) (c : Text) (cm : ConvoManager)
    → QueueStep
        (added c calls)
        (endings c calls cm)
        (queue_of c cm)
        (queue_of c (perform_all calls cm))
        (released c calls cm)
unfolding added endings perform_all released
trace-QueueStep [] c cm = QueueStep-refl 0 _
trace-QueueStep (call ∷ calls) c cm =
    QueueStep-trans _ _ _ _ _ _ (perform-QueueStep call c cm)
      (trace-QueueStep calls c (perform call cm).0)

busy-le-one : (cq : ConvoQueue) → busy cq ≤ 1
busy-le-one cq = ground arith

queue_of-new : (c : Text) → queue_of c new_convo_manager ≡ empty_queue
unfolding queue_of new_convo_manager lookup
queue_of-new c = refl

-- For every sequence of calls on a new manager and every conversation: the messages sent to
-- `ClientMsgChan` for it, followed by those that still wait, are the messages added to it, in the
-- order in which they were added.
pub released-in_order :
    (calls : List Call) (c : Text)
    → released c calls new_convo_manager ++ (queue_of c (perform_all calls new_convo_manager)).queue
      ≡ added c calls
released-in_order calls c =
    rw (queue_of-new c) at (trace-QueueStep calls c new_convo_manager).in_order

-- For every sequence of calls on a new manager and every conversation: the number of messages sent
-- exceeds the number of acks, failures and timeouts for that conversation by at most one.
pub released_one_at_a_time :
    (calls : List Call) (c : Text)
    → length (released c calls new_convo_manager) ≤ endings c calls new_convo_manager + 1
released_one_at_a_time calls c =
    let start = ap busy (queue_of-new c) in
    let law = (trace-QueueStep calls c new_convo_manager).one_at_a_time in
    omega (arith, start, law, busy-le-one (queue_of c (perform_all calls new_convo_manager)))

-- After every sequence of calls on a new manager, a conversation with nothing in flight has no
-- message waiting.
pub idle-queue_empty :
    (calls : List Call) (c : Text)
    → (queue_of c (perform_all calls new_convo_manager)).in_flight ≡ false
    → (queue_of c (perform_all calls new_convo_manager)).queue ≡ []
idle-queue_empty calls c =
    (trace-QueueStep calls c new_convo_manager).none_stranded (λ _. rw (queue_of-new c))
