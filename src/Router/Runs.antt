-- ===== src/Router/Runs.antt =====
-- The properties of a run of `processMessage` of router.go: its records, its conversation, and
-- what a message over its limit leaves alone.
use gomsggw.Base.{
  suc, ◌+◌, ◌*◌, ◌≤◌, ◌++◌, Bool, Option, none, some, String, Text, Eq_String, length, ◌≡◌, refl,
  ◌∙◌, ap, inl, inr, Bool-cases, Option-cases,
}
use gomsggw.Client.{Client}
use gomsggw.Convo.{handle_failure, set_expected_ack, compute_correlation_key}
use gomsggw.Limits.Check.{check_message_limits}
use gomsggw.Message.{MsgQueueItem}
use gomsggw.Numbers.{find_client_by_number}
use gomsggw.Router.Accounting.{count_done}
use gomsggw.Router.Carriers.{ack_timeout}
use gomsggw.Router.Hook.{auto_reply_hook}
use gomsggw.Router.Outcomes.{
  Routed, sent, replied, route_message-Routed, deliver_client, release_failed-Accounted,
  Routed-Accounted,
}
use gomsggw.Router.Process.{is_blocked, route_message, release_failed, formatted, process_message}
use gomsggw.Router.Replies.{auto_reply_hook-Replies}
use gomsggw.Router.Sends.{AcceptedBy, refused, accepted}
use gomsggw.Router.{Origin, client, carrier, RouterEnv, RouterState}

-- The conversation of a message, on the formatted numbers.
abbrev pub convo_of : MsgQueueItem → Text
convo_of m = compute_correlation_key (formatted m).from (formatted m).to

-- In every run of `processMessage`, from every state, the records that are written are at most
-- twice as many as the attempts that succeeded: a message that nobody accepted is not recorded.
pub process_message-Accounted :
    (env : RouterEnv) (origin : Origin) (m : MsgQueueItem) (st : RouterState)
    → length (process_message env origin m st).records + 2 * count_done st.sends
      ≤ length st.records + 2 * count_done (process_message env origin m st).sends
unfolding process_message
process_message-Accounted env origin m st =
    let f = formatted m in
    let to_client = find_client_by_number f.to env.visit_to in
    let from_client = find_client_by_number f.from env.visit_from in
    release_failed-Accounted origin (convo_of m) st
      (route_message env origin f to_client from_client st)
      (Routed-Accounted env f to_client st _
        (route_message-Routed env origin f to_client from_client st))

-- What the run does to a client's message before the deferred call.
abbrev pub routed_client : RouterEnv → MsgQueueItem → RouterState → RouterState × Bool
routed_client env m st =
    let f = formatted m in
    route_message env client f (find_client_by_number f.to env.visit_to)
      (find_client_by_number f.from env.visit_from) st

-- How a client's message leaves its conversation.
pub data ConvoOutcome (env : RouterEnv) (m : MsgQueueItem) (st st' : RouterState) : Type 0 where
  released_next :
      st'.convos ≡ (handle_failure (convo_of m) st.convos).0
      → st'.client_msg_chan
        ≡ (routed_client env m st).0.client_msg_chan ++ (handle_failure (convo_of m) st.convos).1
      → ConvoOutcome env m st st'
  waits_for_ack :
      (ack : String)
      → AcceptedBy env (formatted m) ack
      → st'.convos ≡ set_expected_ack (convo_of m) ack ack_timeout st.convos
      → st'.client_msg_chan ≡ st.client_msg_chan
      → suc (count_done st.sends) ≡ count_done st'.sends
      → ConvoOutcome env m st st'
  left_to_reply :
      auto_reply_hook env (formatted m) (find_client_by_number (formatted m).to env.visit_to) st
        ≡ some st'
      → st'.convos ≡ st.convos
      → ConvoOutcome env m st st'

Routed-ConvoOutcome :
    (env : RouterEnv) (m : MsgQueueItem) (st : RouterState) (r : RouterState × Bool)
    → Routed env (formatted m) (find_client_by_number (formatted m).to env.visit_to) st r
    → routed_client env m st ≡ r
    → ConvoOutcome env m st (release_failed client (convo_of m) r)
unfolding release_failed
Routed-ConvoOutcome env m st r (sent _ (refused st' law)) same =
    released_next (ap (λ cm. (handle_failure (convo_of m) cm).0) law.same_convos)
      (rw (same, law.same_convos))
Routed-ConvoOutcome env m st r (sent _ (accepted st' ack by c l law channels n)) same =
    waits_for_ack ack by c channels.same_client_msg_chan n
Routed-ConvoOutcome env m st r (replied st' taken) same =
    left_to_reply taken (auto_reply_hook-Replies env _ _ st taken).same_convos

-- A run of `processMessage` on a client's message ends in one of three ways for its conversation.
-- It is released as by `HandleFailure`, and what that releases is put last on `ClientMsgChan`; or the
-- carrier of the sender's number accepted the message, one more attempt succeeded, nothing is put on
-- `ClientMsgChan`, and the conversation waits for the ack that this carrier answered with, as by
-- `SetExpectedAck` with the timeout of ten seconds; or the auto-reply of the receiving client took
-- the message over, and the conversations are as before.
pub process_message-ConvoOutcome :
    (env : RouterEnv) (m : MsgQueueItem) (st : RouterState)
    → ConvoOutcome env m st (process_message env client m st)
unfolding process_message
process_message-ConvoOutcome env m st =
    let f = formatted m in
    Routed-ConvoOutcome env m st _
      (route_message-Routed env client f (find_client_by_number f.to env.visit_to)
        (find_client_by_number f.from env.visit_from) st)
      refl

route_message_carrier-convos :
    (env : RouterEnv) (m : MsgQueueItem) (to_client from_client : Option Client) (st : RouterState)
    → (route_message env carrier m to_client from_client st).0.convos ≡ st.convos
unfolding route_message
route_message_carrier-convos env m none from_client st = refl
route_message_carrier-convos env m (some c) from_client st =
    elim (Bool-cases
      (is_blocked (check_message_limits env.limits from_client m.from m.type "outbound"))) [
        | inl blocked ↦ rw blocked
        | inr free ↦ elim (Option-cases (auto_reply_hook env m (some c) st)) [
          | inl clear ↦
              rw (free, clear) (deliver_client env carrier m from_client st c).0.same_convos
          | inr (st', taken) ↦
              rw (free, taken) (auto_reply_hook-Replies env m (some c) st taken).same_convos
        ]
      ]

release_failed_carrier :
    (convo : Text) (r : RouterState × Bool) → release_failed carrier convo r ≡ r.0
unfolding release_failed
release_failed_carrier convo (st, ok) = refl

-- A run of `processMessage` on a carrier's message leaves every conversation, every expected ack
-- and every ack timer as they were.
pub process_message_carrier-convos :
    (env : RouterEnv) (m : MsgQueueItem) (st : RouterState)
    → (process_message env carrier m st).convos ≡ st.convos
unfolding process_message
process_message_carrier-convos env m st =
    let f = formatted m in
    let to_client = find_client_by_number f.to env.visit_to in
    let from_client = find_client_by_number f.from env.visit_from in
    ap (λ s. s.convos)
      (release_failed_carrier (convo_of m) (route_message env carrier f to_client from_client st))
    ∙ route_message_carrier-convos env f to_client from_client st

-- What a message that is not sent leaves alone.
pub record Unsent (st st' : RouterState) : Type 0 where
  pub same_sends : st'.sends ≡ st.sends
  pub same_records : st'.records ≡ st.records
  pub same_carrier_msg_chan : st'.carrier_msg_chan ≡ st.carrier_msg_chan
  pub same_last_sent : st'.last_sent ≡ st.last_sent
