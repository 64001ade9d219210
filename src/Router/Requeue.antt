-- ===== src/Router/Requeue.antt =====
-- What a run of `processMessage` of router.go puts on the two channels.
use gomsggw.Base.{◌++◌, ◌⊎◌, Bool, true, false, Option, ◌≡◌, inl, inr}
use gomsggw.Client.{Client}
use gomsggw.Convo.{handle_failure}
use gomsggw.Message.{MsgQueueItem}
use gomsggw.Numbers.{find_client_by_number}
use gomsggw.Router.Accounting.{Exclusive, count_done}
use gomsggw.Router.Outcomes.{Routed, Routed-Exclusive, Routed-convos, route_message-Routed}
use gomsggw.Router.Process.{release_failed, formatted, process_message}
use gomsggw.Router.Runs.{convo_of}
use gomsggw.Router.{Origin, client, carrier, RouterEnv, RouterState}

-- After a run in which one more attempt succeeded, the carriers' channel is as before, and so is
-- the clients' channel but for the next message of the conversation.
pub record NotQueued (m : MsgQueueItem) (st st' : RouterState) : Type 0 where
  pub same_carrier_msg_chan : st'.carrier_msg_chan ≡ st.carrier_msg_chan
  pub next_only :
      (st'.client_msg_chan ≡ st.client_msg_chan)
      ⊎ (st'.client_msg_chan ≡ st.client_msg_chan ++ (handle_failure (convo_of m) st.convos).1)

quiet-NotQueued :
    (m : MsgQueueItem) (st st' : RouterState)
    → Exclusive st st'
    → (count_done st'.sends ≡ count_done st.sends) ⊎ NotQueued m st st'
quiet-NotQueued m st st' (inl same_count) = inl same_count
quiet-NotQueued m st st' (inr channels) = inr (record {
  same_carrier_msg_chan = channels.same_carrier_msg_chan;
  next_only = inl channels.same_client_msg_chan;
})

release_failed-NotQueued :
    (env : RouterEnv) (origin : Origin) (m : MsgQueueItem) (to_client : Option Client)
    (st : RouterState) (r : RouterState × Bool)
    → Routed env (formatted m) to_client st r
    → (count_done (release_failed origin (convo_of m) r).sends ≡ count_done st.sends)
      ⊎ NotQueued m st (release_failed origin (convo_of m) r)
unfolding release_failed
release_failed-NotQueued env client m to_client st (st', false) routed =
    elim (Routed-Exclusive env _ to_client st (st', false) routed) [
      | inl same_count ↦ inl same_count
      | inr channels ↦ inr (record {
        same_carrier_msg_chan = channels.same_carrier_msg_chan;
        next_only =
            inr (rw (channels.same_client_msg_chan, Routed-convos env _ to_client st st' routed));
      })
    ]
release_failed-NotQueued env client m to_client st (st', true) routed =
    quiet-NotQueued m st st' (Routed-Exclusive env _ to_client st (st', true) routed)
release_failed-NotQueued env carrier m to_client st (st', ok) routed =
    quiet-NotQueued m st st' (Routed-Exclusive env _ to_client st (st', ok) routed)

-- In every run of `processMessage`, either no attempt succeeded, or nothing was queued but what
-- `HandleFailure` releases for the conversation of the message: a message that was handed over is
-- not queued for a retry, and no notice of an error is sent for it.
pub process_message-NotQueued :
    (env : RouterEnv) (origin : Origin) (m : MsgQueueItem) (st : RouterState)
    → (count_done (process_message env origin m st).sends ≡ count_done st.sends)
      ⊎ NotQueued m st (process_message env origin m st)
unfolding process_message
process_message-NotQueued env origin m st =
    let f = formatted m in
    let to_client = find_client_by_number f.to env.visit_to in
    release_failed-NotQueued env origin m to_client st _
      (route_message-Routed env origin f to_client (find_client_by_number f.from env.visit_from) st)
