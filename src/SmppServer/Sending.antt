-- ===== src/SmppServer/Sending.antt =====
-- sendSMPP of sms_server.go: a message goes to a session as one deliver_sm after the other, each with
-- the next sequence number of the session, and each waits for its response.
use gomsggw.Base.{
  ℕ, suc, List, [], ◌∷◌, ◌++◌, Option, none, some, Text, nat_eq, text_eq, ◌||◌, if◌then◌else◌, Eq_ℕ,
}
use gomsggw.Base.Map.{insert, delete}
use gomsggw.Coding.{best_safe_coding, split_sms, gsm7bit_coding}
use gomsggw.Gsm7.{Gsm7Maps, encode_unpacked_gsm7}
use gomsggw.Message.{MsgQueueItem}

pub data SendError : Type 0 where
  no_session no_number gsm7_error encoding_error send_error timeout out_of_fuel : SendError
  refused : ℕ → SendError

pub record DeliverSm : Type 0 where
  pub source : Text
  pub dest : Text
  pub data_coding : ℕ
  pub message : List ℕ
  pub sequence : ℕ

-- What happens to a deliver_sm: the send fails, the response comes with its status, or five seconds
-- pass.
pub data Ack : Type 0 where
  send_failed no_answer : Ack
  acked : ℕ → Ack

pub record SendEnv : Type 0 where
  pub maps : Gsm7Maps
  -- the encoder of the other alphabets
  pub encode : ℕ → Text → Option (List ℕ)
  -- NextSequence at the call of the number
  pub next_sequence : ℕ → ℕ
  pub ack : DeliverSm → Ack

pub record Sending : Type 0 where
  pub sent : List DeliverSm
  -- the sequence numbers that wait for a response
  pub pending_acks : List (ℕ × Unit {0})
  pub error : Option SendError

-- The bytes of a segment, or the error.
unfoldable pub encode_segment : SendEnv → ℕ → Text → Option (List ℕ)
encode_segment env coding segment =
    if nat_eq coding gsm7bit_coding
    then encode_unpacked_gsm7 env.maps segment
    else env.encode coding segment

coding_error : ℕ → SendError
coding_error coding = if nat_eq coding gsm7bit_coding then gsm7_error else encoding_error

-- Send, response and timeout all take the number out of the pending ones: sendSMPP by
-- removePendingAck, or handlePDU when the response comes.
unfoldable pub after_ack : (Sending → Sending) → DeliverSm → Ack → Sending → Sending
after_ack more sm send_failed st = record st {
  pending_acks = delete sm.sequence st.pending_acks;
  error = some send_error;
}
after_ack more sm no_answer st = record st {
  sent = st.sent ++ sm ∷ [];
  pending_acks = delete sm.sequence st.pending_acks;
  error = some timeout;
}
after_ack more sm (acked status) st =
    let answered = record st {
      sent = st.sent ++ sm ∷ [];
      pending_acks = delete sm.sequence st.pending_acks;
    } in
    if nat_eq status 0 then more answered else record answered { error = some (refused status) }

unfoldable pub send_encoded :
    SendEnv → (Sending → Sending) → MsgQueueItem → ℕ → ℕ → Option (List ℕ) → Sending → Sending
unfolding after_ack coding_error
send_encoded env more msg coding n none st = record st { error = some (coding_error coding) }
send_encoded env more msg coding n (some bytes) st =
    let sm : DeliverSm = record {
      source = msg.from;
      dest = msg.to;
      data_coding = coding;
      message = bytes;
      sequence = env.next_sequence n;
    } in
    after_ack more sm (env.ack sm)
      (record st { pending_acks = insert sm.sequence tt st.pending_acks })

-- The loop over the segments; the number counts the calls of NextSequence.
unfoldable pub send_segments : SendEnv → MsgQueueItem → ℕ → ℕ → List Text → Sending → Sending
unfolding send_encoded
send_segments env msg coding n [] st = st
send_segments env msg coding n (segment ∷ segments) st =
    send_encoded env (send_segments env msg coding (suc n) segments) msg coding n
      (encode_segment env coding segment) st

unfoldable pub send_split : SendEnv → MsgQueueItem → Option (List Text) → Sending → Sending
unfolding send_segments
send_split env msg none st = record st { error = some out_of_fuel }
send_split env msg (some segments) st =
    send_segments env msg (best_safe_coding msg.message) 0 segments st

unfoldable pub send_on : SendEnv → MsgQueueItem → Sending → Sending
unfolding send_split
send_on env msg st =
    if text_eq msg.from [] || text_eq msg.to []
    then record st { error = some no_number }
    else send_split env msg (split_sms msg.message (best_safe_coding msg.message)) st

-- The session may be nil; the pending numbers are those of all sessions.
unfoldable pub send_smpp : SendEnv → MsgQueueItem → Option ℕ → List (ℕ × Unit {0}) → Sending
unfolding send_on
send_smpp env msg none pending = record {
  sent = [];
  pending_acks = pending;
  error = some no_session;
}
send_smpp env msg (some session) pending =
    send_on env msg (record { sent = []; pending_acks = pending; error = none })
