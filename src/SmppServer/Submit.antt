-- ===== src/SmppServer/Submit.antt =====
-- handleSubmitSM of sms_server.go.
use gomsggw.Base.{
  ℕ, Bool, false, ◌&&◌, ◌||◌, List, [], ◌++◌, Option, none, some, String, Text, codes, nat_eq,
  text_eq, Eq_String, if◌then◌else◌,
}
use gomsggw.Base.Map.{lookup}
use gomsggw.Client.{Client, ClientNumber}
use gomsggw.Convo.{add_message, compute_correlation_key}
use gomsggw.Gsm7.{decode_unpacked_gsm7}
use gomsggw.Message.{MsgQueueItem, sms_type}
use gomsggw.Numbers.{format_to_e164, get_number}
use gomsggw.SmppServer.{SmppState, SmppEnv, submit_resp, respond, session_user}

pub record SubmitSm : Type 0 where
  pub source : Text
  pub dest : Text
  pub data_coding : ℕ
  pub message : List ℕ

abbrev text_or_empty : Option Text → Text
text_or_empty none = []
text_or_empty (some t) = t

-- the codings with a decoder of their own
unfoldable pub is_other_coding : ℕ → Bool
is_other_coding c =
    nat_eq c 1
    || nat_eq c 8
    || nat_eq c 3
    || nat_eq c 5
    || nat_eq c 6
    || nat_eq c 7
    || nat_eq c 10
    || nat_eq c 13
    || nat_eq c 14

-- An error of the decoder is logged only.
unfoldable pub decoded : SmppEnv → SubmitSm → Text
unfolding is_other_coding
decoded env sm =
    if is_other_coding sm.data_coding
    then env.decode sm.data_coding sm.message
    else text_or_empty (decode_unpacked_gsm7 sm.message)

abbrev pub stop_text : Text
stop_text = codes "Reply STOP to end messages."

ignores_stop : Option ClientNumber → Bool
ignores_stop none = false
ignores_stop (some n) = n.ignore_stop_cmd_sending

unfoldable pub is_dropped : SmppEnv → SubmitSm → Bool
unfolding ignores_stop decoded
is_dropped env sm =
    ignores_stop (get_number sm.source env.visit) && text_eq (decoded env sm) stop_text

unfoldable pub submitted_item : SmppEnv → SubmitSm → MsgQueueItem
unfolding decoded
submitted_item env sm = record {
  to = (format_to_e164 sm.dest).0;
  from = (format_to_e164 sm.source).0;
  received_timestamp = env.now;
  queued_timestamp = 0;
  type = sms_type;
  files = [];
  message = decoded env sm;
  skip_number_check = false;
  log_id = env.log_id;
  source_carrier = "";
  source_ip = "";
  original_size_bytes = 0;
  delivery = none;
}

-- AddMessage, which may release the message to ClientMsgChan at once
unfoldable pub add_to_convo : MsgQueueItem → SmppState → SmppState
add_to_convo item st =
    let added = add_message (compute_correlation_key item.from item.to) item st.convos in
    record st { convos = added.0; client_msg_chan = st.client_msg_chan ++ added.1 }

unfoldable pub submit_known : SmppEnv → ℕ → SubmitSm → SmppState → SmppState
unfolding add_to_convo submitted_item is_dropped decoded respond
submit_known env session sm st =
    if text_eq (decoded env sm) []
    then respond session submit_resp st
    else if is_dropped env sm
    then st
    else respond session submit_resp (add_to_convo (submitted_item env sm) st)

unfoldable pub submit_client : SmppEnv → ℕ → SubmitSm → SmppState → Option Client → SmppState
unfolding submit_known respond
submit_client env session sm st none = respond session submit_resp st
submit_client env session sm st (some client) = submit_known env session sm st

unfoldable pub submit_user : SmppEnv → ℕ → SubmitSm → SmppState → Option String → SmppState
unfolding submit_client respond
submit_user env session sm st none = respond session submit_resp st
submit_user env session sm st (some username) =
    submit_client env session sm st (lookup username env.clients)

unfoldable pub handle_submit_sm : SmppEnv → ℕ → SubmitSm → SmppState → SmppState
unfolding submit_user
handle_submit_sm env session sm st = submit_user env session sm st (session_user session st.conns)
