-- ===== src/Examples/SmppSessions.antt =====
-- Examples for the SMPP server of sms_server.go.
use gomsggw.Base.{
  true, List, [], ◌∷◌, ◌++◌, none, some, String, codes, ◌≡◌, refl, arith, text_eq, Eq_ℕ, Eq_String,
}
use gomsggw.Base.Map.{lookup, insert, delete}
use gomsggw.Coding.{
  best_safe_coding, gsm7bit_coding, validate_gsm7, all_in, is_in, split_sms, splitter_len, bits,
  seven_bit_splitter, pick_splitter,
}
use gomsggw.Convo.{new_convo_manager}
use gomsggw.Examples.{alice, bob, client_of, sms}
use gomsggw.Examples.Gsm7Texts.{table-Visits, ext_table-Visits}
use gomsggw.Gsm7.{build_map, init_maps, encode_rune, encode_unpacked_gsm7}
use gomsggw.Gsm7.Tables.{gsm7_reverse_map, gsm7_ext_reverse_map}
use gomsggw.SmppServer.{
  SmppState, SmppEnv, submit_resp, respond, close, close_old, enter, bind_as, handle_bind,
  is_web_user, auth_client,
}
use gomsggw.SmppServer.Accepted.{
  IgnoresStop, handle_submit_sm-Authenticated, handle_submit_sm-Answered,
}
use gomsggw.SmppServer.Bound.{Event, submits, after_events, Authenticated, here, later}
use gomsggw.SmppServer.Delivered.{received, send_smpp-received}
use gomsggw.SmppServer.Sending.{
  SendEnv, acked, send_smpp, send_on, send_split, send_segments, send_encoded, encode_segment,
  after_ack,
}
use gomsggw.SmppServer.Submit.{SubmitSm, handle_submit_sm}

smpp_env : SmppEnv
smpp_env = record {
  clients = (alice, record (client_of 1 alice 0) { password = "secret" }) ∷ [];
  sends = λ session. true;
  decode = λ coding bytes. bytes;
  visit = client_of 1 alice 0 ∷ [];
  now = 5;
  log_id = "log";
}

idle_server : SmppState
idle_server = record {
  conns = [];
  closed = [];
  answers = [];
  convos = new_convo_manager;
  client_msg_chan = [];
}

hello : SubmitSm
hello = record { source = codes alice; dest = codes bob; data_coding = 8; message = codes "hello" }

-- A bind with the password enters the session.
bound : (handle_bind smpp_env alice "secret" 7 idle_server).conns ≡ (alice, 7) ∷ []
unfolding handle_bind smpp_env idle_server auth_client is_web_user bind_as respond enter close_old
    close insert delete lookup
bound = refl

-- Session 1 sends a message, and did not bind before.
earlier : List (SmppEnv × Event)
earlier = (smpp_env, submits 1 hello) ∷ []

none_before :
    {es : List (SmppEnv × Event)} (username : String) → Authenticated username 1 es → es ≡ [] → ⊥
none_before username (here password q a w) e = absurd (ground (arith, e))
none_before username (later a) e = absurd (ground (arith, e))

unbound_in :
    {es : List (SmppEnv × Event)} (username : String)
    → Authenticated username 1 es
    → es ≡ earlier
    → ⊥
unfolding earlier
unbound_in username (here password q a w) e = absurd (ground (arith, q, e))
unbound_in username (later a) e = none_before username a (cc e)

handle_submit_sm-Authenticated_example :
    ((handle_submit_sm smpp_env 1 hello (after_events earlier idle_server)).convos
      ≡ (after_events earlier idle_server).convos)
    × ((handle_submit_sm smpp_env 1 hello (after_events earlier idle_server)).client_msg_chan
        ≡ (after_events earlier idle_server).client_msg_chan)
unfolding idle_server
handle_submit_sm-Authenticated_example =
    handle_submit_sm-Authenticated smpp_env earlier idle_server 1 hello refl
      (λ username a. unbound_in username a refl)

handle_submit_sm-Answered_example :
    (IgnoresStop smpp_env 1 hello idle_server
      → handle_submit_sm smpp_env 1 hello idle_server ≡ idle_server)
    × (¬ IgnoresStop smpp_env 1 hello idle_server
        → (handle_submit_sm smpp_env 1 hello idle_server).answers
          ≡ idle_server.answers ++ (1, submit_resp) ∷ [])
handle_submit_sm-Answered_example = handle_submit_sm-Answered smpp_env 1 hello idle_server

send_env : SendEnv
send_env = record {
  maps = init_maps gsm7_reverse_map gsm7_ext_reverse_map;
  encode = λ coding text. none;
  next_sequence = λ n. n;
  ack = λ sm. acked 0;
}

plain : best_safe_coding (sms alice bob "hi [x]").message ≡ gsm7bit_coding
unfolding best_safe_coding validate_gsm7 all_in is_in
plain = refl

sent_without_error : (send_smpp send_env (sms alice bob "hi [x]") (some 7) []).error ≡ none
unfolding send_smpp send_on send_split send_segments send_encoded encode_segment after_ack send_env
    encode_unpacked_gsm7 init_maps gsm7_reverse_map gsm7_ext_reverse_map build_map encode_rune
    lookup insert delete text_eq best_safe_coding validate_gsm7 all_in is_in split_sms splitter_len
    bits seven_bit_splitter pick_splitter
sent_without_error = refl

send_smpp-received_example :
    received (send_smpp send_env (sms alice bob "hi [x]") (some 7) []).sent ≡ some (codes "hi [x]")
unfolding send_env
send_smpp-received_example =
    send_smpp-received gsm7_reverse_map gsm7_ext_reverse_map send_env (sms alice bob "hi [x]")
      (some 7) [] table-Visits ext_table-Visits refl plain sent_without_error
