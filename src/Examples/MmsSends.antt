-- ===== src/Examples/MmsSends.antt =====
-- Examples for the gateway as the client of an MM4 server, in mms_server.go.
use gomsggw.Base.{zero, ◌≡◌, refl, List, [], ◌∷◌, some, Text, codes, All, Eq_ℕ, Eq_String}
use gomsggw.Message.{MsgFile}
use gomsggw.ApiKeys.{trim_left, trim_right, trim_space}
use gomsggw.Base.Strings.{has_prefix, contains}
use gomsggw.MmsServer.Outbound.{Wire, ok}
use gomsggw.MmsServer.Outbound.Content.{ContentEnv, base64_lines}
use gomsggw.MmsServer.Outbound.Delivery.{send_mm4, without_plus}
use gomsggw.MmsServer.Outbound.Lines.{concat, Fits, base64_lines-concat}
use gomsggw.MmsServer.Outbound.Success.{dialogue, Takes, send_mm4_taken}
use gomsggw.Numbers.{get_client, find_owner, client_part}
use gomsggw.Examples.{alice, bob, client_of, sms}

base64_lines-concat_example :
    (concat (base64_lines 4 (codes "aGk=")) ≡ codes "aGk=")
    × All Fits (base64_lines 4 (codes "aGk="))
base64_lines-concat_example = base64_lines-concat (codes "aGk=")

content_env : ContentEnv
content_env = record {
  msg_id_host = codes "host";
  originator_system = [];
  date = codes "Mon, 02 Jan 2006 15:04:05 +0000";
  encode_base64 = λ t. t;
  boundary = codes "===============abc";
  content_id = λ n. codes "id";
}

picture : MsgFile
picture = record {
  filename = "a.jpg";
  content_type = "image/jpeg";
  content = codes "aGk=";
  base64_data = [];
  media_url = "";
}

good_answers : List Text
good_answers =
    codes "220 ready"
    ∷ codes "250 Hello"
    ∷ codes "250 OK"
    ∷ codes "250 OK"
    ∷ codes "354 go on"
    ∷ codes "250 queued"
    ∷ codes "221 Bye"
    ∷ []

good_wire : Wire
good_wire = record { answers = good_answers; sent = []; writable = 6 }

good_answers-Takes : Takes good_answers
unfolding good_answers has_prefix trim_space trim_left trim_right
good_answers-Takes = record {
  greeting = _;
  hello = _;
  sender = _;
  recipient = _;
  start_data = _;
  taken = _;
  bye = _;
  others = [];
  in_order = refl;
  says_220 = refl;
  says_hello = refl;
  says_sender = refl;
  says_recipient = refl;
  says_354 = refl;
  says_taken = refl;
  says_221 = refl;
}

send_mm4_taken_example :
    send_mm4 content_env
      (λ c. some good_wire)
      (client_of 2 bob 0 ∷ [])
      (sms alice bob "")
      (some (picture ∷ []))
    ≡ (ok tt, dialogue content_env (sms alice bob "") (picture ∷ []))
unfolding without_plus get_client find_owner client_part good_wire contains
send_mm4_taken_example =
    send_mm4_taken content_env (λ c. some good_wire) (client_of 2 bob 0 ∷ []) (sms alice bob "")
      picture [] (client_of 2 bob 0) good_answers zero refl refl good_answers-Takes
