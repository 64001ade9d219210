-- ===== src/Examples/WebSends.antt =====
-- Examples for the send routes of web_server.go.
use gomsggw.Base.{[], ◌∷◌, none, some, String, codes, ◌≡◌, refl, text_eq, Eq_Text, Eq_String}
use gomsggw.Base.Strings.{trim_plus}
use gomsggw.Examples.{alice, bob, client_of, limit_env}
use gomsggw.Limits.Check.{check_message_limits}
use gomsggw.WebSend.{
  WebMediaItem, WebMessageRequest, ParsedMessage, SendBody, queued, to_transcoder, MediaMessage,
  WebSendEnv,
}
use gomsggw.WebSend.Media.{prepare, prepare_step, load_media}
use gomsggw.WebSend.Owned.{Allowed, send_message-Allowed}
use gomsggw.WebSend.Route.{
  parsed, parse_body, parse_generic, format_for, send_message, send_parsed, send_from, send_checked,
  send_prepared, push_of, resolve_from, owned_from, or_required, or_foreign,
}
use gomsggw.WebSend.Texts.{NoText, send_message-text}

web_env : WebSendEnv
web_env = record {
  client = record (client_of 1 alice 0) { settings = none; type = "web" };
  api_key = none;
  fetch = λ url. none;
  decode_base64 = λ t. some t;
  encode_base64 = λ t. t;
  uuid = "id";
  client_ip = "10.0.0.7";
  now = 5;
}

photo : WebMediaItem
photo = record { filename = "a.jpg"; content = codes "aGk="; content_type = "image/jpeg"; url = "" }

request : String → WebMessageRequest
unfolding photo
request text = record {
  client_id = 0;
  from = codes "+12505550100";
  to = codes bob;
  text = codes text;
  media = photo ∷ [];
}

body_of : String → SendBody
unfolding request
body_of text = record { bicom = none; telnyx = none; generic = some (request text) }

message_of_body : String → ParsedMessage
unfolding photo
message_of_body text = record {
  from = codes "+12505550100";
  to = codes bob;
  text = codes text;
  media = photo ∷ [];
}

for_transcoder : MediaMessage
for_transcoder = record {
  from = codes alice;
  to = codes bob;
  content = [];
  headers = [];
  message_id = "id";
  files =
      record {
        filename = "a.jpg";
        content_type = "image/jpeg";
        content = codes "aGk=";
        base64_data = [];
        media_url = "";
      }
      ∷ [];
  transaction_id = "id";
  client = alice;
}

parsed_body :
    (text : String) → parse_body web_env.client (body_of text) ≡ parsed (message_of_body text)
unfolding parse_body parse_generic format_for web_env body_of request message_of_body
parsed_body text = refl

handed_over :
    send_message limit_env web_env (body_of "look") ≡ queued 202 (to_transcoder for_transcoder)
unfolding send_message send_parsed send_from send_checked send_prepared push_of resolve_from
    owned_from or_required or_foreign parse_body parse_generic format_for web_env body_of request
    photo for_transcoder prepare prepare_step load_media check_message_limits trim_plus text_eq
handed_over = refl

send_message-Allowed_example :
    Allowed limit_env web_env (message_of_body "look") (to_transcoder for_transcoder)
send_message-Allowed_example =
    send_message-Allowed limit_env web_env (body_of "look") (message_of_body "look") 202
      (to_transcoder for_transcoder) (parsed_body "look") handed_over

send_message-text_example :
    (send_message limit_env web_env (body_of "look at this")
      ≡ queued 202 (to_transcoder for_transcoder))
    × NoText for_transcoder
unfolding message_of_body
send_message-text_example =
    send_message-text limit_env web_env (body_of "look") (body_of "look at this")
      (message_of_body "look") (codes "look at this") 202 for_transcoder (parsed_body "look")
      (parsed_body "look at this") handed_over
