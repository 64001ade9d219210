-- ===== src/Examples/Hooks.antt =====
-- Examples for the webhooks of the carriers.
use gomsggw.Base.{[], ◌∷◌, some, codes, ◌≡◌, refl, length, text_eq, Eq_String}
use gomsggw.ApiKeys.{trim_space}
use gomsggw.Coding.{utf8_len}
use gomsggw.Convo.{new_convo_manager}
use gomsggw.Examples.{alice, bob}
use gomsggw.Inbound.{InboundEnv, twilio_name, fetch_media_files, file_name, path_base}
use gomsggw.Inbound.Hooks.{
  HookState, TwilioForm, twilio_inbound, receive, push_inbound, texts_of, media_items, has_media,
}
use gomsggw.Inbound.Split.{split_sms_bytes}

hook_env : InboundEnv
hook_env = record {
  fetch = λ url. some (codes "GIF89a");
  log_id = "log";
  now = 5;
  carrier = "twilio";
}

no_messages : HookState
no_messages = record { convos = new_convo_manager; client_msg_chan = []; carrier_msg_chan = [] }

with_picture : TwilioForm
with_picture = record {
  from = codes alice;
  to = codes bob;
  body = codes "hello there";
  media = record { content_type = "image/gif"; url = "https://api.twilio.com/m/ME1" } ∷ [];
}

picture_name :
    file_name twilio_name
      (record { content_type = "image/gif"; url = "https://api.twilio.com/m/ME1" })
    ≡ "ME1.gif"
unfolding file_name path_base
picture_name = refl

-- A text of eleven bytes in segments of four.
split_in_fours :
    split_sms_bytes (codes "hello there") 4 ≡ codes "hell" ∷ codes "o th" ∷ codes "ere" ∷ []
unfolding split_sms_bytes utf8_len
split_in_fours = refl

two_items : length (twilio_inbound hook_env with_picture no_messages).1.carrier_msg_chan ≡ 2
unfolding twilio_inbound receive push_inbound texts_of media_items has_media fetch_media_files
    hook_env with_picture no_messages text_eq trim_space split_sms_bytes utf8_len
two_items = refl
