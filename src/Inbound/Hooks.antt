-- ===== src/Inbound/Hooks.antt =====
-- The three handlers: what a webhook puts on CarrierMsgChan, and its answer.
use gomsggw.ApiKeys.{trim_space}
use gomsggw.Base.{
  ℕ, Bool, false, not, ◌||◌, ◌&&◌, List, [], ◌∷◌, ◌++◌, Option, none, some, String, Text, text_eq,
  nat_eq, ltb, length, map, ◌==◌, Eq_String, if◌then◌else◌,
}
use gomsggw.Convo.{ConvoManager, handle_carrier_ack}
use gomsggw.Inbound.{
  CarrierMedia, InboundEnv, telnyx_name, twilio_name, fetch_media_files, mms_item, sms_item,
}
use gomsggw.Inbound.Split.{split_sms_bytes}
use gomsggw.Message.{MsgFile, MsgQueueItem}

pub record HookState : Type 0 where
  pub convos : ConvoManager
  pub client_msg_chan : List MsgQueueItem
  pub carrier_msg_chan : List MsgQueueItem

-- The status of the answer, and the state after it.
abbrev pub Hooked : Type 0
Hooked = ℕ × HookState

unfoldable pub push_inbound : List MsgQueueItem → HookState → HookState
push_inbound items st = record st { carrier_msg_chan = st.carrier_msg_chan ++ items }

-- A text of spaces alone is no text.
unfoldable pub texts_of : (Text → List Text) → Text → List Text
texts_of split body = if text_eq (trim_space body) [] then [] else split body

unfoldable pub media_items : InboundEnv → Text → Text → List MsgFile → List MsgQueueItem
media_items env from to [] = []
media_items env from to (f ∷ files) = mms_item env from to (f ∷ files) ∷ []

-- The message with the media, then the ones with the text. Media of which none can be fetched refuse
-- the webhook, the text too.
unfoldable pub receive :
    InboundEnv → (Text → List Text) → Text → Text → Text → Bool → List MsgFile → HookState → Hooked
unfolding push_inbound texts_of media_items
receive env split from to body has_media files st =
    if has_media && nat_eq (length files) 0 then (400, st) else (
      200,
      push_inbound
          (media_items env from to files ++ map (sms_item env from to) (texts_of split body)) st,
    )

pub record TelnyxPayload : Type 0 where
  pub event_type : String
  pub from : Text
  pub to : List Text
  pub text : Text
  pub id : String
  pub media : List CarrierMedia

telnyx_event : TelnyxPayload → HookState → Hooked
telnyx_event p st =
    let acked = handle_carrier_ack p.id st.convos in
    if p.event_type == "message.sent"
    then (200, record st { convos = acked.0; client_msg_chan = st.client_msg_chan ++ acked.1 })
    else (200, st)

unfoldable pub has_media : List CarrierMedia → Bool
has_media media = ltb 0 (length media)

telnyx_to : InboundEnv → TelnyxPayload → List Text → HookState → Hooked
unfolding receive telnyx_event has_media
telnyx_to env p [] st = (400, st)
telnyx_to env p (to ∷ others) st =
    if not (p.event_type == "message.received")
    then telnyx_event p st
    else receive env (λ body. body ∷ []) p.from to p.text (has_media p.media)
        (fetch_media_files env telnyx_name p.media) st

unfoldable pub telnyx_inbound : InboundEnv → Option TelnyxPayload → HookState → Hooked
unfolding telnyx_to
telnyx_inbound env none st = (400, st)
telnyx_inbound env (some p) st = telnyx_to env p p.to st

-- The form, with the media of the numbers below NumMedia.
pub record TwilioForm : Type 0 where
  pub from : Text
  pub to : Text
  pub body : Text
  pub media : List CarrierMedia

unfoldable pub twilio_inbound : InboundEnv → TwilioForm → HookState → Hooked
unfolding receive has_media
twilio_inbound env form st =
    receive env (λ body. split_sms_bytes body 140) form.from form.to form.body
      (has_media form.media) (fetch_media_files env twilio_name form.media) st

pub record OvpPayload : Type 0 where
  pub from : Text
  pub to : Text
  pub message : Text

unfoldable pub onevoiceplus_inbound : InboundEnv → Option OvpPayload → HookState → Hooked
unfolding receive
onevoiceplus_inbound env none st = (400, st)
onevoiceplus_inbound env (some p) st =
    if text_eq p.from [] || text_eq p.to []
    then (400, st)
    else receive env (λ body. body ∷ []) p.from p.to p.message false [] st
