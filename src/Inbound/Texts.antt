-- ===== src/Inbound/Texts.antt =====
-- The texts that the webhooks of the carriers put on CarrierMsgChan.
use mathlib.Core.List.{flatten}
use gomsggw.ApiKeys.{trim_space}
use gomsggw.Base.{ℕ, ◌≤◌, ◌<◌, List, [], ◌++◌, Text, length, map, All, ◌≡◌, ◌⊎◌}
use gomsggw.Coding.{utf8_len}
use gomsggw.Inbound.{InboundEnv, twilio_name, fetch_media_files, sms_item}
use gomsggw.Inbound.Hooks.{HookState, Hooked, TwilioForm, media_items}

abbrev pub Fits : ℕ → Text → Type 0
Fits max s = (1 ≤ length s) × (utf8_len s ≤ max)

-- What a webhook of Twilio leaves: it is refused, or the media and the texts are on the channel.
pub data Received (env : InboundEnv) (form : TwilioForm) (st : HookState) (out : Hooked)
    : Type 0 where
  unfetched :
      0 < length form.media
      → fetch_media_files env twilio_name form.media ≡ []
      → out ≡ (400, st)
      → Received env form st out
  taken :
      (texts : List Text)
      → out.0 ≡ 200
      → out.1.carrier_msg_chan
        ≡ st.carrier_msg_chan
          ++ (media_items env form.from form.to (fetch_media_files env twilio_name form.media)
              ++ map (sms_item env form.from form.to) texts)
      → All (Fits 140) texts
      → (flatten texts ≡ form.body) ⊎ ((trim_space form.body ≡ []) × (texts ≡ []))
      → Received env form st out
