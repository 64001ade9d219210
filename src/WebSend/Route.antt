-- ===== src/WebSend/Route.antt =====
-- The handler of the send routes of web_server.go.
use gomsggw.Base.{
  ℕ, false, not, ◌&&◌, List, [], ◌∷◌, Option, none, some, String, Text, codes, text_eq, nat_eq,
  ◌==◌, Eq_String, Eq_Text, if◌then◌else◌,
}
use gomsggw.Base.Strings.{trim_plus}
use gomsggw.Batch.Submit.{key_has_scope, key_allows, only_number}
use gomsggw.Client.{Client, ClientNumber, ClientSettings}
use gomsggw.Limits.Check.{LimitEnv, LimitCheckResult, check_message_limits}
use gomsggw.Message.{MsgFile, sms_type, mms_type}
use gomsggw.WebSend.{
  WebMediaItem, WebMessageRequest, BicomMessageRequest, TelnyxMessageRequest, ParsedMessage,
  SendBody, SendError, no_scope, bad_body, wrong_client, to_required, from_required, not_owned,
  key_not_allowed, limited, Push, to_router, to_transcoder, SendResult, refused, queued, WebSendEnv,
}
use gomsggw.WebSend.Media.{Prepared, prepared, broken, prepare}

format_of : Option ClientSettings → String
format_of none = "generic"
format_of (some s) = if not (s.api_format == "") then s.api_format else "generic"

unfoldable pub format_for : Client → String
unfolding format_of
format_for client = format_of client.settings

pub data Parse : Type 0 where
  parsed : ParsedMessage → Parse
  unparsed : ℕ → SendError → Parse

url_items : List String → List WebMediaItem
url_items [] = []
url_items (u ∷ us) =
    record { filename = ""; content = []; content_type = ""; url = u } ∷ url_items us

typed_items : List (String × String) → List WebMediaItem
typed_items [] = []
typed_items (m ∷ ms) =
    record { filename = ""; content = []; content_type = m.1; url = m.0 } ∷ typed_items ms

abbrev first_or_empty : List Text → Text
first_or_empty [] = []
first_or_empty (t ∷ ts) = t

unfoldable pub parse_bicom : Option BicomMessageRequest → Parse
unfolding url_items
parse_bicom none = unparsed 400 bad_body
parse_bicom (some req) =
    parsed
      (record { from = req.from; to = req.to; text = req.text; media = url_items req.media_urls })

unfoldable pub parse_telnyx : Option TelnyxMessageRequest → Parse
unfolding typed_items
parse_telnyx none = unparsed 400 bad_body
parse_telnyx (some req) = parsed (record {
  from = req.from;
  to = first_or_empty req.to;
  text = req.text;
  media = typed_items req.media;
})

-- The number of a client stands for no client if it is 0.
unfoldable pub parse_generic : Client → Option WebMessageRequest → Parse
parse_generic client none = unparsed 400 bad_body
parse_generic client (some req) =
    if not (nat_eq req.client_id 0) && not (nat_eq req.client_id client.id)
    then unparsed 403 wrong_client
    else parsed (record { from = req.from; to = req.to; text = req.text; media = req.media })

unfoldable pub parse_body : Client → SendBody → Parse
unfolding parse_bicom parse_telnyx parse_generic format_for
parse_body client body =
    if format_for client == "bicom"
    then parse_bicom body.bicom
    else if format_for client == "telnyx"
    then parse_telnyx body.telnyx
    else parse_generic client body.generic

-- The stored form of a number that the client owns.
unfoldable pub owned_from : Text → List ClientNumber → Option Text
owned_from from [] = none
owned_from from (n ∷ ns) =
    let later = owned_from from ns in
    if n.number == from
    then some from
    else if trim_plus n.number == trim_plus from
    then some n.number
    else later

pub data From : Type 0 where
  from_number : Text → From
  no_number : ℕ → SendError → From

unfoldable pub or_required : Option Text → From
or_required none = no_number 400 from_required
or_required (some number) = from_number number

unfoldable pub or_foreign : Option Text → From
or_foreign none = no_number 403 not_owned
or_foreign (some number) = from_number number

unfoldable pub resolve_from : Text → List ClientNumber → From
unfolding owned_from or_required or_foreign
resolve_from from numbers =
    if text_eq from []
    then or_required (only_number numbers)
    else or_foreign (owned_from from numbers)

abbrev pub type_of : ParsedMessage → String
type_of m = elim m.media [ [] ↦ sms_type | item ∷ items ↦ mms_type ]

abbrev success : Client → ℕ
success client = if format_for client == "bicom" then 200 else 202

unfoldable pub push_of : WebSendEnv → Text → ParsedMessage → List MsgFile → ℕ → Push
push_of env from m (file ∷ files) size = to_transcoder (record {
  from = from;
  to = m.to;
  content = [];
  headers = [];
  client = env.client.username;
  message_id = env.uuid;
  files = file ∷ files;
  transaction_id = env.uuid;
})
push_of env from m [] size = to_router (record {
  to = m.to;
  from = from;
  received_timestamp = env.now;
  queued_timestamp = 0;
  type = type_of m;
  files = [];
  message = m.text;
  skip_number_check = false;
  log_id = env.uuid;
  source_carrier = "";
  source_ip = env.client_ip;
  original_size_bytes = size;
  delivery = none;
})

unfoldable pub send_prepared : WebSendEnv → Text → ParsedMessage → Prepared → SendResult
unfolding push_of
send_prepared env from m (broken e) = refused 400 e
send_prepared env from m (prepared files size) =
    queued (success env.client) (push_of env from m files size)

-- A result of the limit check that is not allowed stops the message.
unfoldable pub send_checked :
    WebSendEnv → Text → ParsedMessage → Option LimitCheckResult → SendResult
unfolding send_prepared
send_checked env from m none = send_prepared env from m (prepare env m.media [] 0)
send_checked env from m (some r) =
    if not r.allowed
    then refused 429 (limited r)
    else send_prepared env from m (prepare env m.media [] 0)

unfoldable pub send_from : LimitEnv → WebSendEnv → ParsedMessage → From → SendResult
unfolding send_checked
send_from limits env m (no_number status e) = refused status e
send_from limits env m (from_number from) =
    if not (key_allows from env.api_key)
    then refused 403 key_not_allowed
    else send_checked env from m
        (check_message_limits limits (some env.client) from (type_of m) "outbound")

unfoldable pub send_parsed : LimitEnv → WebSendEnv → Parse → SendResult
unfolding send_from
send_parsed limits env (unparsed status e) = refused status e
send_parsed limits env (parsed m) =
    if text_eq m.to []
    then refused 400 to_required
    else send_from limits env m (resolve_from m.from env.client.numbers)

unfoldable pub send_message : LimitEnv → WebSendEnv → SendBody → SendResult
unfolding send_parsed
send_message limits env body =
    if not (key_has_scope (codes "send") env.api_key)
    then refused 403 no_scope
    else send_parsed limits env (parse_body env.client body)
