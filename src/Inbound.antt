-- ===== src/Inbound.antt =====
-- The webhooks by which the carriers bring messages: Inbound of carrier_telnyx.go, carrier_twilio.go
-- and carrier_onevoiceplus.go. The parsing of the request and the fetches are parameters. A negative
-- NumMedia, or none that is a number, does what 0 does.
pub mod Split
pub mod Hooks
pub mod Texts
use Prim.Native.Char.{code}
use Prim.Native.String
use gomsggw.Base.{
  ℕ, ◌+◌, Bool, false, ◌&&◌, List, [], ◌∷◌, ◌++◌, Option, String, none, some, Text, codes, nat_eq,
  count, length, ◌==◌, Eq_String, if◌then◌else◌,
}
use gomsggw.Message.{MsgFile, MsgQueueItem, sms_type, mms_type}

pub record CarrierMedia : Type 0 where
  pub content_type : String
  pub url : String

pub record InboundEnv : Type 0 where
  -- the content at a URL, where the fetch gives it
  pub fetch : String → Option Text
  pub log_id : String
  pub now : ℕ
  -- the name of the carrier
  pub carrier : String

is_slash : ℕ → Bool
is_slash c = nat_eq c b'/'

-- `len(strings.Split(contentType, "/")) == 2`
two_parts : String → Bool
unfolding is_slash
two_parts type = nat_eq (count is_slash (codes type)) 1

-- `parts[1]` of such a type
second_part : String → String
unfolding is_slash
second_part String.[] = ""
second_part (String.◌∷◌ c s) = let rest = second_part s in if is_slash (code c) then s else rest

without_slashes : String → String
unfolding is_slash
without_slashes String.[] = ""
without_slashes (String.◌∷◌ c s) =
    let rest = without_slashes s in
    if is_slash (code c) && rest == "" then "" else String.◌∷◌ c rest

last_part : String → String
unfolding is_slash
last_part String.[] = ""
last_part (String.◌∷◌ c s) =
    let rest = last_part s in
    if nat_eq (count is_slash (codes s)) 0
    then (if is_slash (code c) then s else String.◌∷◌ c s)
    else rest

-- `path.Base`
unfoldable pub path_base : String → String
unfolding without_slashes last_part
path_base url =
    if url == ""
    then "."
    else if without_slashes url == ""
    then "/"
    else last_part (without_slashes url)

-- How a carrier names a file.
pub data Naming : Type 0 where
  telnyx_name twilio_name : Naming

unfoldable pub file_name : Naming → CarrierMedia → String
unfolding path_base second_part
file_name telnyx_name m = path_base m.url
file_name twilio_name m =
    String.◌++◌ (path_base m.url) (String.◌++◌ "." (second_part m.content_type))

file_of : Naming → CarrierMedia → Option Text → List MsgFile
unfolding file_name
file_of naming m none = []
file_of naming m (some content) =
    record {
      filename = file_name naming m;
      content_type = m.content_type;
      content = content;
      base64_data = [];
      media_url = "";
    }
    ∷ []

-- fetchTelnyxMediaFiles and fetchMediaFiles: what cannot be fetched is left out.
unfoldable pub fetch_media_files : InboundEnv → Naming → List CarrierMedia → List MsgFile
unfolding two_parts file_of
fetch_media_files env naming [] = []
fetch_media_files env naming (m ∷ media) =
    let others = fetch_media_files env naming media in
    if two_parts m.content_type then file_of naming m (env.fetch m.url) ++ others else others

unfoldable pub total_size : List MsgFile → ℕ
total_size [] = 0
total_size (f ∷ files) = length f.content + total_size files

unfoldable pub mms_item : InboundEnv → Text → Text → List MsgFile → MsgQueueItem
unfolding total_size
mms_item env from to files = record {
  to = to;
  from = from;
  received_timestamp = env.now;
  queued_timestamp = 0;
  type = mms_type;
  files = files;
  message = [];
  skip_number_check = false;
  log_id = env.log_id;
  source_carrier = env.carrier;
  source_ip = "";
  original_size_bytes = total_size files;
  delivery = none;
}

unfoldable pub sms_item : InboundEnv → Text → Text → Text → MsgQueueItem
sms_item env from to text = record {
  to = to;
  from = from;
  received_timestamp = env.now;
  queued_timestamp = 0;
  type = sms_type;
  files = [];
  message = text;
  skip_number_check = false;
  log_id = env.log_id;
  source_carrier = env.carrier;
  source_ip = "";
  original_size_bytes = 0;
  delivery = none;
}
