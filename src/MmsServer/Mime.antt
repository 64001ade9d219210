-- ===== src/MmsServer/Mime.antt =====
-- handleMM4Message and parseMIMEParts of mms_server.go.
use gomsggw.Base.{
  List, [], ◌∷◌, ◌++◌, Option, none, some, String, Text, codes, text_eq, if◌then◌else◌,
}
use gomsggw.Base.Strings.{has_prefix}
use gomsggw.MmsServer.{
  Headers, Mm4Env, Mm4Message, Part, Session, SessionError, missing_header, missing_content_type,
  no_boundary, bad_media_type, bad_part, bad_part_content, empty_body, NextPart, parsed, broken,
  cut_off, MediaType, media, unknown_media,
}
use gomsggw.MmsServer.Input.{header_get, trim_quotes}

-- What a call leaves: an error, or a value.
pub data Result {ℓ} (A : Type ℓ) : Type ℓ where
  ok : A → Result A
  err : SessionError → Result A

-- The loop over the parts, after the files so far.
unfoldable pub read_parts : List NextPart → List Part → Result (List Part)
read_parts [] files = ok files
read_parts (parsed p ∷ parts) files = read_parts parts (files ++ p ∷ [])
read_parts (broken e ∷ parts) files = err (bad_part e)
read_parts (cut_off e ∷ parts) files = err (bad_part_content e)

parts_of : Mm4Env → Text → Text → Result (List Part)
parts_of env boundary content =
    if text_eq boundary [] then err no_boundary else read_parts (env.multipart content boundary) []

unfoldable pub files_of : Mm4Env → MediaType → Text → Result (List Part)
unfolding parts_of
files_of env (unknown_media e) content = err (bad_media_type e)
files_of env (media type boundary) content =
    if has_prefix (codes "multipart/") type
    then parts_of env boundary content
    else ok (record { filename = []; content_type = type; content = content } ∷ [])

unfoldable pub parse_mime_parts : Mm4Env → Headers → Text → Result (List Part)
unfolding files_of
parse_mime_parts env headers content =
    let type = header_get (codes "Content-Type") headers in
    if text_eq type []
    then err missing_content_type
    else files_of env (env.parse_media_type type) content

abbrev pub required_headers : List String
required_headers =
    "X-Mms-3GPP-MMS-Version" ∷ "X-Mms-message-Type" ∷ "X-Mms-message-ID" ∷ "X-Mms-Transaction-ID"
    ∷ "From" ∷ "To" ∷ []

-- the first of the names that has no value
unfoldable pub missing_of : List String → Headers → Option String
missing_of [] headers = none
missing_of (name ∷ names) headers =
    let later = missing_of names headers in
    if text_eq (header_get (codes name) headers) [] then some name else later

unfoldable pub mm4_message : Session → List Part → Mm4Message
mm4_message s files = record {
  from = header_get (codes "From") s.headers;
  to = header_get (codes "To") s.headers;
  content = s.body;
  headers = s.headers;
  client = s.client;
  message_id = trim_quotes (header_get (codes "X-Mms-message-ID") s.headers);
  files = files;
  transaction_id = trim_quotes (header_get (codes "X-Mms-Transaction-ID") s.headers);
}

unfoldable pub with_files : Session → Result (List Part) → Result Session
unfolding mm4_message
with_files s (err e) = err e
with_files s (ok files) = ok (record s { transcode = s.transcode ++ mm4_message s files ∷ [] })

unfoldable pub with_headers : Mm4Env → Session → Option String → Result Session
unfolding with_files
with_headers env s (some name) = err (missing_header name)
with_headers env s none = with_files s (parse_mime_parts env s.headers s.body)

-- The message goes to `MediaTranscodeChan`, or the session keeps an error.
unfoldable pub handle_mm4_message : Mm4Env → Session → Result Session
unfolding with_headers
handle_mm4_message env s =
    if text_eq s.body []
    then err empty_body
    else with_headers env s (missing_of required_headers s.headers)
