-- ===== src/MmsServer/Outbound/Content.antt =====
-- The message of createMM4Message and sendMM4Message of mms_server.go.
use gomsggw.Base.{
  ℕ, zero, suc, List, [], ◌∷◌, ◌++◌, String, Text, codes, text_eq, length, if◌then◌else◌,
}
use gomsggw.Base.Strings.{has_prefix, drop}
use gomsggw.Message.{MsgFile, MsgQueueItem}
use gomsggw.MmsServer.{Headers}
use gomsggw.MmsServer.Input.{header_get}

-- What the message is made with beside the queue item.
pub record ContentEnv : Type 0 where
  -- MM4_MSG_ID_HOST and MM4_ORIGINATOR_SYSTEM
  pub msg_id_host : Text
  pub originator_system : Text
  -- the date, as RFC1123Z has it
  pub date : Text
  -- `base64.StdEncoding.EncodeToString`
  pub encode_base64 : Text → Text
  -- generateBoundary
  pub boundary : Text
  -- generateContentID for the file of the number
  pub content_id : ℕ → Text

default_originator : Text → Text
default_originator system = if text_eq system [] then codes "system@yourdomain.com" else system

-- the headers that createMM4Message sets
unfoldable pub mm4_headers : ContentEnv → MsgQueueItem → Headers
unfolding default_originator
mm4_headers env item =
    (codes "To", item.to ++ codes "/TYPE=PLMN")
    ∷ (codes "From", item.from ++ codes "/TYPE=PLMN")
    ∷ (codes "MIME-Version", codes "1.0")
    ∷ (codes "X-Mms-3GPP-Mms-Version", codes "6.10.0")
    ∷ (codes "X-Mms-message-Type", codes "MM4_forward.REQ")
    ∷ (
      codes "X-Mms-message-Id",
      codes "<" ++ codes item.log_id ++ codes "@" ++ env.msg_id_host ++ codes ">",
    )
    ∷ (codes "X-Mms-Transaction-Id", codes item.log_id)
    ∷ (codes "X-Mms-Ack-Request", codes "Yes")
    ∷ (codes "X-Mms-Originator-System", default_originator env.originator_system)
    ∷ (codes "Date", env.date)
    ∷ []

abbrev pub crlf : Text
crlf = codes "\r\n"

-- `strings.Join(texts, ", ")`
unfoldable pub join_commas : List Text → Text
join_commas [] = []
join_commas (t ∷ []) = t
join_commas (t ∷ u ∷ ts) = t ++ codes ", " ++ join_commas (u ∷ ts)

header_line : Headers → String → Text
header_line headers name =
    let value = header_get (codes name) headers in
    if text_eq value [] then [] else codes name ++ codes ": " ++ value ++ crlf

header_lines : Headers → List String → Text
unfolding header_line
header_lines headers [] = []
header_lines headers (name ∷ names) = header_line headers name ++ header_lines headers names

abbrev pub essential_headers : List String
essential_headers =
    "X-Mms-3GPP-Mms-Version" ∷ "X-Mms-message-Type" ∷ "X-Mms-message-Id" ∷ "X-Mms-Transaction-Id"
    ∷ "X-Mms-Ack-Request" ∷ "X-Mms-Originator-System" ∷ "Date" ∷ "message-ID" ∷ []

smil_part : MsgFile → Text
smil_part file =
    if has_prefix (codes "image/") (codes file.content_type)
    then codes "<par dur=\"5000ms\">\n"
      ++ codes "<img src=\""
      ++ codes file.filename
      ++ codes "\" region=\"Image\"/>\n"
      ++ codes "</par>\n"
    else []

smil_parts : List MsgFile → Text
unfolding smil_part
smil_parts [] = []
smil_parts (file ∷ files) = smil_part file ++ smil_parts files

-- generateSMIL, for one file or more
unfoldable pub generate_smil : List MsgFile → Text
unfolding smil_parts
generate_smil files =
    codes "<smil>\n<head>\n"
    ++ codes "<layout>\n"
    ++ codes "<root-layout width=\"320px\" height=\"480px\"/>\n"
    ++ codes "<region id=\"Image\" width=\"100%\" height=\"100%\" fit=\"meet\"/>\n"
    ++ codes "</layout>\n"
    ++ codes "</head>\n"
    ++ codes "<body>\n"
    ++ smil_parts files
    ++ codes "</body>\n"
    ++ codes "</smil>\n"

-- `s[:n]`
unfoldable pub take : ℕ → Text → Text
take zero s = []
take (suc n) [] = []
take (suc n) (a ∷ s) = a ∷ take n s

-- The lines of 76 letters; each turn takes at least one, so the letters are fuel enough.
unfoldable pub base64_lines : ℕ → Text → List Text
unfolding take
base64_lines zero s = []
base64_lines (suc fuel) [] = []
base64_lines (suc fuel) (a ∷ s) = take 76 (a ∷ s) ∷ base64_lines fuel (drop 76 (a ∷ s))

unfoldable pub with_crlf : List Text → Text
with_crlf [] = []
with_crlf (line ∷ lines) = line ++ crlf ++ with_crlf lines

file_part : ContentEnv → ℕ → MsgFile → Text
unfolding base64_lines with_crlf
file_part env n file =
    let encoded = env.encode_base64 file.content in
    codes "--"
    ++ env.boundary
    ++ crlf
    ++ codes "Content-Id: <"
    ++ env.content_id n
    ++ codes ">\r\n"
    ++ codes "Content-Type: "
    ++ codes file.content_type
    ++ codes "; name=\""
    ++ codes file.filename
    ++ codes "\"\r\n"
    ++ codes "Content-Disposition: attachment; filename=\""
    ++ codes file.filename
    ++ codes "\"\r\n"
    ++ codes "Content-Location: "
    ++ codes file.filename
    ++ crlf
    ++ codes "Content-Transfer-Encoding: base64\r\n"
    ++ crlf
    ++ with_crlf (base64_lines (length encoded) encoded)

file_parts : ContentEnv → ℕ → List MsgFile → Text
unfolding file_part
file_parts env n [] = []
file_parts env n (file ∷ files) =
    let others = file_parts env (suc n) files in
    if text_eq (codes file.content_type) (codes "application/smil")
    then others
    else file_part env n file ++ others

-- The text after DATA, with its last line.
unfoldable pub message_data : ContentEnv → Headers → Text → List Text → List MsgFile → Text
unfolding header_lines generate_smil file_parts join_commas
message_data env headers from to files =
    codes "To: "
    ++ join_commas to
    ++ crlf
    ++ codes "From: "
    ++ from
    ++ crlf
    ++ codes "Content-Type: multipart/related; boundary=\""
    ++ env.boundary
    ++ codes "\"\r\n"
    ++ codes "MIME-Version: 1.0\r\n"
    ++ header_lines headers essential_headers
    ++ crlf
    ++ codes "--"
    ++ env.boundary
    ++ crlf
    ++ codes "Content-Id: <0.smil>\r\n"
    ++ codes "Content-Type: application/smil; name=\"0.smil\"\r\n"
    ++ crlf
    ++ generate_smil files
    ++ crlf
    ++ file_parts env 0 files
    ++ codes "--"
    ++ env.boundary
    ++ codes "--\r\n"
    ++ codes ".\r\n"
