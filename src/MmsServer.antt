-- ===== src/MmsServer.antt =====
-- mms_server.go: the MM4 server, an SMTP server for the MMS of the clients.
-- A connection is the lines that the peer sends and the way in which its stream ends, and the
-- replies. What bufio, net/textproto, mime and mime/multipart do beyond lines is a parameter.
pub mod Input
pub mod Mime
pub mod Commands
pub mod Sessions
pub mod Connections
pub mod Outbound
pub mod Sequence
pub mod Reading
pub mod Envelope
pub mod Queued
pub mod Ends
pub mod Tracking
pub mod Tracked
pub mod Races
pub mod Answers
use gomsggw.Base.{ℕ, ◌+◌, List, [], ◌∷◌, ◌++◌, Option, String, Text}

-- `MsgFile`, as far as parseMIMEParts fills it
pub record Part : Type 0 where
  pub filename : Text
  pub content_type : Text
  pub content : Text

-- `textproto.MIMEHeader`: the fields in the order in which they came
abbrev pub Headers : Type 0
Headers = List (Text × Text)

-- The errors of a session, with what the reply says after the code.
pub data SessionError : Type 0 where
  syntax_mail syntax_rcpt empty_body : SessionError
  missing_header : String → SessionError
  missing_content_type no_boundary : SessionError
  bad_media_type bad_part bad_part_content : String → SessionError
  bad_headers bad_body bad_read : String → SessionError
  client_disconnected : SessionError

-- A line of `writeResponse`: its code, with a fixed text, an error or the command.
pub data Reply : Type 0 where
  says : ℕ → String → Reply
  failure : ℕ → SessionError → Reply
  not_implemented : Text → Reply

pub record Mm4Message : Type 0 where
  pub from : Text
  pub to : Text
  pub content : Text
  pub headers : Headers
  pub client : String
  pub message_id : Text
  pub files : List Part
  pub transaction_id : Text

pub record Session : Type 0 where
  -- the lines that are not read yet
  pub input : List Text
  -- what `Writer` got, in the order written
  pub output : List Reply
  pub from : Text
  pub to : List Text
  pub body : Text
  pub headers : Headers
  pub client : String
  pub session_id : String
  -- 0: Init, 1: Helo, 2: Mail, 3: Rcpt
  pub state : ℕ
  -- what this session put on `MediaTranscodeChan`
  pub transcode : List Mm4Message

-- A step of `reader.NextPart` with the copy of the part.
pub data NextPart : Type 0 where
  parsed : Part → NextPart
  broken : String → NextPart
  cut_off : String → NextPart

pub data MediaType : Type 0 where
  media : Text → Text → MediaType
  unknown_media : String → MediaType

-- What `ReadMIMEHeader` makes of the lines: the fields and the other lines, or an error.
pub data HeaderResult : Type 0 where
  fields : Headers → List Text → HeaderResult
  refused : String → List Text → HeaderResult

pub record Mm4Env : Type 0 where
  pub read_mime_header : List Text → HeaderResult
  -- `mime.ParseMediaType`, with the boundary parameter, empty if there is none
  pub parse_media_type : Text → MediaType
  -- the parts that `multipart.NewReader(content, boundary)` gives up to its end or its first error
  pub multipart : Text → Text → List NextPart
  -- `unicode.ToUpper` beyond ASCII
  pub upper_other : ℕ → ℕ
  -- how the stream ends: EOF or an error
  pub stream_error : Option String

-- `writeResponse`
unfoldable pub write_response : Reply → Session → Session
write_response reply s = record s { output = s.output ++ reply ∷ [] }
