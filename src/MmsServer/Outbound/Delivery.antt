-- ===== src/MmsServer/Outbound/Delivery.antt =====
-- sendMM4Message and sendMM4 of mms_server.go.
use gomsggw.Base.{List, [], ◌∷◌, ◌++◌, Option, none, some, Text, codes, nat_eq, if◌then◌else◌}
use gomsggw.Client.{Client}
use gomsggw.Message.{MsgFile, MsgQueueItem}
use gomsggw.MmsServer.{Headers}
use gomsggw.MmsServer.Outbound.{
  SendResult, err, files_are_nil, no_files, no_client, unreachable, Wire, Dialogue, ◌>>◌, fail,
  pure, write, ask, expect,
}
use gomsggw.MmsServer.Outbound.Content.{ContentEnv, mm4_headers, message_data}
use gomsggw.Numbers.{get_client}

unfoldable pub mail_from : Text → Text
mail_from from = codes "MAIL FROM:<" ++ from ++ codes ">"

unfoldable pub rcpt_to : Text → Text
rcpt_to recipient = codes "RCPT TO:<" ++ recipient ++ codes ">"

-- the loop over the recipients
unfoldable pub send_recipients : List Text → Dialogue (Unit {0})
unfolding rcpt_to
send_recipients [] = pure tt
send_recipients (recipient ∷ recipients) = do
  ask (rcpt_to recipient) "250"
  send_recipients recipients

unfoldable pub send_message :
    ContentEnv → Headers → Text → List Text → List MsgFile → Dialogue (Unit {0})
unfolding mail_from
send_message env headers from to files = do
  ask (mail_from from) "250"
  send_recipients to
  ask (codes "DATA") "354"
  write (message_data env headers from to files)
  expect "250"

unfoldable pub send_files :
    ContentEnv → Headers → Text → List Text → List MsgFile → Dialogue (Unit {0})
send_files env headers from to [] = fail no_files
send_files env headers from to (file ∷ files) = send_message env headers from to (file ∷ files)

-- the dialogue on a connection that is open
unfoldable pub deliver_message : ContentEnv → MsgQueueItem → List MsgFile → Dialogue (Unit {0})
unfolding send_files
deliver_message env item files = do
  expect "220"
  ask (codes "EHLO localhost") "250"
  send_files env (mm4_headers env item) item.from (item.to ∷ []) files
  ask (codes "QUIT") "221"

-- `strings.Replace(s, "+", "", -1)`
unfoldable pub without_plus : Text → Text
without_plus [] = []
without_plus (a ∷ s) = let rest = without_plus s in if nat_eq a b'+' then rest else a ∷ rest

unfoldable pub connected :
    ContentEnv → MsgQueueItem → List MsgFile → Option Wire → SendResult (Unit {0}) × List Text
connected env item files none = (err unreachable, [])
connected env item files (some wire) =
    let out = deliver_message env item files wire in (out.0, out.1.sent)

unfoldable pub routed :
    ContentEnv
    → (Client → Option Wire)
    → MsgQueueItem
    → List MsgFile
    → Option Client
    → SendResult (Unit {0}) × List Text
unfolding connected
routed env dial item files none = (err no_client, [])
routed env dial item files (some client) = connected env item files (dial client)

-- `dial` opens a connection to port 25 of the client's address; the files may be nil. The result, and
-- what was written to the connection.
unfoldable pub send_mm4 :
    ContentEnv
    → (Client → Option Wire)
    → List Client
    → MsgQueueItem
    → Option (List MsgFile)
    → SendResult (Unit {0}) × List Text
unfolding routed without_plus
send_mm4 env dial clients item none = (err files_are_nil, [])
send_mm4 env dial clients item (some files) =
    routed env dial item files (get_client (without_plus item.to) clients)
