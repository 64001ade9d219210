-- ===== src/Lib.antt =====
-- gomsggw is a gateway that routes SMS and MMS between clients, over SMPP, MM4 and webhooks, and
-- carriers, over their HTTP services. The program is one Go package; paths are from the root of
-- the repository.
--
-- A message (MsgQueueItem, msg_queue.go) comes from a client or a carrier. A client's message first
-- waits in the queue of its conversation (convo.go), which has one message in flight; the released
-- message goes to ClientMsgChan. processMessage (router.go) takes a message from one of the two
-- channels, formats its numbers, finds the clients of both, checks the limits of the sender
-- (clients.go, msg_records.go), gives the auto-reply its turn, and then delivers to a client or to a
-- carrier. A delivery that fails goes through Retry back to its channel. A carrier's ack, a failure
-- or a timeout releases the next message of a conversation.
--
-- The REST API (web_server.go) takes requests of clients that show a password or an API key
-- (api_keys.go). A batch (batch.go, batch_routes.go) is a job with a row for each message: a goroutine
-- puts the messages on ClientMsgChan one by one, queues those that a limit holds back, and tries these
-- again every 30 seconds until a deadline, while the client may cancel the job or a message.
--
-- The SMPP server (sms_server.go) binds legacy clients by name and password, puts what they submit into
-- its conversation, and delivers to them part by part. The MM4 server (mms_server.go) speaks SMTP with
-- the clients that have a known address: what a session takes goes to the transcoder, and sendMM4 is
-- the other side of the same protocol. The send routes (web_server.go) put a web client's message on
-- ClientMsgChan, or on the channel of the transcoder if it has media.
--
-- Where each part is modelled:
--   Message         msg_queue.go: the message and its bounded retry
--   Convo           convo.go: AddMessage, SetExpectedAck, HandleAck, HandleFailure, HandleCarrierAck
--                   are add_message, set_expected_ack and so on, on a record for each queue and one
--                   for the manager; what a call sends to ClientMsgChan is its second result. A
--                   running timer is part of the queue, and timer_fires is its goroutine
--   Client          the configuration records of clients.go, the records of msg_records.go
--   Numbers         FormatToE164 and the lookups of router.go and gateway.go by number
--   Limits          CheckMessageLimits of clients.go and the usage query of msg_records.go
--   Coding          smpp/coding: BestSafeCoding, the splitters and SplitSMS; their use in utils.go
--   AutoReply       ResolveAutoReply of clients.go and the cooldown of router.go
--   Router          processMessage of router.go as process_message, a function of RouterState: the
--                   conversations, the two channels, the records written, the cooldowns, and the
--                   attempts to send. Clients has the deliveries to clients with the failover of
--                   gateway.go, Carriers those to carriers, Hook the auto-reply, Process the whole
--   RateLimit       the sliding window of the API keys in web_server.go
--   ApiKeys         api_keys.go: Operations has createAPIKey, revokeAPIKey and TouchLastUsed on a
--                   record of the table and of the map of the gateway; Auth has clientAuthMiddleware
--                   of web_server.go
--   Batch           batch.go and batch_routes.go: the data and the cancel requests; Messages has
--                   ApplyTemplate and the rows, Items the steps for one message, Process the whole of
--                   processBatchJob, Csv has ParseCSVBatch, Submit and Precheck two of the routes. A
--                   schedule says what cancel requests do before which step of the goroutine: the cancel
--                   of a job is one step, that of a message a look at the row and a write, apart
--   MmsServer       mms_server.go: Commands and Sessions have handleCommand and handleSession on a record
--                   of the session, with the lines to read and the replies; Connections has
--                   handleConnection and the client states, objects that the map and the connections
--                   share; Tracking has the steps of other connections; Outbound has sendMM4
--   SmppServer      sms_server.go: the handlers of the PDUs as functions of SmppState, Submit has
--                   handleSubmitSM, Sending has sendSMPP with the responses, Cleaning cleanSMSMessage
--   WebSend         the handler of POST /messages and /messages/send in web_server.go
--   Inbound         the webhooks of carrier_telnyx.go, carrier_twilio.go and carrier_onevoiceplus.go:
--                   Hooks has the three Inbound methods, Split has splitSMS
--   Gsm7            the tables, the encoder and the decoder of smpp_gsm7.go; the maps that init
--                   builds depend on the order in which it visits the tables, a parameter
--   Base            tests, maps, texts and Go's string functions, for all the others
--   Examples        concrete messages, clients and runs
--
-- Conventions. A method of Go that changes shared state is a function from the state before to the
-- state after. A method body that runs under a lock is one step. Numbers are natural numbers; counts,
-- times in nanoseconds and sizes do not come near the bounds of Go's 64 bit integers. A text whose
-- characters matter is a list of code points, any other is a string. A Go map is a list of entries;
-- where a loop visits a map, the order of the visit is a parameter.
--
-- Parameters stand for code outside the repository and for the network: the answers of the carriers'
-- handlers, of the SMPP and MM4 sends and of the webhooks, the sessions that are found, the clock, the
-- table of the records, and the calendar and zones of the time package; for the keys and batches also
-- SHA-256, base64, the random bytes, the UUIDs, which are taken to differ, the csv reader, the reading
-- of requests, the answers of the database where a request can fail by them, and the time that passes
-- between the steps of a job. For MM4 and SMPP they stand for ReadMIMEHeader and the readers of media
-- types and parts, the answers of a peer, the writes that work, and the codecs of the alphabets but
-- GSM 7 bit; for the send routes and the carriers' webhooks, for the
-- reading of the request and the fetching of media.
--
-- Fuel. A session takes a turn for each line and one more, and the lines of base64 a turn for each
-- letter. split takes 2 n + 1 turns for n runes, since a rune is read again at most once when a segment
-- is closed. life takes one turn for each attempt of a message. The retry loop of a batch takes one
-- turn more than there are intervals of 30 seconds in its retry time, since each turn sleeps that long.
--
-- Not modelled: logging and metrics, the database beyond the queries named above, the HTTP server
-- beyond the routes named above, the sends of the carriers' clients, the delivery of the webhook
-- of a batch and the routes that list jobs and messages, the listeners and the enquire_link timer,
-- MMS transcoding, and the wire formats of SMPP, whose packages under smpp/ are a copy of another
-- project. Blocking on a full channel and the ten seconds that Retry sleeps are left out: a
-- channel is a list without bound.
pub mod Base
pub mod Message
pub mod Convo
pub mod Client
pub mod Numbers
pub mod Limits
pub mod Coding
pub mod AutoReply
pub mod Router
pub mod RateLimit
pub mod Gsm7
pub mod ApiKeys
pub mod Batch
pub mod MmsServer
pub mod SmppServer
pub mod WebSend
pub mod Inbound
mod Examples
