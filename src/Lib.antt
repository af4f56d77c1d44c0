-- ===== src/Lib.antt =====
-- smpp-smsc: an SMPP 3.4 short message centre in Go, modelled from `internal/smsc`.
--
-- A TCP client binds a session and submits short messages. A session (`session.go`) reads PDUs, parses
-- them, hands them to the application's handler (`interfaces.go`) and queues the answers; a message
-- in several parts goes through the segments manager (`segments.go`), which keeps the parts in
-- groups until the last one has come; texts are decoded by `utils.go`. A message that asks for a
-- delivery receipt stands in the session's pending requests, and its ID is routed to the session.
--
-- Base      numbers, lists, maps, octets and decimal text: what the code takes from Go itself
-- Text      runes, UTF-8 and UTF-16: `unicode/utf8` and `unicode/utf16` as far as they are used
-- Wire      PDUs and fields, and `GoSmpp`, the parameter that stands for the module go-smpp;
--           Wire/Constants is internal/smsc/constants.go
-- Message   internal/smsc/utils.go: ParseUDH is `parse_udh`, CreateUDH `create_udh`, DecodeMessage
--           `decode_message`, EncodeMessage `encode_message`; Message/Ids has the message IDs
-- Segments  internal/smsc/segments.go: AddSegment is `add_segment`, cleanup `cleanup`, Stop `stop`
-- Types     internal/smsc/types.go
-- Config    internal/smsc/config.go and config_setters.go
-- Charset   IsGSM7Bit, IsBinary and DetectEncoding of utils.go, calcSegments of session.go
-- Session   internal/smsc/session.go: the state and its small operations; Session/Parse has the
--           parsers (parseSubmitSM is `parse_submit_sm`), Session/Submit handleSubmitSM,
--           Session/Dispatch processPDU and the handlers of single commands, Session/Outgoing the
--           batches that empty the queue, Session/Cleanup the ticks of cleanupPendingRequests and
--           the loop of start, Session/Sound the invariant of a session, Session/Handler the
--           interface and the default handler of internal/smsc/server.go, Session/Demo the handler of
--           cmd/server/main.go
-- Receipt   internal/smsc/delivery_report.go
-- Controller internal/smsc/session_manager.go and session_cache.go: sessions by their IDs, routes from
--           message IDs to sessions, inactivity; Controller/Caches is the interface of the cache
-- Deliver   internal/smsc/server.go on one session: deliver_sm, texts in several parts
--           (SendSegmentedDeliverSM is `send_segmented_deliver_sm`), and SendDeliveryReport
--           (`report_on`)
-- Server    internal/smsc/server.go on the controller's sessions; Server/Listen has Start, the accept
--           loop and Shutdown, Server/System any run of the whole server, Server/Build the container
--           of internal/smsc/container.go
-- Logger    internal/smsc/logger.go over `Zap`, the parameter that stands for go.uber.org/zap
-- Command   cmd/server/main.go: what it builds, what it waits for, and how it ends
--
-- The controller keeps the sessions at addresses of a heap, which the cache, the routes and the
-- connection share. A session tells the controller of its routes through two callbacks; their calls
-- are logged in the session and applied when it is put back.
--
-- State is passed explicitly: a method takes the state and returns the new one. One goroutine
-- handles the PDUs of a session one after the other, another empties its queue, and a group of
-- segments changes under the lock of its shard, so that a call is one step. The clock, the ID
-- generator, a rate limiter's answer, the MD5 sum and the state of a caller's context are inputs. A
-- 32-bit or 8-bit number has its wrap-around written out. Loops are structural but for three: splitting a
-- text runs on as many steps as it has runes, ParseTLV on as many as it has bytes, and a decimal
-- number on its value plus one, and a run never needs more.
--
-- A run of the server is a sequence of such calls, of Server/System's steps, whose order is open; two
-- calls that overlap in time are not a run of the model. The cache runs the callback OnDeletion, which
-- stops a session, after the call that deletes: it is a step of its own, of a session that the
-- controller's `notices` names. After Shutdown the session cache is nil: GetSession and a second
-- Shutdown of a started server give `none`, a panic, and the steps that use the cache want it open.
-- Which of several ready cases the select of main takes is an input.
--
-- Not modelled: the goroutines themselves and the connection's I/O (listening, deadlines, shutdown's
-- waiting), the log lines that the code writes, HexDump, the registering of signals.
-- go-smpp and charmap are not in the repository: their numbers, codecs and field readers are the
-- fields of `GoSmpp`. The cache of otter is the parameter `Cache`, whose laws allow it to drop an
-- entry at any call. The snowflake generator's answer is an input.
pub mod Base
pub mod Text
pub mod Wire
pub mod Message
pub mod Segments
pub mod Types
pub mod Config
pub mod Charset
pub mod Session
pub mod Receipt
pub mod Controller
pub mod Deliver
pub mod Server
pub mod Logger
pub mod Command
