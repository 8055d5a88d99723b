-- ===== src/Lib.antt =====
-- Verification of smtpd, an SMTP server in Go.
--
-- The program takes mail in two ways. internal/server holds a conversation with a client that may
-- authenticate, checks relaying, runs the plugins, and puts messages into a queue, from which the
-- workers of internal/processor deliver them through pkg/outbound. pkg/inbound is a receiver on its
-- own that hands each message to a backend of its caller before it acknowledges it. Modelled are:
--
--   Session   internal/server/session.go. `Session` is the struct; its core (state, TLS, AUTH, HELO,
--             envelope, queued messages) stands apart from the connection and the plugins' world.
--             Helo, Envelope, Data and Auth have the handlers, one function each (handleMail is
--             handle_mail), and Loop has Handle. Moves is the specification, a step relation on
--             cores, whose runs Relay, Encryption and Phases follow.
--   Inbound   pkg/inbound/server.go. Address has validHost, path and mailPath; Limits has New;
--             Admission has the accept loop of Serve, one step for a connection and one for its end; State, Commands, Data and Loop have session,
--             with one function for each case of its switch.
--   Retry     internal/processor/processor.go. calculateRetryDelay, and in Worker worker.process,
--             which is split where it branches: round, receive, attempt, conclude, fail, interrupt.
--   Message   pkg/message/message.go.
--   Queue     internal/queue/queue.go. Heap is container/heap on the retry items, as the source calls
--             it; State has the fields and what the methods do between two waits; Locking has the
--             callers and the scheduler, whose steps (Steps) begin at the lock and at each select.
--   Outbound  pkg/outbound. Errors has the tests on errors; Deliver has Deliverer; Client has
--             SMTPClient, and its Pool SMTPClientPool; Deliver.Log is an environment that logs calls.
--   Delivery  the worker of Retry with the deliverer of Outbound, as internal/server wires them.
--   RateLimit pkg/plugin/ratelimit/ratelimit.go, a plugin of the session.
--   Users     internal/auth/store.go, with bcrypt as a parameter.
--   Tokens    internal/auth/jwt.go, with the parser of the JWT library as a parameter.
--   Security  internal/security/security.go, the connection filter, where networks and addresses are
--             types of their own, with their parsing and containment as parameters; and in Bucket
--             its token bucket.
--   Spf       internal/plugins/spf, Dkim internal/plugins/dkim and Dmarc internal/plugins/dmarc, three
--             plugins that check a sender; a plugin's results that it puts into a context are part
--             of its answer, and the contexts that the session gives to the hooks hold none.
--   DnsCache  internal/dns/cache.go; what is done under a lock is one step.
--   Plugin    pkg/plugin/plugin.go and manager.go; a plugin is a record of hooks on a world.
--   Smtp      pkg/smtp/error.go, and Go's error values as far as errors.As tells them apart.
--   Base64    internal/base64/base64.go, Decode.
--   Text      the functions of strings and bytes that these files call; Table, maps from strings;
--   Prelude   the library's names, Boolean tests, lists and int64.
--
-- Stateful code passes its state on. What it calls and is not in the repository, or changes with
-- the world, is a parameter: the user store and the token validator (functions from credentials to
-- an answer), TLS handshakes (whether they succeed), the queue's Enqueue and the message ids, the
-- receiver's Backend and transaction contexts, net.ParseIP, the worker's queue, deliverer, clock
-- and parent context; for delivery DNS, net, net/smtp, the recorder
-- of metrics and the signer of DKIM; for the checks of a
-- sender net.IP, net/mail, the resolver and the verification of DKIM. What they act on is a state W
-- of their own, of which nothing is assumed, but for Hello of net/smtp, which may be called once.
--
-- A connection is the list of the lines still to be read, in the clear and over TLS, and a number:
-- how many more operations (writes, deadlines) succeed on it, so that a connection may fail at any
-- point, by a timeout too. A line ends with its newline; the bytes after the last newline are the
-- end of the input. Text is bytes, and case mapping and white space are those of ASCII.
--
-- Loops that read a connection run on fuel, one unit for a command. One unit more than there are
-- lines is enough, since every command that lets the loop go on has read a line. A worker runs until
-- its context ends; its fuel is how long it is watched. The loops inside a command (the message
-- transfer, the lists of plugins) are by recursion on their lists.
--
-- Integers are the native ℕ where the source cannot overflow them for a message in memory; the
-- retry delay is an int64, with its wrap-around.
--
-- The queue is shared by goroutines: its theorems are about every sequence of steps of any number of
-- callers and the scheduler. A step is what runs between two waits; a `select` is one step for each
-- of its cases that is ready. The pool's methods are one step each, on clients that are references to
-- objects, which may be closed while they are in a channel. Deliver starts one goroutine for a domain:
-- what running them together makes of the world is a parameter, of which nothing is assumed, and the
-- theorems about deliverToDomain are about one of them.
--
-- Not modelled: the life cycle of the server of internal/server, the Reset of a session for another
-- connection, the reports of DMARC as XML and
-- mail, listeners, TLS itself, configuration files, logs and metrics, which are I/O or libraries.
pub mod Prelude
pub mod Text
pub mod Table
pub mod Message
pub mod Smtp
pub mod Base64
pub mod Plugin
pub mod Spf
pub mod Dkim
pub mod Dmarc
pub mod Session
pub mod Inbound
pub mod Queue
pub mod Outbound
pub mod Retry
pub mod Delivery
pub mod RateLimit
pub mod Security
pub mod DnsCache
pub mod Users
pub mod Tokens
