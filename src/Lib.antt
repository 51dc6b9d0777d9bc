-- ===== src/Lib.antt =====
-- Verification of event-driven, a Go library that routes CloudEvents from message brokers and HTTP
-- to typed handlers.
--
-- The parts of the program and their files here:
--
-- * Messages and their decisions (pkg/event): Event.Message is the Message of message.go with its
--   Delivery; ack, nack and discard are its methods, and decide their common part, which lets only
--   the first decision through. Event.DeadLetter, Event.Correlation and Event.Tracing are
--   deadletter.go, correlation.go and tracing.go. Error is the error types of all packages as one
--   tree, with errors.Is and errors.AsType as walks of it. Event.CloudEvents is the SDK's event
--   type, which is a parameter: a record of its accessors and of the laws of its documentation.
-- * The router (pkg/eventmux): Mux.Types has its records, Mux.Registration is New, Handle, Use,
--   UsePreflight, Start and Stop; Mux.Handle is handle, findMatchingRoute, processAndHandle and
--   invoke, Mux.Failure is classify, fail, settle and recoverOutsideHandler of failure.go, with the
--   dead-letter copy, Mux.ResultEvent is publishResult, and Mux.Store the metadata store of
--   pkg/eventmux/metadata. Mux.Effects is the state in which one
--   message is handled, and the monad of the steps: each returns or panics, as each call in Go may.
--   The trace of a state lists what the router did, the latest first.
-- * Middlewares and filters (pkg/middleware, pkg/filter): Retry is the backoff middleware,
--   Middlewares the error skipper and the validator, Filters the filters on type, source, all of
--   several, and JMESPath. They are functions on the router's own types of handlers and filters.
-- * The lifecycle of a service (pkg/kit/lifecycle): Lifecycle is Group and Closer.
-- * Transports (pkg/transport): Envelope maps an event to attribute pairs and back and is used by
--   all of them; Envelope.Attributes says what an event keeps on its way through it, for the round
--   trips in Sns, Pubsub and Nats. Http is eventhttp, with its Request (extractCloudEvent), Server
--   (the subscriber), Token (the token cache), Client (the HTTP client) and Forward (the
--   publisher). Sns is the publisher of aws/sns, Sqs the subscriber of aws/sqs, Identity the
--   caller's identity of aws. Pubsub is gcp/pubsub: its codec, Receiver (the subscriber), Publisher
--   and Health. Nats is nats/codec, with the subscriber and publisher of Core NATS in Nats.Core and
--   Nats.Publisher; JetStream nats/jetstream: its deliveries, Consumer (the subscriber), Publisher
--   and Health; Natsconn is nats/natsconn, and Redact internal/redact, which keeps the credentials
--   of its URLs out of its errors. A subscriber hands the router Messages whose Delivery tells it
--   what the broker can do: Sqs.Deliveries and JetStream.Deliveries say what it is told, and
--   Nats.Deliveries joins the router and the subscriber.
--   Subscriptions is the contract of Start and Stop between the router and the subscribers.
--
-- How the code is read. A string is its list of bytes, a nil value of an optional kind is `none`, a
-- Go map is the list of its entries in the order of an iteration, and an error is a value. Code that
-- is not part of the library (handlers, publishers, brokers, the CloudEvents SDK, the standard
-- library's parsers, clocks and random numbers) is a parameter, mostly a function on a state of the
-- outside world; where the router calls it, it may panic. Numbers of 64 bits that can overflow are
-- reduced modulo 2^64 where the code computes them. Where the code holds a lock, the locked region
-- is one step. The subscribers of Pub/Sub and JetStream run loops beside their owner's calls: their
-- operations are cut at each wait, and between a check and the report that follows it without a
-- lock; Pubsub.Receiver.Steps and JetStream.Consumer.Steps are the relations of all
-- interleavings of the parts. Runs is what the two keep of the loops, by number.
--
-- Loops. Those over lists are recursion on the list. The retry loop recurs on the retries that are
-- left, which the loop compares with its counter. The worker of a queue runs for ever: its turns are
-- a list, of what its context did in each, so that its behaviour is that for all such lists.
--
-- What is not modelled: the text of log records and their attributes (the router's records are in
-- its trace by name), the contexts of Go but for what the code reads of them, the values of time
-- stamps, and what goroutines do within a locked region. Publishers take the event as
-- InjectTraceFromContext leaves it. Filters and handlers are assumed not to write to the message
-- that they are given. A panic that the code does not recover ends the process, so components,
-- routers and clients of the transports return. The stack that a recovered panic carries to the log
-- is left empty. A verb %q is printed for texts without bytes that Go escapes, and the status code
-- that an error of the token request prints is left out. The glue to fx (pkg/kit/fxmux), the names
-- of log attributes (pkg/kit/logfields), the loading of the AWS configuration and the example
-- programs are not modelled.
pub mod Prelude
pub mod Error
pub mod Event
pub mod Mux
pub mod Retry
pub mod Lifecycle
pub mod Http
pub mod Middlewares
pub mod Filters
pub mod Envelope
pub mod Sns
pub mod Sqs
pub mod Identity
pub mod Nats
pub mod Runs
pub mod Pubsub
pub mod JetStream
pub mod Redact
pub mod Natsconn
pub mod Subscriptions
pub mod Tests
