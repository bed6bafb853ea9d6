-- ===== src/Lib.antt =====
-- The release-notification service: users subscribe to GitHub repositories over HTTP, confirm by
-- email, and get an email when a release appears. This library models its Go services and proves
-- what makes the way of a subscription and of an event through them correct.
--
-- The parts, and the files that model them (paths from the repository's root):
--   Events          internal/events/events.go: envelopes, payloads, constructors and decoders.
--   Db              internal/infra/db/db.go: the tables. Db.Gorm is GORM over PostgreSQL as an
--                   interface, its laws are what the code relies on; Db.Reference is an instance.
--   Outbox          internal/infra/outbox/outbox.go: events written by the producing transaction.
--                   Outbox.Relay is relay.go; Order and Drain are about what it publishes and when it
--                   ends, Steps about what it does to the tables.
--   Github          internal/api/github: Client is github.go, handlers.go, response.go, error.go and
--                   decoders.go, Limits and RateLimit are ratelimit.go and auth.go, Cache is cache.go.
--   Handlers        internal/transport/http/handlers: Store is store.go; Text, Response, Subscribe,
--                   Confirm and Listing are subscription.go; the other files hold proofs.
--   Saga            internal/worker/orchestrator: Store, Orchestrator and Reaper are store.go,
--                   orchestrator.go and reaper.go; Spec is the abstract step relation of the tables,
--                   Consistency its invariant, Contract what the orchestrator and the reaper rely
--                   on of a store.
--   Broker          internal/infra/rabbitmq: Retry, Topology, Publisher and Connection are retry.go,
--                   topology.go, publisher.go and connection.go; of consumer.go, Loop is the consume
--                   loop, Consumer the settling half, and Settler its interface for handlers.
--   Command         internal/infra/mq/email.go: the command from the notifier to the mailer.
--   Notifier        internal/worker/notifier/notifier.go: events to commands, once each;
--                   Notifier.Publisher is broker.go.
--   Mailer          internal/worker/mailer/mailer.go; Mailer.Results is broker.go.
--   Grpc            internal/transport/grpc/mailer: mapping.go, server.go and client.go.
--   Redis           internal/infra/redis: cache.go and dedup.go over the commands of go-redis;
--                   Redis.Laws is about what the GitHub client and the notifier rely on.
--   Config          internal/utils/env.go; Config.Load and Config.Github are internal/config.
--   Smtp            internal/infra/smtp/client.go over go-mail.
--   Scanner         internal/worker/scanner: Store, Processor, Quota and Producer are the files of
--                   those names, Worker is worker.go and scanner.go; Fleet is several scanners over
--                   one database, as the calls of store.go that they make; the other files hold
--                   proofs.
--   Middleware      internal/transport/http/middleware/prometheus.go over the metrics of
--                   internal/metrics/metrics.go that it writes.
--   Programs        cmd/notifier/main.go, cmd/mailer/main.go and cmd/server/main.go: what they build
--                   of the components. Onboarding and Direct follow a new subscription through the
--                   services, over AMQP and over gRPC; Server is the transports of the GitHub client.
--   System          what runs beside each other on one database, as one sequence of calls.
-- A handler writes a subscription, its saga and its event in one transaction. The notifier turns the
-- event into a command, the mailer sends the email and reports the outcome, and the orchestrator
-- completes or compensates the saga; the reaper compensates sagas whose outcome was lost. The scanner
-- claims the repositories that are due, asks GitHub about each of them, and writes what it found with
-- the events for the subscribers; the relay publishes the rows of the outbox and deletes them.
--
-- How state and failure are modelled: a function that works on the database takes a database state
-- and returns its result with the next state; the mailer and the notifier work on a world of any
-- type, and the calls that they make of SMTP, Redis, the broker and timers are fields of a record.
-- Each call may fail, and what is required of one to succeed is a hypothesis. A nil error is `none`.
-- What a handler does with a delivery is a list of settlements, and what the consumer makes of one is
-- a list of effects on the broker.
--
-- Numbers: a TTL is the bit pattern of an int64 that wraps at 2 ^ 64, and attempts are int64 values
-- that wrap at the ends; durations are nanoseconds. A float64 of the scanner's quota is of any type
-- with the operations that the code uses. Loops are recursive in what they run through: the attempts
-- that are left, the tiers, the messages of a stream, the rows of a batch, the turns of the workers, or
-- the ticks. There is fuel in four places: in Prelude.Int, where the decimal text of n has n + 1, more
-- than its digits; in the loop of Handlers.Subscribe that looks for a free token, for which enough is
-- shown to be given by the number of the first free token; in the loop of Outbox.Relay, for which one
-- more than the number of the rows that wait is shown to be enough while deletes succeed; and in the
-- loop of Broker.Connection, for which one more than the number of the failing tries is.
--
-- Calls that run beside each other are taken one after the other, each as a whole: in System two scans,
-- or a scan and a request, are not interleaved within one call, though each of their transactions is a
-- step of its own in the specification. In Scanner.Fleet a call is one of store.go, so that the scans
-- of several scanners mix; the scanners read one clock, which does not go back.
--
-- Not modelled: logs; the latencies and the counters that no code reads; what only calls libraries,
-- as the routes of the HTTP server, the start and the stop of the programs, and the connections that
-- they open and close; and the load generator of cmd/loadtest, which is no part of the service.
-- rate.Limiter is the rate that was set last, and its Wait is a parameter.
-- encoding/json is a codec with a round-trip law; %q is modelled for plain text. The column payload of
-- the outbox is of type jsonb: what the table holds is the text that PostgreSQL makes of a value, a
-- function of Db.Gorm of which nothing is asked. A batch size of the relay is not negative.
pub mod Prelude
pub mod Events
pub mod Db
pub mod Broker
pub mod Outbox
pub mod Github
pub mod Handlers
pub mod Middleware
pub mod Command
pub mod Mailer
pub mod Notifier
pub mod Grpc
pub mod Redis
pub mod Config
pub mod Smtp
pub mod Scanner
pub mod Saga
pub mod Programs
pub mod System
