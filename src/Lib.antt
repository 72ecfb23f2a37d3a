-- ===== src/Lib.antt =====
-- wager-ledger: a ledger of wallets in which a game provider's wagers move money exactly once.
--
-- The program and its parts. A request (HTTP or a queue message) becomes the input of a use case in
-- internal/application/usecase. A use case runs in one SQL transaction: it reads and writes through
-- the repositories of internal/infra/postgres, and decides with the domain objects of
-- internal/domain. Every change of a balance writes the wallet's row under an optimistic lock, one
-- entry in the wallet's ledger, the outcome of the wager transaction, and events in an outbox, which
-- the publisher sends to a queue. A worker resumes the operations that wait for the one they refer
-- to. HTTP requests pass a middleware that asks for a token of the identity provider.
--
-- Which file models what.
-- - Base: signed integers over the native numbers, int64 with its wrap-around, byte strings.
-- - Errors: the sentinel errors of all packages as one type, and the result type.
-- - Money (with Currency and Amount): internal/domain/money/money.go. `Add` is `add`,
--   `FromDecimalString` is `from_decimal_string`, and so on in the source's words.
-- - Wallet: internal/domain/wallet/wallet.go. A method returns the wallet as it stands after the
--   call, beside its error.
-- - Wagertx (with Kinds): internal/domain/wagertx/wagertx.go, the constructors and the state machine.
-- - Ledger: internal/domain/ledger/ledger.go. Event: internal/domain/event/event.go.
-- - Postgres: the tables of migrations with their constraints, and each method of a repository as a
--   function of the tables (`FindByID` of the wallets is `find_wallet`, `Save` is `save_wallet`), in
--   Wallets, Transactions, Entries, Outbox and Inbox. Queries has WHERE, ORDER BY and LIMIT; Pending
--   the lists of pending references; Pages the pages of the ledger, `ListByWallet`, with their
--   cursors; Leases is about sequences of calls of `Claim`, `MarkPublished` and `MarkFailed`.
-- - Usecase: the use cases as actions on a world, in Monad. A world holds what the transaction sees
--   (`db`) and what is committed (`base`). Before every statement the environment's `others` is
--   applied to both: what other transactions commit in between, as READ COMMITTED shows it. Process
--   has `Execute`, `ExecuteWithin` and `attempt`; Retry has the rounds; Outcomes has
--   `pendingReference`, `reject` and `settle`; Resume has `ResumePendingReference` and
--   `ExpirePendingReference`; OpenWallet and Reconcile have the other two use cases; Worker has the
--   rounds of reference_retry_worker.go.
-- - Sqs: internal/infra/sqs/consumer.go, `decodeEnvelope`, `handle` and the loop of `run` over the
--   messages of one receipt. The inbox, which a message enters in the transaction that processes
--   it, makes the second delivery of a message a duplicate.
-- - Publisher: internal/infra/outbox/publisher.go. Its state is the tables and the messages that have
--   come to the queue; an answer of the queue may be lost behind the message.
-- - Idp: the identities and bearer tokens of internal/infra/idp/middleware.go and the cache of keys of
--   jwks.go, `Key` and `refresh`. Between its two readings of the cache `Key` holds no lock, and other
--   calls change the cache as they like (the record `KeyCall`).
-- - Http: internal/infra/http, a handler as a function of the context, the request and the server's
--   state, with `Authenticate`, `RequireRole` and `chain`; Wagering and Wallets have the handlers and
--   routes of wagering.go and wallets.go.
-- - Books: the proofs about the balances and the ledger. Drift is the relation of two states of the
--   tables that says how far balances and sums of entries have moved apart, and that nothing recorded
--   is lost (Kept); Writes, Inserts and Received give the drift of each statement, Runs the rule for a
--   sequence of actions, and Outcomes, Movements, Attempts, Execution, Resumption, Opening and Rounds
--   follow the use cases and the worker through it. The consumer and the HTTP route rest on these.
-- - Examples: small runs, at which the theorems are applied.
--
-- Parameters. The supply of identifiers (github.com/google/uuid), the clock, SHA-256, the JSON text of
-- a string and the other transactions are fields of the record `Env`. The theorems on the books
-- suppose of the other transactions only that they keep the books themselves (`KeepsBooks`), and
-- that the BIGINT columns hold int64. What encoding/json makes of a body is an argument of the
-- handlers and of the consumer. The record `Worker` has the order in which the goroutines of a round
-- end, `Relay` the queue's answers, the clocks and the other processes beside the publisher, `Codec`
-- the layout RFC3339Nano and base64, and `Tokens` golang-jwt and, for each call of `Key`, the times, the
-- identity provider's answer and what other calls make of the cache. The rows that a concurrent `Claim` has locked are an argument of `claim`.
--
-- Bounds. `Execute` makes 5 rounds, as the program is configured by its constructor; the theorems on
-- its rounds are by induction on their number. `%d` is printed on as much fuel as the number itself,
-- which is more than its digits. The loops of the worker and of the publisher take a number of rounds,
-- and what is stated of them holds for every number. Whoever reads the pages of a ledger has as many
-- pages as it has entries, and one more, as fuel, which is enough. Integers that Go holds in an int64
-- wrap around in the model as well, except the counters of retries and attempts, which only count up
-- from 0.
--
-- Not modelled: the HTTP server with its health checks and logs, the decoding of JSON and the messages
-- of errors, the timers (of the worker, the publisher and `StartAutoRefresh`), metrics, logs and
-- configuration; these only call libraries. That a context ends is modelled where a loop tests it, not
-- within a statement. That BEGIN and COMMIT succeed is assumed, connections do not fail, identifiers
-- need not be UUIDs, and a text in a column is the text that was written. A time in a column is cut
-- down to whole microseconds, which TIMESTAMPTZ keeps (`timestamptz`); the time in a cursor is one of a
-- column, and is compared as it is.
pub mod Base
pub mod Errors
pub mod Money
pub mod Wallet
pub mod Wagertx
pub mod Ledger
pub mod Event
pub mod Postgres
pub mod Usecase
pub mod Sqs
pub mod Publisher
pub mod Idp
pub mod Http
pub mod Books
pub mod Examples
