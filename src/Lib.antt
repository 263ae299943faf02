-- ===== src/Lib.antt =====
-- The Arca Go SDK (github.com/arcaresearch/arca-go-sdk): models of its core and theorems about them.
--
-- The SDK is a client of the Arca API. Every call goes through the HTTP client (client.go), which
-- turns the answer's envelope into a value or a typed error (errors.go), repeats reads that failed on
-- the way, and asks its owner for a new credential or a step-up token when the server refuses the one
-- it has. Live data comes over one WebSocket connection (websocket.go), which is kept up, rotated
-- before the infrastructure cuts it, and subscribed to what the callers own; calls over it wait on
-- channels for their answers. The wallet account stream (cash_v9_stream.go) is a second, one-way
-- connection, of server-sent events. Histories are kept in a small cache (cache.go) and cut
-- into buckets (ladder.go). A mutation returns a handle (operation.go), which submits once and then
-- waits; whether an order was executed is decided from evidence (order_execution.go). The balances a
-- product shows are composed from one snapshot of a wallet (money_figure.go). streams.go, exchange.go
-- and the other files of the API surface build requests and decode answers on top of these.
--
-- Which file models what:
--   Client/Json, Client/Challenges, Client/Errors, errors.go: the error types, what is read from their
--   Client/Mapping                                 details, mapAPIError, errors.As
--   Client/Envelope, Client/Envelope/Unwrap        client.go: apiResponse, unwrap
--   Client/Types, Client/Http and its children     client.go: requestOnce, requestWithRetry,
--                                                  executeWithAuthRetry, runStepUpRetry, retryDelay
--   Ws/Manager                                     websocket.go: the connection state, a function for
--                                                  each section under m.mu
--   Ws/System, Ws/System/Ownership                 websocket.go: connectLoop, dialAndServe,
--                                                  serveHandoff, warmAndServe and the timers
--   Ws/Counters, Ws/Frames, Ws/Subscriptions       websocket.go: the owner counts, acquire and release
--                                                  of each kind, the frames, resubscribe
--   Ws/Requests                                    websocket.go: pending, resolvePending,
--                                                  rejectPendingLocked, the ends of the waits
--   Ws/Delivery                                    websocket.go: checkGap, and handleMessage as far as
--                                                  it concerns the numbers of deliveries
--   CashStream                                     cash_v9_stream.go
--   Cache                                          cache.go
--   Ladder                                         ladder.go, without the float division
--   Money/Micro, Wallet, Types, Parties, Legs,     money_figure.go, every function; the other children
--   OwnLegs, Change, Totals, Added, Revalue,       hold the theorems
--   Compose
--   Execution and its children                     operation.go, order_execution.go and
--                                                  execution_receipt.go: handles, evidence, receipts
--   Projection and its children                    accounting_pending.go: the book with the executions
--                                                  that the ledger has not recorded
--   Cosign and its children                        cosign.go, venue_hop.go and the checksum of recovery.go:
--                                                  what a co-signature commits to, and when it is made
--   Prelude                                        Go maps, integers and tests that all of them use
--   Tests                                          the properties at concrete inputs
--
-- How the state corresponds: a Go struct is a record with the fields that the modelled code uses, under
-- their names in snake case; a method that changes it is a function from the record to the record and
-- the result, `requestWithRetry` being `request_with_retry`. What a client sends is kept as a log,
-- latest first, so that theorems can count it. A server, a token provider, a step-up handler and the
-- JSON decoder are functions that may answer by what was sent before, so the theorems hold of each.
--
-- Concurrency: of the connection manager every section under the lock is one step, and `run` takes any
-- sequence of steps of any goroutine, call or timer. The pending requests, whose answers are sent outside
-- the lock, and the wait for an execution, whose events arrive while a batch is examined, are sequences
-- of steps in the same way. The HTTP client, the subscriptions and the streams are modelled one call at a
-- time: what another goroutine does during a call is left out.
--
-- Bounds and fuel: `requestWithRetry` recurses on the attempts that are left, from maxRetries = 2. The
-- loops that run until the context ends (connectLoop, RunCashV9WalletAccountStream) are run over an
-- explicit list of what happens, of any length, so no fuel can run out. Where fuel is left, in the
-- eviction of the cache and in Boundaries, the code's call gives as much as the loop can take turns.
-- Natural numbers stand for Go's int where the code only counts; the delivery numbers keep the
-- wrap-around of int64. Delays are numbers of the unit that the file names.
--
-- Not modelled: net/http, net/url, encoding/json, bufio and the WebSocket library, which are parameters;
-- the text of errors; the listeners of the WebSocket manager and the routing of messages to them; and
-- the API surface: the streams of streams.go and order_stream.go, and the exchange, funding, custody,
-- order and market files, most of which build a request and decode its answer. time.Parse,
-- strings.EqualFold, SetString of math/big, Keccak, the curve signature and the structs of
-- encoding/json are parameters of the modules that use them; the fractions of math/big are written out
-- over native numbers.
pub mod Prelude
pub mod Cache
pub mod CashStream
pub mod Client
pub mod Cosign
pub mod Execution
pub mod Ladder
pub mod Money
pub mod Projection
pub mod Ws
pub mod Tests
