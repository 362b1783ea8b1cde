-- ===== src/Lib.antt =====
-- A centralised exchange: the order book with price-time priority, the engine that locks, moves and
-- gives back the balances of its users around it, and the gateway: its routes, its rate limiter, and
-- the two readers of the engine's execution events, the ledger worker and the WebSocket hub.
--
-- The parts. `rs-engine/src/engine.rs` reads events from a Redis stream and dispatches each to a
-- handler of `rs-engine/src/handlers`. A handler changes the one `EngineState` (balances, three
-- order books, a counter), and sends a reply and execution events. An order is checked, its funds
-- are locked, it is matched in its book, each trade moves balances (`apply_fill`), and what is not
-- needed is unlocked. On start the stream is replayed through the same handlers without a publisher.
--
-- Which file models what:
--   Base               texts, numbers, `Outcome` (a value or a panic), `u64` arithmetic, HashMap as
--                      an association list, BTreeMap as an ascending one
--   Shared             rs-shared/src/models: balances, fees, requests, replies, events
--   Book/Types, State  rs-engine/src/orderbook/types.rs, and the state and readers of book.rs
--   Book/Matching      the loops of `add_order_with_id` and `execute_market_order_with_id`: the
--                      inner one is `consume_level` (one pass: `fill_front`), the outer `match_loop`
--   Book/Orders        `add_order_with_id`, `execute_market_order_with_id`, `cancel_order`,
--                      `can_fill_quantity`
--   Book/Quote         `quote_cost_for_market_buy`, `fillable_qty_for_market_sell`
--   Book/WellFormed    when the levels and the map of orders agree
--   Book/View          a side of the book as the list of its orders, the best first
--   Book/Priority      the specification: an incoming order meets that list from the front
--   Book/Loop, Fill, Resting, Best   the loops do that
--   Book/Orders/*      the two matching calls, what rests afterwards (Rest, Enqueue), cancels, fill
--                      or kill (Fok, Available), the slippage bounds (Bounds), the spread (Uncrossed)
--   Book/Quote/*       the quotes against the fills the same order gets
--   Engine/State       rs-engine/src/state.rs
--   Engine/Outputs     rs-engine/src/handlers/mod.rs
--   Engine/Fill        `apply_fill` and the locking of balances
--   Engine/Order       `handle_order`; its arms are Order/Limit and Order/Market; Order/* has what
--                      an order keeps (Kept, Placed, Conserved), that it returns (Ready, Returns,
--                      Arms), that its outputs alone depend on the publisher (Silent), and how many
--                      identifiers it takes (Next, Counted)
--   Engine/Cancel      `handle_cancel`
--   Engine/Account     rs-engine/src/handlers/account.rs and admin.rs
--   Engine/Queries     rs-engine/src/handlers/market.rs and the queries of order.rs
--   Engine/Dispatch    `dispatch_event`, `replay_events_since` and the event loop of engine.rs;
--                      Dispatch/* has single events (Returns, Counted) and whole streams (Replay,
--                      Total, Recovery)
--   Engine/Start       rs-engine/src/snapshot.rs and the start of `run_engine_with_db`; Start/Recovers
--                      compares it with the engine that stopped
--   Gateway/Ledger     `run_worker` of rs-gateway/src/ledger/worker.rs: the tables of
--                      rs-gateway/migrations/0003, what an event writes (`apply_event`), and in
--                      Ledger/Worker the batches and the checkpoint, with what becomes of a
--                      transaction as `Fate` (Worker/Once where none of its statements fails,
--                      Worker/InOrder where some do); Ledger/* has the balance of the entries
--                      (Balanced, Sums) and their agreement with the engine (Agrees)
--   Gateway/Hub        rs-gateway/src/ws/hub.rs; Hub/* has who is in which set (Members, WellFormed,
--                      Valid), who gets a message (Delivery), and what a message leaves (Quiet)
--   Gateway/Session    `handle_ws_session` of rs-gateway/src/ws/session.rs; Session/* has what a
--                      client can make itself (Grants), all interleavings (Reached) and the end of a
--                      connection (Ended)
--   Gateway/Listener   `run_listener` of rs-gateway/src/ws/listener.rs
--   Gateway/Limiter    rs-gateway/src/rate_limit: the token buckets and the choice of a limiter;
--                      Limiter/* has bursts (Burst), clients (Isolated) and idle buckets (Sound, Idle)
--   Gateway/Dto        rs-gateway/src/dto/mod.rs: the validation of funding and of orders
--   Gateway/Replies    rs-gateway/src/redis/listener.rs: `send_and_wait` in two halves, and the
--                      listener; Replies/Correlated has which reply a request gets
--   Gateway/Routes     rs-gateway/src/routes: orders.rs, balance.rs and orderbook.rs, each route as
--                      its request to the engine and its answer; Routes/* has valid orders at the
--                      engine (Accepted), who sees an order (Private), a request for funds from the
--                      client to the engine and back (Funding), the histories of trades.rs and
--                      ledger.rs (History), and a trade from the worker to them (Recorded)
--   Gateway/Admin      the reset of rs-gateway/src/routes/admin.rs
--   Gateway/Auth       rs-gateway/src/auth: the tokens (jwt.rs), the hashes (hash.rs) and the users;
--                      Auth/Routes has `signup` and `signin` of rs-gateway/src/routes/auth.rs with
--                      their bodies, Auth/SignedIn what a token opens, and Auth/Accounts an account
--                      from the sign-up on
--   Tests              in Base, Book, Engine and Gateway: the components run on small inputs
--
-- How the code is read. A `u64` is a natural number, and its arithmetic wraps (`add64`, `sub64`,
-- `mul64`), as in a release build; a debug build panics there. Subtraction is the one on natural
-- numbers where the code saturates or subtracts a minimum. A failed `expect` is the outcome `panic`.
-- The two inner loops of the book are the same code and one definition; the outer loop takes its
-- price test as an argument. Loops run on fuel: one more than the orders that rest on the other
-- side is enough, since each pass but the last removes one; the theorems prove that no loop runs
-- out. The order of a hash map is that of an association list, where Rust leaves it open. Case
-- conversion is that of ASCII letters. A mutable reference into a map is a function applied to its
-- entry, which is made where it is missing. An `i64` is an integer, and `as i64` takes the upper half
-- of `u64` to the negative ones. A table is the list of its rows; times and serial numbers are left
-- out. A transaction that is not committed leaves nothing, and one with a failed statement is not,
-- although the code gets no error from its commit. Each operation of the hub is one step,
-- between which those of the other connections and the listener can come; the code takes the locks of
-- the three maps one after the other. What has been sent to a client is the queue of its session.
--
-- Parameters. `Floats` are the `f64` operations of the slippage bounds, `Decoder` is
-- `serde_json::from_str` on the engine's messages; in the gateway `decode`, `encode` and
-- `verify_token` are serde and the verification of tokens, and uuids and times are arguments. Sends
-- succeed. Each statement of a transaction, and its commit, may fail. The stream, as the worker reads it, is
-- `Stream`, with what Redis documents of XREAD.
--
-- The `f64` of the rate limiter is another record of operations, and what IEEE 754 says of them is
-- a hypothesis, as is that an hour fills a bucket. Times are numbers of nanoseconds.
--
-- In the authentication, `Jwt` and `Argon2` are the two libraries, with what they document in
-- `IsLawful` and `IsSound`: a token reads as what was encoded until a minute after its end, and a hash
-- has its password and fits its column. What the database, the tasks, the clock and chance give a
-- request is its `Circumstances`. White space is Unicode's, and its alphanumerics are a parameter.
--
-- Not modelled: the metrics, signals, the wiring of the gateway in its main.rs, and the Redis commands
-- and frames on the wire.
pub mod Base
pub mod Shared
pub mod Book
pub mod Engine
pub mod Gateway
