-- ===== src/Lib.antt =====
-- The prediction market of services/, pkg/ and infra/: users trade tokens of the outcomes of a market,
-- each worth a dollar if its outcome wins.
--
-- Parts. The trading service (services/trading-svc) keeps one matching engine per market in memory,
-- with one orderbook per outcome; its order service locks a buyer's money or a seller's tokens,
-- passes the order to the engine and settles the trades that come back; its mint service sells
-- complete sets of tokens. The market service (services/market-svc) creates markets, moves them
-- through their life and settles them, cancelling their orders through the trading service. Both
-- work on the repositories (infra/memory, infra/postgres) under a transaction manager. The
-- authentication service (services/auth-svc) signs users in by a nonce and a wallet and checks
-- tokens and API keys; the ranking service (services/ranking-svc) reads leaderboards from a view of
-- the tables and adds up portfolios. Each service has a gRPC server. The gateway (services/gateway)
-- authenticates HTTP requests, limits their rate, and turns them into gRPC calls; its websocket hub
-- passes the services' events on to the clients that have subscribed to them.
--
-- Files.
--   Base         Boolean tests, lists, results, signed integers, machine integers, texts, association
--                lists
--   Domain       pkg/domain, pkg/decimal: the records, prices and quantities
--   Errors       pkg/errors/errors.go
--   Matching     services/trading-svc/internal/matching: Queue (order_queue.go), Search (sort.Search),
--                Book (orderbook.go), Engine (engine.go), Registry (registry.go)
--   Store        the repositories as a state, with the monad of a service's calls; Store/Cash
--                and Store/Rules say what a call does to the money of all users, Store/Quiet
--                lists the calls that do not touch it
--   Trading      services/trading-svc/internal/service: Orders and Cancels (order.go), Mint (mint.go)
--   Markets      services/market-svc/internal/service: market.go, with the life of a market in Lifecycle
--                and History, and Settlement (settlement.go)
--   Ranking      services/ranking-svc/internal/service and infra/postgres/ranking_repo.go
--   Auth         services/auth-svc/internal/service: auth.go (Auth, with the messages in Messages, the
--                tokens in Tokens and the user repository in Users; Laws, Genuine, Nonces, SignIn and
--                Replay have their properties), Keys (apikey.go, infra/postgres/apikey_repo.go)
--                and Sessions (infra/redis/session_store.go)
--   Rpc          services/*/internal/grpc/server.go: the enumerations and errors in Rpc, the calls in
--                Rpc/Trading, Rpc/Market and Rpc/Ranking
--   Http         services/gateway/internal/handler and middleware: Http/Trading (order.go), Http/Admin
--                (admin.go, market.go) and Http/Middleware (auth.go, rate_limit.go,
--                infra/redis/rate_limiter.go and the admin group of router.go)
--   Gateway      services/gateway/internal/ws: Hub (hub.go), Client (client.go, messages.go,
--                eventbus_bridge.go); Base/Texts has the texts that they take apart
-- A function of the code has its name here in the spelling of this language; where two files of the
-- code share a name, a prefix tells them apart (place_order and service_place_order).
--
-- Conventions. Identifiers and texts are numbers, since the code only compares them; 0 is the empty
-- string. Texts that the code takes apart (topics, messages, tokens, keys, queries) are lists of
-- characters. Timestamps of records are left out: no modelled branch reads them. The clock of
-- authentication and of the rate limiter is an argument. A decimal is a whole number of fixed
-- units, 10^-8 for prices and quantities and 10^-16 for money, so sums and products are exact, as
-- they are in the decimal package; the rounded quotient of an average price is a parameter. So are
-- the texts of decimals in messages, JSON, base64 and the hashes of authentication, the identifiers
-- that are drawn at random, the order in which a query of the leaderboard takes rows of the same
-- rank, and what a failed transaction leaves in the database. The balances of users are those of the
-- repository in memory, which keeps decimals exact; the columns of PostgreSQL are DECIMAL(20,8), and
-- what they round of money with more than eight places is left out. A method runs under its locks
-- and is one step. A pointer that two structures share is
-- followed where it matters: the engine writes to the caller's order, and place_order returns it as
-- it stands at the end; the repositories store copies.
--
-- Fuel. The loop of matchOrder runs on fuel, one more than the orders of the opposite side; that is
-- enough because every round but the last takes one of them off.
--
-- Not modelled. The SQL and Redis layers below the repositories and failures of their
-- connections, but for the delete of a session, which may fail; commits that fail; the calls of the authentication server, ListMarkets, and the HTTP
-- handlers of authentication, markets and rankings, which convert and forward; the writing side of a
-- websocket; the refresh of the ranking view; the List methods of the in-memory repositories and
-- their CancelAllByMarket; events published after the work is done.
pub mod Auth
pub mod Base
pub mod Domain
pub mod Errors
pub mod Gateway
pub mod Http
pub mod Markets
pub mod Matching
pub mod Ranking
pub mod Rpc
pub mod Store
pub mod Trading
