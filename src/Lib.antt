-- ===== src/Lib.antt =====
-- A model of the marketplace: the transactional checkout with its outbox, the relay that
-- publishes the outbox to RabbitMQ and the consumer that turns events into receipts; the
-- sessions with their rotated refresh tokens; the uploads to object storage; the workers of the
-- job queue; the rate limiter in Redis; the retry of transactions; pages behind a cursor; the
-- cache in front of the database; the orders in memory with their events, sockets and streams;
-- the HTTP edge of the checkout; and the edge cache of public assets.
--
-- The parts interact through tables. A checkout writes an order, its item, a job and an outbox
-- row in one transaction; the relay reads the outbox and publishes; the consumer receives what
-- was published, at least once; the workers take the jobs. The guards ask the sessions who a
-- request comes from, and the uploads ask which rows that user may see. The HTTP edge turns a
-- request into a checkout; a change of an order's status goes over the bus of events to the
-- sockets and streams of its order.
--
-- - Base: names of the library, Boolean tests, lists over native numbers, maps as lists of
--   entries; Base.Unary has texts for numbers in tests.
-- - Events: src/messaging/events.ts, eventIdFor is event_id_for, toOrderPlacedEvent is
--   to_order_placed_event; Events.Schema has OrderPlacedSchema, which parse_event applies.
-- - Money: the totals of src/checkout.ts, as doubles and as columns.
-- - Shop: src/entities, a table is a list of rows in the order of insertion.
-- - Checkout: src/checkout.ts, the function checkout is checkout with body as its try block;
--   Checkout.Tables has its SQL statements, and the other modules follow a history of checkouts.
-- - Messaging: src/messaging/publisher.ts and src/messaging/topology.ts; Messaging.Consumer:
--   src/messaging/consumer.ts, where applyOrderPlaced is apply_order_placed and the inner
--   function handle is handle.
-- - Outbox: src/outbox/relay.ts, relayOnce is relay_once, relayUntilEmpty is relay_until_empty
--   and startRelay is start_relay.
-- - Pipeline: the way of an order from its checkout over the outbox and the broker to its
--   receipt, by the modules of these parts.
-- - OrdersApi: src/outbox/orders-api.ts, the inner function handle is handle.
-- - Orders: src/orders and src/products; Orders.Catalog is ProductsService, Orders.StatusBus is
--   OrderEventsService with its subscribers, Orders.Service is OrdersService, and Orders.Clients
--   has the gateway and the controller's events and create.
-- - Problem: src/common/problem.ts, src/common/problem-json.filter.ts and
--   src/common/problem-json.middleware.ts.
-- - Edge: src/cdn/edge.ts, the request listener is handle; Edge.Assets: src/cdn/assets.ts,
--   hashedKey is hashed_key and publishAsset is publish_asset.
-- - Auth: src/auth/auth.service.ts and src/auth/password.ts; Auth.Token and Auth.Signing:
--   src/auth/token.service.ts, verify and sign; Auth.Guard: src/auth/auth.guard.ts.
-- - Storage: src/storage/limits.ts.
-- - Files: src/files/files.service.ts and src/files/files.types.ts; Files.Intent has intent,
--   Files.Service has parts, commit and downloadUrl; Files.Client: src/files/client-mpu.ts.
-- - Jobs: src/queue-worker.ts, claimOne is claim_one and runWorker is run_worker.
-- - Cache: src/redis/cache.ts, get, fill and read of CacheAside.
-- - Sessions: src/redis/session.ts, the methods of SessionStore, and sessionMiddleware is
--   session_middleware of Sessions.Cookie, which has readCookie, around session_of; several
--   browsers are requests of Sessions.Browser.
-- - Pages: src/common/cursor.ts, paginate is paginate.
-- - Retry: src/concurrency/lib.ts, withRetry is with_retry.
-- - RateLimit: src/redis/rate-limit.ts, the Lua script is sliding_window, check is check and
--   rateLimitMiddleware is rate_limit_middleware.
--
-- Conventions. An id of the database is the number that its digits spell. Money in a table is in
-- cents; a number of JavaScript is an Amount of Money, the nearest number of cents and how far
-- it is off: the product of two doubles in the checkout is not rounded, and what Postgres makes
-- of it is. Of the product it is used that it lies within half a cent of the product of the
-- cents, which holds while it fits a column numeric(12,2). The orders in memory compute with
-- whole amounts. A time is a natural number. A primary key has at most one row, so that an
-- UPDATE by id stops at the first where the proofs do not need more. A transaction is a function
-- on the tables whose exits other than COMMIT give back the tables it began with; overlapping
-- transactions appear as a sequence, with the rows that others hold given as locks. A CHECK or
-- foreign key that fails is one of the places at which a statement throws.
--
-- Parameters. What the source calls outside the repository is a parameter: SHA-1, the HMAC,
-- scrypt, the JSON Web Token library, JSON, what zod takes for a UUID and for a time, the
-- broker's answers, the answers of S3, the regular expressions of the edge, SHA-256, the
-- printing of numbers, the characters that trim removes, and what the database, the clock and
-- the random generator supply. Where a theorem relies on documented behaviour of these it says
-- so among its hypotheses: a broker returns an unroutable mandatory message before its confirm;
-- a token library checks the expiry; a listing of parts moves its marker on.
--
-- Fuel. relay_until_empty and run_worker take one unit for each pass or turn, and more than
-- there are rows left is enough when nothing fails; with_retry takes as much as there are
-- attempts; a walk over pages takes one more than there are items; list_all_parts takes one for
-- each page, and one more than the largest part number is enough.
--
-- Not modelled: demonstrations, seed, report, migrations, dependency injection and routes; the
-- checks of the environment, which are a schema of the library zod; the queue on Redis, which is
-- a wrapper of BullMQ, and the loader of product cards, which is one query; of the consumer,
-- hooks that run after the acknowledgement; of the uploads, the abort of an upload whose row
-- could not be inserted; of the orders, the validation of requests against the OpenAPI document.
pub mod Auth
pub mod Base
pub mod Cache
pub mod Checkout
pub mod Edge
pub mod Events
pub mod Files
pub mod Jobs
pub mod Messaging
pub mod Money
pub mod Orders
pub mod OrdersApi
pub mod Outbox
pub mod Pages
pub mod Pipeline
pub mod Problem
pub mod RateLimit
pub mod Retry
pub mod Sessions
pub mod Shop
pub mod Storage
