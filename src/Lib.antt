-- ===== src/Lib.antt =====
-- agent-mesh-platform: a mesh over which agents send each other messages. A hub accepts connections
-- and requests, each signed by its identity; a store (SQLite) holds identities, keys, groups,
-- grants and messages; a mailbox hands messages out under leases; an http server speaks for people.
--
-- How the parts interact. A request passes the hub's rate limit (Hub/RateLimit) and the check of
-- its signature (Hub/Signature) over the text of its params (Hub/RawParams); the check asks the
-- store for the approved key (Store/Keys, Store/Verify) and counts what it refuses (Hub/Refusals).
-- `mesh.connect` (Hub/Connect) gives an identity to one socket (Hub/Ownership), enters it in the
-- maps of who is online (Hub/Presence) and pushes what waits for it; a close or a missed pong
-- (Hub/Heartbeat) takes it out. The address that a request is taken to come from is read behind
-- trusted proxies (Hub/Observed). `mesh.send` (Hub/Send) asks the egress rules (Store/Groups), the
-- dormancy check (Hub/Dormancy) over the recorded addresses (Store/Sources) and the entitlement
-- (Store/Entitlement), puts the message into the mailbox (Mailbox), whose table the store owns
-- (Store/Messages), and pushes it; `mesh.receive` (Hub/Receive) fetches from the mailbox what no
-- push delivered. The reminder service (Reminder/Lifecycle) is a client of the hub that reconnects.
--
-- Which file models which part. The name of an operation is the source's, in snake case.
--   Store/Agents      packages/store/src/schema/agents.ts, and tenantOf of tenants.ts
--   Store/Grants      packages/store/src/grants.ts
--   Store/Groups      packages/store/src/groups.ts
--   Store/Keys        packages/store/src/keys.ts
--   Store/Verify      packages/store/src/verify.ts
--   Store/Entitlement packages/store/src/entitlement.ts
--   Store/Teardown    packages/store/src/teardown.ts
--   Store/Messages    packages/store/src/schema/hub.ts and outbox.ts
--   Store/Sources     packages/store/src/sources.ts
--   Store/Nonces      packages/store/src/nonces.ts
--   Store/Pairing     packages/store/src/ownership.ts
--   Mailbox           packages/mailbox/src/receive.ts, accept.ts and channel.ts
--   Hub/RateLimit     packages/hub/src/ratelimit.ts
--   Hub/Ownership     packages/hub/src/connection-ownership.ts
--   Hub/Refusals      packages/hub/src/refusals.ts
--   Hub/Signature     packages/hub/src/signature.ts
--   Hub/RawParams     packages/hub/src/raw-params.ts
--   Hub/Observed      packages/hub/src/observed.ts
--   Hub/Presence      packages/hub/src/presence.ts
--   Hub/Heartbeat     packages/hub/src/heartbeat.ts
--   Hub/Dormancy      packages/hub/src/dormancy.ts
--   Hub/Connect       packages/hub/src/rpc/connect.ts, and the close handler of main.ts
--   Hub/Send          packages/hub/src/rpc/send.ts
--   Hub/Receive       packages/hub/src/rpc/receive.ts
--   Reminder/Lifecycle packages/self-reminder/src/lifecycle.ts
--
-- State. A table is a list of rows in insertion order, and a statement is an operation on it
-- (Base/Rows): WHERE is a Boolean test, .get() the first row, .changes a count. ORDER BY is a
-- stable sort (Base/Order). A Map of the runtime is an association list (Base/Map). An operation
-- takes the tables and the clock and returns the tables and its answer. A transaction that throws
-- leaves its own file as it was; what it wrote into another file stays. A time is a number of
-- seconds; in the rate limiter, the dormancy check and `mesh.send` it is a number of milliseconds.
-- The reminder's connection is a machine whose events are what its socket, its timers and its
-- callers do, in any order.
--
-- Fuel and bounds. Every function is by structural recursion, but for the two loops of the scanner
-- of Hub/RawParams: these take fuel, more than the text is long, since each turn consumes a unit,
-- and the answer where it runs out. Numbers are unbounded: the code's are integers far below 2 ^
-- 53, but for the fractions of tokens in the rate limiter, which are counted exactly, in sixty-
-- thousandths.
--
-- What is an argument. The contracts package (fingerprints, preimages, capabilities, the life of an
-- upload grant), the runtime's cryptography and digests, its random ids, the length of a text and
-- the order and lower case of texts, in the dormancy check and `mesh.send` the grouping of
-- addresses (`prefixOf`, which Hub/Observed models over UTF-16 units), which sockets take a frame,
-- which writes of the two files succeed, and what parseInt makes of a limit.
--
-- What is not modelled: the other handlers of RPC and REST and their dispatch, the scheduler of the
-- reminders, the http server and its pages, logging, and the migrations of older tables.
pub mod Base
pub mod Store
pub mod Mailbox
pub mod Hub
pub mod Reminder
