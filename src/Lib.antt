-- ===== src/Lib.antt =====
-- kh_common is a library of services for a web site: caches, an SQL query builder and connection, a
-- telegram bot, an HTTP gateway, error handling, token authentication, two middlewares, a client of the
-- Backblaze file store and a checksum. This library models the parts with logic of their own.
--
-- Files, and the code they model (paths from the repository's root):
--   Caching/Expiry - `__clear_cache__` of kh_common/utilities/__init__.py, which all caches share
--   Caching/Simple, Caching/Args - `SimpleCache` and `ArgsCache` of kh_common/caching/__init__.py;
--     Caching/Overlap for coroutine callers of `ArgsCache` that overlap
--   Caching/Kwargs, Caching/Aerospike - `KwargsCache` and `AerospikeCache` of the same file, with
--     Caching/Binding for the arguments by their names
--   Caching/Aggregate - `Aggregate` of the same file and its aggregators
--   Caching/Store - `KeyValueStore` of kh_common/caching/key_value_store.py; Overlap for its `_async`
--     methods, whose threads overlap
--   Caching/Counter - `Integer` of kh_common/caching/integer.py
--   Sql/Query - kh_common/sql/query.py: the data, Render for `__str__`, `build` and `params`, Build for
--     the methods that put a query together
--   Sql/Connection - `SqlInterface.query` and `Transaction` of kh_common/sql/__init__.py; Interface for
--     the building of the query and the conversion of its parameters before that
--   Telegram/Split, Telegram/Send, Telegram/Commands - `splitMessage`, `sendMessage` and `parseMessage`
--     of kh_common/telegram/__init__.py; Telegram/Queue for `run`, `recv` and `processQueue`
--   Gateway - `Gateway` of kh_common/gateway.py: Request for the request, Endpoint for a whole call
--   Exceptions - kh_common/exceptions: Refid for `BaseError`, Handler for `HttpErrorHandler`, Response
--     for `jsonErrorHandler`
--   Auth - Scope, Parse, Token, Key and User for kh_common/models/auth.py and kh_common/auth/__init__.py;
--     Middleware for kh_common/server/middleware/auth.py; Recent for both under the cache of `verifyToken`
--   Cors - kh_common/server/middleware/cors.py
--   Server - kh_common/server/__init__.py and kh_common/server/middleware/__init__.py: the middlewares
--     of an application put together
--   Backblaze - `B2Interface` of kh_common/backblaze.py
--   MessageQueue - `Receiver._recv` of kh_common/message_queue.py
--   Email - kh_common/email.py
--   Json - kh_common/utilities/json.py
--   Logging - kh_common/logging.py: what a log handler sends; Setup for `getLogger` and the agents
--   Bytes - `int_to_bytes` of kh_common/utilities/__init__.py
--   Crc - `CRC` of kh_common/crc.py: Linear and Table for the table, Reference for a division digit by
--     digit, Check for the two together, Detection for the errors that a check shows
--   Config - kh_common/config/constants.py
--   Utilities - small parts of kh_common/utilities, kh_common/caching/__init__.py, kh_common/safe_join.py
--   Timing - `Timer` of kh_common/timing/__init__.py
--   Helpers - kh_common/hashing.py, kh_common/map.py and `flatten` of kh_common/utilities/__init__.py
--   Prelude - Python's dict, texts as lists of code points, outcomes of calls, and their lemmas
--   Tests - the theorems at concrete inputs
--
-- The parts meet as in the code: the caches and the key-value store share the clearing; the auth
-- middleware calls the token verification and answers with the error handler's response, as the cors
-- middleware does, and the server application runs a request through both; sending splits its text
-- with the splitter; Sql/Connection/Interface runs what the query builder builds; a logged exception
-- goes through Json; the Aerospike cache calls the key-value store; Auth/Token/Cached puts the token
-- verification under the cache that decorates it.
--
-- Conventions. A call that may raise is an `Outcome`; state is passed explicitly; each reading of the
-- clock is an argument, in whole ticks. Third-party code (the aerospike client, the database driver,
-- the HTTP clients, base64, ed25519, JSON, urlparse) is a parameter, and what a theorem assumes of it
-- is a named record of laws. Values are never shared, so Python's `copy` is the identity.
-- The middlewares and the checks of a user call the token verification under its cache: Auth/User and
-- Auth/Middleware for any function in its place, Auth/Recent and Server for that of Auth/Token/Cached.
-- There a call that finds no entry runs the function at the time of the call.
--
-- Loops. `splitMessage` runs on fuel, the length of the text and one more, which is enough since each
-- round takes at least one character for a positive limit, and `int.bit_length` on the number itself,
-- which each round halves. Coroutines that overlap are sequences of events, one for each bit that runs
-- without an await or a call of the client, and the loops of the bot are such sequences. Every other
-- loop has a bound in the source (attempts, retries, the elements of a list) and is a recursion on it.
--
-- Not modelled: overlapping calls of KwargsCache and AerospikeCache, and those of `get_many_async` of
-- the key-value store; a switch of threads inside a step between two client calls; floating-point
-- times; which log calls the other modules make, and the warning for long queries; credentials; the
-- pydantic declarations of kh_common/models, which have no logic.
pub mod Prelude
pub mod Crc
pub mod Json
pub mod Logging
pub mod Caching
pub mod Sql
pub mod Telegram
pub mod Gateway
pub mod Exceptions
pub mod Auth
pub mod Cors
pub mod Server
pub mod MessageQueue
pub mod Email
pub mod Bytes
pub mod Config
pub mod Utilities
pub mod Timing
pub mod Helpers
pub mod Backblaze
pub mod Tests
