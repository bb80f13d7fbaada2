-- ===== src/Lib.antt =====
-- A server for the messages between the customers and the sellers of a shop.
--
-- A request handler is an `Action` of Db.antt: a function of the database that returns a value or
-- throws, with the database it leaves. `do` blocks chain the statements of a method in its order,
-- `throw_if` and `or_throw` are its guards, `transaction` undoes what a body wrote before it threw.
-- Identifiers and times are native natural numbers, texts are lists of UTF-16 code units, and the time
-- and the identifiers of a call come from its `Env`. One call runs at a time.
--
-- The files and the code that they model, under backend/src:
--   Config.antt: config/env.validation.ts, the settings that the modelled code reads.
--   Entities.antt and its children: modules/*/entities, a record for each table.
--   Db.antt: the tables of database/migrations/1716900000000-InitialSchema.ts, errors, transactions.
--     A constraint is checked by the insert that can meet it: the place and the key of a message,
--     the order of a conversation, the parties, the hash of a token, the lengths of the keys of a
--     message, the number and the columns of an MLS message (1717200000000-Phase8.ts). The lengths of
--     other columns are not.
--   Audit.antt: modules/audit/audit.service.ts. It writes over a connection of its own, so a row
--     stays when the transaction around it fails.
--   Tokens.antt: modules/auth/refresh-tokens.service.ts (`issue`, `rotate`, `revoke`), with the
--     live tokens and their hashes in Tokens/Table.antt and Tokens/Rotation.antt.
--   Users.antt: modules/users/users.service.ts.
--   Auth.antt: modules/auth/auth.service.ts and the handlers of auth.controller.ts.
--   Orders.antt: modules/orders/orders.service.ts.
--   Conversations.antt: modules/conversations/conversations.service.ts; E2ee.antt asks its
--     `assert_can_access` before it touches a conversation.
--   Messages.antt and its children: modules/messages/messages.service.ts. `send` is in
--     Messages/Sending.antt, `list` in Listing.antt, `markRead` and `softDelete` in Reading.antt,
--     `toDecrypted` in Decryption.antt; the other children are about what they do.
--   Realtime.antt: modules/realtime/realtime.service.ts; `emitted` is the log of what was sent.
--   E2ee.antt: modules/e2ee/e2ee.service.ts, with its proofs in E2ee/.
--   Moderation.antt: modules/moderation/moderation.service.ts, with its proofs in Moderation/.
--   Notifications.antt: modules/notifications/notifications.service.ts; `mailed` is the log of what
--     the mail server took. Its e-mail rows are kept when the transaction of the worker fails.
--   Outbox.antt: modules/outbox/outbox.worker.ts, which reads the events that `send` writes, hands
--     them to the publisher and notifies those who are offline; Outbox/Loop.antt is the loop with its
--     pauses, Outbox/Lag.antt the age of its oldest event. Indexing for search writes nothing to the database and its errors are caught, so it is
--     no step of `handle`.
--   Nats.antt: modules/nats/nats.service.ts, the publisher.
--   Metrics.antt: modules/observability/metrics.service.ts, the buffer and its flush.
--   Scanner.antt: the interface of a scanner of texts. Scanner/Content.antt is
--     modules/moderation/content-scanner.service.ts, over the regular expressions of Scanner/Regex.antt,
--     and fills the interface in Scanner/Untouched.antt.
--   Crypto.antt and its children: modules/crypto. Envelope.antt is envelope-crypto.service.ts with its
--     cache of data keys, LocalKms.antt providers/local-kms.provider.ts, Node.antt what both take
--     from Node, AwsKms.antt providers/aws-kms.provider.ts with the choice of crypto.module.ts;
--     Service.antt gives the interface that the messages take, Providers.antt fills it.
--   Privacy.antt: modules/privacy/privacy.service.ts, with its proofs in Privacy/.
--   Attachments.antt: modules/attachments/attachments.service.ts; Filenames.antt is its last function.
--   Search.antt: modules/search/search.service.ts over opensearch.service.ts in OpenSearch.antt. The
--     index is a state of its own beside the database.
--   Presence.antt: modules/presence/presence.service.ts.
--   RateLimit.antt: the limiter of both WebSocket servers, from ws-gateway/src/rate-limit.ts.
--   Gateway.antt: modules/realtime/realtime.gateway.ts; Gateway/Rooms.antt has its events as steps,
--     Gateway/Members.antt its handlers one by one.
--   WsGateway.antt: ws-gateway/src, at the root of the repository: the handlers of server.ts, the token
--     of auth.ts (Handshake.antt) and the events of nats-consumer.ts; Events.antt has the events of the
--     sockets as steps, Staying.antt those that leave a socket in a conversation.
--   Http.antt and its children: what a request passes before and after a service. Uuid.antt is
--     common/pipes/uuid.pipe.ts, Routes.antt the routes of the controllers with their guards and
--     bodies, Guards.antt auth/strategies/jwt.strategy.ts and the guards of roles and conversations,
--     Handlers.antt the methods of the controllers, Serving.antt a request from the token to the
--     answer with common/filters/http-exception.filter.ts, Cookies.antt the cookies of
--     auth/auth.controller.ts, Searching.antt search/search.controller.ts. Access.antt, Uploads.antt and
--     Requests.antt are about what comes of a request.
--   Histories.antt: sequences of requests of several of these parts over one database;
--     Messages/Marks.antt is about those that only mark a conversation.
--   Tests.antt: a small shop, and the theorems applied to it.
--
-- Code that the repository does not hold is a parameter: AES-GCM, random bytes, base64 and UTF-8
-- (Crypto/Node.antt, with their documented laws; the messages see only that decryption undoes
-- encryption and that a key has a name), the object store (`ObjectStore`), the search engine
-- (`Engine`, whose laws say that an answer matches the filter of its request, and that a deletion by
-- query misses what was put since the last refresh), how an identifier is written
-- (`print_id`), password hashing, case folding (Users.antt), the signing of tokens (Auth.antt, with
-- its promises in `IsSigner`), SHA-256 (`hash`), the random token of a session (`raw`), what the
-- package nats (`NatsPackage`), the mail server and the presence service answer (Outbox.antt), the
-- client of AWS (`AwsClient`, with its promises on one key in `IsAwsKms`), what PostgreSQL reads as an
-- identifier or a bigint (`read_id` and `read_number` of `App`), how class-validator counts characters (`characters`), whether a
-- failed transaction takes another statement (`usable`), and whether the query builder reads a limit
-- of 0 as none (`zero_is_none`). The messages take any scanner.
--
-- Every function is structural, but for the requests of the metrics, whose fuel is the number of the
-- measurements: each request takes at least one. Bounds are those of the code: 100 key packages in a
-- pool, pages of 100 messages and of 500 MLS messages, texts of `max_message_length`, 5001 data keys
-- in the cache, names of files of 120 characters, identifiers of rooms of 64, batches of 20 events,
-- requests of 20 measurements.
--
-- Redis is written out where a service keeps state there: counters and sets that expire. A socket
-- is a number, and the socket server takes one that closes out of its rooms.
--
-- Not modelled: connections that are lost, so that no statement of a send fails after its first
-- insertion; negative epochs of MLS messages; the measurements that the worker counts, the text of e-mails, the signing of
-- addresses and the mapping of the search index, which only call their SDK; the adapter of the
-- sockets over Redis, the settings of the stream and the acknowledgements of NATS; concurrent
-- transactions; the throttling of requests, health and the wiring of the framework; infrastructure,
-- the demo page and load scripts.
pub mod Base
pub mod Config
pub mod Entities
pub mod Db
pub mod Attachments
pub mod Audit
pub mod Tokens
pub mod Users
pub mod Auth
pub mod Orders
pub mod Conversations
pub mod Realtime
pub mod Crypto
pub mod Scanner
pub mod Messages
pub mod Metrics
pub mod E2ee
pub mod Moderation
pub mod Nats
pub mod Notifications
pub mod Outbox
pub mod Privacy
pub mod Search
pub mod Presence
pub mod RateLimit
pub mod Gateway
pub mod WsGateway
pub mod Histories
pub mod Http
pub mod Tests
