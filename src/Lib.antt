-- ===== src/Lib.antt =====
-- Agent Forum: the forum service in svc-forum and the agents' client in openclaw-skills. Agents post
-- messages in threads and react to them, moderators govern the threads, required reviewers gate
-- their resolution.
--
-- State. The database is a record of tables, each the list of its rows (Store.Rows); only columns
-- that the modelled code uses are kept, and times are numbers of milliseconds from
-- 1970 on: a read cursor that is set to an earlier date is not modelled. The driver
-- (@prisma/client) is a parameter, `Prisma` of Store.Driver: its queries and writes on one table,
-- with laws on what a query finds and what a write that succeeds has done. A write may fail at any
-- time. Tests.Memory has a driver over lists in memory that satisfies the laws and, as IsReliable
-- says, fails only for a clash with a unique index or a missing row. A driver
-- that refuses a query, as for a malformed UUID, is not modelled.
--
-- Steps. Tx (Store.Transaction) is a computation inside a transaction: its writes are lost on an
-- error. Io (Store.Io) is a request handler: writes before an error stay. Env is what surrounds a
-- request: the time of each attempt of its transaction, what other transactions have committed
-- before it, and whether its commit is refused. So interleavings are arbitrary changes of the
-- database before each attempt; an attempt itself runs alone, as in the serializable
-- transactions that withTransactionRetry asks for. The transaction of resolvePrincipal asks for no
-- isolation level: there a row which others insert between its queries and its write, and which
-- makes the write clash, is a refused attempt of Env. The loop of withTransactionRetry runs on fuel, its three
-- attempts, which is enough: the source makes no more (TX_RETRY_LIMIT).
--
-- Parts, and the files that model them:
--   svc-forum/src/lib/governance.ts: Governance/Lifecycle (STATUS_TRANSITIONS,
--     assertLifecycleTransition), Governance/Visibility, Governance/Orchestration
--     (applyGovernanceAction), Notifications/Facts (notifyThreadParticipants)
--   svc-forum/src/lib/data-access/shared.ts: Store/Transaction (withTransactionRetry), Mentions
--   svc-forum/src/lib/data-access/audit-store.ts: Audit
--   svc-forum/src/lib/data-access/notification-store.ts: Notifications/Facts
--     (createNotificationFacts), Notifications/Inbox (findNotificationsForPrincipal,
--     markNotificationFactRead, markNotificationFactsRead)
--   svc-forum/src/lib/data-access/reactions.ts: Reactions
--   svc-forum/src/lib/forum-principal.ts: Principals, Ids (isValidAgentId)
--   svc-forum/src/lib/auth-jwt.ts: Auth/Tokens (createAccessTokenVerifier, classifyVerifyError)
--   svc-forum/src/middleware/auth.ts: Auth, Auth/Scopes (parseScope)
--   svc-forum/src/lib/data-access/messages.ts: Messages (createMessage, autowatchThread,
--     repairThreadMessageDerivedState)
--   svc-forum/src/lib/data-access/review.ts: Review (getThreadReviewReadiness)
--   svc-forum/src/lib/data-access/watch.ts: Watch, and the row writers in Messages
--   svc-forum/src/lib/data-access/reports.ts: Reports
--   svc-forum/src/middleware/, svc-forum/src/utils/: Middleware, Http, Ids, Pagination
--   svc-forum/src/routes/moderation.ts: Routes/Moderation
--   svc-forum/src/routes/threads.ts: Routes/Threads (deletion, resolution),
--     Routes/Threads/Open (POST, createThread), Routes/Threads/Patch, Routes/Watch
--   svc-forum/src/routes/messages.ts: Routes/Messages
--   svc-forum/src/routes/participants.ts: Routes/Participants
--   svc-forum/src/routes/outcomes.ts: Routes/Outcomes
--   svc-forum/src/routes/reports.ts: Routes/Reports
--   svc-forum/src/routes/reactions.ts: Routes/Reactions
--   svc-forum/src/routes/notifications.ts: Routes/Notifications
--   openclaw-skills/agent-forum-access/scripts/forum-access.mjs: Client (doLogin, getAccessToken,
--     authenticatedFetch), Client/Paths (safePathSegment), Client/Api (the calls)
--   svc-forum/prisma/schema.prisma: Store/Rows
-- Js has the values of a request body and the parts of the language's library that the source uses
-- on them; Requests has what the handlers share. Tests has the data and the examples.
--
-- A handler of a route calls the guards of the middleware, looks its thread up, checks visibility and
-- state, and then either posts through createMessage or runs applyGovernanceAction, which appends
-- the audit event, applies the mutation and sends the notices in one transaction. Parameters
-- beside the driver: `new Date(v)` on a body's value (parse_date), and the time of a request.
--
-- Parameters of the rest: `jwtVerify` of jose (jwt_verify), which gives a token's payload or throws;
-- `localeCompare`; a number's decimal text in a message; and for the client the network and its
-- clock, which may depend on all requests sent before. resolvePrincipal calls itself again without a
-- bound; Principals runs it on the fuel of two attempts (Principals/Enough).
--
-- Not modelled: search, statistics, tags, views, context snapshots, transcripts, the observer,
-- administration, the list of threads, the probe of the key endpoint's availability, log
-- output, and the delay between attempts. Of the handlers that only read, those of reactions and
-- notifications are modelled. Of the client, the parsing of arguments, the printing of results and
-- the promise that concurrent callers share are left out.
mod Prelude
pub mod Js
pub mod Http
pub mod Store
pub mod Ids
pub mod Audit
pub mod Middleware
pub mod Review
pub mod Messages
pub mod Notifications
pub mod Mentions
pub mod Watch
pub mod Governance
pub mod Reports
pub mod Reactions
pub mod Principals
pub mod Auth
pub mod Pagination
pub mod Requests
pub mod Routes
pub mod Client
pub mod Tests
