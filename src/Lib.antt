-- ===== src/Lib.antt =====
-- HANDLY: the API of a marketplace for home repairs in Tashkent, modelled and proved.
--
-- A customer drafts an order, an AI diagnosis gives it a category and a complexity and the program
-- quotes a price; submitted, the order is offered to one master after another until one accepts;
-- the master travels, works and names the final amount within the quote; the customer confirms
-- and pays. Around it stand a trust score, penalties, reviews, referrals and the checks of masters.
-- All of it is apps/api, a NestJS monolith over one PostgreSQL database, and packages/contracts,
-- the types and constants that it shares with the web app, of which the client is modelled too.
--
-- How the code is modelled.
--   Store is the database: Db has a table for each model of apps/api/prisma/schema.prisma that the
--   services write, the clock, the source of ids, what was emitted to sockets and the queue of
--   delayed jobs. A method of a service is a function of type M: it takes the database and returns
--   a result or an exception, in both cases with the database as it is then. `guard` and `require`
--   are the early throws; `transaction` undoes all writes when its body throws. A method whose
--   read and write may be interleaved with others is split into its checks and a `…_commit`.
--   Doubles stands for JavaScript numbers that are no integers; Platform for the configuration,
--   PostGIS and Math.random. Both are parameters, with laws that the theorems name.
--
-- Which file models which part.
--   Contracts: packages/contracts/src/order.ts, dispatch.ts, payment.ts, referral.ts, penalty.ts.
--   Orders.State, Orders.Pricing: apps/api/src/modules/orders/order-state.ts, pricing.ts.
--   Orders.Access, .Drafts, .Quotes, .Jobs: orders.service.ts, one function for each method;
--   Orders.Views is its toDto.
--   Dispatch.Scoring, .Eligibility, .Service: dispatch-scoring.ts, dispatch-eligibility.ts and
--   dispatch.service.ts in apps/api/src/modules/dispatch. The SQL query is the function
--   find_eligible_candidates; cascadeNext is cascade_next with its branches as functions.
--   Dispatch.Offers is the offer that a master is shown.
--   Orders.Media: the uploads of orders.service.ts and apps/api/src/infra/storage/magic-bytes.ts.
--   Trust, Penalties, Notifications, Referrals, Payments (with the tax of modules/tax), Reviews,
--   Verifications (modules/verification), Guarantee and Subscriptions: the services of those names
--   under apps/api/src/modules.
--   Auth: apps/api/src/modules/auth. Tokens is token.service.ts, Codes and Otp are otp.service.ts
--   without and with its limits, Users, Sessions and Service are auth.service.ts: its statements on
--   users, its methods on the database alone, and those that count in Redis. Outside has what they
--   are given, Effects the monad that threads the state of Redis beside the database; what Redis
--   documents of its commands is the record Auth.Counters.Counts.
--   Users: apps/api/src/modules/users/users.service.ts. Admin: the services and the controller of
--   apps/api/src/modules/admin, with the audit trail (modules/audit) and the flags
--   (modules/feature-flags). Paging: the lists in pages that several services share.
--   Contracts.Phone: packages/contracts/src/phone.ts. Http: Guards are jwt-auth.guard.ts and
--   roles.guard.ts of apps/api/src/common/auth, Problems is common/http/problem.filter.ts, and
--   Client is `request` of apps/web/lib/api.ts; texts are lists of character codes there. The
--   library for tokens, the framework's names of statuses and the browser's fetch are arguments.
--   Ai: apps/api/src/modules/ai, the service and mock-ai.provider.ts.
--   Realtime: apps/api/src/modules/realtime/realtime.gateway.ts, its handlers on the sockets' rooms.
--   System: the requests to orders and dispatch and the queue's job, one after another;
--   Orders.Isolation and System.Isolation say whose orders a request or an upload can change.
--   Concurrent: the same with the reads and the guarded writes of the actions apart.
--   Orders.Invariant says what a sound order is and Payments.Ledger what balanced payments are; the
--   modules below them go through the methods. Samples and Tests run the definitions.
--
-- Bounds and fuel. cascade_next calls itself for the retry with the wider radius, so it takes fuel;
--   start_dispatch gives it two, one for the normal pass and one for the retry. Everything else is
--   structural recursion. Amounts are whole so'm without an upper bound; a rating is in hundredths.
--
-- What is not modelled, and why. The texts of messages, notes and reasons, the column with the
--   trust score itself (the tier is kept) and the projections to DTOs but those of an order and an
--   offer: nothing reads them back. An id is a number from a counter; only that it is new is used.
--   A row that a foreign key guarantees is taken to be there. `now - 90 days` stops at 0. In the
--   sort by distance, rows at one distance keep their order. Among the pending actions of
--   Concurrent, completing a job is left out. Controllers, schemas, push, storage, logging,
--   metrics and the queue's own retries are input and output. Redis, argon2, the hash of tokens,
--   the encryption of the PINFL, PostGIS, a payment's provider, Claude and the random values are
--   arguments; a random value depends on the next id, which stands for the moment of the call. A
--   phone, a password and a code are numbers. Most rows carry no time of creation, since tables
--   keep the order of creation; the reports of admin-analytics.service.ts and the filters by date
--   and place, which need it, are left out. So is the user interface of the web app.
pub mod Prelude
pub mod Contracts
pub mod Doubles
pub mod Platform
pub mod Store
pub mod Notifications
pub mod Trust
pub mod Penalties
pub mod Orders
pub mod Dispatch
pub mod Referrals
pub mod Payments
pub mod Reviews
pub mod Verifications
pub mod Guarantee
pub mod Ai
pub mod Http
pub mod Realtime
pub mod Subscriptions
pub mod Auth
pub mod Users
pub mod Admin
pub mod Paging
pub mod System
pub mod Concurrent
pub mod Samples
pub mod Tests
