-- ===== src/Lib.antt =====
-- A verification library for the Last Chance platform, a booking marketplace whose core is the
-- NestJS backend under backend/ and the PostgreSQL schema under db/migrations/.
--
-- The program. `BookingService` places a hold on a unit under a Redis lock and in one transaction,
-- and moves bookings along a state machine whose rows stand in the database; a delayed job lets a
-- hold lapse. Payments arrive as webhooks: the intake records an event once, a worker applies it in
-- a transaction with a group of ledger entries and then confirms the booking. A completed stay is
-- split into what the host, the platform and the tax office get, and paid out. The parts meet in the
-- database, the queues and the events that are published.
--
-- Common ground.
--   Prelude: numbers, tests, lists, `Result`, and `Action`, a state that a throw does not undo.
--   Errors: backend/src/common/errors.
--   Domain: the rows and enumerations of the modules' domain/types.ts and of the schema.
--   World: `Store` has the tables, jobs, events, locks and fences; `Effects` the statements,
--     `DatabaseService.query` and `transaction` of
--     backend/src/infrastructure/database/database.service.ts, and the environment: clocks, fresh
--     ids, whether the queue takes jobs, what becomes of a lock's commands, and what others do
--     to the world at each numbered await;
--     `Keeps` the rules by which a method keeps a property of the tables, `Redis` the commands that
--     the guards and the one-time codes send, on keys that end, and `Steps` single steps of a block.
--   Samples: rows and worlds for the tests.
--
-- Parts.
--   Fsm: the engine of backend/src/modules/booking/application/booking-fsm.engine.ts, for any table
--     of transitions. `Booking.Lifecycle` is its instance at the rows of the migrations.
--   Lock: backend/src/infrastructure/redis/redis-lock.service.ts; a key is held until its
--     end; SET and INCR are two commands, others run between them, and a call may throw with its
--     command run or not. `Lock.Fences` is about the order of the fences.
--   Booking.Pricing: pricing.service.ts; a share is computed in doubles, as the code does, by
--     `Prelude.Double`, with products and quotients rounded to 53 bits, then `Math.round`.
--   Booking.Table: the constraints and triggers of db/migrations/0006_bookings.sql, 0003 and 0015.
--   Booking.Repository, Booking.Service: booking.repository.ts, unit.repository.ts and
--     booking.service.ts: `create_hold`, `confirm`, `cancel`, `check_in`, `complete`,
--     `mark_refunded`, `expire_booking`, `authorize_actor` are the methods of these names.
--   Booking.Sweep: the sweep of lapsed holds, `sweepStaleHolds` with `fn_expire_stale_holds` of
--     0006_bookings.sql; at most 500 rows, and the rows that others have locked are an argument.
--   Payment.Ledger: ledger.service.ts. Payment.Repository and Payment.Inbox: the statements of
--     payment.repository.ts, webhook.repository.ts and payout.repository.ts. Payment.Provider: the
--     port, the registry and the parsing of events. Payment.Webhook: webhook.service.ts.
--     Payment.Payout: payout.service.ts and refund.service.ts. Payment.Escrow relates the rows of
--     `payments` to the ledger.
--   Payment.Initiate is payment.service.ts, Payment.Admin escrow-admin.service.ts, and
--     Payment.History has the sequences of all these calls.
--   Moderation: backend/src/modules/moderation with db/migrations/0016_moderation_compliance.sql:
--     `Repository` the statements, the guard, the check and the log of decisions, `Service` the
--     methods of moderation.service.ts, `Notify` host-notifier.service.ts, `Gate` the way from the
--     log to what `Booking.Service` lets be booked.
--   Auth: `RateLimit` is backend/src/common/auth/rate-limit.guard.ts, `Otp` and `Phone` are
--     backend/src/modules/auth/otp.service.ts, `Accounts` the statements on `users`, `Service` is
--     auth.service.ts with `sendOtp` of otp-notifier.service.ts, and `Guards` are
--     backend/src/common/auth/jwt-auth.guard.ts and roles.guard.ts.
--   Inventory.MapSearch: map-search.service.ts and map-search.repository.ts of
--     backend/src/modules/inventory, with the view of the public units.
--   Web.Middleware: web/src/middleware.ts, where a request for a page is sent.
--   Deals: backend/src/modules/deals: deal.repository.ts in Deals.Repository, deal.service.ts in
--     Deals.Service, whose `claim_deal` places its hold through `Booking.Service.place_hold`;
--     `Deals.Service.History` has the sequences of its calls.
--
-- Bounds. Instants are milliseconds, money minor units, percentages hundredths of a percent; they
-- are natural numbers without a width, as the program keeps them within the integers that a double
-- holds; where a theorem needs that a hundred percent of an amount is the amount, it asks for one
-- below 2 ^ 46. A double of `Prelude.Double` is rounded after at most 80 doublings of its step,
-- which is enough for values below 2 ^ 67. The retries of `acquire` are counted down, so it ends; a
-- browser's redirects are followed for a bounded number of requests, and three are enough; no other
-- loop needs a bound.
--
-- Not modelled. A transaction is atomic with respect to the others, as the row locks and the guards
-- of the schema make it, so others run only between the statements of different transactions.
-- Foreign keys, time stamps, booking codes, log lines, the wording of errors and the outage of the
-- database itself are left out. What a provider answers over the network and whether a signature
-- holds are functions of the port; what the search indexer does, which points lie in a viewport, the
-- hashing of passwords, the signing and verifying of tokens, the keyed digest, the random code and
-- the collation of addresses are arguments. The wording of messages, calls that only read lists,
-- the search index, media, reports, and the pages of the web and the mobile applications are not
-- part of this library yet.
pub mod Prelude
pub mod Errors
pub mod Domain
pub mod World
pub mod Fsm
pub mod Lock
pub mod Booking
pub mod Payment
pub mod Moderation
pub mod Deals
pub mod Auth
pub mod Samples
pub mod Inventory
pub mod Web
