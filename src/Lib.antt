-- ===== src/Lib.antt =====
-- Marhaba Delivery: a model of the delivery platform's core and the theorems that make it correct.
--
-- The platform is a NestJS API (packages/api) over PostgreSQL with PostGIS, Redis and Socket.IO, a
-- package of shared rules (packages/shared), a dashboard (packages/web-dashboard) and an app for
-- drivers (packages/driver-app). A client checks out an order, whose price is frozen on it; a
-- dispatcher accepts it and assigns a driver; the driver picks it up, delivers it with a proof or
-- reports a failure; every change of its status passes one state machine, appends to an audit log
-- and is pushed to the order's room.
--
-- Shared            packages/shared/src: Enums (enums.ts), StateMachine (state-machine/order-status.ts),
--                   Pricing (utils/pricing.ts, schemas/pricing.ts)
-- Api.World         the tables that the services share (schemas of packages/shared,
--                   packages/api/prisma/schema.prisma), codes, jobs and messages
-- Api.Events        modules/orders/order-events.service.ts: record, timeline
-- Api.Realtime      modules/realtime/realtime.service.ts: the emit functions
-- Api.Zones         modules/zones/zones.service.ts and pricing.service.ts, modules/geo/geo.service.ts:
--                   zones, rules, quote
-- Api.Drivers       modules/drivers/drivers.service.ts, nearestAvailableDrivers of geo.service.ts
-- Api.Orders        modules/orders/orders.service.ts: transition, place, findForUser; Creation has
--                   create, Visibility has list
-- Api.Assignment    modules/orders/assignment.service.ts: assign, commitAssignment, unassign
-- Api.Scheduler     modules/scheduler/scheduler.service.ts: scheduleRetry, schedulePlacement, process
-- Api.Delivery      modules/delivery/delivery.service.ts: recordFailure; Completion
--                   has issueOtp and submitProof
-- Api.Payments      modules/payments/payments.service.ts, stripe.service.ts: createPaymentIntent,
--                   confirmCash; Events has handleWebhookEvent
-- Api.Idempotency   common/interceptors/idempotency.interceptor.ts: intercept, prepare, persist; Steps
--                   interleaves the awaits of many requests
-- Api.Auth          modules/auth/auth.service.ts, tokens.service.ts; Cookies has auth.controller.ts
-- Api.Guards        common/guards: JwtAuthGuard, RolesGuard, RateLimitGuard; rateLimit of
--                   common/redis/redis.service.ts
-- Api.Tracking      modules/drivers/driver-location.service.ts: ingestPing, getHotLocation;
--                   recordDriverLocation of geo.service.ts, setDriverLocation of redis.service.ts
-- Api.Gateway       modules/realtime/realtime.gateway.ts: the rooms of a socket, and its pings
-- Api.Eta           modules/eta/eta.service.ts: estimateSeconds; get and set of redis.service.ts
-- Api.Notifications modules/notifications/notifications.service.ts
-- Api.Analytics     modules/analytics/analytics.service.ts: driverPerformance, dispatchBoard
-- Api.Users         modules/users/users.service.ts
-- Api.Routes        the routes of modules/orders/orders.controller.ts, delivery.controller.ts,
--                   payments.controller.ts and drivers.controller.ts that change something, with their
--                   roles; a run of the server is a list of requests, jobs, webhooks and pauses
-- Api.Audit         theorems on the audit log that concern orders and assignments together
-- Driver            packages/driver-app/src/lib: Outbox (outbox.ts, db.ts), Location (location.ts),
--                   Client (api.ts, with packages/web-dashboard/src/lib/api.ts);
--                   Screen (screens/ActiveDeliveryScreen.tsx)
-- Prelude           tables, actions, sorting and the lemmas on them
-- Examples          concrete runs
--
-- A request handler is an action: it reads and writes the world, and returns or throws. What was
-- written before a throw stays, unless it was written in a transaction. A table is the list of its
-- rows in the order of insertion; findUnique and findFirst take the first row that meets the
-- condition. Identifiers, random codes and the clock are arguments or fields. One handler runs at a
-- time, save in Api.Idempotency.Steps, where a schedule interleaves the awaits of any number of
-- requests. Each loop is a structural recursion over its list (lines, windows, the batch of at most
-- 50 outbox rows, a schedule, a run), so no fuel is needed. Money is a natural number of minor units;
-- kilometres and multipliers, floating-point numbers in the program, are exact multiples of a
-- millionth. Integers are unbounded: the 32 bits of a database column are not modelled. A coordinate
-- is a signed number of ten-millionths of a degree, which only the check of a ping compares.
--
-- Not part of the repository, hence parameters: PostGIS's predicates and distances and the time zone
-- (Site), Stripe (Stripe), JWT, argon2 and SHA-256 (Crypto), Mapbox and the cookie parser, the network,
-- the database's order of equal rows. The great-circle formula, trigonometry on floating-point numbers,
-- is a parameter as well. Not modelled: dependency injection and configuration; zod's checks beyond the
-- format of times, pings and the kind of a proof; routes that only read, and those of zones, users,
-- notifications and analytics, which pass their arguments on; the catalogue; the user interfaces.
pub mod Prelude
pub mod Shared
pub mod Api
pub mod Driver
pub mod Examples
