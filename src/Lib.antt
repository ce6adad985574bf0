-- ===== src/Lib.antt =====
-- Verification of the backend of MealDirect, a service for ordering meals on a campus: its rules on
-- money and orders, the parts that move money - the webhook of the payment provider, verified payments
-- and refunds, payouts to vendors and riders, withdrawals, and top-ups of customers' wallets - and the
-- worker in the background.
--
-- The parts of the program, and the files that model them:
--
-- - src/domain, pure functions that the other parts call. Domain/Money, Pricing, Refunds, Settlements,
--   Spoons and TopupFee model money.ts, pricing.ts, refunds.ts, settlements.ts, spoons.ts and
--   wallet-topup-fee.ts; Domain/OrderStatus, Cutoffs and Promotions model order-status.ts, cutoffs.ts
--   and promotions.ts; Domain/Authorization and AdminPermissions model authorization.ts and
--   admin-permissions.ts; Domain/PaymentEvents models payments.ts; Domain/Routes models
--   `orderByNearestNeighbour` and Domain/Routes/Plan `planRoute` of geo.ts. A function keeps its name, so
--   `calculateOrderPricing` is `calculate_order_pricing`. What throws returns a `Result`.
-- - src/modules/auth: Auth/Guards models `RolesGuard` and `PermissionsGuard`, which call the rules on
--   permissions; Auth/Throttle models src/common/http/auth-throttle.guard.ts, which limits attempts to
--   sign in.
-- - src/modules/payments/paystack-webhook.service.ts: Payments/Webhook has its types, the interface
--   `WebhookDatabase` of the stored functions it calls, with the laws it relies on, and its checks;
--   Payments/Webhook/Service has one function for each method, `process` the first of them. The state
--   is the set of keys kept in memory and the database. A transaction that throws gives back the
--   database that it started with.
-- - src/modules/payments/refunds.service.ts and payments.service.ts: Payments/Machine is the monad in
--   which they run, with the audit log and accesses to the database that may fail; Payments/Refunds
--   models the rows and statements of refunds.repository.ts, Payments/Refunds/Operations the service,
--   Payments/Rows the statements of payments.repository.ts, Payments/Verification the verification of
--   payments, its sweep and the operations of administrators, Payments/Repayment `initiateRefund` and
--   Payments/Initialization `initializePaystack`.
--   They share the state `Books`: payments, refunds, requests sent to the provider and credits of
--   wallets. The requests of paystack.client.ts that they make stand beside their callers.
-- - src/modules/orders: Orders/Rows models the data and the queries behind a quote, of
--   create-order.dto.ts, orders.types.ts and orders.repository.ts, and Orders/Service `quoteOrder` and
--   `createOrder` of orders.service.ts, which price an order with Domain/Pricing, in the monad of
--   Payments/Machine. The calls that create an order are recorded in the state `Shop`.
-- - src/common/api/pagination.ts: Api/Pagination has its functions, and Api/Pagination/Pages a client that
--   follows the cursors.
-- - src/worker: Worker/Outbox models outbox-processor.ts, handler-registry.ts and the rows behind
--   outbox.repository.ts, with the stored functions that claim, complete and fail an event, and
--   Worker/Dispatch the handler that delivers notifications.
-- - src/modules/settlements: Payouts/Store models the rows that payout.repository.ts reads and
--   writes, Payouts/Client the requests of src/modules/payments/paystack.client.ts, and
--   Payouts/Service and Payouts/Runs the methods of payout.service.ts, in a monad over a `World`: the
--   rows, the provider with whatever state it keeps, the transfers sent so far, and which coming
--   accesses to the database fail, which then change nothing. What the provider answers is a
--   parameter, a function of its state.
--   Payouts/Withdrawals models withdrawals.service.ts on top of it.
-- - src/modules/wallets/wallets.service.ts: Wallets/Topup models `quoteTopup` and `initializeTopup`.
--   Wallets/Topup/Credit follows the money of a top-up from there through Domain/PaymentEvents to
--   Payments/Webhook.
--
-- Common holds what these share: results, lists, parsed JSON and numbers. Tests applies the theorems
-- at concrete inputs, with small databases, providers and platforms.
--
-- Numbers. A number of JavaScript is a `Num`: an integer that is not negative, a negative integer, or
-- one that is not an integer; the guards of the code tell no more apart. Amounts are integers, exact
-- as long as they stay below 2 ^ 53. Points in time are integers that count milliseconds. The fees on
-- top-ups are computed with doubles in the source and with exact quotients here; Domain/TopupFee says
-- where the two were compared. Every function is total, by recursion on a list; the one loop whose
-- end depends on a search, in Domain/Routes, runs on a list as long as the stops that remain, and
-- loses a stop in each round, so that the list is long enough.
--
-- Parameters. `JSON.parse`, `Number`, `String` of a number, the digests, the pattern of a UUID,
-- `Date` on a text, the stored functions of the database (except for `reconcile_payout_transfer`,
-- whose effect on the rows of payouts is written out in Payouts/Store, and of the functions of the
-- outbox, written out in Worker/Outbox) and the provider are
-- parameters, and so is base64url; so are the distances and times of a leg in geo.ts, which are computed with doubles.
--
-- Not modelled: texts of messages and of logs, the payloads kept for the records, timestamps of rows;
-- the lists and views for display; the controllers, the other modules under src/modules, the other
-- handlers of the worker, the configuration and the migrations. Calls that run at the same time are not interleaved: a method
-- runs to its end, and what other calls do in between shows only as a state to start from.
pub mod Common
pub mod Domain
pub mod Api
pub mod Auth
pub mod Orders
pub mod Payments
pub mod Payouts
pub mod Wallets
pub mod Worker
pub mod Tests
