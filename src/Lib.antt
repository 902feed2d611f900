-- ===== src/Lib.antt =====
-- The core of the Bomboli marketplace server (TypeScript, NestJS over Prisma and PostgreSQL).
--
-- A buyer fills a cart with the goods of one seller, checks it out into an order, pays it through a
-- payment provider, and the seller or a deliverer moves it on until it is delivered or cancelled.
-- All services read and write one database and emit events; a failed payment cancels its order.
--
-- State. `Db` holds a list of rows for each table of prisma/schema.prisma that the services below
-- touch, and the events emitted so far. A service method is an `Action`: a function of the state
-- that returns a value or an error and a new state. What is written before a throw stays written,
-- except inside `transaction` (`prisma.$transaction`). `Env` holds what a request gets from outside:
-- its time and the ids of its new rows. A table is looked up, updated and deleted from by tests on
-- its rows; an id column is a number that is only compared, a money amount is a natural number of
-- cents, and a coordinate is opaque.
--
-- Files and the code that they model (src/modules is the root of each path):
--   Prelude    tests, options, lists, tables of rows and sorting, with the laws of the queries
--   Db         enums and rows of the schema, events, errors, and the monad of the services
--   Common     src/common/interceptors/idempotency.interceptor.ts
--   Users      lookups of users/users.service.ts and sellers/sellers.service.ts; under it
--              Provision and Profile (users.service.ts), Devices (users/devices), RecentlyViewed
--              (users/recently-viewed) and Addresses (users/addresses)
--   Sellers    sellers/sellers.service.ts and sellers.repository.ts
--   Auth       auth/auth.service.ts and auth/strategies/supabase-jwt.strategy.ts
--   Listings   listings/listings.service.ts and listings.repository.ts: create, update, publish,
--              archive, softDelete; under it Read (the reads, and listings.mapper.ts) and Photos
--              (listings/photos: the service and the worker)
--   Discovery  discovery/discovery.repository.ts, search.service.ts and feed.service.ts;
--              src/common/geo/category-caps.ts
--   Cart       cart/cart.service.ts: getMine, addItem, updateItem, removeItem, replace
--   Orders     orders/orders.service.ts: createFromCart, getById, transition, cancel,
--              cancelBySystem; orders.events.ts and orders.payment-listener.ts
--   Payments   payments/payments.service.ts: createForOrder, getById, confirm, applyWebhookEvent,
--              manualConfirm, refund; the dispatch of webhooks/payment-webhooks.controller.ts; under
--              it Providers, the four of payments/providers and their registry
--   Deliverers deliverers/deliverers.service.ts: createByAdmin, assignToOrder, the deliverer's own
--              operations; the ETA of src/common/geo/distance.ts
--   Scenarios  concrete states on which the operations run
--
-- Parameters. What other services answer is an argument: the networks of PayPal and Pawapay and the
-- library of Stripe, behind `Gateway`; Supabase Auth and the mail; the storage of photos and the image
-- library; hashes, JSON and generated ids. Redis is a record of its commands with what is documented
-- of them (`SortedSets`, `KeyStore`), and PostGIS and the text search are one of functions (`Engine`).
-- `lower` and `trim` are JavaScript's, and `assign_to_order` takes the travel time between two points,
-- which the code computes in floating point. Amounts are 32-bit columns, for which a division by 100
-- and `toFixed` are exact; the sums of an order that do not fit such a column make its creation throw.
-- A radius is in whole meters. A query gives rows that its order does not tell apart in an order of its
-- own (`tie`).
--
-- Fuel. Loops run over the rows of a list, but for the digits of a number, on one step more than the
-- number, which is more than it has digits.
--
-- Not modelled: the verification of tokens, the webhook of Supabase, phone codes, configuration, mail,
-- health, the rest of the HTTP layer (controllers, pipes, guards, other interceptors, filters), and the
-- paged list of orders. Requests run one after another, except where a schedule of their steps is
-- written out (Orders.Cancel.Race, Listings.Photos.Race, Common.Idempotency.Steps). The `updatedAt`
-- columns of the tables other than users, sellers, listings and orders are left out, as are the texts
-- of log lines and error messages, and of the attempts at a payment the texts of requests (but the
-- amount of a refund) and responses.
pub mod Prelude
pub mod Db
pub mod Common
pub mod Users
pub mod Sellers
pub mod Auth
pub mod Deliverers
pub mod Orders
pub mod Cart
pub mod Listings
pub mod Discovery
pub mod Payments
mod Scenarios
