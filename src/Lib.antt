-- ===== src/Lib.antt =====
-- OpenWrapper takes payments for merchants over several providers (Paymob, Fawry, Stripe and a mock).
-- The web service (apps/web) is the API that merchants call: it authenticates the request, looks its
-- idempotency key up in Postgres, asks the Rust gateway or a provider for the payment, and stores it.
-- Providers report the outcome to its webhooks. The TypeScript client (sdk/typescript) calls the API and
-- verifies the webhooks that merchants receive.
--
-- How the files correspond to the code:
--   Prelude, Js: what the sources use of JavaScript. Js.Text are strings, Js.Json what JSON.parse gives,
--     Js.Decimal numbers as text.
--   Store: apps/web/lib/db/schema.ts. The tables are lists of rows in a record World; Sql is what
--     Postgres decides (which row a SELECT with LIMIT 1 gives). Store.Handler is the shape of a route
--     handler: it runs on the World and goes on, answers early, or throws, and what was written stays.
--   Access: apps/web/lib/api-version.ts, api-key-service.ts, api-request-authenticator.ts,
--     provider-credentials.ts and request-body-reader.ts, a module for each. Bodies, Keys and
--     Telemetry have the proofs.
--   Ledger: apps/web/lib/payment-ledger-service.ts (Idempotency is findIdempotentPayment, Persist is
--     persistPaymentRecord, Response is paymentToApiResponse) and payment-status-resolver.ts (Status).
--     Replay, Fixed and Terminal have the proofs.
--   Signatures: apps/web/lib/cryptographic-signatures.ts, fawry-rail.ts and paymob-rail.ts (Rails).
--   Gateway: apps/web/lib/gateway-bridge.ts. Headers is buildForwardHeaders, Bridge the two calls.
--   Payments: POST of apps/web/app/api/[version]/payments/route.ts. Input is the zod schema, Stripe is
--     apps/web/lib/stripe-rail.ts. Create has the handler in its stages: Admit up to the fingerprint,
--     Replay the idempotency key, Gateway and Route the providers' branches, Post the whole. Admission,
--     Stages, Idempotence, Safe, Untouched, Fallback and Simulated have the proofs. List is GET of the same file, and
--     Retrieve is GET of apps/web/app/api/[version]/payments/[id]/route.ts, with their proofs below them.
--   Webhooks: apps/web/app/api/webhooks/*/route.ts, and the dispatch of
--     apps/web/app/api/[version]/webhooks/[provider]/route.ts. Applied, Terminal, Authentic and Unsigned
--     have the proofs. A sequence of deliveries is the relation Deliveries.
--   Dashboard: apps/web/lib/dashboard-telemetry-service.ts. Cache is metricsCache, Groups and Percentile the
--     aggregates, Metrics fetchDashboardDataUncached, Route the metrics route. Reach is the relation of what
--     concurrent requests and invalidations make of the cache.
--   Console: what a signed-in merchant does. Keys is apps/web/app/api/api-keys/route.ts and
--     app/actions/api-keys.ts, Settings is apps/web/lib/merchant-settings-service.ts with its route and
--     actions, Ping is the test-webhook route. The handlers run on the record Console: the tables, the
--     dashboard's cache, the settings.
--   Graph: apps/web/lib/graphql/resolvers.ts and apps/web/app/api/graphql/route.ts.
--   Platform: apps/web/lib/utils.ts (Format, the amounts), apps/web/lib/public-origin-resolver.ts (Origin) and
--     apps/web/app/api/[version]/health/route.ts (Health).
--   Sdk: sdk/typescript/src/client.ts and errors.ts. Request is the private method request, Wire the
--     conversions of what the service sends, Signature the object webhooks together with signWebhookPayload
--     of apps/web/lib/merchant-settings-service.ts, Money the conversion of amounts. Client is the class:
--     its constructor, Params the arguments and bodies of its methods (types.ts), Resources the methods.
--     Agreement, Accepted, Sent and Client.Admitted compare what the client checks and sends with what the
--     service accepts.
--
-- Parameters: hashes and HMACs, JSON.parse and JSON.stringify, the text decoder, the URL parser, the tests
-- of e-mail addresses and URLs of zod, environment variables, fetch, Stripe, the clock and random ids. They
-- are fields of Env (routes), HookEnv (webhooks), ConsoleEnv and PingEnv (console), HealthEnv (health)
-- and Net (client), or arguments, and so are GraphQL's executor, the session's user and the labels of days.
-- A failure of the database is a flag of Env, HookEnv or ConsoleEnv, for the first statement of the function
-- that uses it.
--
-- Bounds: a text is the list of its UTF-16 code units, and case mapping is that of ASCII. The recursion of
-- the client's request loop is on fuel maxRetries + 1, which is enough: it never runs out. The hash of a
-- kiosk code is kept modulo 2 ^ 32. A JSON number is a natural number or an opaque text. The cache of the
-- dashboard holds 500 entries for 30 seconds. Rates of the dashboard are kept as pairs of counts, before
-- their division. The client's delay is in whole milliseconds.
--
-- Not modelled: the writes of the Rust gateway to the same tables; amounts beyond 2 ^ 53 and signs or
-- spaces where BigInt reads digits; a payload.hmac or a stripe_secret_key that is no text counts as absent;
-- object keys that are array indices have no place of their own in the canonical order; the mock webhook's
-- race against 800 ms, which bounds only the wait; a delivery between the read and the write of one
-- handler, except for the settings, the cache and Retrieve.Overtaken; the order that Postgres gives rows created at
-- one time; the revalidation of Next's page cache; the set-up of the tables; the page and the headers that
-- are constant; pages, components, scripts and examples, which show or call what is modelled; the library
-- that keeps sessions; the generated gRPC stubs.
pub mod Prelude
pub mod Js
pub mod Store
pub mod Access
pub mod Ledger
pub mod Signatures
pub mod Gateway
pub mod Payments
pub mod Webhooks
pub mod Dashboard
pub mod Console
pub mod Graph
pub mod Platform
pub mod Sdk
