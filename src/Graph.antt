-- ===== src/Graph.antt =====
-- The GraphQL endpoint: apps/web/lib/graphql/resolvers.ts and apps/web/app/api/graphql/route.ts.
pub mod Resolvers
pub mod Endpoint
pub mod Tests
