-- ===== src/RouteFeed.antt =====
-- How the committed shard map reaches the services: the coordinator encodes it and publishes what
-- has changed (server/internal/coordinator/publisher), a client keeps a copy and applies what it
-- receives (server/internal/coordinatorclient/cache.go).
pub mod Message
pub mod Cache
pub mod Publish
pub mod RoundTrip
pub mod Changes
pub mod Applied
pub mod History
pub mod Delivery
mod Tests
