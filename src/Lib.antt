-- ===== src/Lib.antt =====
-- Classic Farm: the core logic of the services of a farming game, above all of the player service,
-- server/internal/player.
--
-- A Zone keeps one actor for each player. A request reaches the actor's mailbox through
-- Runtime.Handle (server/internal/player/runtime.go), which first settles the plots that are due
-- and then carries out one command on the player's state. Here the state is a record, a command is
-- a function from a state and a request to the new state, the response and whether the state has
-- changed, and the clock, the configuration and the request are arguments.
--
-- - Base: the shared names and lemmas; Base.Int (int64 values whose sign the code tests), Base.Map
--   (Go maps with number keys), Base.Sort (sorting as in sort.Slice), Base.Bytes (hexadecimal and
--   big-endian bytes), Base.Text (strings.TrimSpace), Base.Uuid (the text of a UUID).
-- - Plot, Player, Player.Views, Config, Wire: the data of server/internal/player/state.go, career.go
--   and config.go, with Snapshot, View and effectView, and the messages of proto/classicfarm/v1.
-- - Growth: server/internal/player/growth.go. growth_between is growthBetween, settle_growing_plot
--   is settleGrowingPlot, estimate_plot_mature_at_ms is estimatePlotMatureAtMS. Growth.Simulation
--   is the specification, which adds up the rate of every single millisecond.
-- - Idempotency: the part that every command repeats (parseRequestID, the search of RecentResults,
--   storeBuySeedsFailure, replayBuySeeds, appendResult of buy_seeds.go and their copies in the
--   other commands), as `run` around a command's decision.
-- - Command: the decisions of buySeeds, buyFertilizer, plant, applyFertilizer, harvest, cleanPlot,
--   sellCrop and claimChapterReward, each in the file of its name. A rejection carries the state
--   that the body leaves behind, so that applyFertilizer, which changes the plot in place, has to
--   put it back. Command.Trade, Command.Farming (with Command.Sowing and Command.Reaping),
--   Command.Fertilizing and Command.Rewards are about accepted commands, Command.Restoring (with
--   Command.Kept) about rejected ones.
-- - Session: the dispatch of Runtime.Handle inside the mailbox.
-- - Routing: the authorization table of server/internal/routing/authorization.go, by which a Zone
--   decides whether it may carry out a command of a shard.
-- - Steal: what visitors may do to a plot (server/internal/player/public_plot_view.go) and the part
--   of ApplyStealOnOwner in steal_crop.go that checks and changes the plot.
-- - Maturity: materializeDueMaturities of growth.go, with its events. An error ends it and leaves
--   what was done before, as in the code.
-- - RouteFeed: how the committed shard map reaches the services. RouteFeed.Message is
--   server/internal/coordinator/publisher/diff.go with decodeRoute and decodeSnapshot of
--   server/internal/coordinatorclient/cache.go, RouteFeed.Publish the batch that PublishRoutes of
--   publisher.go makes, RouteFeed.Cache the routeCache of cache.go. RouteFeed.History has the
--   deliveries that a client may see.
-- - GateRoutes: the CachedRouteResolver of server/internal/gateway/route_cache.go.
-- - Visit: the Registry of server/internal/visit/registry.go. Visit.Eviction has EvictExpired and
--   the reads; Visit.Leases states what a call does to the lease of one owner and visitor.
-- - Mailbox: the queue and the worker of server/internal/actor/mailbox.go, on which every command of
--   a player runs, as interleaved steps (Mailbox.Order.Step).
-- - Connection: the Registry of server/internal/connection/registry.go. Connection.Eviction has
--   EvictExpired, RemoveShard and the reads.
--
-- Numbers: times are Unix milliseconds, in the registries and the routes nanoseconds where a file
-- says so, and never negative, so they are natural numbers with
-- the bound 2^63 - 1 wherever the code tests it. Coins are natural numbers, since a loaded
-- checkpoint may not have fewer than 0 (checkpoint.go) and no command takes more than there is.
-- Unsigned fields wrap where the code can wrap them (player_seq, checkpoint_revision, stacks).
-- The code's *big.Int values are exact. Prices are positive, as newConfigSnapshot of config.go
-- checks. No definition needs fuel: every loop is structural recursion on a list.
--
-- Parameters: protobuf encoding and SHA-256 are a Codec, whose laws say only that a message is
-- decoded as what was encoded. A request's target is the caller, as Runtime.Handle has checked.
--
-- Where the code and docs/contracts/idempotency-and-errors.md differ, the model follows the code:
-- CONFIG_UNAVAILABLE, which the contract lets a client retry with the same ID, is stored and
-- replayed like any other failure, and a stored result is replayed after more than 24 hours if no
-- other result has been stored since.
--
-- Not modelled: nil plots and nil states, which no caller passes; the notification of visitors;
-- durable writes, eviction and the scheduler of the actors; the commands on pets, gifts, pests and
-- friends; the placement and migration of shards, the await handles of the mailbox, the HTTP and
-- WebSocket handlers of the gateway and the other services. The URL syntax that ValidGateEndpoint
-- tests and the random visit IDs are arguments.
pub mod Base
pub mod Command
pub mod Config
pub mod Connection
pub mod GateRoutes
pub mod Growth
pub mod Idempotency
pub mod Mailbox
pub mod Maturity
pub mod Player
pub mod Plot
pub mod RouteFeed
pub mod Routing
pub mod Session
pub mod Steal
pub mod Visit
pub mod Wire
