-- ===== src/Lib.antt =====
-- The core of the collector, as executable models with the theorems that make it correct.
--
-- Parts and files:
-- - Prelude: shared names, Boolean tests, results, and database tables as lists with the lemmas on
--   their queries.
-- - Journal: the donation journal in PostgreSQL. Journal.Model holds shared/model/donation.go and
--   the tables of shared/migrations/006_collector_delivery.sql; Journal.Grants, Journal.Donations
--   and Journal.Consumers the operations of shared/store/collector.go and collector_consumer.go;
--   Journal.Maintenance those of collector_maintenance.go, each under the source's name in snake
--   case. A transaction is a function on the tables; an error rolls back, so it returns no tables.
--   A locking read first makes transactions on one channel follow one another, which is why a
--   history is a sequence of them (Journal.Steps). Journal.Invariant, Retained, Preserve, Batch,
--   Append, Channels, Reading and Retention carry the invariant through the operations;
--   Journal.Delivery, Writing, Ownership, Requests, Outboxes and Expiry prove what the operations
--   promise.
-- - Spool: the worker's directory of accepted donations (worker/internal/pipeline/spool.go).
--   Spool.Model has the records, the listing and `drain`, Spool.Save the rest; a record is handed to
--   a journal through an interface that the operations of Journal fill. Spool.Drain and
--   Spool.Durable prove what a drain and a save leave behind, Spool.Handover for the journal in
--   PostgreSQL.
-- - Batches: the ClickHouse batch writer (shared/store/ch_batch_writer.go). Batches.Model has the
--   writer and its steps, Batches.Safety its histories, Batches.Closing the drain of Close.
-- - Assigner: the coordinator's assignment of channels to workers (coordinator/internal/assigner.go,
--   shared/model/worker.go). Assigner.Model has the loops over a store that is given by its
--   operations; Assigner.Select is about the choice of a worker, Assigner.Rounds about the counts.
-- - Channels: the tables live_channels and workers (shared/store/postgres.go,
--   shared/store/postgres_history.go). Channels.Model has the rows, Channels.Changes the updates,
--   Channels.Upserting the upserts of discovered channels and Channels.Queries the queries, each
--   under the source's name in snake case; a foreign key, unique keys and the sequence of the IDs are
--   part of the updates. Channels.Steps runs the operations in any order, with Channels.Sound,
--   Preserve and Operations for the invariant; Channels.Continuing and Evolution are about one row;
--   Channels.Keys, Deduping and Found about the upsert. Channels.Listing makes the tables the store
--   of Assigner; Channels.Rows, Waiting and Serving are about a round of assignments over them,
--   Channels.Reclaiming about the marking of dead workers.
-- - Leader: the leases of shared/store/redis.go as scripts on three keys (Leader.Redis) and the
--   discover service's election (discover/internal/leader.go) with its settings and turns
--   (Leader.Election). Leader.Fencing is about tokens, Leader.Turns about the turns of one instance,
--   Leader.Worlds and Holding about an instance, Redis and other instances together. Discovery takes
--   what a lease answers as a parameter.
-- - Coordinator: the debounce and handling of ws_closed and unassign events
--   (coordinator/internal/coordinator.go) and the health checker (coordinator/internal/healthcheck.go),
--   in Coordinator.Model; the theorems stand in Coordinator.Events, Reactions and Health.
--   Coordinator.Cleanup is the cleanup of chat streams, over the tables of Channels.
-- - Soop: the SOOP connector (worker/internal/connector/soop.go). Soop.Packet is the packet format,
--   Soop.Model the connector's state, Soop.Convert the conversion of packets to messages and
--   Soop.Connector handlePacket, with the donation sink as a function of the world that a packet
--   meets. A donation is that of Journal, and the sink's check is Journal's `validate`.
--   Soop.RoundTrip and Soop.Malformed are about the parser; Soop.Safety, Soop.Runs and Soop.Balloons
--   about the connection.
-- - Manager: the worker's connections (worker/internal/manager.go), as critical sections in
--   Manager.Model that Manager.Bounds lets come in any order; Manager.Orphans is about a late error,
--   Manager.Backoff about channels that fail to connect.
-- - Collection: a worker's authority over a channel (worker/internal/collection.go), its local
--   deadline over the journal's grant; the sink saves to Spool. Collection.Exclusive is about two workers.
-- - Discovery: the discovery of live channels. Discovery.Model and Discovery.Emitter are the history
--   emitter (discover/internal/history/emitter.go), Discovery.Cycle the cycle and the triggers
--   (discover/internal/discover.go). Discovery.Grace, Discovery.Spared, Discovery.Ended and
--   Discovery.Marks are about the end of a channel, Discovery.Tidy and Discovery.Histories about the
--   emitter's state, Discovery.Triggers about manual triggers.
--
-- Bounds: offsets and revisions are 64-bit numbers with their wrap-around or its guard written out.
-- Times are nanoseconds from Go's zero time on and do not go below it. Recursion is structural, but
-- for DeleteChatStreams, which has as much fuel as it has keys; each turn deletes up to a hundred.
--
-- Not modelled: network and database failures (an error rolls the transaction back) but for the
-- outbox's deletions, SHA-256, JSON
-- encoding, the sizes PostgreSQL gives a value, and new UUIDs, which are parameters or arguments.
-- So are the file system of the spool and float64 arithmetic, and the stores of the assigner and
-- the health checker, for which Channels gives the tables; for the SOOP connector also Unicode's
-- white space and upper case, and for discovery the platforms, the leases and the answers of the
-- history store. The widths of text columns and the statistics of the admin service are left out.
-- Dialling, timers, the coordinator's own election, the other connectors, the query services and
-- the archive are not modelled.
pub mod Assigner
pub mod Batches
pub mod Channels
pub mod Collection
pub mod Coordinator
pub mod Discovery
pub mod Journal
pub mod Leader
pub mod Manager
pub mod Prelude
pub mod Soop
pub mod Spool
