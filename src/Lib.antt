-- ===== src/Lib.antt =====
-- Verification library of peerbit, a peer-to-peer database: peers keep append-only logs of entries
-- that are ordered by hybrid logical clocks, replicate them by ranges of a ring of coordinates, and
-- exchange messages over streams.
--
-- * Clock models packages/log/src/clock.ts: `Timestamp`, `HLC` (`now`, `update` with its three
--   errors) and `LamportClock`. Every call reads the wall clock once or twice; the readings are
--   arguments. Numbers are natural numbers; the bounds of u32 and u64 are those of the source.
-- * Cache models packages/utils/cache/src/index.ts: the cache that drops its oldest entries, with
--   Map and Set as tables in the order of insertion and the linked list of keys as a list. The loop
--   of `trim` is structural recursion on the list.
-- * Ranges models packages/programs/data/shared-log/src/ranges.ts: replication ranges, which are
--   arcs on the ring of coordinates, their segments and the set operations on them, which the shared
--   log uses to find what a changed range gains and loses.
-- * Lanes models packages/transport/stream/src/pushable-lanes.ts: the queue of lanes behind each
--   stream, over any first-in-first-out queue (Base/Fifo is its interface); the loop of `shift` runs
--   as many probes as the schedule has slots.
-- * Routes models packages/transport/stream/src/routes.ts: the routing table of a node, with the
--   same caller (the stream protocol) as the lanes. The loop that evicts maps runs on fuel, two rounds
--   for each map, since one map at most is moved to the end between two evictions.
-- * Seek models packages/transport/stream/src/core/seek-routing.ts: what a stream does with a data
--   message that seeks its recipients.
-- * Roots models packages/transport/pubsub/src/topic-root-control-plane.ts: the roots of topics, with
--   the arithmetic of the hash as JavaScript computes it; trackers and the resolver are parameters.
-- * Sorting models packages/log/src/log-sorting.ts: the orders of log entries, over the timestamps of
--   Clock.
-- * EntryIndex models packages/log/src/entry-index.ts: the index of the entries of a log with its
--   heads, deferred writes, count and cache. The index behind it is a table, the cache a parameter.
-- * Trim models packages/log/src/trim.ts: trims to a length, a size or an age, over an interface of the
--   log (Trim/Sorted has a list as one), with the options in TrimOptions. The loop runs on fuel, two
--   more than the index has entries, which need not be the length that the log reports: every round goes
--   to a later node, and the way back to the tail ends the loop.
-- * Removal models `prepareDeleteRecursively` of packages/log/src/log.ts, and LogHeads what it takes for
--   heads and tails. The stack runs on fuel that is counted from what the hashes resolve to, down to a
--   depth that the entries have, since they refer to each other by hash.
-- * Pushable models the iterator of packages/transport/stream/src/pushable-lanes.ts around the lanes. A
--   read that waits is a flag; a push answers it at once.
-- * Base holds what these share: lists over the native numbers, integers, tables, results with errors.
--
-- Not modelled: networking, storage, cryptography, serialisation, and the larger protocols built
-- on the parts above (append and join of logs, shared log, publish-subscribe).
pub mod Base
pub mod Clock
pub mod Cache
pub mod Ranges
pub mod Lanes
pub mod Routes
pub mod Seek
pub mod Roots
pub mod Sorting
pub mod EntryIndex
pub mod Trim
pub mod TrimOptions
pub mod Removal
pub mod LogHeads
pub mod Pushable
