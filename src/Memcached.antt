-- ===== src/Memcached.antt =====
-- The parts of memcached-sr.
pub mod Types
pub mod Lru
pub mod Slabs
pub mod Items
pub mod Pull
pub mod Refs
pub mod Threads
pub mod Commands
pub mod PrefixStats
pub mod Maintainer
pub mod Alloc
pub mod StoreItem
pub mod Assoc
pub mod Automove
pub mod AutomoveExtstore
pub mod Tokens
pub mod Util
pub mod Realtime
pub mod ObjectCache
mod Tests
mod Samples
mod LruTests
mod StoreTests
mod UtilTests
mod RefsTests
mod StatsTests
mod SlabTests
