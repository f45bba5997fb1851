-- ===== src/Bmc.antt =====
-- bmc/bmc_kern.c: the in-kernel cache.
pub mod Types
pub mod Text
pub mod Kernel
pub mod RxFilter
pub mod HashKeys
pub mod PreparePacket
pub mod Checksum
pub mod WriteReply
pub mod InvalidateCache
pub mod UpdateCache
pub mod RoundTrip
pub mod Hashes
mod Samples
mod Tests
mod InterleaveTests
pub mod Interleave
pub mod Invariant
pub mod Run
