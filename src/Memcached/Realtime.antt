-- ===== src/Memcached/Realtime.antt =====
-- Expiration times of memcached-sr/memcached.c.
pub mod Expires
use bmc_cache.Base.{
  ℕ, suc, ℤ, pos, negsuc, ◌^◌, ◌+◌, ◌-◌, ◌*◌, Bool, ltb, leb, ◌==◌, if◌then◌else◌, u32,
}

-- REALTIME_MAXDELTA: 30 days.
abbrev pub realtime_maxdelta : ℕ
realtime_maxdelta = 60 * 60 * 24 * 30

-- The times of the server count from `process_started`, in 32 bits. A negative `exptime` is the sum of
-- 64 bits that is cut to 32.
unfoldable pub realtime : ℕ → ℕ → ℤ → ℕ
realtime process_started current_time (pos exptime) =
    if exptime == 0
    then 0
    else if ltb realtime_maxdelta exptime
    then (if leb exptime process_started then 1 else u32 (exptime - process_started))
    else u32 (exptime + current_time)
realtime process_started current_time (negsuc n) = u32 (current_time + (2 ^ 64 - suc n))
