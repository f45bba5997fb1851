-- ===== src/Bmc/InterleaveTests.antt =====
-- The locked sections of two CPUs, interleaved.
use bmc_cache.Base.{refl, arith}
use bmc_cache.Bmc.Types.{State, update_cache}
use bmc_cache.Bmc.Kernel.{bounded_head, bounded_tail}
use bmc_cache.Bmc.InvalidateCache.{start_scan}
use bmc_cache.Bmc.Interleave.{
  idle, System, scan_round, assign, starts, runs, scans, here, then_step,
}
use bmc_cache.Bmc.Invariant.{IsSound, Reach-IsSound}
use bmc_cache.Bmc.Run.{program}
use bmc_cache.Bmc.Samples.{no_stats, blank_entry, set_k, value_k, state_of}

abbrev told : State
told = state_of value_k blank_entry

-- One CPU begins to scan a set command, another stores a reply, and the first goes on.
abbrev all_idle : System
all_idle = record { kcache = told.kcache; cpus = λ i. idle }

Reach-IsSound_example :
    IsSound
      (scan_round set_k
        (start_scan told.kcache no_stats)
        (program (bounded_head 0) bounded_tail update_cache told).0.kcache).0
unfolding assign
Reach-IsSound_example =
    Reach-IsSound (bounded_head 0) bounded_tail {y = all_idle} (λ i e q. ground arith)
      (then_step
        (then_step (then_step here (starts 1 set_k no_stats refl (omega arith)))
          (runs 0 update_cache told refl (λ q. cc) refl))
        (scans 1 set_k (start_scan told.kcache no_stats) refl))
