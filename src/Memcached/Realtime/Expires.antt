-- ===== src/Memcached/Realtime/Expires.antt =====
-- When an item with a time of `realtime` of memcached-sr/memcached.c expires.
use bmc_cache.Base.{
  ℕ, suc, pos, negsuc, ◌+◌, ◌-◌, ◌%◌, ◌^◌, ◌≤◌, ◌<◌, ltb, leb, ◌==◌, ◌≡◌, ◌≢◌, ◌↔◌, ◌⊎◌, inl, inr,
  arith, Bool-cases,
}
use bmc_cache.Memcached.Realtime.{realtime, realtime_maxdelta}

-- The test of a lookup at a later time.
abbrev pub IsExpired : ℕ → ℕ → Type 0
IsExpired exptime later = (exptime ≢ 0) × (exptime ≤ later)

module _ (process_started current_time exptime : ℕ) (h : exptime + current_time < 2 ^ 32) where
  abbrev r : ℕ
  r = realtime process_started current_time (pos exptime)

  r-never : exptime ≡ 0 → r ≡ 0
  unfolding realtime
  r-never z = ground arith

  r-relative : exptime ≢ 0 → exptime ≤ realtime_maxdelta → r ≡ exptime + current_time
  unfolding realtime
  r-relative nz le = ground arith

  r-past : realtime_maxdelta < exptime → exptime ≤ process_started → r ≡ 1
  unfolding realtime
  r-past lt le = ground arith

  r-absolute :
      realtime_maxdelta < exptime → process_started < exptime → r ≡ exptime - process_started
  unfolding realtime
  r-absolute lt l = ground arith

  -- An item that is given the time 0 never expires; one with at most 30 days expires when so many
  -- seconds have passed; and one with more expires when the clock of the system, which is
  -- `process_started` ahead, has reached that time, though not in the first second of the server; if the
  -- times fit 32 bits.
  pub realtime-IsExpired :
      (later : ℕ)
      → ((exptime ≡ 0) × (r ≡ 0))
        ⊎ (((exptime ≢ 0)
              × (exptime ≤ realtime_maxdelta)
              × (IsExpired r later ↔ (current_time + exptime ≤ later)))
            ⊎ ((realtime_maxdelta < exptime)
                × (IsExpired r later ↔ ((exptime ≤ process_started + later) × (1 ≤ later)))))
  realtime-IsExpired later = elim (Bool-cases (exptime == 0)) [
    | inl z ↦ inl (ground arith, r-never (ground arith))
    | inr z ↦
        let nz : exptime ≢ 0 = λ e. absurd (ground arith) in
        elim (Bool-cases (ltb realtime_maxdelta exptime)) [
          | inr d ↦
              let le : exptime ≤ realtime_maxdelta = ground arith in
              let e = r-relative nz le in
              inr (
                inl (
                  nz,
                  le,
                  ((λ x. let y = x.1 in omega arith), (λ x. (λ q. nz (omega arith), omega arith))),
                ))
          | inl d ↦
              let lt : realtime_maxdelta < exptime = ground arith in
              elim (Bool-cases (leb exptime process_started)) [
                | inl p ↦
                    let le : exptime ≤ process_started = ground arith in
                    let e = r-past lt le in
                    inr (
                      inr (
                        lt,
                        (
                          (λ x. let y = x.1 in (omega arith, omega arith)),
                          (λ x. let y = x.1 in (λ q. absurd (omega arith), omega arith)),
                        ),
                      ))
                | inr p ↦
                    let l : process_started < exptime = ground arith in
                    let e = r-absolute lt l in
                    inr (
                      inr (
                        lt,
                        (
                          (λ x. let y = x.1 in (omega arith, omega arith)),
                          (λ x. let y = x.0 in (λ q. absurd (omega arith), omega arith)),
                        ),
                      ))
              ]
        ]
  ]

-- A negative time that is at least the age of the server is one that the server does not reach in the
-- first 2 ^ 31 seconds: the item does not expire then.
pub realtime-negative :
    (process_started current_time n later : ℕ)
    → current_time ≤ suc n
    → suc n ≤ 2 ^ 31
    → later < 2 ^ 31
    → ¬ IsExpired (realtime process_started current_time (negsuc n)) later
unfolding realtime
realtime-negative process_started current_time n later le small soon (nz, x) =
    let y : (current_time + (2 ^ 64 - suc n)) % 2 ^ 32 ≤ later = x in
    let not_zero : (current_time + (2 ^ 64 - suc n)) % 2 ^ 32 ≢ 0 = nz in not_zero (omega arith)
