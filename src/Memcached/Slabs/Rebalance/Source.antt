-- ===== src/Memcached/Slabs/Rebalance/Source.antt =====
-- Which class memcached-sr/slabs.c picks as the source of a page.
use bmc_cache.Base.{
  ℕ, zero, suc, ℤ, ◌+◌, ◌-◌, ◌<◌, ◌≤◌, false, Option, none, some, ltb, ◌==◌, if◌then◌else◌, ◌≡◌,
  ◌≢◌, inl, inr, refl, subst, arith, Bool-cases, if_either,
}
use bmc_cache.Memcached.Types.{SlabClass}
use bmc_cache.Memcached.Slabs.Rebalance.{
  Rebalancer, next_class, is_class, pick_from, slabs_reassign_pick_any,
}

-- A class that can give a page away.
abbrev pub IsSpare : ℕ → (ℕ → SlabClass) → ℤ → ℕ → Type 0
IsSpare largest cls dst j = (1 ≤ j) × (j ≤ largest) × (is_class j dst ≡ false) × (1 < (cls j).slabs)

-- How many steps it takes from one class to another.
abbrev distance : ℕ → ℕ → ℕ → ℕ
distance largest cur j = if ltb cur j then j - cur else largest - cur + j

distance-next_class :
    (largest cur j : ℕ)
    → 1 ≤ j
    → j ≤ largest
    → cur ≤ largest
    → j ≢ next_class largest cur
    → distance largest (next_class largest cur) j + 1 ≡ distance largest cur j
distance-next_class largest cur j one le at ne = ground arith

-- A spare class, or none within so many steps.
abbrev IsPick : ℕ → ℕ → (ℕ → SlabClass) → ℤ → ℕ → ℕ × Option ℕ → Type 0
IsPick left largest cls dst cur (at, none) =
    (j : ℕ) → distance largest cur j ≤ left → ¬ IsSpare largest cls dst j
IsPick left largest cls dst cur (at, some n) = IsSpare largest cls dst n × (at ≡ n)

IsPick-later :
    (left largest : ℕ) (cls : ℕ → SlabClass) (dst : ℤ) (cur : ℕ) (r : ℕ × Option ℕ)
    → cur ≤ largest
    → ¬ IsSpare largest cls dst (next_class largest cur)
    → IsPick left largest cls dst (next_class largest cur) r
    → IsPick (suc left) largest cls dst cur r
IsPick-later left largest cls dst cur (at, some n) le no_spare p = p
IsPick-later left largest cls dst cur (at, none) le no_spare p = λ j d (one, l, ne, more).
    elim (Bool-cases (j == next_class largest cur)) [
      | inl e ↦
          let h : j ≡ next_class largest cur = ground arith in
          no_spare (subst (IsSpare largest cls dst) h (one, l, ne, more))
      | inr e ↦
          let n : j ≢ next_class largest cur = λ h. absurd (ground arith) in
          let s = distance-next_class largest cur j one l le n in
          p j (omega arith) (one, l, ne, more)
    ]

pick_from-IsPick :
    (left largest : ℕ) (cls : ℕ → SlabClass) (dst : ℤ) (cur : ℕ)
    → cur ≤ largest
    → 1 ≤ largest
    → IsPick left largest cls dst cur (pick_from left largest cls dst cur)
unfolding pick_from
pick_from-IsPick zero largest cls dst cur le one = λ j d (o, l, ne, more). absurd (ground arith)
pick_from-IsPick (suc left) largest cls dst cur le one =
    let at = next_class largest cur in
    let small : at ≤ largest = ground arith in
    let rest = pick_from left largest cls dst at in
    let ih = pick_from-IsPick left largest cls dst at small one in
    if_either (IsPick (suc left) largest cls dst cur) (is_class at dst) rest
      (if ltb 1 (cls at).slabs then (at, some at) else rest)
      (λ e.
        IsPick-later left largest cls dst cur rest le (λ (o, l, ne, more). absurd (ground arith))
          ih)
      (λ e.
        if_either (IsPick (suc left) largest cls dst cur) (ltb 1 (cls at).slabs) (at, some at) rest
          (λ h. ((ground arith, small, e, ground arith), refl))
          (λ h.
            IsPick-later left largest cls dst cur rest le
              (λ (o, l, ne, more). absurd (ground arith)) ih))

-- If there is a class, and the last pick was one or there was none yet, the pick gives a class other
-- than the destination that has more than one page, and if it gives none, there is none.
pub slabs_reassign_pick_any-IsSpare :
    (r : Rebalancer) (dst : ℤ)
    → 1 ≤ r.cache.slabs.power_largest
    → r.cur ≤ r.cache.slabs.power_largest
    → ((j : ℕ)
        → (slabs_reassign_pick_any r dst).1 ≡ some j
        → IsSpare r.cache.slabs.power_largest r.cache.slabs.slabclass dst j)
      × ((slabs_reassign_pick_any r dst).1 ≡ none
          → (j : ℕ) → ¬ IsSpare r.cache.slabs.power_largest r.cache.slabs.slabclass dst j)
unfolding slabs_reassign_pick_any
slabs_reassign_pick_any-IsSpare r dst one le =
    let s = r.cache.slabs in
    picked (pick_from s.power_largest s.power_largest s.slabclass dst r.cur)
      (pick_from-IsPick s.power_largest s.power_largest s.slabclass dst r.cur le one)
  where
    picked :
        (p : ℕ × Option ℕ)
        → IsPick r.cache.slabs.power_largest r.cache.slabs.power_largest r.cache.slabs.slabclass dst
            r.cur p
        → ((j : ℕ)
            → p.1 ≡ some j
            → IsSpare r.cache.slabs.power_largest r.cache.slabs.slabclass dst j)
          × (p.1 ≡ none
              → (j : ℕ) → ¬ IsSpare r.cache.slabs.power_largest r.cache.slabs.slabclass dst j)
    picked (at, none) h =
        (λ j e. absurd (ground arith), λ e j (o, l, ne, more). h j (ground arith) (o, l, ne, more))
    picked (at, some n) (h, e) = (
      λ j q.
          let same : n ≡ j = cc in
          subst (IsSpare r.cache.slabs.power_largest r.cache.slabs.slabclass dst) same h,
      λ q. absurd (ground arith),
    )
