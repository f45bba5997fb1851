-- ===== src/Memcached/Maintainer/Waits.antt =====
-- How long the maintainer of memcached-sr/items.c waits between two runs of the crawler.
use bmc_cache.Base.{
  ℕ, zero, suc, ◌+◌, ◌-◌, ◌/◌, ◌%◌, ◌≤◌, Bool, true, false, ltb, ◌==◌, if◌then◌else◌, u32, ◌≡◌,
  refl, arith, if_either,
}
use bmc_cache.Memcached.Types.{Cache}
use bmc_cache.Memcached.Lru.{add64, sub64}
use bmc_cache.Memcached.Maintainer.{
  CrawlerStats, Check, max_maintcrawl_wait, adjusted_wait, reclaims_from, next_wait, check_class,
  check_classes, lru_maintainer_crawler_check, power_largest,
}

-- A whole number of minutes, at most an hour.
abbrev pub IsWait : ℕ → Type 0
IsWait w = (w % 60 ≡ 0) × (w ≤ max_maintcrawl_wait)

adjusted_wait-minutes :
    (w x : ℕ) → IsWait w → (adjusted_wait w x % 60 ≡ 0) × (adjusted_wait w x ≤ 3660)
unfolding adjusted_wait
adjusted_wait-minutes w x (m, l) = (ground arith, ground arith)

reclaims_from-minutes :
    (left x : ℕ) (histo : ℕ → ℕ) (low available w : ℕ)
    → IsWait w
    → ((reclaims_from left x histo low available w).1 % 60 ≡ 0)
      × ((reclaims_from left x histo low available w).1 ≤ 3660)
unfolding reclaims_from
reclaims_from-minutes zero x histo low available w (m, l) = (m, omega arith)
reclaims_from-minutes (suc left) x histo low available w h =
    let more = add64 available (histo x) in
    if_either (λ (r : ℕ × ℕ). (r.1 % 60 ≡ 0) × (r.1 ≤ 3660)) (ltb low more)
      (more, adjusted_wait w x) (reclaims_from left (x + 1) histo low more w)
      (λ e. adjusted_wait-minutes w x h)
      (λ e. reclaims_from-minutes left (x + 1) histo low more w h)

minute_more :
    (b : Bool) (w : ℕ)
    → w % 60 ≡ 0
    → w ≤ 3660
    → ((if b then u32 (w + 60) else w) % 60 ≡ 0) × ((if b then u32 (w + 60) else w) ≤ 3720)
minute_more true w m l = (omega arith, omega arith)
minute_more false w m l = (m, omega arith)

next_wait-IsWait : (s : CrawlerStats) (w : ℕ) → IsWait w → IsWait (next_wait s w)
unfolding next_wait
next_wait-IsWait s w h =
    let low = sub64 s.seen s.noexp / 100 + 1 in
    let (available, v) = reclaims_from 60 0 s.histo low 0 w in
    let (m, l) = reclaims_from-minutes 60 0 s.histo low 0 w h in
    let (m1, l1) = minute_more (available == 0) v m l in
    let w1 = if available == 0 then u32 (v + 60) else v in
    if_either IsWait (ltb max_maintcrawl_wait w1) max_maintcrawl_wait w1 (λ e. (refl, omega arith))
      (λ e. (m1, ground arith))

abbrev pub WaitsWell : Check → Type 0
WaitsWell k = (i : ℕ) → IsWait (k.next_crawl_wait i)

check_class-WaitsWell :
    (c : Cache) (i : ℕ) (k : Check) → WaitsWell k → WaitsWell (check_class c i k)
unfolding check_class
check_class-WaitsWell c i k h j =
    let n = next_wait-IsWait (k.crawlerstats i) (k.next_crawl_wait i) (h i) in
    let o = h j in (ground arith, ground arith)

check_classes-WaitsWell :
    (left i : ℕ) (c : Cache) (k : Check) → WaitsWell k → WaitsWell (check_classes left i c k)
unfolding check_classes
check_classes-WaitsWell zero i c k h = h
check_classes-WaitsWell (suc left) i c k h =
    check_classes-WaitsWell left (i + 1) c (check_class c i k) (check_class-WaitsWell c i k h)

-- If the waits are whole numbers of minutes and at most an hour, they are so after the check.
pub lru_maintainer_crawler_check-WaitsWell :
    (tocrawl : ℕ) (c : Cache) (k : Check)
    → WaitsWell k
    → WaitsWell (lru_maintainer_crawler_check tocrawl c k).0
unfolding lru_maintainer_crawler_check
lru_maintainer_crawler_check-WaitsWell tocrawl c k h =
    check_classes-WaitsWell (power_largest - 1) 1 c
      (record k { todo = λ i. false; do_run = false; tocrawl_limit = 0 }) h
