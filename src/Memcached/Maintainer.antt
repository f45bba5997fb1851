-- ===== src/Memcached/Maintainer.antt =====
-- The work of the maintainer's thread of memcached-sr/items.c on the queues.
pub mod Bumps
pub mod Waits
use bmc_cache.Base.{
  ℕ, zero, suc, ◌+◌, ◌-◌, ◌*◌, ◌/◌, ◌%◌, ◌^◌, Bool, true, false, not, ◌&&◌, ◌||◌, Option, none,
  some, List, [], ◌∷◌, ltb, leb, ◌==◌, if◌then◌else◌, u32,
}
use bmc_cache.Memcached.Types.{Cache, set_at, hot_lru, warm_lru, cold_lru, temp_lru_id}
use bmc_cache.Memcached.Lru.{add64, sub64}
use bmc_cache.Memcached.Items.{do_item_update, do_item_remove}
use bmc_cache.Memcached.Pull.{Request, no_pull_flags}
use bmc_cache.Memcached.Alloc.{pull}

-- The entries of a buffer: the item is updated, and the reference of the entry is given up.
unfoldable pub bump_entries : List ℕ → Cache → Cache
bump_entries [] c = c
bump_entries (it ∷ left) c = bump_entries left (do_item_remove (do_item_update c it) it)

-- All buffers, which are empty then. The second result tells whether there was an entry.
unfoldable pub lru_maintainer_bumps : List (List ℕ) → Cache → Cache × Bool
lru_maintainer_bumps [] c = (c, false)
lru_maintainer_bumps ([] ∷ buffers) c = lru_maintainer_bumps buffers c
lru_maintainer_bumps ((it ∷ left) ∷ buffers) c =
    ((lru_maintainer_bumps buffers (bump_entries (it ∷ left) c)).0, true)

abbrev pub juggle_request : ℕ → ℕ → ℕ → Bool → ℕ → Request
juggle_request slabs_clsid lru total_bytes crawl_blocks max_age = record {
  orig_id = slabs_clsid;
  cur_lru = lru;
  total_bytes = total_bytes;
  flags = record no_pull_flags { crawl_blocks = crawl_blocks };
  max_age = max_age;
}

-- `hot_factor` and `warm_factor` multiply an age by the factors of the settings, which are floating
-- numbers.
module _ (hash : List ℕ → ℕ) (rounds : ℕ) (trylock : ℕ → Bool)
    (hot_factor warm_factor : ℕ → ℕ) where
  -- The loop over the TEMP queue; its first argument is `500 - i`. The second result is `did_moves`.
  unfoldable pub juggle_temp : ℕ → ℕ → Cache → ℕ → Cache × ℕ
  juggle_temp zero slabs_clsid c did_moves = (c, did_moves)
  juggle_temp (suc left) slabs_clsid c did_moves =
      let (c1, removed) =
        pull hash rounds trylock c (juggle_request slabs_clsid temp_lru_id 0 false 0) in
      let rest = juggle_temp left slabs_clsid c1 (did_moves + 1) in
      if removed == 0 then (c1, did_moves) else rest

  -- The loop over the other queues.
  unfoldable pub juggle_queues : ℕ → ℕ → ℕ → ℕ → ℕ → Cache → ℕ → Cache × ℕ
  juggle_queues zero slabs_clsid total_bytes hot_age warm_age c did_moves = (c, did_moves)
  juggle_queues (suc left) slabs_clsid total_bytes hot_age warm_age c did_moves =
      let (c1, hot) =
        pull hash rounds trylock c (juggle_request slabs_clsid hot_lru total_bytes true hot_age) in
      let (c2, warm) =
        pull hash rounds trylock c1
          (juggle_request slabs_clsid warm_lru total_bytes true warm_age) in
      let after_warm = if hot == 0 then c2 else c1 in
      let moved : ℕ = if hot == 0 && warm == 0 then 0 else 1 in
      let (c3, cold) =
        pull hash rounds trylock after_warm
          (juggle_request slabs_clsid cold_lru total_bytes true 0) in
      let segmented = c.settings.lru_segmented in
      let c4 = if segmented then c3 else after_warm in
      let do_more = if segmented then moved + cold else moved in
      let rest = juggle_queues left slabs_clsid total_bytes hot_age warm_age c4 (did_moves + 1) in
      if do_more == 0 then (c4, did_moves) else rest

  unfoldable pub lru_maintainer_juggle : Cache → ℕ → Cache × ℕ
  lru_maintainer_juggle c slabs_clsid =
      let (c1, did_moves) =
        if c.settings.temp_lru then juggle_temp 500 slabs_clsid c 0 else (c, 0) in
      let segmented = c.settings.lru_segmented in
      let tail = c1.tails (slabs_clsid + cold_lru) in
      let cold_age : ℕ =
        if tail == 0 then 0 else u32 (c1.current_time + (2 ^ 32 - (c1.items tail).time)) in
      let total_bytes =
        add64
          (add64 (c1.sizes_bytes (slabs_clsid + cold_lru)) (c1.sizes_bytes (slabs_clsid + hot_lru)))
          (c1.sizes_bytes (slabs_clsid + warm_lru)) in
      if segmented
      then juggle_queues 500 slabs_clsid total_bytes (hot_factor cold_age) (warm_factor cold_age) c1
          did_moves
      else juggle_queues 500 slabs_clsid 0 0 0 c1 did_moves

-- crawlerstats_t, as far as the check reads it.
pub record CrawlerStats : Type 0 where
  pub histo : ℕ → ℕ
  pub noexp : ℕ
  pub seen : ℕ
  pub run_complete : Bool

abbrev pub max_maintcrawl_wait : ℕ
max_maintcrawl_wait = 60 * 60

abbrev pub power_largest : ℕ
power_largest = 256

-- The variables of the check, with the statistics of the crawlers.
pub record Check : Type 0 where
  pub crawlerstats : ℕ → CrawlerStats
  pub next_crawls : ℕ → ℕ
  pub next_crawl_wait : ℕ → ℕ
  pub todo : ℕ → Bool
  pub do_run : Bool
  pub tocrawl_limit : ℕ

-- Enough to reap at minute `x`: a longer wait if that is further off than the wait is, a shorter one
-- otherwise.
unfoldable pub adjusted_wait : ℕ → ℕ → ℕ
adjusted_wait wait x =
    if ltb wait (x * 60) then u32 (wait + 60) else if leb 60 wait then wait - 60 else wait

-- The loop over the minutes; its first argument is `60 - x`. The results are `available_reclaims` and
-- the wait.
unfoldable pub reclaims_from : ℕ → ℕ → (ℕ → ℕ) → ℕ → ℕ → ℕ → ℕ × ℕ
reclaims_from zero x histo low_watermark available wait = (available, wait)
reclaims_from (suc left) x histo low_watermark available wait =
    let more = add64 available (histo x) in
    let rest = reclaims_from left (x + 1) histo low_watermark more wait in
    if ltb low_watermark more then (more, adjusted_wait wait x) else rest

-- The wait after a run.
unfoldable pub next_wait : CrawlerStats → ℕ → ℕ
next_wait s wait =
    let possible_reclaims = sub64 s.seen s.noexp in
    let low_watermark = possible_reclaims / 100 + 1 in
    let (available, w) = reclaims_from 60 0 s.histo low_watermark 0 wait in
    let w1 = if available == 0 then u32 (w + 60) else w in
    if ltb max_maintcrawl_wait w1 then max_maintcrawl_wait else w1

unfoldable pub check_class : Cache → ℕ → Check → Check
check_class c i k =
    let s = k.crawlerstats i in
    let wait = next_wait s (k.next_crawl_wait i) in
    let k1 =
      if s.run_complete
      then record k {
        crawlerstats = set_at k.crawlerstats i (record s { run_complete = false });
        next_crawl_wait = set_at k.next_crawl_wait i wait;
        next_crawls = set_at k.next_crawls i (u32 (c.current_time + wait + 5));
      }
      else k in
    if ltb (k1.next_crawls i) c.current_time
    then record k1 {
      todo = set_at k1.todo i true;
      do_run = true;
      next_crawls = set_at k1.next_crawls i (u32 (c.current_time + 5));
      tocrawl_limit = if ltb k1.tocrawl_limit (c.sizes i) then c.sizes i else k1.tocrawl_limit;
    }
    else k1

-- The loop over the queues; its first argument is `POWER_LARGEST - i`.
unfoldable pub check_classes : ℕ → ℕ → Cache → Check → Check
check_classes zero i c k = k
check_classes (suc left) i c k = check_classes left (i + 1) c (check_class c i k)

-- The second result is the start of the crawler, with the queues and the limit, if it is started.
-- `tocrawl` is the setting; 0 is none.
unfoldable pub lru_maintainer_crawler_check : ℕ → Cache → Check → Check × Option ((ℕ → Bool) × ℕ)
lru_maintainer_crawler_check tocrawl c k =
    let k0 = record k { todo = λ i. false; do_run = false; tocrawl_limit = 0 } in
    let k1 = check_classes (power_largest - 1) 1 c k0 in
    let limit =
      if not (tocrawl == 0) && ltb tocrawl k1.tocrawl_limit then tocrawl else k1.tocrawl_limit in
    (k1, if k1.do_run then some (k1.todo, limit) else none)
