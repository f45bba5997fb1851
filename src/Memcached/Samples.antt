-- ===== src/Memcached/Samples.antt =====
-- A hash, and a cache of memcached-sr without items, with two slab classes.
use bmc_cache.Base.{ℕ, ◌+◌, List, [], ◌∷◌, true, false, ◌==◌, if◌then◌else◌}
use bmc_cache.Memcached.Types.{ItemStats, Settings, SlabClass, Cache}
use bmc_cache.Memcached.Assoc.{assoc_init}
use bmc_cache.Memcached.Slabs.{zero_item}

abbrev pub sum_bytes : List ℕ → ℕ
sum_bytes [] = 0
sum_bytes (x ∷ xs) = x + sum_bytes xs

abbrev pub no_stats : ItemStats
no_stats = record {
  evicted = 0;
  evicted_nonzero = 0;
  evicted_time = 0;
  evicted_unfetched = 0;
  evicted_active = 0;
  reclaimed = 0;
  expired_unfetched = 0;
  outofmemory = 0;
  tailrepairs = 0;
  lrutail_reflocked = 0;
  moves_to_cold = 0;
  moves_to_warm = 0;
  moves_within_lru = 0;
  direct_reclaims = 0;
}

abbrev pub usual_settings : Settings
usual_settings = record {
  use_cas = true;
  lru_segmented = true;
  temp_lru = false;
  temporary_ttl = 61;
  evict_to_free = true;
  hot_lru_pct = 20;
  warm_lru_pct = 40;
  tail_repair_time = 0;
  oldest_live = 0;
  oldest_cas = 0;
  item_size_max = 1048576;
  slab_chunk_size_max = 524288;
  slab_page_size = 1048576;
  slab_reassign = true;
}

-- Two classes, of 96 and 120 bytes.
abbrev pub two_classes : ℕ → SlabClass
two_classes j = record {
  size = if j == 1 then 96 else 120;
  perslab = 3;
  slots = 0;
  sl_curr = 0;
  slabs = 0;
  slab_list = λ i. 0;
  list_size = 0;
}

abbrev pub empty_cache : Cache
empty_cache = record {
  items = λ a. zero_item;
  table = assoc_init 1;
  heads = λ j. 0;
  tails = λ j. 0;
  sizes = λ j. 0;
  sizes_bytes = λ j. 0;
  itemstats = λ j. no_stats;
  curr_bytes = 0;
  curr_items = 0;
  total_items = 0;
  cas_id = 0;
  current_time = 1000;
  settings = usual_settings;
  slabs = record {
    slabclass = two_classes;
    power_largest = 2;
    mem_limit = 0;
    mem_malloced = 0;
    mem_limit_reached = false;
    mem_base = 0;
    mem_current = 0;
    mem_avail = 0;
  };
}
