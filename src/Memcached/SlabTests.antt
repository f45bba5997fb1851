-- ===== src/Memcached/SlabTests.antt =====
-- Two classes of memcached-sr/slabs.c with pages, and the properties of a move at them; the automover
-- of memcached-sr/slab_automove_extstore.c.
use bmc_cache.Base.{
  ltb, ◌/◌, ℕ, pos, ◌+◌, ◌*◌, [], ◌∷◌, ◌++◌, false, some, none, ◌==◌, if◌then◌else◌, ◌≡◌, ◌≢◌, refl,
  arith,
}
use bmc_cache.Memcached.Types.{Cache, SlabClass}
use bmc_cache.Memcached.Automove.{ItemStatsAutomove}
use bmc_cache.Memcached.AutomoveExtstore.{
  ExtAutomove, ExtSlabStats, no_window, slab_automove_extstore_run,
}
use bmc_cache.Memcached.AutomoveExtstore.ThroughPool.{
  IsThroughPool, slab_automove_extstore_run-IsThroughPool,
}
use bmc_cache.Memcached.Samples.{empty_cache, two_classes}
use bmc_cache.Memcached.Slabs.Rebalance.{Rebalancer, slab_rebalance_finish, slabs_reassign_pick_any}
use bmc_cache.Memcached.Slabs.Rebalance.Source.{IsSpare, slabs_reassign_pick_any-IsSpare}
use bmc_cache.Memcached.Slabs.Rebalance.Pages.{pages, pages_from, slab_rebalance_finish-pages}

-- Class 1 has two pages, and the others have one.
abbrev paged_classes : ℕ → SlabClass
paged_classes j = record (two_classes j) {
  slabs = if j == 1 then 2 else 1;
  slab_list = λ x. 5000 + 1000 * (2 * j + x);
  list_size = 16;
}

abbrev paged_cache : Cache
paged_cache = record empty_cache {
  slabs = record (empty_cache.slabs) { slabclass = paged_classes };
}

abbrev moving : Rebalancer
moving = record {
  cache = paged_cache;
  slab_rebal = record {
    slab_start = 7000;
    slab_end = 7288;
    slab_pos = 7288;
    s_clsid = 1;
    d_clsid = 2;
    busy_items = 0;
    rescues = 0;
    evictions_nomem = 0;
    inline_reclaim = 0;
    chunk_rescues = 0;
    busy_deletes = 0;
    busy_loops = 0;
    done = false;
  };
  slab_rebalance_signal = 2;
  cur = 1;
  stats = record {
    slabs_moved = 0;
    slab_reassign_rescues = 0;
    slab_reassign_evictions_nomem = 0;
    slab_reassign_inline_reclaim = 0;
    slab_reassign_chunk_rescues = 0;
    slab_reassign_busy_deletes = 0;
    slab_reassign_running = false;
  };
}

distinct_classes : ◌≢◌ {A = ℕ} 1 2
distinct_classes h = absurd (ground arith)

slab_rebalance_finish-pages_example :
    (pages (slab_rebalance_finish moving).cache 1 ≡ pages_from 1 1 (paged_classes 1).slab_list)
    × (pages (slab_rebalance_finish moving).cache 2 ≡ pages paged_cache 2 ++ (7000 ∷ []))
    × ((id : ℕ)
        → id ≢ 1
        → id ≢ 2
        → pages (slab_rebalance_finish moving).cache id ≡ pages paged_cache id)
    × ((slab_rebalance_finish moving).slab_rebalance_signal ≡ 0)
slab_rebalance_finish-pages_example =
    slab_rebalance_finish-pages moving 1 distinct_classes (omega arith) refl

slabs_reassign_pick_any-IsSpare_test :
    ((j : ℕ)
      → (slabs_reassign_pick_any moving (pos 2)).1 ≡ some j
      → IsSpare 2 paged_classes (pos 2) j)
    × ((slabs_reassign_pick_any moving (pos 2)).1 ≡ none
        → (j : ℕ) → ¬ IsSpare 2 paged_classes (pos 2) j)
slabs_reassign_pick_any-IsSpare_test =
    slabs_reassign_pick_any-IsSpare moving (pos 2) (omega arith) (omega arith)

abbrev old_items : ℕ → ItemStatsAutomove
old_items n = record { evicted = 0; outofmemory = 0; age = 100 * n }

-- Class 2 has many free chunks.
abbrev free_chunks_of : ℕ → ExtSlabStats
free_chunks_of n = record {
  chunk_size = 96;
  chunks_per_page = 3;
  free_chunks = if n == 2 then 12 else 1;
  total_pages = 5;
}

abbrev automover : ExtAutomove
automover = record {
  window_data = λ i. no_window;
  window_global = λ i. record { pool_low = 0; pool_high = 0 };
  window_size = 2;
  window_cur = 0;
  item_size = 512;
  last_memcheck_run = 0;
  pool_filled_once = false;
  free_mem = λ n. 0;
  ext_free_memchunks = λ n. 0;
  iam_before = old_items;
  sam_before = free_chunks_of;
}

slab_automove_extstore_run-IsThroughPool_example :
    let r =
      slab_automove_extstore_run
        (λ x y. ltb (2 * x) y)
        (λ n. n / 100)
        1000
        0
        false
        automover
        old_items
        free_chunks_of in
    IsThroughPool r.1.0 r.1.1
slab_automove_extstore_run-IsThroughPool_example =
    slab_automove_extstore_run-IsThroughPool (λ x y. ltb (2 * x) y) (λ n. n / 100) 1000 0 false
      automover old_items free_chunks_of
