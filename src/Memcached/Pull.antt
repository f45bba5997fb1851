-- ===== src/Memcached/Pull.antt =====
-- `lru_pull_tail` of memcached-sr/items.c: looks for work at the tail of an LRU queue.
use bmc_cache.Base.{
  ℕ, zero, suc, ◌+◌, ◌-◌, ◌*◌, ◌/◌, ◌%◌, ◌^◌, Bool, false, not, ◌&&◌, ◌||◌, Option, none, some,
  List, ltb, ◌==◌, if◌then◌else◌, u32, length,
}
use bmc_cache.Memcached.Types.{
  StrItem, Cache, ItemStats, set_at, set_item, item_clsid, hot_lru, warm_lru, cold_lru,
}
use bmc_cache.Memcached.Lru.{do_item_link_q, do_item_unlink_q, add64}
use bmc_cache.Memcached.Items.{
  item_is_flushed, refcount_incr, do_item_remove, do_item_unlink, set_active,
}

-- LRU_PULL_EVICT, LRU_PULL_CRAWL_BLOCKS and LRU_PULL_RETURN_ITEM.
pub record PullFlags : Type 0 where
  pub evict : Bool
  pub crawl_blocks : Bool
  pub return_item : Bool

abbrev pub no_pull_flags : PullFlags
no_pull_flags = record { evict = false; crawl_blocks = false; return_item = false }

-- The variables of the loop. `it` is 0 until the loop is to end.
pub record Pull : Type 0 where
  pub cache : Cache
  pub removed : ℕ
  pub it : ℕ
  pub move_to_lru : ℕ
  pub returned : ℕ

abbrev pub set_stats : Cache → ℕ → ItemStats → Cache
set_stats c id s = record c { itemstats = set_at c.itemstats id s }

-- A pseudo item of the crawler.
unfoldable pub is_crawler : StrItem → Bool
is_crawler i =
    i.nbytes == 0
    && length i.key == 0
    && i.it_flags.linked
    && not (
        i.it_flags.has_cas || i.it_flags.slabbed || i.it_flags.fetched || i.it_flags.active
        || i.it_flags.chunked || i.it_flags.has_cflags || i.it_flags.token_sent || i.it_flags.stale)

-- The queue, the flags, and what the caller asks for.
pub record Request : Type 0 where
  pub orig_id : ℕ
  pub cur_lru : ℕ
  pub total_bytes : ℕ
  pub flags : PullFlags
  pub max_age : ℕ

abbrev pub queue_id : Request → ℕ
queue_id r = r.orig_id + r.cur_lru

-- Expired or flushed: unlinked and released. The loop goes on.
unfoldable pub reclaim_tail : Request → Pull → ℕ → ℕ → Pull
reclaim_tail r p search hv =
    let c = p.cache in
    let id = queue_id r in
    let s = c.itemstats id in
    let unfetched : ℕ = if (c.items search).it_flags.fetched then 0 else 1 in
    let c1 = set_stats c id (record s {
      reclaimed = add64 s.reclaimed 1;
      expired_unfetched = add64 s.expired_unfetched unfetched;
    }) in
    record p {
      cache = do_item_remove (do_item_unlink c1 search hv) search;
      removed = p.removed + 1;
    }

-- Above the limit of a HOT or WARM queue.
unfoldable pub lru_limit : Cache → Request → ℕ
lru_limit c r =
    let hot = r.total_bytes * c.settings.hot_lru_pct % 2 ^ 64 / 100 in
    if r.cur_lru == hot_lru && not (hot == 0)
    then hot
    else r.total_bytes * c.settings.warm_lru_pct % 2 ^ 64 / 100

unfoldable pub pull_hot_or_warm : Request → Pull → ℕ → Pull
pull_hot_or_warm r p search =
    let c = p.cache in
    let id = queue_id r in
    let s = c.itemstats id in
    let i = c.items search in
    if i.it_flags.active
    then (if r.cur_lru == warm_lru
        then (let c1 =
              set_stats (set_item c search (set_active i false)) id
                (record s { moves_within_lru = add64 s.moves_within_lru 1 }) in
            record p {
              cache = do_item_remove (do_item_link_q (do_item_unlink_q c1 search) search) search;
              removed = p.removed + 1;
            })
        else (let c1 =
              set_stats (set_item c search (set_active i false)) id
                (record s { moves_to_warm = add64 s.moves_to_warm 1 }) in
            record p {
              cache = do_item_unlink_q c1 search;
              removed = p.removed + 1;
              move_to_lru = warm_lru;
              it = search;
            }))
    else if ltb (lru_limit c r) (c.sizes_bytes id)
        || ltb r.max_age (u32 (c.current_time + (2 ^ 32 - i.time)))
    then record p {
      cache =
          do_item_unlink_q (set_stats c id (record s { moves_to_cold = add64 s.moves_to_cold 1 }))
            search;
      removed = p.removed + 1;
      move_to_lru = cold_lru;
      it = search;
    }
    else record p { it = search }

-- The counters of an eviction.
unfoldable pub count_eviction : Cache → ℕ → StrItem → Cache
count_eviction c id i =
    let s = c.itemstats id in
    set_stats c id (record s {
      evicted = add64 s.evicted 1;
      evicted_time = u32 (c.current_time + (2 ^ 32 - i.time));
      evicted_nonzero = add64 s.evicted_nonzero (if i.exptime == 0 then 0 else 1);
      evicted_unfetched = add64 s.evicted_unfetched (if i.it_flags.fetched then 0 else 1);
      evicted_active = add64 s.evicted_active (if i.it_flags.active then 1 else 0);
    })

unfoldable pub pull_cold : Request → Pull → ℕ → ℕ → Pull
pull_cold r p search hv =
    let c = p.cache in
    let id = queue_id r in
    let s = c.itemstats id in
    let i = c.items search in
    if r.flags.evict
    then (if c.settings.evict_to_free
        then record p {
          cache = do_item_unlink (count_eviction c id i) search hv;
          removed = p.removed + 1;
          it = search;
        }
        else record p { it = search })
    else if r.flags.return_item
    then record p { it = search; returned = search }
    else if i.it_flags.active && c.settings.lru_segmented
    then record p {
      cache =
          do_item_unlink_q
            (set_item (set_stats c id (record s { moves_to_warm = add64 s.moves_to_warm 1 })) search
              (set_active i false))
            search;
      removed = p.removed + 1;
      move_to_lru = warm_lru;
      it = search;
    }
    else record p { it = search }

unfoldable pub is_expired : Cache → StrItem → Bool
is_expired c i = not (i.exptime == 0) && ltb i.exptime c.current_time || item_is_flushed c i

-- An item whose lock was taken, with a reference of its own.
unfoldable pub pull_locked : Request → Pull → ℕ → ℕ → Pull
pull_locked r p search hv =
    if is_expired p.cache (p.cache.items search)
    then reclaim_tail r p search hv
    else if r.cur_lru == hot_lru || r.cur_lru == warm_lru
    then pull_hot_or_warm r p search
    else if r.cur_lru == cold_lru
    then pull_cold r p search hv
    else record p { it = search }

-- The quick repair of a leaked reference: the item is unlinked with the loop's reference only.
unfoldable pub repair_tail : Request → Pull → ℕ → ℕ → Pull
repair_tail r p search hv =
    let c = p.cache in
    let s = c.itemstats (queue_id r) in
    let c1 = set_stats c (queue_id r) (record s { tailrepairs = add64 s.tailrepairs 1 }) in
    record p {
      cache =
          do_item_unlink (set_item c1 search (record (c.items search) { refcount = 1 })) search hv;
    }

unfoldable pub pull_one : Request → Pull → ℕ → ℕ → Pull
pull_one r p search hv =
    let c0 = p.cache in
    let i = refcount_incr (c0.items search) in
    let c = set_item c0 search i in
    let s = c.itemstats (queue_id r) in
    let c1 =
      set_stats c (queue_id r) (record s { lrutail_reflocked = add64 s.lrutail_reflocked 1 }) in
    if i.refcount == 2
    then pull_locked r (record p { cache = c }) search hv
    else if not (c.settings.tail_repair_time == 0)
        && ltb (u32 (i.time + c.settings.tail_repair_time)) c.current_time
    then repair_tail r (record p { cache = c1 }) search hv
    else pull_locked r (record p { cache = c1 }) search hv

-- `trylock` tells whether the lock of an item's hash is free.
module _ (hash : List ℕ → ℕ) (trylock : ℕ → Bool) where
  -- The loop. A crawler does not count as a try, so that the first argument is to bound the rounds,
  -- by the number of the queue's addresses; `none` is that it did not.
  unfoldable pub pull_loop : ℕ → Request → ℕ → Pull → ℕ → Option Pull
  pull_loop zero r tries p search = if tries == 0 || search == 0 then some p else none
  pull_loop (suc left) r tries p search =
      let i = p.cache.items search in
      let hv = hash i.key in
      let p1 = if trylock hv then pull_one r p search hv else p in
      let next_round = pull_loop left r (tries - 1) p1 i.prev in
      let past_crawler = pull_loop left r tries p i.prev in
      if tries == 0 || search == 0
      then some p
      else if is_crawler i
      then (if r.flags.crawl_blocks then some (record p { it = 0; removed = 0 }) else past_crawler)
      else if p1.it == 0
      then next_round
      else some p1

  -- What follows the loop: the item goes to its new queue and loses the loop's reference.
  unfoldable pub finish_pull : Request → Pull → Pull
  finish_pull r p =
      let c = p.cache in
      let i = c.items p.it in
      let c1 =
        if p.move_to_lru == 0
        then c
        else do_item_link_q
            (set_item c p.it (record i { slabs_clsid = item_clsid i + p.move_to_lru })) p.it in
      if p.it == 0
      then p
      else if r.flags.return_item
      then record p { cache = c1 }
      else record p { cache = do_item_remove c1 p.it }

  unfoldable pub lru_pull_tail : ℕ → Cache → Request → Option Pull
  lru_pull_tail rounds c r =
      let start : Pull = record { cache = c; removed = 0; it = 0; move_to_lru = 0; returned = 0 } in
      if r.orig_id == 0
      then some start
      else elim (pull_loop rounds r 5 start (c.tails (queue_id r))) [
        | none ↦ none
        | some p ↦ some (finish_pull r p)
      ]
