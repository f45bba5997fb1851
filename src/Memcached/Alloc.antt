-- ===== src/Memcached/Alloc.antt =====
-- memcached-sr/items.c: memory for an item, by a free chunk or at the cost of another item.
pub mod Size
use bmc_cache.Base.{
  ℕ, zero, suc, ◌+◌, ◌-◌, ◌%◌, ◌^◌, Bool, true, false, not, ◌&&◌, ◌||◌, Option, none, some, List,
  ltb, leb, ◌==◌, if◌then◌else◌, u32, length,
}
use bmc_cache.Memcached.Types.{
  StrItem, Flags, no_flags, Cache, ItemStats, Settings, set_item, item_header_size, hot_lru,
  cold_lru, temp_lru_id,
}
use bmc_cache.Memcached.Lru.{add64}
use bmc_cache.Memcached.Slabs.{slabs_clsid, do_slabs_alloc}
use bmc_cache.Memcached.Items.{item_make_header}
use bmc_cache.Memcached.Pull.{Request, PullFlags, no_pull_flags, Pull, lru_pull_tail, set_stats}

-- What a round of the allocation meets: whether realloc has memory, what malloc gives, and which
-- item locks are free.
pub record Round : Type 0 where
  pub grown : Bool
  pub fresh : ℕ
  pub trylock : ℕ → Bool

abbrev pub tail_request : ℕ → ℕ → Bool → Request
tail_request id cur_lru evict = record {
  orig_id = id;
  cur_lru = cur_lru;
  total_bytes = 0;
  flags = record no_pull_flags { evict = evict };
  max_age = 0;
}

-- sizeof(item_chunk)
abbrev pub chunk_header_size : ℕ
chunk_header_size = 48

-- The LRU queue of a new item.
unfoldable pub first_lru : Settings → ℕ → ℕ → ℕ
first_lru s current_time exptime =
    if s.temp_lru && leb (u32 (exptime + (2 ^ 32 - current_time))) s.temporary_ttl
    then temp_lru_id
    else if s.lru_segmented
    then hot_lru
    else cold_lru

-- The header of a new item.
unfoldable pub fill_item : Cache → ℕ → ℕ → ℕ → List ℕ → ℕ → ℕ → ℕ → Bool → Cache
fill_item c it id hdr_id key flags exptime nbytes chunked =
    let i = c.items it in
    set_item c it (record i {
      next = 0;
      prev = 0;
      slabs_clsid = id + first_lru c.settings c.current_time exptime;
      it_flags = record (i.it_flags) {
        has_cas = c.settings.use_cas || i.it_flags.has_cas;
        has_cflags = not (flags == 0) || i.it_flags.has_cflags;
        chunked = chunked || i.it_flags.chunked;
      };
      key = key;
      nbytes = nbytes;
      exptime = exptime;
      client_flags = if flags == 0 then i.client_flags else flags;
      chunk_next = if chunked then 0 else i.chunk_next;
      orig_clsid = if chunked then hdr_id else i.orig_clsid;
    })

module _ (hash : List ℕ → ℕ) (rounds : ℕ) where
  -- `lru_pull_tail` where the queue is shorter than `rounds`; the state stays otherwise.
  unfoldable pub pull : (ℕ → Bool) → Cache → Request → Cache × ℕ
  pull trylock c r = elim (lru_pull_tail hash trylock rounds c r) [
    | none ↦ (c, 0)
    | some p ↦ (p.cache, p.removed)
  ]

  -- After a failed slab allocation: the tail of the COLD queue, and then that of the HOT one. The
  -- second result tells whether another round is worth it.
  unfoldable pub make_room : (ℕ → Bool) → Cache → ℕ → Cache × Bool
  make_room trylock c id =
      let (c1, removed) = pull trylock c (tail_request id cold_lru true) in
      if ltb 0 removed
      then (c1, true)
      else if c1.settings.lru_segmented
      then ((pull trylock c1 (tail_request id hot_lru false)).0, true)
      else (c1, false)

  -- The loop; its first argument is `10 - i`. The results are the state, the chunk (0 is NULL) and
  -- `i`.
  unfoldable pub alloc_loop : ℕ → (ℕ → Round) → Cache → ℕ → ℕ → Cache × ℕ × ℕ
  alloc_loop zero env c id i = (c, 0, i)
  alloc_loop (suc left) env c id i =
      let e = env i in
      let c1 =
        if c.settings.lru_segmented
        then c
        else (pull e.trylock c (tail_request id cold_lru false)).0 in
      let (c2, it) = do_slabs_alloc e.grown e.fresh c1 id true in
      let (c3, again) = make_room e.trylock c2 id in
      let rest = alloc_loop left env c3 id (i + 1) in
      if it == 0 then (if again then rest else (c3, 0, i)) else (c2, it, i)

  unfoldable pub do_item_alloc_pull : (ℕ → Round) → Cache → ℕ → Cache × ℕ
  do_item_alloc_pull env c id =
      let (c1, it, i) = alloc_loop 10 env c id 0 in
      let s = c1.itemstats id in
      (
        if i == 0
            then c1
            else set_stats c1 id (record s { direct_reclaims = add64 s.direct_reclaims i }),
        it,
      )

  -- 0 is NULL. An item above the largest chunk gets a header only.
  unfoldable pub do_item_alloc : (ℕ → Round) → Cache → List ℕ → ℕ → ℕ → ℕ → Cache × ℕ
  do_item_alloc env c key flags exptime nbytes =
      let cas_size : ℕ = if c.settings.use_cas then 8 else 0 in
      let flags_size : ℕ = if flags == 0 then 0 else 4 in
      let ntotal = item_make_header (length key + 1) flags nbytes + cas_size in
      let id = slabs_clsid c ntotal in
      let htotal = length key + 1 + flags_size + item_header_size + chunk_header_size + cas_size in
      let large = ltb c.settings.slab_chunk_size_max ntotal in
      let hdr_id = slabs_clsid c htotal in
      if ltb nbytes 2 || id == 0
      then (c, 0)
      else (let (c1, it) = do_item_alloc_pull env c (if large then hdr_id else id) in
          let s = c1.itemstats id in
          if it == 0
          then (set_stats c1 id (record s { outofmemory = add64 s.outofmemory 1 }), 0)
          else (fill_item c1 it id hdr_id key flags exptime nbytes large, it))
