-- ===== src/Memcached/Types.antt =====
-- The structures of memcached-sr/memcached.h and the state of items.c and slabs.c, built without
-- external storage.
use bmc_cache.Base.{ℕ, ◌+◌, ◌*◌, ◌/◌, ◌%◌, Bool, false, List, Mem, ◌==◌, if◌then◌else◌, length}
use bmc_cache.Memcached.Assoc.{Table}

-- The bits of it_flags.
pub record Flags : Type 0 where
  pub linked : Bool
  pub has_cas : Bool
  pub slabbed : Bool
  pub fetched : Bool
  pub active : Bool
  pub chunked : Bool
  pub has_cflags : Bool
  pub token_sent : Bool
  pub stale : Bool

abbrev pub no_flags : Flags
no_flags = record {
  linked = false;
  has_cas = false;
  slabbed = false;
  fetched = false;
  active = false;
  chunked = false;
  has_cflags = false;
  token_sent = false;
  stale = false;
}

-- struct _stritem. Pointers are addresses, and 0 is NULL; `h_next` is in the chains of `Table`. The
-- variable part is taken apart: `cas`, the key, the client flags, the bytes of ITEM_data, and
-- of the chunk in a chunked item its `next` and `orig_clsid`. A chunk of such an item has the layout of
-- an item up to `slabs_clsid`.
pub record StrItem : Type 0 where
  pub next : ℕ
  pub prev : ℕ
  pub time : ℕ
  pub exptime : ℕ
  pub nbytes : ℕ
  pub refcount : ℕ
  pub it_flags : Flags
  pub slabs_clsid : ℕ
  pub cas : ℕ
  pub key : List ℕ
  pub client_flags : ℕ
  pub chunk_next : ℕ
  pub orig_clsid : ℕ
  pub data_ : Mem

pub record ItemStats : Type 0 where
  pub evicted : ℕ
  pub evicted_nonzero : ℕ
  pub evicted_time : ℕ
  pub evicted_unfetched : ℕ
  pub evicted_active : ℕ
  pub reclaimed : ℕ
  pub expired_unfetched : ℕ
  pub outofmemory : ℕ
  pub tailrepairs : ℕ
  pub lrutail_reflocked : ℕ
  pub moves_to_cold : ℕ
  pub moves_to_warm : ℕ
  pub moves_within_lru : ℕ
  pub direct_reclaims : ℕ

pub record Settings : Type 0 where
  pub use_cas : Bool
  pub lru_segmented : Bool
  pub temp_lru : Bool
  pub temporary_ttl : ℕ
  pub evict_to_free : Bool
  pub hot_lru_pct : ℕ
  pub warm_lru_pct : ℕ
  pub tail_repair_time : ℕ
  pub oldest_live : ℕ
  pub oldest_cas : ℕ
  pub item_size_max : ℕ
  pub slab_chunk_size_max : ℕ
  pub slab_page_size : ℕ
  pub slab_reassign : Bool

-- slabclass_t. The free chunks are linked like items.
pub record SlabClass : Type 0 where
  pub size : ℕ
  pub perslab : ℕ
  pub slots : ℕ
  pub sl_curr : ℕ
  pub slabs : ℕ
  pub slab_list : ℕ → ℕ
  pub list_size : ℕ

-- The variables of slabs.c. `mem_base` is 0 where memory was not taken in one piece.
pub record Slabs : Type 0 where
  pub slabclass : ℕ → SlabClass
  pub power_largest : ℕ
  pub mem_limit : ℕ
  pub mem_malloced : ℕ
  pub mem_limit_reached : Bool
  pub mem_base : ℕ
  pub mem_current : ℕ
  pub mem_avail : ℕ

-- The state of items.c: the items at their addresses, the hash table, the LRU queues, the counters,
-- and that of slabs.c.
pub record Cache : Type 0 where
  pub items : ℕ → StrItem
  pub table : Table
  pub heads : ℕ → ℕ
  pub tails : ℕ → ℕ
  pub sizes : ℕ → ℕ
  pub sizes_bytes : ℕ → ℕ
  pub itemstats : ℕ → ItemStats
  pub curr_bytes : ℕ
  pub curr_items : ℕ
  pub total_items : ℕ
  pub cas_id : ℕ
  pub current_time : ℕ
  pub settings : Settings
  pub slabs : Slabs

-- x[i] = v
abbrev pub set_at {ℓ} : {V : Type ℓ} → (ℕ → V) → ℕ → V → ℕ → V
set_at x i v j = if j == i then v else x j

abbrev pub set_item : Cache → ℕ → StrItem → Cache
set_item c a it = record c { items = set_at c.items a it }

abbrev pub hot_lru : ℕ
hot_lru = 0

abbrev pub warm_lru : ℕ
warm_lru = 64

abbrev pub cold_lru : ℕ
cold_lru = 128

abbrev pub temp_lru_id : ℕ
temp_lru_id = 192

-- The two upper bits of `slabs_clsid` are the queue, the others the slab class.
abbrev pub item_clsid : StrItem → ℕ
item_clsid it = it.slabs_clsid % 64

abbrev pub item_lruid : StrItem → ℕ
item_lruid it = it.slabs_clsid / 64 * 64

-- sizeof(struct _stritem)
abbrev pub item_header_size : ℕ
item_header_size = 48

unfoldable pub item_ntotal : StrItem → ℕ
item_ntotal it =
    item_header_size
    + (length it.key + 1)
    + it.nbytes
    + (if it.it_flags.has_cflags then 4 else 0)
    + (if it.it_flags.has_cas then 8 else 0)
