-- ===== src/Memcached/Slabs/Rebalance.antt =====
-- memcached-sr/slabs.c: the request of a page move, its start and its end. The moves of the items of
-- the page are not modelled.
pub mod Source
pub mod Pages
pub mod Cut
use bmc_cache.Base.{
  ℕ, zero, suc, ℤ, pos, negsuc, ◌+◌, ◌-◌, ◌*◌, ◌%◌, ◌^◌, Bool, true, false, not, ◌&&◌, ◌||◌, Option,
  none, some, ltb, leb, ◌==◌, if◌then◌else◌,
}
use bmc_cache.Memcached.Types.{StrItem, Flags, no_flags, Cache, SlabClass, set_at, set_item}
use bmc_cache.Memcached.Lru.{add64, set_prev, set_next}
use bmc_cache.Memcached.Slabs.{
  set_class, grow_slab_list, get_page_from_global_pool, split_slab_page_into_freelist, clear_page,
  zero_item, do_slabs_alloc,
}

-- enum reassign_result_type
pub data ReassignResult : Type 0 where
  reassign_ok : ReassignResult
  reassign_running : ReassignResult
  reassign_badclass : ReassignResult
  reassign_nospare : ReassignResult
  reassign_src_dst_same : ReassignResult

-- struct slab_rebalance
pub record SlabRebalance : Type 0 where
  pub slab_start : ℕ
  pub slab_end : ℕ
  pub slab_pos : ℕ
  pub s_clsid : ℕ
  pub d_clsid : ℕ
  pub busy_items : ℕ
  pub rescues : ℕ
  pub evictions_nomem : ℕ
  pub inline_reclaim : ℕ
  pub chunk_rescues : ℕ
  pub busy_deletes : ℕ
  pub busy_loops : ℕ
  pub done : Bool

-- The counters of the moves in the statistics.
pub record MoveStats : Type 0 where
  pub slabs_moved : ℕ
  pub slab_reassign_rescues : ℕ
  pub slab_reassign_evictions_nomem : ℕ
  pub slab_reassign_inline_reclaim : ℕ
  pub slab_reassign_chunk_rescues : ℕ
  pub slab_reassign_busy_deletes : ℕ
  pub slab_reassign_running : Bool

-- `slab_rebalance_signal` and the variable `cur` of the pick.
pub record Rebalancer : Type 0 where
  pub cache : Cache
  pub slab_rebal : SlabRebalance
  pub slab_rebalance_signal : ℕ
  pub cur : ℕ
  pub stats : MoveStats

-- The next class, round and round.
abbrev pub next_class : ℕ → ℕ → ℕ
next_class power_largest cur = if ltb power_largest (cur + 1) then 1 else cur + 1

abbrev pub is_class : ℕ → ℤ → Bool
is_class n (pos m) = n == m
is_class n (negsuc m) = false

-- The loop; its first argument is `tries`. The results are `cur` and the class, where none is -1.
unfoldable pub pick_from : ℕ → ℕ → (ℕ → SlabClass) → ℤ → ℕ → ℕ × Option ℕ
pick_from zero power_largest cls dst cur = (cur, none)
pick_from (suc left) power_largest cls dst cur =
    let at = next_class power_largest cur in
    let rest = pick_from left power_largest cls dst at in
    if is_class at dst then rest else if ltb 1 (cls at).slabs then (at, some at) else rest

unfoldable pub slabs_reassign_pick_any : Rebalancer → ℤ → ℕ × Option ℕ
slabs_reassign_pick_any r dst =
    let s = r.cache.slabs in pick_from s.power_largest s.power_largest s.slabclass dst r.cur

abbrev pub same_class : ℤ → ℤ → Bool
same_class (pos m) (pos n) = m == n
same_class (negsuc m) (negsuc n) = m == n
same_class a b = false

-- A class, or the pool of pages, which is class 0.
abbrev pub class_of : ℕ → ℤ → Option ℕ
class_of power_largest (pos n) = if ltb power_largest n then none else some n
class_of power_largest (negsuc n) = none

-- Source and destination are known.
unfoldable pub reassign_between : Rebalancer → Option ℕ → Option ℕ → Rebalancer × ReassignResult
reassign_between r none dst = (r, reassign_badclass)
reassign_between r (some src) none = (r, reassign_badclass)
reassign_between r (some src) (some dst) =
    if ltb (r.cache.slabs.slabclass src).slabs 2 then (r, reassign_nospare) else (
      record r {
        slab_rebal = record (r.slab_rebal) { s_clsid = src; d_clsid = dst };
        slab_rebalance_signal = 1;
      },
      reassign_ok,
    )

unfoldable pub do_slabs_reassign : Rebalancer → ℤ → ℤ → Rebalancer × ReassignResult
do_slabs_reassign r src dst =
    let largest = r.cache.slabs.power_largest in
    let (cur, picked) = slabs_reassign_pick_any r dst in
    if not (r.slab_rebalance_signal == 0)
    then (r, reassign_running)
    else if same_class src dst
    then (r, reassign_src_dst_same)
    else if same_class src (negsuc 0)
    then reassign_between (record r { cur = cur }) picked (class_of largest dst)
    else reassign_between r (class_of largest src) (class_of largest dst)

-- `free`: the lock of the rebalancer can be taken.
unfoldable pub slabs_reassign : Bool → Rebalancer → ℤ → ℤ → Rebalancer × ReassignResult
slabs_reassign free r src dst = if free then do_slabs_reassign r src dst else (r, reassign_running)

-- The negative of the result: 0, or why not.
unfoldable pub slab_rebalance_start : Bool → Rebalancer → Rebalancer × ℕ
slab_rebalance_start grown r =
    let b = r.slab_rebal in
    let largest = r.cache.slabs.power_largest in
    let bad = ltb largest b.s_clsid || ltb largest b.d_clsid || b.s_clsid == b.d_clsid in
    let (c, has_room) = grow_slab_list grown r.cache b.d_clsid in
    let s_cls = c.slabs.slabclass b.s_clsid in
    let no_go : ℕ =
      if ltb s_cls.slabs 2 then 3 else if not has_room then 1 else if bad then 2 else 0 in
    if not (no_go == 0) then (record r { cache = c }, no_go) else (
      record r {
        cache = c;
        slab_rebal = record b {
          slab_start = s_cls.slab_list 0;
          slab_end = s_cls.slab_list 0 + s_cls.size * s_cls.perslab;
          slab_pos = s_cls.slab_list 0;
          done = b.s_clsid == 0;
        };
        slab_rebalance_signal = 2;
        stats = record (r.stats) { slab_reassign_running = true };
      },
      0,
    )

abbrev pub count32 : ℕ → ℕ
count32 n = (n + 1) % 2 ^ 32

-- The loop; its first argument is `perslab - x`. A chunk of the page that is to go is put aside.
unfoldable pub rebalance_alloc : ℕ → ℕ → Rebalancer → Rebalancer × ℕ
rebalance_alloc zero id r = (r, 0)
rebalance_alloc (suc left) id r =
    let b = r.slab_rebal in
    let (c, new_it) = do_slabs_alloc false 0 r.cache id false in
    let aside = set_item c new_it (record (c.items new_it) {
      refcount = 0;
      it_flags = record no_flags { slabbed = true; fetched = true };
    }) in
    let rest = rebalance_alloc left id (record r {
      cache = aside;
      slab_rebal = record b { inline_reclaim = count32 b.inline_reclaim };
    }) in
    if new_it == 0
    then (record r { cache = c }, 0)
    else if leb b.slab_start new_it && ltb new_it b.slab_end
    then rest
    else (record r { cache = c }, new_it)

unfoldable pub slab_rebalance_alloc : Rebalancer → ℕ → Rebalancer × ℕ
slab_rebalance_alloc r id =
    rebalance_alloc (r.cache.slabs.slabclass r.slab_rebal.s_clsid).perslab id r

-- A chunk is taken out of the free ones of its class.
unfoldable pub slab_rebalance_cut_free : Cache → ℕ → ℕ → Cache
slab_rebalance_cut_free c id it =
    let p = c.slabs.slabclass id in
    let i = c.items it in
    set_class (record c { items = set_next (set_prev c.items i.next i.prev) i.prev i.next }) id
      (record p {
        slots = if p.slots == it then i.next else p.slots;
        sl_curr = (p.sl_curr + (2 ^ 32 - 1)) % 2 ^ 32;
      })

-- Pages of the pool go back to the system while there is more memory than the limit. The first
-- argument bounds the pages of the pool.
unfoldable pub release_pages : ℕ → Cache → Cache
release_pages zero c = c
release_pages (suc left) c =
    let (c1, p) = get_page_from_global_pool c in
    let s = c1.slabs in
    let rest = release_pages left (record c1 {
      slabs = record s { mem_malloced = s.mem_malloced - c1.settings.slab_page_size };
    }) in
    if ltb c.slabs.mem_limit c.slabs.mem_malloced then (if p == 0 then c1 else rest) else c

unfoldable pub memory_release : Cache → Cache
memory_release c =
    if not (c.slabs.mem_base == 0)
    then c
    else if not c.settings.slab_reassign
    then c
    else release_pages ((c.slabs.slabclass 0).slabs + 1) c

-- The first page of a class goes, and the others move up.
unfoldable pub drop_first_page : SlabClass → SlabClass
drop_first_page p = record p {
  slabs = p.slabs - 1;
  slab_list = λ x. if ltb x (p.slabs - 1) then p.slab_list (x + 1) else p.slab_list x;
}

unfoldable pub append_page : SlabClass → ℕ → SlabClass
append_page p page = record p { slab_list = set_at p.slab_list p.slabs page; slabs = p.slabs + 1 }

-- The page belongs to the destination then.
unfoldable pub give_page : Cache → ℕ → ℕ → ℕ → Cache
give_page c s_clsid d_clsid page =
    let c1 = set_class c s_clsid (drop_first_page (c.slabs.slabclass s_clsid)) in
    set_class c1 d_clsid (append_page (c1.slabs.slabclass d_clsid) page)

-- The new chunks of a page, or one cleared header for a page of the pool.
unfoldable pub use_page : Cache → ℕ → ℕ → Cache
use_page c d_clsid page =
    let cleared = record c { items = clear_page c.items page c.settings.slab_page_size } in
    let pooled = set_item c page zero_item in
    if ltb 0 d_clsid
    then split_slab_page_into_freelist (c.slabs.slabclass d_clsid).perslab cleared page d_clsid
    else memory_release
        (record pooled { slabs = record (pooled.slabs) { mem_limit_reached = false } })

unfoldable pub slab_rebalance_finish : Rebalancer → Rebalancer
slab_rebalance_finish r =
    let b = r.slab_rebal in
    let s = r.stats in
    record r {
      cache = use_page (give_page r.cache b.s_clsid b.d_clsid b.slab_start) b.d_clsid b.slab_start;
      slab_rebal = record b {
        busy_loops = 0;
        done = false;
        s_clsid = 0;
        d_clsid = 0;
        slab_start = 0;
        slab_end = 0;
        slab_pos = 0;
        evictions_nomem = 0;
        inline_reclaim = 0;
        rescues = 0;
        chunk_rescues = 0;
        busy_deletes = 0;
      };
      slab_rebalance_signal = 0;
      stats = record {
        slabs_moved = add64 s.slabs_moved 1;
        slab_reassign_rescues = add64 s.slab_reassign_rescues b.rescues;
        slab_reassign_evictions_nomem = add64 s.slab_reassign_evictions_nomem b.evictions_nomem;
        slab_reassign_inline_reclaim = add64 s.slab_reassign_inline_reclaim b.inline_reclaim;
        slab_reassign_chunk_rescues = add64 s.slab_reassign_chunk_rescues b.chunk_rescues;
        slab_reassign_busy_deletes = add64 s.slab_reassign_busy_deletes b.busy_deletes;
        slab_reassign_running = false;
      };
    }
