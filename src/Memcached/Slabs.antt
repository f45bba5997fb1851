-- ===== src/Memcached/Slabs.antt =====
-- memcached-sr/slabs.c: the slab classes, their free chunks and their pages.
pub mod Classes
pub mod Free
pub mod Page
pub mod Rebalance
use bmc_cache.Base.{
  ℕ, zero, suc, ◌+◌, ◌-◌, ◌*◌, ◌%◌, ◌^◌, Bool, true, false, not, ◌&&◌, ◌||◌, [], ltb, leb, ◌==◌,
  if◌then◌else◌,
}
use bmc_cache.Memcached.Types.{
  StrItem, Flags, no_flags, Cache, SlabClass, Slabs, Settings, set_at, set_item,
}
use bmc_cache.Memcached.Lru.{set_prev}

abbrev pub set_class : Cache → ℕ → SlabClass → Cache
set_class c id p = record c {
  slabs = record (c.slabs) { slabclass = set_at c.slabs.slabclass id p };
}

-- The loop of slabs_clsid: `res` up to `power_largest`; the first argument is
-- `power_largest - res`.
unfoldable pub find_class : (ℕ → SlabClass) → ℕ → ℕ → ℕ → ℕ
find_class cls size zero res = res
find_class cls size (suc left) res =
    let rest = find_class cls size left (res + 1) in if ltb (cls res).size size then rest else res

unfoldable pub slabs_clsid : Cache → ℕ → ℕ
slabs_clsid c size =
    if size == 0 || ltb c.settings.item_size_max size
    then 0
    else find_class c.slabs.slabclass size (c.slabs.power_largest - 1) 1

-- `it->prev = 0; it->next = p->slots; ...; p->slots = it; p->sl_curr++`
unfoldable pub push_slot : Cache → ℕ → ℕ → Cache
push_slot c id it =
    let p = c.slabs.slabclass id in
    let m1 = set_at c.items it (record (c.items it) { prev = 0; next = p.slots }) in
    set_class (record c { items = set_prev m1 p.slots it }) id
      (record p { slots = it; sl_curr = (p.sl_curr + 1) % 2 ^ 32 })

abbrev pub slabbed_only : Flags
slabbed_only = record no_flags { slabbed = true }

-- The loop over the chunks of an item. The item's size bounds their number.
unfoldable pub free_chunks : ℕ → Cache → ℕ → Cache
free_chunks zero c chunk = c
free_chunks (suc left) c chunk =
    let i = c.items chunk in
    let rest =
      free_chunks left
        (push_slot (set_item c chunk (record i { it_flags = slabbed_only })) i.slabs_clsid chunk)
        i.next in
    if chunk == 0 then c else rest

-- The header first, under the class that its own chunk has kept.
unfoldable pub do_slabs_free_chunked : Cache → ℕ → ℕ → Cache
do_slabs_free_chunked c it size =
    let i = c.items it in
    let c1 = set_item c it (record i { it_flags = slabbed_only }) in
    let c2 = record c1 { items = set_prev c1.items i.chunk_next 0 } in
    free_chunks size (push_slot c2 i.orig_clsid it) i.chunk_next

unfoldable pub do_slabs_free : Cache → ℕ → ℕ → ℕ → Cache
do_slabs_free c it size id =
    if ltb id 1 || ltb c.slabs.power_largest id
    then c
    else if (c.items it).it_flags.chunked
    then do_slabs_free_chunked c it size
    else push_slot
        (set_item c it (record (c.items it) { it_flags = slabbed_only; slabs_clsid = id })) id it

-- realloc of the page array: `grown` tells whether there is memory.
unfoldable pub grow_slab_list : Bool → Cache → ℕ → Cache × Bool
grow_slab_list grown c id =
    let p = c.slabs.slabclass id in
    if p.slabs == p.list_size
    then (if grown
        then (
          set_class c id
              (record p { list_size = if p.list_size == 0 then 16 else p.list_size * 2 }),
          true,
        )
        else (c, false))
    else (c, true)

unfoldable pub get_page_from_global_pool : Cache → Cache × ℕ
get_page_from_global_pool c =
    let p = c.slabs.slabclass 0 in
    if ltb p.slabs 1
    then (c, 0)
    else (set_class c 0 (record p { slabs = p.slabs - 1 }), p.slab_list (p.slabs - 1))

abbrev pub aligned : ℕ → ℕ
aligned size = if size % 8 == 0 then size else size + (8 - size % 8)

-- `fresh` is what malloc gives.
unfoldable pub memory_allocate : ℕ → Cache → ℕ → Cache × ℕ
memory_allocate fresh c size =
    let s = c.slabs in
    if s.mem_base == 0
    then (record c { slabs = record s { mem_malloced = s.mem_malloced + size } }, fresh)
    else if ltb s.mem_avail size
    then (c, 0)
    else (
      record c {
        slabs = record s {
          mem_current = s.mem_current + aligned size;
          mem_avail = if ltb (aligned size) s.mem_avail then s.mem_avail - aligned size else 0;
          mem_malloced = s.mem_malloced + aligned size;
        };
      },
      s.mem_current,
    )

-- The loop over the chunks of a new page; its first argument counts those that are left.
unfoldable pub split_slab_page_into_freelist : ℕ → Cache → ℕ → ℕ → Cache
split_slab_page_into_freelist zero c ptr id = c
split_slab_page_into_freelist (suc left) c ptr id =
    split_slab_page_into_freelist left (do_slabs_free c ptr 0 id)
      (ptr + (c.slabs.slabclass id).size) id

-- memset of a page
abbrev pub zero_item : StrItem
zero_item = record {
  next = 0;
  prev = 0;
  time = 0;
  exptime = 0;
  nbytes = 0;
  refcount = 0;
  it_flags = no_flags;
  slabs_clsid = 0;
  cas = 0;
  key = [];
  client_flags = 0;
  chunk_next = 0;
  orig_clsid = 0;
  data_ = λ a. 0;
}

abbrev pub clear_page : (ℕ → StrItem) → ℕ → ℕ → ℕ → StrItem
clear_page m ptr len a = if leb ptr a && ltb a (ptr + len) then zero_item else m a

-- A page from the pool, or a new one.
unfoldable pub get_page : ℕ → Cache → ℕ → Cache × ℕ
get_page fresh c len =
    let (c1, ptr) = get_page_from_global_pool c in
    if ptr == 0 then memory_allocate fresh c1 len else (c1, ptr)

-- The page is cleared, cut into chunks and listed.
unfoldable pub add_page : Cache → ℕ → ℕ → ℕ → Cache
add_page c id len ptr =
    let c1 =
      split_slab_page_into_freelist ((c.slabs.slabclass id).perslab)
        (record c { items = clear_page c.items ptr len }) ptr id in
    let p = c1.slabs.slabclass id in
    set_class c1 id (record p { slab_list = set_at p.slab_list p.slabs ptr; slabs = p.slabs + 1 })

unfoldable pub do_slabs_newslab : Bool → ℕ → Cache → ℕ → Cache × Bool
do_slabs_newslab grown fresh c id =
    let p = c.slabs.slabclass id in
    let s = c.slabs in
    let len =
      if c.settings.slab_reassign
        || not (c.settings.slab_chunk_size_max == c.settings.slab_page_size)
      then c.settings.slab_page_size
      else p.size * p.perslab in
    if not (s.mem_limit == 0)
      && ltb s.mem_limit (s.mem_malloced + len)
      && ltb 0 p.slabs
      && (s.slabclass 0).slabs == 0
    then (record c { slabs = record s { mem_limit_reached = true } }, false)
    else (let (c1, has_room) = grow_slab_list grown c id in
        if has_room
        then (let (c2, ptr) = get_page fresh c1 len in
            if ptr == 0 then (c2, false) else (add_page c2 id len ptr, true))
        else (c1, false))

-- The first free chunk of a class.
unfoldable pub pop_slot : Cache → ℕ → Cache × ℕ
pop_slot c id =
    let p = c.slabs.slabclass id in
    let it = p.slots in
    let i = c.items it in
    let m1 = set_prev c.items i.next 0 in
    let m2 =
      set_at m1 it
        (record (m1 it) { it_flags = record (i.it_flags) { slabbed = false }; refcount = 1 }) in
    (
      set_class (record c { items = m2 }) id
          (record p { slots = i.next; sl_curr = (p.sl_curr + (2 ^ 32 - 1)) % 2 ^ 32 }),
      it,
    )

-- 0 is NULL. `may_grow` is that SLABS_ALLOC_NO_NEWPAGE is not given.
unfoldable pub do_slabs_alloc : Bool → ℕ → Cache → ℕ → Bool → Cache × ℕ
do_slabs_alloc grown fresh c id may_grow =
    if ltb id 1 || ltb c.slabs.power_largest id
    then (c, 0)
    else (let c1 =
          if (c.slabs.slabclass id).sl_curr == 0 && may_grow
          then (do_slabs_newslab grown fresh c id).0
          else c in
        if (c1.slabs.slabclass id).sl_curr == 0 then (c1, 0) else pop_slot c1 id)
