-- ===== src/Memcached/Items.antt =====
-- memcached-sr/items.c: an item's way from its allocation to its release.
pub mod Kept
pub mod Table
pub mod Lookup
use bmc_cache.Base.{
  ℕ, ◌+◌, ◌-◌, ◌*◌, ◌/◌, ◌%◌, ◌^◌, Bool, true, false, not, ◌&&◌, ◌||◌, Option, none, some, List,
  ltb, leb, ◌==◌, if◌then◌else◌, u32, length,
}
use bmc_cache.Memcached.Types.{
  StrItem, Flags, no_flags, Cache, ItemStats, set_at, set_item, item_clsid, item_lruid, item_ntotal,
  item_header_size, hot_lru, warm_lru, cold_lru, temp_lru_id,
}
use bmc_cache.Memcached.Assoc.{Item, assoc_find, assoc_insert, assoc_delete}
use bmc_cache.Memcached.Lru.{do_item_link_q, do_item_unlink_q, add64, sub64}
use bmc_cache.Memcached.Slabs.{slabs_clsid, do_slabs_free}

abbrev pub item_get_cas : StrItem → ℕ
item_get_cas it = if it.it_flags.has_cas then it.cas else 0

abbrev pub item_set_cas : StrItem → ℕ → StrItem
item_set_cas it v = if it.it_flags.has_cas then record it { cas = v } else it

-- The new state holds the id.
unfoldable pub get_cas_id : Cache → Cache
get_cas_id c = record c { cas_id = add64 c.cas_id 1 }

unfoldable pub item_is_flushed : Cache → StrItem → Bool
item_is_flushed c it =
    let s = c.settings in
    if s.oldest_live == 0 || ltb c.current_time s.oldest_live
    then false
    else leb it.time s.oldest_live
      || (not (s.oldest_cas == 0)
          && not (item_get_cas it == 0)
          && ltb (item_get_cas it) s.oldest_cas)

-- Total size with its header, for a key of `nkey` bytes (and the byte behind it).
unfoldable pub item_make_header : ℕ → ℕ → ℕ → ℕ
item_make_header nkey flags nbytes =
    item_header_size + nkey + (if flags == 0 then 0 else 4) + nbytes

unfoldable pub item_size_ok : Cache → ℕ → ℕ → ℕ → Bool
item_size_ok c nkey flags nbytes =
    let ntotal = item_make_header (nkey + 1) flags nbytes + (if c.settings.use_cas then 8 else 0) in
    if ltb nbytes 2 then false else not (slabs_clsid c ntotal == 0)

-- `refcount` has 16 bits.
abbrev pub refcount_incr : StrItem → StrItem
refcount_incr it = record it { refcount = (it.refcount + 1) % 2 ^ 16 }

abbrev pub refcount_decr : StrItem → StrItem
refcount_decr it = record it { refcount = (it.refcount + (2 ^ 16 - 1)) % 2 ^ 16 }

abbrev pub set_linked : StrItem → Bool → StrItem
set_linked it b = record it { it_flags = record (it.it_flags) { linked = b } }

unfoldable pub item_free : Cache → ℕ → Cache
item_free c it = let i = c.items it in do_slabs_free c it (item_ntotal i) (item_clsid i)

unfoldable pub do_item_remove : Cache → ℕ → Cache
do_item_remove c it =
    let c1 = set_item c it (refcount_decr (c.items it)) in
    if (c1.items it).refcount == 0 then item_free c1 it else c1

-- The statistics of a linked item.
unfoldable pub count_linked : Cache → ℕ → Cache
count_linked c it = record c {
  curr_bytes = add64 c.curr_bytes (item_ntotal (c.items it));
  curr_items = add64 c.curr_items 1;
  total_items = add64 c.total_items 1;
}

unfoldable pub count_unlinked : Cache → ℕ → Cache
count_unlinked c it = record c {
  curr_bytes = sub64 c.curr_bytes (item_ntotal (c.items it));
  curr_items = sub64 c.curr_items 1;
}

-- A CAS id of its own, if they are used.
unfoldable pub give_cas : Cache → ℕ → Cache
give_cas c it =
    if c.settings.use_cas
    then (let c1 = get_cas_id c in set_item c1 it (item_set_cas (c1.items it) c1.cas_id))
    else set_item c it (item_set_cas (c.items it) 0)

-- `hv` is the hash of the item's key.
unfoldable pub do_item_link : Cache → ℕ → ℕ → Cache
do_item_link c it hv =
    let i = c.items it in
    let c1 = set_item c it (record (set_linked i true) { time = c.current_time }) in
    let c2 = give_cas (count_linked c1 it) it in
    let c3 = record c2 { table = assoc_insert c2.table (record { key = i.key; addr = it }) hv } in
    let c4 = do_item_link_q c3 it in set_item c4 it (refcount_incr (c4.items it))

-- A key that is not in the table leaves it as it is: the assertions are compiled out.
unfoldable pub remove_from_table : Cache → List ℕ → ℕ → Cache
remove_from_table c key hv = elim (assoc_delete c.table key hv) [
  | none ↦ c
  | some t ↦ record c { table = t }
]

unfoldable pub do_item_unlink : Cache → ℕ → ℕ → Cache
do_item_unlink c it hv =
    let i = c.items it in
    let c1 = count_unlinked (set_item c it (set_linked i false)) it in
    let c2 = remove_from_table c1 i.key hv in
    if i.it_flags.linked then do_item_remove (do_item_unlink_q c2 it) it else c

unfoldable pub do_item_replace : Cache → ℕ → ℕ → ℕ → Cache
do_item_replace c it new_it hv = do_item_link (do_item_unlink c it hv) new_it hv

abbrev pub count_moves_to_warm : Cache → ℕ → Cache
count_moves_to_warm c id =
    let s = c.itemstats id in
    record c {
      itemstats = set_at c.itemstats id (record s { moves_to_warm = add64 s.moves_to_warm 1 });
    }

-- The item goes from its COLD queue to the WARM one of its class.
unfoldable pub move_to_warm : Cache → ℕ → Cache
move_to_warm c it =
    let c1 = do_item_unlink_q (set_item c it (record (c.items it) { time = c.current_time })) it in
    let i = c1.items it in
    let i' = record i {
      slabs_clsid = item_clsid i + warm_lru;
      it_flags = record (i.it_flags) { active = false };
    } in
    count_moves_to_warm (do_item_link_q (set_item c1 it i') it) i'.slabs_clsid

abbrev pub item_update_interval : ℕ
item_update_interval = 60

-- `current_time - ITEM_UPDATE_INTERVAL` is a difference of unsigned numbers of 32 bits.
unfoldable pub do_item_update : Cache → ℕ → Cache
do_item_update c it =
    let i = c.items it in
    let now = set_item c it (record i { time = c.current_time }) in
    if c.settings.lru_segmented
    then (if i.it_flags.linked
        then (if item_lruid i == cold_lru && i.it_flags.active then move_to_warm c it else now)
        else c)
    else if ltb i.time (u32 (c.current_time + (2 ^ 32 - item_update_interval)))
    then (if i.it_flags.linked then do_item_link_q (do_item_unlink_q now it) it else c)
    else c

-- `queued`: the bump buffer had room for the item, which keeps a reference to it.
unfoldable pub lru_bump_async : Bool → Cache → ℕ → Cache
lru_bump_async queued c it = if queued then set_item c it (refcount_incr (c.items it)) else c

abbrev pub set_fetched : StrItem → StrItem
set_fetched it = record it { it_flags = record (it.it_flags) { fetched = true } }

abbrev pub set_active : StrItem → Bool → StrItem
set_active it b = record it { it_flags = record (it.it_flags) { active = b } }

unfoldable pub do_item_bump : Bool → Cache → ℕ → Cache
do_item_bump queued c it =
    let i = c.items it in
    if c.settings.lru_segmented
    then (if i.it_flags.active
        then c
        else if not i.it_flags.fetched
        then set_item c it (set_fetched i)
        else if not (item_lruid i == cold_lru)
        then set_item c it (record (set_active i true) { time = c.current_time })
        else lru_bump_async queued (set_item c it (set_active i queued)) it)
    else do_item_update (set_item c it (set_fetched i)) it

-- 0 is NULL. An item that was flushed or has expired is unlinked on the way. `update` asks for a
-- bump.
unfoldable pub do_item_get : Bool → Bool → Cache → List ℕ → ℕ → Cache × ℕ
do_item_get queued update c key hv = elim (assoc_find c.table key hv) [
  | none ↦ (c, 0)
  | some found ↦
      let it = found.addr in
      let c1 = set_item c it (refcount_incr (c.items it)) in
      let i = c1.items it in
      if item_is_flushed c1 i || (not (i.exptime == 0) && leb i.exptime c1.current_time)
      then (do_item_remove (do_item_unlink c1 it hv) it, 0)
      else (if update then do_item_bump queued c1 it else c1, it)
]

unfoldable pub do_item_touch : Bool → Cache → List ℕ → ℕ → ℕ → Cache × ℕ
do_item_touch queued c key exptime hv =
    let (c1, it) = do_item_get queued true c key hv in
    if it == 0 then (c1, 0) else (set_item c1 it (record (c1.items it) { exptime = exptime }), it)
