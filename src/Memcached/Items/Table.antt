-- ===== src/Memcached/Items/Table.antt =====
-- What the operations of memcached-sr/items.c do to the hash table, and that they keep the keys.
use bmc_cache.Base.{
  ℕ, zero, suc, Bool, true, false, not, none, some, List, ltb, ◌==◌, ◌||◌, if◌then◌else◌, ◌≡◌, refl,
  ap, ◌∙◌, arith, if_either,
}
use bmc_cache.Memcached.Types.{
  StrItem, Cache, set_item, item_ntotal, item_clsid, item_lruid, cold_lru,
}
use bmc_cache.Memcached.Assoc.{Item, Table, assoc_insert, assoc_delete}
use bmc_cache.Memcached.Lru.{do_item_link_q, do_item_unlink_q, set_prev}
use bmc_cache.Memcached.Slabs.{
  push_slot, free_chunks, do_slabs_free_chunked, do_slabs_free, slabbed_only,
}
use bmc_cache.Memcached.Items.{
  item_free, do_item_remove, count_linked, count_unlinked, give_cas, get_cas_id, do_item_link,
  remove_from_table, do_item_unlink, set_linked, refcount_decr, refcount_incr, set_fetched,
  set_active, do_item_bump, lru_bump_async, do_item_update,
}
use bmc_cache.Memcached.Items.Kept.{
  Kept, do_item_link_q-Kept, do_item_unlink_q-Kept, do_item_update-Kept,
}

-- The same table, settings and time, and the same keys.
pub record Keyed (c c' : Cache) : Type 0 where
  pub table : c'.table ≡ c.table
  pub settings : c'.settings ≡ c.settings
  pub current_time : c'.current_time ≡ c.current_time
  pub key : (a : ℕ) → (c'.items a).key ≡ (c.items a).key

pub Keyed-refl : (c : Cache) → Keyed c c
Keyed-refl c = record { table = refl; settings = refl; current_time = refl; key = λ a. refl }

pub Keyed-trans : (c d e : Cache) → Keyed c d → Keyed d e → Keyed c e
Keyed-trans c d e p q = record {
  table = q.table ∙ p.table;
  settings = q.settings ∙ p.settings;
  current_time = q.current_time ∙ p.current_time;
  key = λ a. q.key a ∙ p.key a;
}

pub Keyed-Kept : (c d : Cache) → Kept c d → Keyed c d
Keyed-Kept c d k = record {
  table = k.table;
  settings = k.settings;
  current_time = k.current_time;
  key = k.key;
}

-- Another header with the same key.
pub set_item-Keyed :
    (c : Cache) (it : ℕ) (i : StrItem) → i.key ≡ (c.items it).key → Keyed c (set_item c it i)
set_item-Keyed c it i e = record {
  table = refl;
  settings = refl;
  current_time = refl;
  key = λ a. ground arith;
}

push_slot-Keyed : (c : Cache) (id it : ℕ) → Keyed c (push_slot c id it)
unfolding push_slot
push_slot-Keyed c id it = record {
  table = refl;
  settings = refl;
  current_time = refl;
  key = λ a. ground arith;
}

free_chunks-Keyed : (left : ℕ) (c : Cache) (chunk : ℕ) → Keyed c (free_chunks left c chunk)
unfolding free_chunks
free_chunks-Keyed zero c chunk = Keyed-refl c
free_chunks-Keyed (suc left) c chunk =
    let i = c.items chunk in
    let marked = set_item c chunk (record i { it_flags = slabbed_only }) in
    let pushed = push_slot marked i.slabs_clsid chunk in
    let rest = free_chunks left pushed i.next in
    if_either (Keyed c) (chunk == 0) c rest (λ e. Keyed-refl c)
      (λ e.
        Keyed-trans c marked rest
          (set_item-Keyed c chunk (record i { it_flags = slabbed_only }) refl)
          (Keyed-trans marked pushed rest (push_slot-Keyed marked i.slabs_clsid chunk)
            (free_chunks-Keyed left pushed i.next)))

do_slabs_free_chunked-Keyed : (c : Cache) (it size : ℕ) → Keyed c (do_slabs_free_chunked c it size)
unfolding do_slabs_free_chunked
do_slabs_free_chunked-Keyed c it size =
    let i = c.items it in
    let c1 = set_item c it (record i { it_flags = slabbed_only }) in
    let c2 = record c1 { items = set_prev c1.items i.chunk_next 0 } in
    let c3 = push_slot c2 i.orig_clsid it in
    let c4 = free_chunks size c3 i.chunk_next in
    Keyed-trans c c1 c4 (set_item-Keyed c it (record i { it_flags = slabbed_only }) refl) (
      Keyed-trans c1 c2 c4
        (record { table = refl; settings = refl; current_time = refl; key = λ a. ground arith })
        (Keyed-trans c2 c3 c4 (push_slot-Keyed c2 i.orig_clsid it)
          (free_chunks-Keyed size c3 i.chunk_next)))

do_slabs_free-Keyed : (c : Cache) (it size id : ℕ) → Keyed c (do_slabs_free c it size id)
unfolding do_slabs_free
do_slabs_free-Keyed c it size id =
    let i' = record (c.items it) { it_flags = slabbed_only; slabs_clsid = id } in
    let c1 = set_item c it i' in
    let plain = push_slot c1 id it in
    let chunked = do_slabs_free_chunked c it size in
    let freed : Cache = if (c.items it).it_flags.chunked then chunked else plain in
    if_either (Keyed c) (ltb id 1 || ltb c.slabs.power_largest id) c freed (λ e. Keyed-refl c)
      (λ e.
        if_either (Keyed c) (c.items it).it_flags.chunked chunked plain
          (λ e. do_slabs_free_chunked-Keyed c it size)
          (λ e. Keyed-trans c c1 plain (set_item-Keyed c it i' refl) (push_slot-Keyed c1 id it)))

pub do_item_remove-Keyed : (c : Cache) (it : ℕ) → Keyed c (do_item_remove c it)
unfolding do_item_remove item_free
do_item_remove-Keyed c it =
    let c1 = set_item c it (refcount_decr (c.items it)) in
    let i = c1.items it in
    let freed = do_slabs_free c1 it (item_ntotal i) (item_clsid i) in
    let first = set_item-Keyed c it (refcount_decr (c.items it)) refl in
    if_either (Keyed c) (i.refcount == 0) freed c1
      (λ e. Keyed-trans c c1 freed first (do_slabs_free-Keyed c1 it (item_ntotal i) (item_clsid i)))
      (λ e. first)

pub do_item_bump-Keyed : (queued : Bool) (c : Cache) (it : ℕ) → Keyed c (do_item_bump queued c it)
unfolding do_item_bump lru_bump_async
do_item_bump-Keyed queued c it =
    let i = c.items it in
    let fetched = set_item c it (set_fetched i) in
    let active = set_item c it (record (set_active i true) { time = c.current_time }) in
    let waiting = set_item c it (set_active i queued) in
    let bumped = set_item waiting it (refcount_incr (waiting.items it)) in
    let async : Cache = if queued then bumped else waiting in
    let warm : Cache = if not (item_lruid i == cold_lru) then active else async in
    let again : Cache = if not i.it_flags.fetched then fetched else warm in
    let updated = do_item_update fetched it in
    let first = set_item-Keyed c it (set_fetched i) refl in
    let wait = set_item-Keyed c it (set_active i queued) refl in
    if_either (Keyed c) c.settings.lru_segmented (if i.it_flags.active then c else again) updated
      (λ e.
        if_either (Keyed c) i.it_flags.active c again (λ e. Keyed-refl c)
          (λ e.
            if_either (Keyed c) (not i.it_flags.fetched) fetched warm (λ e. first)
              (λ e.
                if_either (Keyed c) (not (item_lruid i == cold_lru)) active async
                  (λ e.
                    set_item-Keyed c it (record (set_active i true) { time = c.current_time }) refl)
                  (λ e.
                    if_either (Keyed c) queued bumped waiting
                      (λ e.
                        Keyed-trans c waiting bumped wait
                          (set_item-Keyed waiting it (refcount_incr (waiting.items it)) refl))
                      (λ e. wait)))))
      (λ e.
        Keyed-trans c fetched updated first
          (Keyed-Kept fetched updated (do_item_update-Kept fetched it)))

-- As `Keyed`, with another table.
pub record Rekeyed (c : Cache) (t : Table) (c' : Cache) : Type 0 where
  pub table : c'.table ≡ t
  pub settings : c'.settings ≡ c.settings
  pub current_time : c'.current_time ≡ c.current_time
  pub key : (a : ℕ) → (c'.items a).key ≡ (c.items a).key

pub Rekeyed-then : (c : Cache) (t : Table) (d e : Cache) → Rekeyed c t d → Keyed d e → Rekeyed c t e
Rekeyed-then c t d e p q = record {
  table = q.table ∙ p.table;
  settings = q.settings ∙ p.settings;
  current_time = q.current_time ∙ p.current_time;
  key = λ a. q.key a ∙ p.key a;
}

give_cas-Keyed : (c : Cache) (it : ℕ) → Keyed c (give_cas c it)
unfolding give_cas get_cas_id
give_cas-Keyed c it = record {
  table = ground arith;
  settings = ground arith;
  current_time = ground arith;
  key = λ a. ground arith;
}

-- A linked item is in the table.
pub do_item_link-Rekeyed :
    (c : Cache) (it hv : ℕ)
    → Rekeyed c
        (assoc_insert c.table (record { key = (c.items it).key; addr = it }) hv)
        (do_item_link c it hv)
unfolding do_item_link count_linked
do_item_link-Rekeyed c it hv =
    let i = c.items it in
    let c1 = set_item c it (record (set_linked i true) { time = c.current_time }) in
    let c2 = give_cas (count_linked c1 it) it in
    let g = give_cas-Keyed (count_linked c1 it) it in
    let entry : Item = record { key = i.key; addr = it } in
    let c3 : Cache = record c2 { table = assoc_insert c2.table entry hv } in
    let c4 = do_item_link_q c3 it in
    let t = assoc_insert c.table entry hv in
    let first : Rekeyed c t c3 = record {
      table = ap (λ z. assoc_insert z entry hv) g.table;
      settings = g.settings;
      current_time = g.current_time;
      key = λ a. g.key a ∙ ground arith;
    } in
    Rekeyed-then c t c4 (set_item c4 it (refcount_incr (c4.items it)))
      (Rekeyed-then c t c3 c4 first (Keyed-Kept c3 c4 (do_item_link_q-Kept c3 it)))
      (set_item-Keyed c4 it (refcount_incr (c4.items it)) refl)

-- The table without a key, where it has it.
abbrev pub table_without : Table → List ℕ → ℕ → Table
table_without t key hv = elim (assoc_delete t key hv) [ none ↦ t | some t' ↦ t' ]

remove_from_table-table :
    (c : Cache) (key : List ℕ) (hv : ℕ)
    → Rekeyed c (table_without c.table key hv) (remove_from_table c key hv)
unfolding remove_from_table
remove_from_table-table c key hv = record {
  table = ground arith;
  settings = ground arith;
  current_time = ground arith;
  key = λ a. ground arith;
}

-- An item that was linked is not in the table any more.
pub do_item_unlink-Rekeyed :
    (c : Cache) (it hv : ℕ)
    → (c.items it).it_flags.linked ≡ true
    → Rekeyed c (table_without c.table (c.items it).key hv) (do_item_unlink c it hv)
unfolding do_item_unlink count_unlinked
do_item_unlink-Rekeyed c it hv linked =
    let i = c.items it in
    let c1 = count_unlinked (set_item c it (set_linked i false)) it in
    let c2 = remove_from_table c1 i.key hv in
    let c3 = do_item_unlink_q c2 it in
    let t = table_without c.table i.key hv in
    let r = remove_from_table-table c1 i.key hv in
    let first : Rekeyed c t c2 = record {
      table = r.table;
      settings = r.settings;
      current_time = r.current_time;
      key = λ a. r.key a ∙ ground arith;
    } in
    let last =
      Rekeyed-then c t c3 (do_item_remove c3 it)
        (Rekeyed-then c t c2 c3 first (Keyed-Kept c2 c3 (do_item_unlink_q-Kept c2 it)))
        (do_item_remove-Keyed c3 it) in
    if_either (Rekeyed c t) i.it_flags.linked (do_item_remove c3 it) c (λ e. last)
      (λ e. absurd (ground arith))
