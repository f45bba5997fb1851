-- ===== src/Memcached/Items/Kept.antt =====
-- What the queues of memcached-sr/items.c leave alone: the table, and what an item is besides its
-- place.
use bmc_cache.Base.{
  ℕ, ◌+◌, ◌-◌, ◌^◌, Bool, false, ltb, ◌==◌, ◌&&◌, if◌then◌else◌, ◌≡◌, refl, ◌∙◌, arith, if_either,
  u32,
}
use bmc_cache.Memcached.Types.{StrItem, Cache, set_item, item_clsid, item_lruid, cold_lru, warm_lru}
use bmc_cache.Memcached.Lru.{do_item_link_q, do_item_unlink_q}
use bmc_cache.Memcached.Items.{
  do_item_update, move_to_warm, count_moves_to_warm, item_update_interval,
}

-- The same table and settings, and items with the same key, value, times to live, references, and
-- ids.
pub record Kept (c c' : Cache) : Type 0 where
  pub table : c'.table ≡ c.table
  pub settings : c'.settings ≡ c.settings
  pub current_time : c'.current_time ≡ c.current_time
  pub key : (a : ℕ) → (c'.items a).key ≡ (c.items a).key
  pub data_ : (a : ℕ) → (c'.items a).data_ ≡ (c.items a).data_
  pub nbytes : (a : ℕ) → (c'.items a).nbytes ≡ (c.items a).nbytes
  pub exptime : (a : ℕ) → (c'.items a).exptime ≡ (c.items a).exptime
  pub refcount : (a : ℕ) → (c'.items a).refcount ≡ (c.items a).refcount
  pub cas : (a : ℕ) → (c'.items a).cas ≡ (c.items a).cas
  pub linked : (a : ℕ) → (c'.items a).it_flags.linked ≡ (c.items a).it_flags.linked
  pub has_cas : (a : ℕ) → (c'.items a).it_flags.has_cas ≡ (c.items a).it_flags.has_cas

pub Kept-refl : (c : Cache) → Kept c c
Kept-refl c = record {
  table = refl;
  settings = refl;
  current_time = refl;
  key = λ a. refl;
  data_ = λ a. refl;
  nbytes = λ a. refl;
  exptime = λ a. refl;
  refcount = λ a. refl;
  cas = λ a. refl;
  linked = λ a. refl;
  has_cas = λ a. refl;
}

pub Kept-trans : (c d e : Cache) → Kept c d → Kept d e → Kept c e
Kept-trans c d e p q = record {
  table = q.table ∙ p.table;
  settings = q.settings ∙ p.settings;
  current_time = q.current_time ∙ p.current_time;
  key = λ a. q.key a ∙ p.key a;
  data_ = λ a. q.data_ a ∙ p.data_ a;
  nbytes = λ a. q.nbytes a ∙ p.nbytes a;
  exptime = λ a. q.exptime a ∙ p.exptime a;
  refcount = λ a. q.refcount a ∙ p.refcount a;
  cas = λ a. q.cas a ∙ p.cas a;
  linked = λ a. q.linked a ∙ p.linked a;
  has_cas = λ a. q.has_cas a ∙ p.has_cas a;
}

pub do_item_link_q-Kept : (c : Cache) (it : ℕ) → Kept c (do_item_link_q c it)
unfolding do_item_link_q
do_item_link_q-Kept c it = record {
  table = refl;
  settings = refl;
  current_time = refl;
  key = λ a. ground arith;
  data_ = λ a. ground arith;
  nbytes = λ a. ground arith;
  exptime = λ a. ground arith;
  refcount = λ a. ground arith;
  cas = λ a. ground arith;
  linked = λ a. ground arith;
  has_cas = λ a. ground arith;
}

pub do_item_unlink_q-Kept : (c : Cache) (it : ℕ) → Kept c (do_item_unlink_q c it)
unfolding do_item_unlink_q
do_item_unlink_q-Kept c it = record {
  table = refl;
  settings = refl;
  current_time = refl;
  key = λ a. ground arith;
  data_ = λ a. ground arith;
  nbytes = λ a. ground arith;
  exptime = λ a. ground arith;
  refcount = λ a. ground arith;
  cas = λ a. ground arith;
  linked = λ a. ground arith;
  has_cas = λ a. ground arith;
}

-- A new time, queue or activity of an item.
abbrev pub moved_item : StrItem → ℕ → ℕ → Bool → StrItem
moved_item i time clsid active = record i {
  time = time;
  slabs_clsid = clsid;
  it_flags = record (i.it_flags) { active = active };
}

set_item-Kept :
    (c : Cache) (it time clsid : ℕ) (active : Bool)
    → Kept c (set_item c it (moved_item (c.items it) time clsid active))
set_item-Kept c it time clsid active = record {
  table = refl;
  settings = refl;
  current_time = refl;
  key = λ a. ground arith;
  data_ = λ a. ground arith;
  nbytes = λ a. ground arith;
  exptime = λ a. ground arith;
  refcount = λ a. ground arith;
  cas = λ a. ground arith;
  linked = λ a. ground arith;
  has_cas = λ a. ground arith;
}

touched-Kept :
    (c : Cache) (it : ℕ) → Kept c (set_item c it (record (c.items it) { time = c.current_time }))
touched-Kept c it =
    set_item-Kept c it c.current_time (c.items it).slabs_clsid (c.items it).it_flags.active

count_moves_to_warm-Kept : (c : Cache) (id : ℕ) → Kept c (count_moves_to_warm c id)
count_moves_to_warm-Kept c id = record {
  table = refl;
  settings = refl;
  current_time = refl;
  key = λ a. refl;
  data_ = λ a. refl;
  nbytes = λ a. refl;
  exptime = λ a. refl;
  refcount = λ a. refl;
  cas = λ a. refl;
  linked = λ a. refl;
  has_cas = λ a. refl;
}

move_to_warm-Kept : (c : Cache) (it : ℕ) → Kept c (move_to_warm c it)
unfolding move_to_warm
move_to_warm-Kept c it =
    let c0 = set_item c it (record (c.items it) { time = c.current_time }) in
    let c1 = do_item_unlink_q c0 it in
    let i = c1.items it in
    let clsid = item_clsid i + warm_lru in
    let c2 = set_item c1 it (moved_item i i.time clsid false) in
    Kept-trans c c0 (count_moves_to_warm (do_item_link_q c2 it) clsid) (touched-Kept c it) (
      Kept-trans c0 c1 (count_moves_to_warm (do_item_link_q c2 it) clsid)
        (do_item_unlink_q-Kept c0 it)
        (Kept-trans c1 c2 (count_moves_to_warm (do_item_link_q c2 it) clsid)
          (set_item-Kept c1 it i.time clsid false)
          (Kept-trans c2 (do_item_link_q c2 it) (count_moves_to_warm (do_item_link_q c2 it) clsid)
            (do_item_link_q-Kept c2 it) (count_moves_to_warm-Kept (do_item_link_q c2 it) clsid))))

pub do_item_update-Kept : (c : Cache) (it : ℕ) → Kept c (do_item_update c it)
unfolding do_item_update
do_item_update-Kept c it =
    let i = c.items it in
    let now = set_item c it (record i { time = c.current_time }) in
    let moved = do_item_link_q (do_item_unlink_q now it) it in
    let old = ltb i.time (u32 (c.current_time + (2 ^ 32 - item_update_interval))) in
    let relinked : Cache = if i.it_flags.linked then moved else c in
    let warmed : Cache =
      if item_lruid i == cold_lru && i.it_flags.active then move_to_warm c it else now in
    if_either (Kept c) c.settings.lru_segmented (if i.it_flags.linked then warmed else c)
      (if old then relinked else c)
      (λ e.
        if_either (Kept c) i.it_flags.linked warmed c
          (λ e.
            if_either (Kept c) (item_lruid i == cold_lru && i.it_flags.active) (move_to_warm c it)
              now (λ e. move_to_warm-Kept c it) (λ e. touched-Kept c it))
          (λ e. Kept-refl c))
      (λ e.
        if_either (Kept c) old relinked c
          (λ e.
            if_either (Kept c) i.it_flags.linked moved c
              (λ e. Kept-trans c now moved (touched-Kept c it) (
                Kept-trans now (do_item_unlink_q now it) moved (do_item_unlink_q-Kept now it)
                  (do_item_link_q-Kept (do_item_unlink_q now it) it)))
              (λ e. Kept-refl c))
          (λ e. Kept-refl c))
