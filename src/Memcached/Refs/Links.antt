-- ===== src/Memcached/Refs/Links.antt =====
-- What `do_item_link`, `do_item_unlink` and `do_item_bump` of memcached-sr/items.c do to their item,
-- and that they leave the others alone.
use bmc_cache.Base.{
  ℕ, suc, ◌+◌, ◌^◌, ◌<◌, Bool, true, false, ◌==◌, ◌&&◌, not, ◌≡◌, ◌⊎◌, inl, inr, Bool-cases, sym,
  ap, subst, ◌∙◌, arith,
}
use bmc_cache.Memcached.Types.{StrItem, Cache, set_item, item_clsid, item_lruid, cold_lru, warm_lru}
use bmc_cache.Memcached.Assoc.{assoc_insert}
use bmc_cache.Memcached.Lru.{do_item_link_q, do_item_unlink_q}
use bmc_cache.Memcached.Items.{
  refcount_incr, do_item_remove, set_linked, count_linked, count_unlinked, give_cas, get_cas_id,
  do_item_link, remove_from_table, do_item_unlink, do_item_update, move_to_warm, do_item_bump,
  lru_bump_async, set_fetched,
}
use bmc_cache.Memcached.Refs.{content, Frame, Becomes}
use bmc_cache.Memcached.Refs.Effect.{
  do_item_link_q-content, do_item_unlink_q-content, content-Becomes, Becomes-trans, Frame-trans,
  set_item-Frame, do_item_remove-Frame, do_item_remove-Becomes,
}

give_cas-Frame : (c : Cache) (it : ℕ) → Frame it c (give_cas c it)
unfolding give_cas get_cas_id
give_cas-Frame c it a ne = ground arith

module _ (c : Cache) (it hv : ℕ) where
  abbrev marked : Cache
  marked =
      count_linked (set_item c it (record (set_linked (c.items it) true) { time = c.current_time }))
        it

  abbrev tabled : Cache
  tabled = record (give_cas marked it) {
    table =
        assoc_insert (give_cas marked it).table (record { key = (c.items it).key; addr = it }) hv;
  }

  pub do_item_link-Frame : Frame it c (do_item_link c it hv)
  unfolding do_item_link count_linked
  do_item_link-Frame a ne =
      let g = give_cas-Frame marked it a ne in
      let q = do_item_link_q-content tabled it a in
      let d = do_item_link_q tabled it in
      set_item-Frame d it (refcount_incr (d.items it)) a ne ∙ q ∙ g ∙ ground arith

  tabled-Becomes :
      (c.items it).it_flags.chunked ≡ false
      → Becomes (c.items it) (tabled.items it) true (c.items it).refcount
  unfolding give_cas get_cas_id count_linked
  tabled-Becomes plain = record {
    key = ground arith;
    data_ = ground arith;
    nbytes = ground arith;
    exptime = ground arith;
    linked = ground arith;
    refcount = ground arith;
    chunked = ground arith;
  }

  pub do_item_link-Becomes :
      (c.items it).it_flags.chunked ≡ false
      → (c.items it).refcount + 1 < 2 ^ 16
      → Becomes (c.items it) ((do_item_link c it hv).items it) true ((c.items it).refcount + 1)
  unfolding do_item_link
  do_item_link-Becomes plain small =
      let i = c.items it in
      let d = do_item_link_q tabled it in
      let b =
        content-Becomes i (d.items it) (tabled.items it) true i.refcount
          (do_item_link_q-content tabled it it) (tabled-Becomes plain) in
      record {
        key = ground (arith, b.key);
        data_ = ground (arith, b.data_);
        nbytes = ground (arith, b.nbytes);
        exptime = ground (arith, b.exptime);
        linked = ground (arith, b.linked);
        refcount = ground (arith, b.refcount);
        chunked = ground (arith, b.chunked);
      }

  abbrev unmarked : Cache
  unmarked = count_unlinked (set_item c it (set_linked (c.items it) false)) it

  abbrev taken : Cache
  taken = remove_from_table unmarked (c.items it).key hv

  taken-items : taken.items ≡ unmarked.items
  unfolding remove_from_table
  taken-items = ground arith

  abbrev unqueued : Cache
  unqueued = do_item_unlink_q taken it

  unqueued-Becomes :
      (c.items it).it_flags.chunked ≡ false
      → Becomes (c.items it) (unqueued.items it) false (c.items it).refcount
  unfolding count_unlinked
  unqueued-Becomes plain =
      let e = do_item_unlink_q-content taken it it in
      content-Becomes (c.items it) (unqueued.items it) (unmarked.items it) false
        (c.items it).refcount (e ∙ ap (λ (m : ℕ → StrItem). content (m it)) taken-items)
        (record {
          key = ground arith;
          data_ = ground arith;
          nbytes = ground arith;
          exptime = ground arith;
          linked = ground arith;
          refcount = ground arith;
          chunked = ground arith;
        })

  unqueued-Frame : Frame it c unqueued
  unfolding count_unlinked
  unqueued-Frame a ne =
      do_item_unlink_q-content taken it a
      ∙ ap (λ (m : ℕ → StrItem). content (m a)) taken-items
      ∙ set_item-Frame c it (set_linked (c.items it) false) a ne

  module _ (plain : (c.items it).it_flags.chunked ≡ false)
      (linked : (c.items it).it_flags.linked ≡ true) where
    unlink-removes : do_item_unlink c it hv ≡ do_item_remove unqueued it
    unfolding do_item_unlink
    unlink-removes = ground arith

    pub do_item_unlink-Frame : Frame it c (do_item_unlink c it hv)
    do_item_unlink-Frame = subst (Frame it c) (sym unlink-removes) (
        Frame-trans it c unqueued (do_item_remove unqueued it) unqueued-Frame
          (do_item_remove-Frame unqueued it (unqueued-Becomes plain).chunked))

    pub do_item_unlink-Becomes :
        (n : ℕ)
        → (c.items it).refcount ≡ suc n
        → suc n < 2 ^ 16
        → Becomes (c.items it) ((do_item_unlink c it hv).items it) false n
    do_item_unlink-Becomes n counted small =
        let b = unqueued-Becomes plain in
        let i = c.items it in
        let j = unqueued.items it in
        let r =
          do_item_remove-Becomes unqueued it n b.chunked (b.refcount ∙ counted) small
            (λ z. b.linked) in
        let r' = subst (λ l. Becomes j ((do_item_remove unqueued it).items it) l n) b.linked r in
        subst (λ (z : Cache). Becomes i (z.items it) false n) (sym unlink-removes)
          (Becomes-trans i j ((do_item_remove unqueued it).items it) false false i.refcount n b r')

-- `do_item_update` and `do_item_bump` change places and activity only, and a bump may take a reference.
touched-content :
    (c : Cache) (it a : ℕ) (time clsid : ℕ) (active : Bool)
    → content (
        (set_item c it (record (c.items it) {
          time = time;
          slabs_clsid = clsid;
          it_flags = record ((c.items it).it_flags) { active = active };
        })).items
          a)
      ≡ content (c.items a)
touched-content c it a time clsid active = ground arith

pub do_item_update-content :
    (c : Cache) (it a : ℕ) → content ((do_item_update c it).items a) ≡ content (c.items a)
unfolding do_item_update move_to_warm
do_item_update-content c it a =
    let i = c.items it in
    let now = set_item c it (record i { time = c.current_time }) in
    let t = touched-content c it a c.current_time i.slabs_clsid i.it_flags.active in
    let u = do_item_unlink_q now it in
    let uc = do_item_unlink_q-content now it a in
    let relinked = do_item_link_q-content u it a ∙ uc ∙ t in
    let j = u.items it in
    let clsid = item_clsid j + warm_lru in
    let moved =
      set_item u it
        (record j { slabs_clsid = clsid; it_flags = record (j.it_flags) { active = false } }) in
    let warm =
      do_item_link_q-content moved it a ∙ touched-content u it a j.time clsid false ∙ uc ∙ t in
    ground arith

-- A bump takes a reference for its queue.
abbrev pub bump_queued : Bool → Cache → ℕ → Bool
bump_queued queued c it =
    let i = c.items it in
    c.settings.lru_segmented
    && not i.it_flags.active
    && i.it_flags.fetched
    && item_lruid i == cold_lru
    && queued

-- A bump leaves everything but places and activity, or it takes a reference for the queue of bumps.
pub do_item_bump-content :
    (queued : Bool) (c : Cache) (it : ℕ)
    → ((bump_queued queued c it ≡ false)
        × ((a : ℕ) → content ((do_item_bump queued c it).items a) ≡ content (c.items a)))
      ⊎ ((bump_queued queued c it ≡ true)
          × ((a : ℕ)
              → content ((do_item_bump queued c it).items a)
                ≡ content ((set_item c it (refcount_incr (c.items it))).items a)))
unfolding do_item_bump lru_bump_async
do_item_bump-content queued c it =
    let i = c.items it in
    let fetched = set_item c it (set_fetched i) in
    elim (Bool-cases c.settings.lru_segmented) [
      | inr s ↦ inl (ground arith, λ a. let u = do_item_update-content fetched it a in ground arith)
      | inl s ↦ elim (Bool-cases i.it_flags.active) [
        | inl h ↦ inl (ground arith, λ a. ground arith)
        | inr h ↦ elim (Bool-cases (not i.it_flags.fetched)) [
          | inl f ↦ inl (ground arith, λ a. ground arith)
          | inr f ↦ elim (Bool-cases (not (item_lruid i == cold_lru))) [
            | inl g ↦ inl (ground arith, λ a. ground arith)
            | inr g ↦ elim (Bool-cases queued) [
              | inl q ↦ inr (ground arith, λ a. ground arith)
              | inr q ↦ inl (ground arith, λ a. ground arith)
            ]
          ]
        ]
      ]
    ]
