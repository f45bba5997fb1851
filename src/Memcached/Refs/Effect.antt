-- ===== src/Memcached/Refs/Effect.antt =====
-- What the operations of memcached-sr/items.c do to their item, and that they leave the others alone.
use bmc_cache.Base.{
  ℕ, suc, ◌^◌, ◌<◌, Bool, false, ◌==◌, ltb, ◌||◌, if◌then◌else◌, ◌≡◌, refl, sym, ap, subst, ◌∙◌,
  arith, if_either,
}
use bmc_cache.Memcached.Types.{StrItem, Cache, set_item, item_clsid, item_ntotal}
use bmc_cache.Memcached.Lru.{do_item_link_q, do_item_unlink_q, set_prev, set_next}
use bmc_cache.Memcached.Slabs.{push_slot, do_slabs_free, do_slabs_free_chunked, slabbed_only}
use bmc_cache.Memcached.Items.{refcount_decr, item_free, do_item_remove}
use bmc_cache.Memcached.Refs.{content, Frame, Becomes}

pub set_prev-content : (m : ℕ → StrItem) (p v a : ℕ) → content (set_prev m p v a) ≡ content (m a)
set_prev-content m p v a = ground arith

pub set_next-content : (m : ℕ → StrItem) (p v a : ℕ) → content (set_next m p v a) ≡ content (m a)
set_next-content m p v a = ground arith

pub do_item_link_q-content :
    (c : Cache) (it a : ℕ) → content ((do_item_link_q c it).items a) ≡ content (c.items a)
unfolding do_item_link_q
do_item_link_q-content c it a = ground arith

pub do_item_unlink_q-content :
    (c : Cache) (it a : ℕ) → content ((do_item_unlink_q c it).items a) ≡ content (c.items a)
unfolding do_item_unlink_q
do_item_unlink_q-content c it a = ground arith

pub push_slot-content :
    (c : Cache) (id it a : ℕ) → content ((push_slot c id it).items a) ≡ content (c.items a)
unfolding push_slot
push_slot-content c id it a = ground arith

pub set_item-Frame : (c : Cache) (it : ℕ) (i : StrItem) → Frame it c (set_item c it i)
set_item-Frame c it i a ne = ground arith

-- A chunk that goes to the free ones.
freed-Frame :
    (c : Cache) (it size id : ℕ)
    → (c.items it).it_flags.chunked ≡ false
    → Frame it c (do_slabs_free c it size id)
unfolding do_slabs_free
freed-Frame c it size id plain a ne =
    let i' = record (c.items it) { it_flags = slabbed_only; slabs_clsid = id } in
    let p = push_slot-content (set_item c it i') id it a in
    let f = set_item-Frame c it i' a ne in ground arith

-- Places and activity do not matter.
pub content-Becomes :
    (i j i' : StrItem) (l : Bool) (r : ℕ)
    → content j ≡ content i'
    → Becomes i i' l r
    → Becomes i j l r
content-Becomes i j i' l r e b = record {
  key = ap (λ z. z.key) e ∙ b.key;
  data_ = ap (λ z. z.data_) e ∙ b.data_;
  nbytes = ap (λ z. z.nbytes) e ∙ b.nbytes;
  exptime = ap (λ z. z.exptime) e ∙ b.exptime;
  linked = ap (λ z. z.it_flags.linked) e ∙ b.linked;
  refcount = ap (λ z. z.refcount) e ∙ b.refcount;
  chunked = ap (λ z. z.it_flags.chunked) e ∙ b.chunked;
}

pub Becomes-trans :
    (i j k : StrItem) (l l' : Bool) (r r' : ℕ)
    → Becomes i j l r
    → Becomes j k l' r'
    → Becomes i k l' r'
Becomes-trans i j k l l' r r' p q = record {
  key = q.key ∙ p.key;
  data_ = q.data_ ∙ p.data_;
  nbytes = q.nbytes ∙ p.nbytes;
  exptime = q.exptime ∙ p.exptime;
  linked = q.linked;
  refcount = q.refcount;
  chunked = q.chunked;
}

pub Frame-trans : (it : ℕ) (c d e : Cache) → Frame it c d → Frame it d e → Frame it c e
Frame-trans it c d e p q a ne = q a ne ∙ p a ne

freed-Becomes :
    (c : Cache) (it size id : ℕ)
    → (c.items it).it_flags.chunked ≡ false
    → (c.items it).it_flags.linked ≡ false
    → Becomes (c.items it) ((do_slabs_free c it size id).items it) false (c.items it).refcount
unfolding do_slabs_free
freed-Becomes c it size id plain un =
    let i = c.items it in
    let i' = record i { it_flags = slabbed_only; slabs_clsid = id } in
    let d = do_slabs_free c it size id in
    let p = push_slot-content (set_item c it i') id it it in
    if_either (λ (z : Cache). Becomes i (z.items it) false i.refcount)
      (ltb id 1 || ltb c.slabs.power_largest id) c
      (if i.it_flags.chunked
        then do_slabs_free_chunked c it size
        else push_slot (set_item c it i') id it)
      (λ e. record {
        key = refl;
        data_ = refl;
        nbytes = refl;
        exptime = refl;
        linked = un;
        refcount = refl;
        chunked = plain;
      })
      (λ e.
        if_either (λ (z : Cache). Becomes i (z.items it) false i.refcount) i.it_flags.chunked
          (do_slabs_free_chunked c it size) (push_slot (set_item c it i') id it)
          (λ h. absurd (ground arith))
          (λ h.
            content-Becomes i ((push_slot (set_item c it i') id it).items it)
              ((set_item c it i').items it) false i.refcount p
              (record {
                key = ground arith;
                data_ = ground arith;
                nbytes = ground arith;
                exptime = ground arith;
                linked = ground arith;
                refcount = ground arith;
                chunked = ground arith;
              })))

-- A reference less: the item stays as it is, or it is released, when it was the last one.
pub do_item_remove-Frame :
    (c : Cache) (it : ℕ) → (c.items it).it_flags.chunked ≡ false → Frame it c (do_item_remove c it)
unfolding do_item_remove item_free
do_item_remove-Frame c it plain =
    let c1 = set_item c it (refcount_decr (c.items it)) in
    let i = c1.items it in
    let f = set_item-Frame c it (refcount_decr (c.items it)) in
    let g = freed-Frame c1 it (item_ntotal i) (item_clsid i) (ground arith) in
    if_either (Frame it c) (i.refcount == 0) (do_slabs_free c1 it (item_ntotal i) (item_clsid i)) c1
      (λ e. Frame-trans it c c1 (do_slabs_free c1 it (item_ntotal i) (item_clsid i)) f g) (λ e. f)

pub do_item_remove-Becomes :
    (c : Cache) (it n : ℕ)
    → (c.items it).it_flags.chunked ≡ false
    → (c.items it).refcount ≡ suc n
    → suc n < 2 ^ 16
    → (n ≡ 0 → (c.items it).it_flags.linked ≡ false)
    → Becomes (c.items it) ((do_item_remove c it).items it) (c.items it).it_flags.linked n
unfolding do_item_remove item_free
do_item_remove-Becomes c it n plain counted small last =
    let i = c.items it in
    let c1 = set_item c it (refcount_decr i) in
    let j = c1.items it in
    let d = do_slabs_free c1 it (item_ntotal j) (item_clsid j) in
    let fewer : Becomes i j i.it_flags.linked n = record {
      key = ground arith;
      data_ = ground arith;
      nbytes = ground arith;
      exptime = ground arith;
      linked = ground arith;
      refcount = ground arith;
      chunked = ground arith;
    } in
    if_either (λ (z : Cache). Becomes i (z.items it) i.it_flags.linked n) (j.refcount == 0) d c1
      (λ e.
        let none_left : n ≡ 0 = sym fewer.refcount ∙ ground arith in
        let un = fewer.linked ∙ last none_left in
        let freed = freed-Becomes c1 it (item_ntotal j) (item_clsid j) fewer.chunked un in
        let both =
          Becomes-trans i j (d.items it) i.it_flags.linked false n j.refcount fewer freed in
        subst (λ b. Becomes i (d.items it) b n) (sym (last none_left))
          (subst (Becomes i (d.items it) false) fewer.refcount both))
      (λ e. fewer)
