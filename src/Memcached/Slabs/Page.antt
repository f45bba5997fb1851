-- ===== src/Memcached/Slabs/Page.antt =====
-- A page of memcached-sr/slabs.c that is cut into free chunks.
use bmc_cache.Base.{
  ℕ, zero, suc, ◌+◌, ◌*◌, ◌<◌, ◌≤◌, List, ◌∷◌, ◌≡◌, ◌≢◌, ◌⊎◌, inl, inr, arith, false, refl, sym,
  ◌∙◌, subst, All,
}
use bmc_cache.Memcached.Types.{Cache, set_item}
use bmc_cache.Memcached.Lru.Segment.{Away, All-map}
use bmc_cache.Memcached.Lru.Queue.{IsQueue-agree}
use bmc_cache.Memcached.Lru.Sound.{next_of, prev_of, All-of}
use bmc_cache.Memcached.Slabs.{
  push_slot, do_slabs_free, slabbed_only, split_slab_page_into_freelist,
}
use bmc_cache.Memcached.Slabs.Free.{IsFree, push_slot-IsFree}

-- The addresses of `n` chunks from `ptr` on, the last one first, before other addresses.
pub chunks : ℕ → ℕ → ℕ → List ℕ → List ℕ
chunks size zero ptr xs = xs
chunks size (suc n) ptr xs = chunks size n (ptr + size) (ptr ∷ xs)

-- The address is not in the piece of memory.
abbrev pub Outside : ℕ → ℕ → ℕ → Type 0
Outside ptr len a = (a < ptr) ⊎ (ptr + len ≤ a)

module _ (c : Cache) (id it size : ℕ) (xs : List ℕ) where
  abbrev marked : Cache
  marked = set_item c it (record (c.items it) { it_flags = slabbed_only; slabs_clsid = id })

  marked-IsFree : IsFree c id xs → IsFree marked id xs
  marked-IsFree f = record {
    last = f.last;
    linked =
        IsQueue-agree (next_of c) (prev_of c) (next_of marked) (prev_of marked)
          ((c.slabs.slabclass id).slots) f.last ((c.slabs.slabclass id).slots) f.last xs f.linked
          (All-of _ xs (λ a. (ground arith, ground arith))) refl refl;
    counted = f.counted;
  }

  do_slabs_free-plain :
      1 ≤ id
      → id ≤ c.slabs.power_largest
      → (c.items it).it_flags.chunked ≡ false
      → do_slabs_free c it 0 id ≡ push_slot marked id it
  unfolding do_slabs_free
  do_slabs_free-plain lo hi plain = ground arith

  push_slot-kept :
      (((push_slot marked id it).slabs.slabclass id).size ≡ (c.slabs.slabclass id).size)
      × ((push_slot marked id it).slabs.power_largest ≡ c.slabs.power_largest)
  unfolding push_slot
  push_slot-kept = ground arith

  push_slot-chunked :
      (a : ℕ)
      → (c.items a).it_flags.chunked ≡ false
      → ((push_slot marked id it).items a).it_flags.chunked ≡ false
  unfolding push_slot
  push_slot-chunked a h = ground arith

-- What is to be known of a page before it is cut: the class is one, the piece of memory is not at
-- NULL and no chunk of it is free yet, and none of its chunks is the header of a chunked item.
pub record CanCut (n : ℕ) (c : Cache) (ptr id size : ℕ) (xs : List ℕ) : Type 0 where
  pub lower : 1 ≤ id
  pub upper : id ≤ c.slabs.power_largest
  pub class_size : (c.slabs.slabclass id).size ≡ size
  pub positive : 0 < size
  pub not_null : 0 < ptr
  pub outside : All (Outside ptr (n * size)) xs
  pub plain : (a : ℕ) → ptr ≤ a → a < ptr + n * size → (c.items a).it_flags.chunked ≡ false
  pub free : IsFree c id xs

module _ (n : ℕ) (c : Cache) (ptr id size : ℕ) (xs : List ℕ)
    (h : CanCut (suc n) c ptr id size xs) where
  rest-size : suc n * size ≡ size + n * size
  rest-size = omega arith

  first-plain : (c.items ptr).it_flags.chunked ≡ false
  first-plain = let p = h.positive in let m = rest-size in h.plain ptr (omega arith) (omega arith)

  free-first : do_slabs_free c ptr 0 id ≡ push_slot (marked c id ptr size xs) id ptr
  free-first = do_slabs_free-plain c id ptr size xs h.lower h.upper first-plain

  first-Away : Away ptr xs
  first-Away =
      let p = h.positive in
      let m = rest-size in
      All-map (Outside ptr (suc n * size)) (λ a. ptr ≢ a) xs
        (λ a o. elim o [ inl l ↦ λ e. absurd (omega arith) | inr l ↦ λ e. absurd (omega arith) ])
        h.outside

  push-CanCut :
      CanCut n (push_slot (marked c id ptr size xs) id ptr) (ptr + size) id size (ptr ∷ xs)
  push-CanCut =
      let (es, ep) = push_slot-kept c id ptr size xs in
      let lo = h.upper in
      let p = h.positive in
      let m = rest-size in
      let cs = h.class_size in
      record {
        lower = h.lower;
        upper = omega (arith, ep);
        class_size = es ∙ cs;
        positive = p;
        not_null = let z = h.not_null in omega arith;
        outside = (
          inl (omega arith),
          All-map (Outside ptr (suc n * size)) (Outside (ptr + size) (n * size)) xs
              (λ a o. elim o [ inl l ↦ inl (omega arith) | inr l ↦ inr (omega arith) ]) h.outside,
        );
        plain =
            λ a l u. push_slot-chunked c id ptr size xs a (h.plain a (omega arith) (omega arith));
        free =
            push_slot-IsFree (marked c id ptr size xs) id ptr xs
              (marked-IsFree c id ptr size xs h.free)
              (λ e. let z = h.not_null in absurd (omega arith)) first-Away;
      }

-- A page that is cut gives all its chunks to its class, in front of those that it had, the last one
-- first.
pub split_slab_page-IsFree :
    (n : ℕ) (c : Cache) (ptr id size : ℕ) (xs : List ℕ)
    → CanCut n c ptr id size xs
    → IsFree (split_slab_page_into_freelist n c ptr id) id (chunks size n ptr xs)
unfolding split_slab_page_into_freelist chunks
split_slab_page-IsFree zero c ptr id size xs h = h.free
split_slab_page-IsFree (suc n) c ptr id size xs h =
    let next = push_slot (marked c id ptr size xs) id ptr in
    let ih =
      split_slab_page-IsFree n next (ptr + size) id size (ptr ∷ xs)
        (push-CanCut n c ptr id size xs h) in
    let e = free-first n c ptr id size xs h in
    subst
      (λ z.
        IsFree (split_slab_page_into_freelist n (do_slabs_free c ptr 0 id) (ptr + z) id) id
          (chunks size n (ptr + size) (ptr ∷ xs)))
      (sym h.class_size)
      (subst
        (λ z.
          IsFree (split_slab_page_into_freelist n z (ptr + size) id) id
            (chunks size n (ptr + size) (ptr ∷ xs)))
        (sym e) ih)
