-- ===== src/Memcached/Slabs/Rebalance/Cut.antt =====
-- A chunk that memcached-sr/slabs.c takes out of the free ones of its class.
use bmc_cache.Base.{
  ℕ, ◌+◌, ◌-◌, ◌%◌, ◌^◌, List, ◌∷◌, ◌++◌, ◌==◌, if◌then◌else◌, ◌≡◌, arith, length, length-append,
  refl, ◌∙◌,
}
use bmc_cache.Memcached.Types.{Cache}
use bmc_cache.Memcached.Lru.Queue.{IsQueue-remove, IsQueue-agree, set_if}
use bmc_cache.Memcached.Lru.Sound.{next_of, prev_of, All-of}
use bmc_cache.Memcached.Slabs.Free.{IsFree}
use bmc_cache.Memcached.Slabs.Rebalance.{slab_rebalance_cut_free}

one_less : (n m l : ℕ) → n ≡ m % 2 ^ 32 → m ≡ l + 1 → (n + (2 ^ 32 - 1)) % 2 ^ 32 ≡ l % 2 ^ 32
one_less n m l e h = omega arith

length-around : (ys zs : List ℕ) (x : ℕ) → length (ys ++ (x ∷ zs)) ≡ length (ys ++ zs) + 1
length-around ys zs x =
    let a = length-append ys (x ∷ zs) in let b = length-append ys zs in omega arith

module _ (c : Cache) (id it : ℕ) (ys zs : List ℕ) (f : IsFree c id (ys ++ (it ∷ zs))) where
  cut-next :
      (a : ℕ)
      → next_of (slab_rebalance_cut_free c id it) a
        ≡ set_if (next_of c) (prev_of c it) (next_of c it) a
  unfolding slab_rebalance_cut_free
  cut-next a = ground arith

  cut-prev :
      (a : ℕ)
      → prev_of (slab_rebalance_cut_free c id it) a
        ≡ set_if (prev_of c) (next_of c it) (prev_of c it) a
  unfolding slab_rebalance_cut_free
  cut-prev a = ground arith

  cut_fields :
      (((slab_rebalance_cut_free c id it).slabs.slabclass id).slots ≡ (
        if (c.slabs.slabclass id).slots == it then next_of c it else (c.slabs.slabclass id).slots))
      × (((slab_rebalance_cut_free c id it).slabs.slabclass id).sl_curr
          ≡ ((c.slabs.slabclass id).sl_curr + (2 ^ 32 - 1)) % 2 ^ 32)
  unfolding slab_rebalance_cut_free
  cut_fields = (ground arith, ground arith)

  -- A chunk among the free ones of a class, wherever it is, is taken out of them, and the others stay, in
  -- their order, linked both ways and counted.
  pub slab_rebalance_cut_free-IsFree : IsFree (slab_rebalance_cut_free c id it) id (ys ++ zs)
  slab_rebalance_cut_free-IsFree =
      let d = slab_rebalance_cut_free c id it in
      let nx = next_of c in
      let pv = prev_of c in
      let slots = (c.slabs.slabclass id).slots in
      let head : ℕ = if slots == it then nx it else slots in
      let t : ℕ = if f.last == it then pv it else f.last in
      let (e, n) = cut_fields in
      record {
        last = t;
        linked =
            IsQueue-agree (set_if nx (pv it) (nx it)) (set_if pv (nx it) (pv it)) (next_of d)
              (prev_of d) head t (d.slabs.slabclass id).slots t (ys ++ zs)
              (IsQueue-remove nx pv slots f.last it ys zs f.linked)
              (All-of _ (ys ++ zs) (λ a. (cut-next a, cut-prev a))) e refl;
        counted =
            n
            ∙ one_less (c.slabs.slabclass id).sl_curr (length (ys ++ (it ∷ zs))) (length (ys ++ zs))
                f.counted (length-around ys zs it);
      }
