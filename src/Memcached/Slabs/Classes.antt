-- ===== src/Memcached/Slabs/Classes.antt =====
-- Which slab class `slabs_clsid` of memcached-sr/slabs.c finds.
use bmc_cache.Base.{
  ℕ, zero, suc, ◌+◌, ◌-◌, ◌<◌, ◌≤◌, ltb, ◌==◌, ◌≡◌, ◌⊎◌, inl, inr, arith, if_either, Bool-cases,
  sym, Bool-cases, subst,
}
use bmc_cache.Memcached.Types.{Cache, SlabClass}
use bmc_cache.Memcached.Slabs.{find_class, slabs_clsid}

module _ (cls : ℕ → SlabClass) (size : ℕ) where
  -- The first class from `res` on whose chunks are large enough, or the last one of all.
  pub record FirstFit (from last r : ℕ) : Type 0 where
    pub lower : from ≤ r
    pub upper : r ≤ last
    pub too_small : (j : ℕ) → from ≤ j → j < r → (cls j).size < size
    pub fits : (size ≤ (cls r).size) ⊎ (r ≡ last)

  pub find_class-FirstFit :
      (left res : ℕ) → FirstFit res (res + left) (find_class cls size left res)
  unfolding find_class
  find_class-FirstFit zero res = record {
    lower = omega arith;
    upper = omega arith;
    too_small = λ j a b. absurd (omega arith);
    fits = inr (omega arith);
  }
  find_class-FirstFit (suc left) res =
      if_either (FirstFit res (res + suc left)) (ltb (cls res).size size)
        (find_class cls size left (res + 1)) res
        (λ e. later left res (ground arith) (find_class-FirstFit left (res + 1)))
        (λ e. record {
          lower = omega arith;
          upper = omega arith;
          too_small = λ j a b. absurd (omega arith);
          fits = inl (ground arith);
        })
    where
      later :
          (left res : ℕ)
          → (cls res).size < size
          → FirstFit (res + 1) (res + 1 + left) (find_class cls size left (res + 1))
          → FirstFit res (res + suc left) (find_class cls size left (res + 1))
      later left res small ih =
          let lower = ih.lower in
          let upper = ih.upper in
          record {
            lower = omega arith;
            upper = omega arith;
            too_small = λ j a b. elim (Bool-cases (j == res)) [
              | inl e ↦
                  let same : res ≡ j = ground arith in subst (λ z. (cls z).size < size) same small
              | inr e ↦ ih.too_small j (ground arith) b
            ];
            fits = elim (ih.fits) [ inl h ↦ inl h | inr h ↦ inr (omega arith) ];
          }

-- If there is a slab class, `slabs_clsid` gives 0 for size 0 and for sizes above the largest item, and
-- for the others a class such that no class below it has chunks that are large enough, and it
-- has, or it is the largest class.
pub slabs_clsid-FirstFit :
    (c : Cache) (size : ℕ)
    → 1 ≤ c.slabs.power_largest
    → (((size ≡ 0) ⊎ (c.settings.item_size_max < size)) × (slabs_clsid c size ≡ 0))
      ⊎ ((0 < size)
          × (size ≤ c.settings.item_size_max)
          × FirstFit c.slabs.slabclass size 1 c.slabs.power_largest (slabs_clsid c size))
unfolding slabs_clsid
slabs_clsid-FirstFit c size h =
    let r = find_class c.slabs.slabclass size (c.slabs.power_largest - 1) 1 in
    let f = find_class-FirstFit c.slabs.slabclass size (c.slabs.power_largest - 1) 1 in
    let e : 1 + (c.slabs.power_largest - 1) ≡ c.slabs.power_largest = omega arith in
    let f' = subst (λ z. FirstFit c.slabs.slabclass size 1 z r) e f in
    elim (Bool-cases (size == 0)) [
      | inl z ↦ inl (inl (ground arith), ground arith)
      | inr z ↦ elim (Bool-cases (ltb c.settings.item_size_max size)) [
        | inl l ↦ inl (inr (ground arith), ground arith)
        | inr l ↦
            let same : slabs_clsid c size ≡ r = ground arith in
            inr (
              ground arith,
              ground arith,
              subst (FirstFit c.slabs.slabclass size 1 c.slabs.power_largest) (sym same) f',
            )
      ]
    ]
