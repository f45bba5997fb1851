-- ===== src/Memcached/ObjectCache/Stack.antt =====
-- The object cache of memcached-sr/cache.c is a stack.
use bmc_cache.Base.{
  ℕ, ◌-◌, ◌*◌, ◌≤◌, ◌<◌, Bool, true, Option, List, [], ◌∷◌, ltb, ◌||◌, if◌then◌else◌, length, ◌≡◌,
  ◌⊎◌, refl, sym, ap, ◌∙◌, subst, arith, if_either,
}
use bmc_cache.Memcached.Types.{set_at}
use bmc_cache.Memcached.ObjectCache.{
  ObjectCache, do_cache_alloc, do_cache_free, push_object, cache_create,
}

-- The array has the objects, the last one of them first.
abbrev pub Stacked : (ℕ → ℕ) → List ℕ → Type 0
Stacked f [] = Unit
Stacked f (x ∷ xs) = (f (length xs) ≡ x) × Stacked f xs

Stacked-set_at :
    (f : ℕ → ℕ) (n v : ℕ) (xs : List ℕ) → length xs ≤ n → Stacked f xs → Stacked (set_at f n v) xs
Stacked-set_at f n v [] le s = tt
Stacked-set_at f n v (x ∷ xs) le s =
    (let first = s.0 in ground arith, Stacked-set_at f n v xs (omega arith) s.1)

-- The free objects are the list, within the array.
pub record IsStack (c : ObjectCache) (xs : List ℕ) : Type 0 where
  pub stacked : Stacked c.ptr xs
  pub counted : c.freecurr ≡ length xs
  pub within : c.freecurr ≤ c.freetotal
  pub positive : 0 < c.freetotal

pub cache_create-IsStack : IsStack cache_create []
unfolding cache_create
cache_create-IsStack = record {
  stacked = tt;
  counted = refl;
  within = omega arith;
  positive = omega arith;
}

push_object-IsStack :
    (c : ObjectCache) (p : ℕ) (xs : List ℕ)
    → IsStack c xs
    → c.freecurr < c.freetotal
    → IsStack (push_object c p) (p ∷ xs)
push_object-IsStack c p xs s lt =
    let n = s.counted in
    record {
      stacked = (ground arith, Stacked-set_at c.ptr c.freecurr p xs (omega arith) s.stacked);
      counted = omega arith;
      within = omega arith;
      positive = s.positive;
    }

-- An object that is freed becomes the first one, unless the array is full and does not grow; then the
-- free objects are as before.
pub do_cache_free-IsStack :
    (grown : Bool) (c : ObjectCache) (p : ℕ) (xs : List ℕ)
    → IsStack c xs
    → IsStack
        (do_cache_free grown c p)
        (if ltb (length xs) c.freetotal || grown then p ∷ xs else xs)
unfolding do_cache_free
do_cache_free-IsStack grown c p xs s =
    let kept : List ℕ = if ltb (length xs) c.freetotal || grown then p ∷ xs else xs in
    let n = s.counted in
    let w = s.within in
    let z = s.positive in
    let wide = record c { freetotal = c.freetotal * 2 } in
    let wider : IsStack wide xs = record {
      stacked = s.stacked;
      counted = s.counted;
      within = omega arith;
      positive = omega arith;
    } in
    let wide_free : ObjectCache = if grown then push_object wide p else c in
    if_either (λ d. IsStack d kept) (ltb c.freecurr c.freetotal) (push_object c p) wide_free
      (λ e.
        let same : p ∷ xs ≡ kept = ground arith in
        subst (IsStack (push_object c p)) same (push_object-IsStack c p xs s (ground arith)))
      (λ e.
        if_either (λ d. IsStack d kept) grown (push_object wide p) c
          (λ g.
            let same : p ∷ xs ≡ kept = ground arith in
            subst (IsStack (push_object wide p)) same
              (push_object-IsStack wide p xs wider (omega arith)))
          (λ g. let same : xs ≡ kept = ground arith in subst (IsStack c) same s))

-- An allocation takes the first free object, and makes one only if there is none.
pub do_cache_alloc-IsStack :
    (fresh : ℕ) (construct : Option (ℕ → ℕ)) (c : ObjectCache) (x : ℕ) (xs : List ℕ)
    → IsStack c (x ∷ xs)
    → ((do_cache_alloc fresh construct c).1 ≡ x) × IsStack (do_cache_alloc fresh construct c).0 xs
unfolding do_cache_alloc
do_cache_alloc-IsStack fresh construct c x xs s =
    let n = s.counted in
    let w = s.within in
    let popped : ObjectCache = record c { freecurr = c.freecurr - 1 } in
    let same : do_cache_alloc fresh construct c ≡ (popped, c.ptr (c.freecurr - 1)) = ground arith in
    let last : c.freecurr - 1 ≡ length xs = omega arith in
    subst (λ (z : ObjectCache × ℕ). (z.1 ≡ x) × IsStack z.0 xs) (sym same)
      (
        ap c.ptr last ∙ s.stacked.0,
        record {
          stacked = s.stacked.1;
          counted = last;
          within = omega arith;
          positive = s.positive;
        },
      )

-- What is freed with room for it is what the next allocation gives, and the free objects are the same
-- as before.
pub do_cache_alloc-do_cache_free :
    (grown : Bool) (fresh : ℕ) (construct : Option (ℕ → ℕ)) (c : ObjectCache) (p : ℕ) (xs : List ℕ)
    → IsStack c xs
    → (c.freecurr < c.freetotal) ⊎ (grown ≡ true)
    → ((do_cache_alloc fresh construct (do_cache_free grown c p)).1 ≡ p)
      × IsStack (do_cache_alloc fresh construct (do_cache_free grown c p)).0 xs
do_cache_alloc-do_cache_free grown fresh construct c p xs s h =
    let n = s.counted in
    let same : (if ltb (length xs) c.freetotal || grown then p ∷ xs else xs) ≡ p ∷ xs =
      ground arith in
    do_cache_alloc-IsStack fresh construct (do_cache_free grown c p) p xs
      (subst (IsStack (do_cache_free grown c p)) same (do_cache_free-IsStack grown c p xs s))
