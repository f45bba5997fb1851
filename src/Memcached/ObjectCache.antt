-- ===== src/Memcached/ObjectCache.antt =====
-- memcached-sr/cache.c: the free objects that are kept for the next allocation, as built without
-- assertions.
pub mod Stack
use bmc_cache.Base.{
  ℕ, ◌+◌, ◌-◌, ◌*◌, Bool, true, false, Option, none, some, ltb, ◌==◌, ◌||◌, if◌then◌else◌,
}
use bmc_cache.Memcached.Types.{set_at}

-- cache_t, without its name, its lock and its destructor.
pub record ObjectCache : Type 0 where
  pub ptr : ℕ → ℕ
  pub freetotal : ℕ
  pub freecurr : ℕ

abbrev pub initial_pool_size : ℕ
initial_pool_size = 64

-- The array is cleared by calloc.
unfoldable pub cache_create : ObjectCache
cache_create = record { ptr = λ i. 0; freetotal = initial_pool_size; freecurr = 0 }

-- `fresh` is what malloc gives (0 is NULL), and `construct` what the constructor, if there is one,
-- returns for an object.
unfoldable pub do_cache_alloc : ℕ → Option (ℕ → ℕ) → ObjectCache → ObjectCache × ℕ
do_cache_alloc fresh construct c =
    let made : ℕ = elim construct [
      | none ↦ fresh
      | some f ↦ if fresh == 0 then 0 else if f fresh == 0 then fresh else 0
    ] in
    if ltb 0 c.freecurr
    then (record c { freecurr = c.freecurr - 1 }, c.ptr (c.freecurr - 1))
    else (c, made)

abbrev pub push_object : ObjectCache → ℕ → ObjectCache
push_object c p = record c { ptr = set_at c.ptr c.freecurr p; freecurr = c.freecurr + 1 }

-- `grown` tells whether realloc has memory. Otherwise the object is released.
unfoldable pub do_cache_free : Bool → ObjectCache → ℕ → ObjectCache
do_cache_free grown c p =
    if ltb c.freecurr c.freetotal
    then push_object c p
    else if grown
    then push_object (record c { freetotal = c.freetotal * 2 }) p
    else c
