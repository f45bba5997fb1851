-- ===== src/Memcached/StoreTests.antt =====
-- Items of memcached-sr and commands on them, and the properties at them.
use bmc_cache.Base.{
  ℕ, true, false, none, some, List, [], ◌∷◌, ◌++◌, if◌then◌else◌, ◌≡◌, ◌∙◌, ap, subst, inl, inr,
  refl, sym, arith, from_list,
}
use bmc_cache.Memcached.Types.{StrItem, no_flags, Cache, set_item}
use bmc_cache.Memcached.Samples.{empty_cache, sum_bytes}
use bmc_cache.Memcached.Assoc.{
  Item, Table, assoc_init, assoc_insert, assoc_find, same_key, chain_of, in_old, find_chain,
  set_chain,
}
use bmc_cache.Memcached.Assoc.Sound.{Sound}
use bmc_cache.Memcached.Assoc.Refine.{started-Refines}
use bmc_cache.Memcached.Assoc.Update.{assoc_insert-Sound, assoc_find-assoc_insert}
use bmc_cache.Memcached.Assoc.Chain.{same_key-cases, same_key_eq}
use bmc_cache.Memcached.Slabs.{zero_item}
use bmc_cache.Memcached.Items.{do_item_get, item_is_flushed}
use bmc_cache.Memcached.Items.Lookup.{CacheSound, Got, do_item_get-Got}
use bmc_cache.Memcached.Alloc.{Round}
use bmc_cache.Memcached.StoreItem.{cas, store_item_copy_data, delta_in_place, do_store_item}
use bmc_cache.Memcached.StoreItem.Join.{HasValue, store_item_copy_data-HasValue}
use bmc_cache.Memcached.StoreItem.Delta.{spaces, delta_in_place-HasValue}
use bmc_cache.Memcached.StoreItem.Semantics.{Decided, do_store_item-Decided}

-- "ab" and "cde", with their line ends.
abbrev item_ab : StrItem
item_ab = record zero_item {
  key = 107 ∷ [];
  nbytes = 4;
  refcount = 1;
  data_ = from_list (97 ∷ 98 ∷ 13 ∷ 10 ∷ []);
}

abbrev item_cde : StrItem
item_cde = record zero_item {
  key = 107 ∷ [];
  nbytes = 5;
  refcount = 1;
  data_ = from_list (99 ∷ 100 ∷ 101 ∷ 13 ∷ 10 ∷ []);
}

item_ab-HasValue : HasValue item_ab (97 ∷ 98 ∷ [])
item_ab-HasValue = record { bytes = (refl, (refl, (refl, (refl, tt)))); counted = refl }

item_cde-HasValue : HasValue item_cde (99 ∷ 100 ∷ 101 ∷ [])
item_cde-HasValue = record { bytes = (refl, (refl, (refl, (refl, (refl, tt))))); counted = refl }

abbrev item_joined : StrItem
item_joined = record zero_item { key = 107 ∷ []; nbytes = 7 }

store_item_copy_data-HasValue_example :
    HasValue
      (store_item_copy_data true item_ab item_joined item_cde)
      (97 ∷ 98 ∷ 99 ∷ 100 ∷ 101 ∷ [])
store_item_copy_data-HasValue_example =
    store_item_copy_data-HasValue true item_ab item_joined item_cde (97 ∷ 98 ∷ [])
      (99 ∷ 100 ∷ 101 ∷ []) item_ab-HasValue item_cde-HasValue refl

abbrev cde_cache : Cache
cde_cache = set_item empty_cache 500 item_cde

delta_in_place-HasValue_test :
    HasValue ((delta_in_place cde_cache 500 (55 ∷ [])).items 500) ((55 ∷ []) ++ spaces 2)
delta_in_place-HasValue_test =
    delta_in_place-HasValue cde_cache 500 (55 ∷ []) (99 ∷ 100 ∷ 101 ∷ []) item_cde-HasValue
      (omega arith)

-- "k" is at 500, with the CAS id 5.
abbrev entry_k : Item
entry_k = record { key = 107 ∷ []; addr = 500 }

abbrev table_k : Table
table_k = assoc_insert (assoc_init 1) entry_k 107

abbrev linked_k : StrItem
linked_k = record item_cde {
  cas = 5;
  refcount = 1;
  time = 900;
  exptime = 2000;
  it_flags = record no_flags { linked = true; has_cas = true };
}

abbrev cache_k : Cache
cache_k = record (set_item empty_cache 500 linked_k) { table = table_k }

cache_k-find :
    (k : List ℕ)
    → assoc_find table_k k (sum_bytes k) ≡ (if same_key k (107 ∷ []) then some entry_k else none)
cache_k-find k =
    let (s, f) = started-Refines sum_bytes 1 in
    assoc_find-assoc_insert sum_bytes (assoc_init 1) s entry_k (f (107 ∷ [])) k
    ∙ (let g = f k in ground arith)

with_k-CacheSound :
    (c : Cache)
    → c.table ≡ table_k
    → (c.items 500).key ≡ 107 ∷ []
    → (c.items 500).it_flags.linked ≡ true
    → CacheSound sum_bytes c
with_k-CacheSound c same ek el =
    let (s, f) = started-Refines sum_bytes 1 in
    record {
      table =
          subst (Sound sum_bytes) (sym same)
            (assoc_insert-Sound sum_bytes (assoc_init 1) s entry_k (f (107 ∷ [])));
      entries = λ k x e.
          let g = cache_k-find k in
          let e' = ap (λ t. assoc_find t k (sum_bytes k)) (sym same) ∙ e in
          elim (same_key-cases k (107 ∷ [])) [
            | inl h ↦
                let l : same_key k (107 ∷ []) ≡ true = same_key_eq k (107 ∷ []) h in
                let found : some entry_k ≡ some x = ground arith in
                let at : 500 ≡ x.addr = cc in
                (
                  ap (λ z. (c.items z).key) (sym at) ∙ ek ∙ sym h,
                  ap (λ z. (c.items z).it_flags.linked) (sym at) ∙ el,
                  λ z. absurd (ground arith),
                )
            | inr h ↦ absurd (ground arith)
          ];
    }

do_item_get-Got_example :
    Got sum_bytes cache_k (107 ∷ []) (do_item_get false true cache_k (107 ∷ []) 107)
do_item_get-Got_example =
    do_item_get-Got sum_bytes false true cache_k (107 ∷ [])
      (with_k-CacheSound cache_k refl refl refl)

-- A new item for "k", with the same CAS id.
abbrev cache_cas : Cache
cache_cas =
    set_item cache_k 600 (record item_ab { cas = 5; it_flags = record no_flags { has_cas = true } })

abbrev quiet : ℕ → Round
quiet i = record { grown = false; fresh = 0; trylock = λ hv. false }

do_store_item-Decided_example :
    Decided sum_bytes true cache_cas 500 600
      (do_store_item sum_bytes 20 quiet cas false cache_cas 600 107)
unfolding do_item_get item_is_flushed assoc_find assoc_insert assoc_init chain_of in_old find_chain
    same_key set_chain
do_store_item-Decided_example =
    do_store_item-Decided sum_bytes 20 quiet cache_cas 600 false
      (with_k-CacheSound cache_cas refl refl refl) cas refl
