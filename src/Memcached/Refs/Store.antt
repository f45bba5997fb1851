-- ===== src/Memcached/Refs/Store.antt =====
-- `do_store_item` of memcached-sr/memcached.c keeps the references counted and leaves none behind.
use bmc_cache.Base.{
  ℕ, ◌+◌, ◌^◌, ◌<◌, List, Bool, true, false, ◌==◌, if◌then◌else◌, ◌≡◌, ◌≢◌, inl, inr, refl, sym, ap,
  subst, ◌∙◌, arith, none, some,
}
use bmc_cache.Memcached.Types.{Cache}
use bmc_cache.Memcached.Assoc.{same_key}
use bmc_cache.Memcached.Assoc.Chain.{same_key-cases, same_key_eq}
use bmc_cache.Memcached.Assoc.Refine.{Dict}
use bmc_cache.Memcached.Items.{do_item_remove, do_item_get}
use bmc_cache.Memcached.Items.Lookup.{do_item_get-KeyedGot}
use bmc_cache.Memcached.Alloc.{Round}
use bmc_cache.Memcached.StoreItem.{Command, Stored, store_by, release, do_store_item}
use bmc_cache.Memcached.StoreItem.Semantics.{joins, accepts}
use bmc_cache.Memcached.Refs.Counted.{Counted, without_key}
use bmc_cache.Memcached.Refs.Steps.{holders, holders-here, same-Counted, do_item_remove-Counted}
use bmc_cache.Memcached.Refs.Lookup.{Counted-CacheSound, holders-back, do_item_get-Held}
use bmc_cache.Memcached.Refs.Ready.{stored_map, Ready, still_unlinked, absent_absurd, store_by-IsBy}

-- The map after a command, as `do_store_item-Decided` has it for the table.
abbrev pub map_after : Bool → Dict → List ℕ → ℕ → ℕ → Dict
map_after accepted m key old it k =
    if same_key k key
    then (if accepted
        then some (record { key = key; addr = it })
        else if old == 0
        then none
        else some (record { key = key; addr = old }))
    else m k

module _ (hash : List ℕ → ℕ) (rounds : ℕ) (env : ℕ → Round) where
  module _ (c : Cache) (m : Dict) (refs : ℕ → ℕ) (it : ℕ) (set_stale : Bool)
      (v : Counted hash c m refs) (held : 0 < refs it) (un : (c.items it).it_flags.linked ≡ false)
      (less : (a : ℕ) → refs a + 3 < 2 ^ 16) where
    abbrev key : List ℕ
    key = (c.items it).key

    abbrev looked_up : Cache × ℕ
    looked_up = do_item_get false false c key (hash key)

    abbrev c1 : Cache
    c1 = looked_up.0

    abbrev old : ℕ
    old = looked_up.1

    named : (c1.items it).key ≡ key
    named =
        (do_item_get-KeyedGot hash false false c key (Counted-CacheSound hash c m refs v)).keys it

    not_there : m key ≢ some (record { key = key; addr = it })
    not_there e =
        let (ek, el, en) = v.entries key (record { key = key; addr = it }) e in
        absurd (ground arith)

    absent-Ready :
        old ≡ 0
        → Counted hash c1 (without_key m key) refs
        → Ready hash rounds env c1 (without_key m key) refs key old it
    absent-Ready z w =
        let q = same_key_eq key key refl in
        let gone : without_key m key key ≡ none = ground arith in
        let gone' : without_key m key (c1.items it).key ≡ none =
          ap (without_key m key) named ∙ gone in
        record {
          valid = w;
          named = named;
          held = held;
          unlinked =
              still_unlinked hash c1 (without_key m key) refs it w (λ e.
                absent_absurd (record { key = (c1.items it).key; addr = it }) (sym gone' ∙ e));
          absent = λ e. gone;
          present = λ nz. absurd (nz z);
        }

    present-Ready :
        old ≢ 0
        → m key ≡ some (record { key = key; addr = old })
        → Counted hash c1 m (holders refs old (refs old + 1))
        → Ready hash rounds env c1 m (holders refs old (refs old + 1)) key old it
    present-Ready nz there w = record {
      valid = w;
      named = named;
      held = more;
      unlinked =
          still_unlinked hash c1 m (holders refs old (refs old + 1)) it w
            (subst (λ k. m k ≢ some (record { key = k; addr = it })) (sym named) not_there);
      absent = λ z. absurd (nz z);
      present = λ n. there;
    }
      where
        more : 0 < holders refs old (refs old + 1) it
        more = ground arith

    abbrev decided_map : Bool → Dict
    decided_map accepted = map_after accepted m key old it

    absent-decided_map :
        old ≡ 0
        → (b : Bool) (k : List ℕ) → decided_map b k ≡ stored_map b (without_key m key) key it k
    absent-decided_map z true k = ground arith
    absent-decided_map z false k = ground arith

    present-decided_map :
        old ≢ 0
        → m key ≡ some (record { key = key; addr = old })
        → (b : Bool) (k : List ℕ) → decided_map b k ≡ stored_map b m key it k
    present-decided_map nz there true k = ground arith
    present-decided_map nz there false k = elim (same_key-cases k key) [
      | inl h ↦
          let q = same_key_eq k key h in
          let z = ap m h in let ne : (old == 0) ≡ false = ground arith in ground arith
      | inr h ↦ ground arith
    ]

    module _ (comm : Command) (h : joins comm ≡ false) where
      abbrev ok : Bool
      ok = accepts hash comm set_stale c1 old it

      abbrev by : Stored × ℕ
      by = store_by hash rounds env comm set_stale c1 old it (hash key)

      absent-stored :
          old ≡ 0
          → Counted hash c1 (without_key m key) refs
          → Counted hash
              (release hash rounds env (release hash rounds env by.0.cache old) by.1)
              (decided_map ok)
              refs
      unfolding release
      absent-stored z w =
          let (s, n) =
            store_by-IsBy hash rounds env c1 (without_key m key) refs key old it (absent-Ready z w)
              comm set_stale h in
          let e : by.0.cache
              ≡ release hash rounds env (release hash rounds env by.0.cache old) by.1 =
            ground arith in
          same-Counted hash (release hash rounds env (release hash rounds env by.0.cache old) by.1)
            (stored_map ok (without_key m key) key it) (decided_map ok) refs refs
            (absent-decided_map z ok) (λ a. refl)
            (subst (λ (d : Cache). Counted hash d (stored_map ok (without_key m key) key it) refs) e
              s)

      present-stored :
          old ≢ 0
          → m key ≡ some (record { key = key; addr = old })
          → Counted hash c1 m (holders refs old (refs old + 1))
          → Counted hash
              (release hash rounds env (release hash rounds env by.0.cache old) by.1)
              (decided_map ok)
              refs
      unfolding release
      present-stored nz there w =
          let more = holders refs old (refs old + 1) in
          let (s, n) =
            store_by-IsBy hash rounds env c1 m more key old it (present-Ready nz there w) comm
              set_stale h in
          let n1 = holders-here refs old (refs old + 1) in
          let d = do_item_remove by.0.cache old in
          let e : d ≡ release hash rounds env (release hash rounds env by.0.cache old) by.1 =
            ground arith in
          let v' =
            do_item_remove-Counted hash by.0.cache (stored_map ok m key it) more old s (refs old)
              (n1 ∙ omega arith) in
          subst (λ (d : Cache). Counted hash d (decided_map ok) refs) e
            (same-Counted hash d (stored_map ok m key it) (decided_map ok)
              (holders more old (refs old)) refs (present-decided_map nz there ok)
              (holders-back refs old (refs old + 1)) v')

      -- Where the references are counted, a command other than `append` and `prepend` on an item that is
      -- held and not linked keeps them counted, with the same holders, for the map with the
      -- new item under its key if the command stored, or else what the lookup found there.
      pub do_store_item-Counted :
          Counted hash
            (do_store_item hash rounds env comm set_stale c it (hash key)).cache
            (map_after
              (accepts hash comm set_stale
                (do_item_get false false c (c.items it).key (hash (c.items it).key)).0
                (do_item_get false false c (c.items it).key (hash (c.items it).key)).1
                it)
              m
              (c.items it).key
              (do_item_get false false c (c.items it).key (hash (c.items it).key)).1
              it)
            refs
      unfolding do_store_item
      do_store_item-Counted = elim (do_item_get-Held hash m refs false false key c v less) [
        | inl (z, w) ↦ absent-stored z w
        | inr (nz, there, live, w) ↦ present-stored nz there w
      ]
