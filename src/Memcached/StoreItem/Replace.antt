-- ===== src/Memcached/StoreItem/Replace.antt =====
-- What `do_item_link` and `do_item_replace` of memcached-sr/items.c do to the table for the commands
-- of memcached-sr/memcached.c.
use bmc_cache.Base.{
  ℕ, true, none, some, List, ◌==◌, if◌then◌else◌, ◌≡◌, ◌≢◌, refl, sym, ap, subst, ◌∙◌, arith,
  if_either,
}
use bmc_cache.Memcached.Types.{Cache}
use bmc_cache.Memcached.Assoc.{Item, Table, same_key, assoc_find, assoc_insert}
use bmc_cache.Memcached.Assoc.Chain.{same_key_eq}
use bmc_cache.Memcached.Assoc.Sound.{Sound}
use bmc_cache.Memcached.Assoc.Update.{assoc_insert-Sound, assoc_find-assoc_insert}
use bmc_cache.Memcached.Items.{do_item_replace, do_item_link, do_item_unlink}
use bmc_cache.Memcached.Items.Table.{table_without, do_item_link-Rekeyed, do_item_unlink-Rekeyed}
use bmc_cache.Memcached.Items.Lookup.{table_without-lem}
use bmc_cache.Memcached.StoreItem.{store_linked}

module _ (hash : List ℕ → ℕ) where
  -- The table finds the item under the key, and the others as before.
  pub record Replaced (t : Table) (key : List ℕ) (it : ℕ) (t' : Table) : Type 0 where
    pub sound : Sound hash t'
    pub found :
        (k : List ℕ)
        → assoc_find t' k (hash k) ≡ (
            if same_key k key
            then some (record { key = key; addr = it })
            else assoc_find t k (hash k))

  insert-Replaced :
      (t : Table) (key : List ℕ) (it : ℕ)
      → Sound hash t
      → assoc_find t key (hash key) ≡ none
      → Replaced t key it (assoc_insert t (record { key = key; addr = it }) (hash key))
  insert-Replaced t key it s n =
      let entry : Item = record { key = key; addr = it } in
      record {
        sound = assoc_insert-Sound hash t s entry n;
        found = λ k. assoc_find-assoc_insert hash t s entry n k;
      }

  -- What the lookup left: the key is not in the table, or the old item is linked under it.
  pub record Prepared (c : Cache) (key : List ℕ) (old_it it : ℕ) : Type 0 where
    pub sound : Sound hash c.table
    pub named : (c.items it).key ≡ key
    pub absent : old_it ≡ 0 → assoc_find c.table key (hash key) ≡ none
    pub present :
        old_it ≢ 0 → ((c.items old_it).key ≡ key) × ((c.items old_it).it_flags.linked ≡ true)

  module _ (c : Cache) (key : List ℕ) (old_it it : ℕ) (p : Prepared c key old_it it) where
    link-Replaced : old_it ≡ 0 → Replaced c.table key it (do_item_link c it (hash key)).table
    link-Replaced z =
        let r = do_item_link-Rekeyed c it (hash key) in
        let e =
          r.table
          ∙ ap (λ k. assoc_insert c.table (record { key = k; addr = it }) (hash key)) p.named in
        subst (Replaced c.table key it) (sym e)
          (insert-Replaced c.table key it p.sound (p.absent z))

    pub replace-Replaced :
        old_it ≢ 0 → Replaced c.table key it (do_item_replace c old_it it (hash key)).table
    unfolding do_item_replace
    replace-Replaced nz =
        let (ok, ol) = p.present nz in
        let d = do_item_unlink c old_it (hash key) in
        let u = do_item_unlink-Rekeyed c old_it (hash key) ol in
        let r = do_item_link-Rekeyed d it (hash key) in
        let (sound, found) = table_without-lem hash c.table key p.sound in
        let t = table_without c.table key (hash key) in
        let e : d.table ≡ t = u.table ∙ ap (λ k. table_without c.table k (hash key)) ok in
        let gone : assoc_find t key (hash key) ≡ none =
          let f = found key in let q = same_key_eq key key refl in ground arith in
        let i = insert-Replaced t key it sound gone in
        let e' : (do_item_link d it (hash key)).table
            ≡ assoc_insert t (record { key = key; addr = it }) (hash key) =
          r.table
          ∙ ap (λ k. assoc_insert d.table (record { key = k; addr = it }) (hash key))
              (u.key it ∙ p.named)
          ∙ ap (λ z. assoc_insert z (record { key = key; addr = it }) (hash key)) e in
        subst (Replaced c.table key it) (sym e')
          (record { sound = i.sound; found = λ k. i.found k ∙ (let f = found k in ground arith) })

    pub store_linked-Replaced :
        Replaced c.table key it (store_linked c old_it it (hash key)).cache.table
    unfolding store_linked
    store_linked-Replaced =
        if_either (λ z. Replaced c.table key it z.table) (old_it == 0)
          (do_item_link c it (hash key)) (do_item_replace c old_it it (hash key))
          (λ e. link-Replaced (ground arith)) (λ e. replace-Replaced (λ z. absurd (ground arith)))
