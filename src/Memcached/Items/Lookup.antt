-- ===== src/Memcached/Items/Lookup.antt =====
-- What `do_item_get` of memcached-sr/items.c finds, and what it leaves of the table.
use bmc_cache.Base.{
  ℕ, ◌<◌, Bool, true, false, not, none, some, List, [], ◌∷◌, leb, ◌==◌, ◌&&◌, ◌||◌, if◌then◌else◌,
  ◌≡◌, ◌≢◌, ◌⊎◌, inl, inr, refl, sym, ap, subst, ◌∙◌, arith, if_either, Option-cases, Bool-cases,
}
use bmc_cache.Memcached.Types.{Cache, set_item}
use bmc_cache.Memcached.Assoc.{Item, Table, same_key, find_chain, chain_of, assoc_find}
use bmc_cache.Memcached.Assoc.Chain.{
  same_key-cases, same_key_eq, find_chain-here, find_chain-later, find_chain-nil,
}
use bmc_cache.Memcached.Assoc.Sound.{Sound}
use bmc_cache.Memcached.Assoc.Update.{assoc_delete-some, assoc_delete-none}
use bmc_cache.Memcached.Items.{
  item_is_flushed, refcount_incr, do_item_remove, do_item_unlink, do_item_bump, do_item_get,
}
use bmc_cache.Memcached.Items.Table.{
  Keyed, set_item-Keyed, do_item_remove-Keyed, do_item_bump-Keyed, table_without,
  do_item_unlink-Rekeyed,
}

find_chain-key :
    (k : List ℕ) (chain : List Item) (x : Item) → find_chain k chain ≡ some x → k ≡ x.key
find_chain-key k [] x h = absurd (let n = find_chain-nil k in ground arith)
find_chain-key k (y ∷ ys) x h = elim (same_key-cases k y.key) [
  | inl e ↦
      let f = find_chain-here k y ys e in let same : y ≡ x = cc in e ∙ ap (λ (z : Item). z.key) same
  | inr e ↦ find_chain-key k ys x (sym (find_chain-later k y ys e) ∙ h)
]

pub assoc_find-key :
    (t : Table) (k : List ℕ) (hv : ℕ) (x : Item) → assoc_find t k hv ≡ some x → k ≡ x.key
unfolding assoc_find
assoc_find-key t k hv x h = find_chain-key k (chain_of t hv) x h

module _ (hash : List ℕ → ℕ) where
  -- The table without a key finds the others.
  pub table_without-lem :
      (t : Table) (key : List ℕ)
      → Sound hash t
      → Sound hash (table_without t key (hash key))
        × ((k : List ℕ)
            → assoc_find (table_without t key (hash key)) k (hash k)
              ≡ (if same_key k key then none else assoc_find t k (hash k)))
  table_without-lem t key s = elim (Option-cases (assoc_find t key (hash key))) [
    | inl e ↦
        let d = assoc_delete-none hash t s key e in
        let same : table_without t key (hash key) ≡ t = ground arith in
        (
          subst (Sound hash) (sym same) s,
          λ k. ap (λ z. assoc_find z k (hash k)) same ∙ elim (same_key-cases k key) [
            | inl f ↦
                let q = same_key_eq k key f in
                let n = subst (λ z. assoc_find t z (hash z) ≡ none) (sym f) e in ground arith
            | inr f ↦ ground arith
          ],
        )
    | inr (x, e) ↦
        let (t', d, s', f) = assoc_delete-some hash t s key x e in
        let same : table_without t key (hash key) ≡ t' = ground arith in
        (subst (Sound hash) (sym same) s', λ k. ap (λ z. assoc_find z k (hash k)) same ∙ f k)
  ]

  -- The table is sound, and what it finds are linked items with the keys they are found by.
  pub record CacheSound (c : Cache) : Type 0 where
    pub table : Sound hash c.table
    pub entries :
        (k : List ℕ) (x : Item)
        → assoc_find c.table k (hash k) ≡ some x
        → ((c.items x.addr).key ≡ k) × ((c.items x.addr).it_flags.linked ≡ true) × (x.addr ≢ 0)

  -- An item that may be given to a client: not flushed, and not expired.
  abbrev pub IsLive : Cache → ℕ → Type 0
  IsLive c it =
      (item_is_flushed c (c.items it) ≡ false)
      × (((c.items it).exptime ≡ 0) ⊎ (c.current_time < (c.items it).exptime))

  -- The outcome of a lookup: either nothing, and the key is not in the table afterwards, or the live
  -- item that the table has for the key, and the table is the same.
  pub record Got (c : Cache) (key : List ℕ) (r : Cache × ℕ) : Type 0 where
    pub sound : Sound hash r.0.table
    pub others :
        (k : List ℕ)
        → same_key k key ≡ false
        → assoc_find r.0.table k (hash k) ≡ assoc_find c.table k (hash k)
    pub outcome :
        ((r.1 ≡ 0) × (assoc_find r.0.table key (hash key) ≡ none))
        ⊎ ((r.1 ≢ 0)
            × (assoc_find c.table key (hash key) ≡ some (record { key = key; addr = r.1 }))
            × (r.0.table ≡ c.table)
            × IsLive c r.1)

  module _ (queued update : Bool) (c : Cache) (key : List ℕ) (s : CacheSound c) where
    -- Nothing is found.
    absent-Got :
        assoc_find c.table key (hash key) ≡ none
        → Got c key (do_item_get queued update c key (hash key))
    unfolding do_item_get
    absent-Got e =
        let r : do_item_get queued update c key (hash key) ≡ (c, 0) = ground arith in
        subst (Got c key) (sym r)
          (record { sound = s.table; others = λ k h. refl; outcome = inl (refl, e) })

    module _ (x : Item) (e : assoc_find c.table key (hash key) ≡ some x) where
      abbrev pub held : Cache
      held = set_item c x.addr (refcount_incr (c.items x.addr))

      abbrev pub dead : Bool
      dead =
          item_is_flushed held (held.items x.addr)
          || (not ((held.items x.addr).exptime == 0)
              && leb (held.items x.addr).exptime held.current_time)

      abbrev pub dropped : Cache
      dropped = do_item_remove (do_item_unlink held x.addr (hash key)) x.addr

      abbrev pub given : Cache
      given = if update then do_item_bump queued held x.addr else held

      pub get-some :
          do_item_get queued update c key (hash key)
          ≡ (if dead then (dropped, 0) else (given, x.addr))
      unfolding do_item_get
      get-some = ground arith

      held-Keyed : Keyed c held
      held-Keyed = set_item-Keyed c x.addr (refcount_incr (c.items x.addr)) refl

      dropped-table : dropped.table ≡ table_without c.table key (hash key)
      dropped-table =
          let (ek, el, en) = s.entries key x e in
          let kept : (held.items x.addr).key ≡ key = held-Keyed.key x.addr ∙ ek in
          let r = do_item_unlink-Rekeyed held x.addr (hash key) (ground arith) in
          let u = do_item_unlink held x.addr (hash key) in
          (do_item_remove-Keyed u x.addr).table
          ∙ r.table
          ∙ ap (λ z. table_without c.table z (hash key)) kept

      dropped-Got : Got c key (dropped, 0)
      dropped-Got =
          let (sound, found) = table_without-lem c.table key s.table in
          record {
            sound = subst (Sound hash) (sym dropped-table) sound;
            others = λ k h.
                ap (λ z. assoc_find z k (hash k)) dropped-table ∙ (let f = found k in ground arith);
            outcome = inl (
              refl,
              ap (λ z. assoc_find z key (hash key)) dropped-table
                  ∙ (let f = found key in let q = same_key_eq key key refl in ground arith),
            );
          }

      given-table : given.table ≡ c.table
      given-table =
          if_either (λ z. z.table ≡ c.table) update (do_item_bump queued held x.addr) held
            (λ h. (do_item_bump-Keyed queued held x.addr).table) (λ h. refl)

      pub alive : dead ≡ false → IsLive c x.addr
      unfolding item_is_flushed
      alive d = (
        ground arith,
        elim (Bool-cases ((c.items x.addr).exptime == 0)) [
          | inl z ↦ inl (ground arith)
          | inr z ↦ inr (ground arith)
        ],
      )

      given-Got : dead ≡ false → Got c key (given, x.addr)
      given-Got d =
          let (ek, el, en) = s.entries key x e in
          let kx : key ≡ x.key = assoc_find-key c.table key (hash key) x e in
          record {
            sound = subst (Sound hash) (sym given-table) s.table;
            others = λ k h. ap (λ z. assoc_find z k (hash k)) given-table;
            outcome = inr (
              en,
              e ∙ ap (λ z. some (record { key = z; addr = x.addr })) (sym kx),
              given-table,
              alive d,
            );
          }

      found-Got : Got c key (do_item_get queued update c key (hash key))
      found-Got = subst (Got c key) (sym get-some) (
          if_either (Got c key) dead (dropped, 0) (given, x.addr) (λ h. dropped-Got)
            (λ h. given-Got h))

    -- Where the table is sound and finds linked items by their own keys, a lookup gives nothing, and
    -- the key is not in the table afterwards, or it gives the item that the table has for the key,
    -- which is neither flushed nor expired, and the table stays; under other keys the table
    -- finds what it found before.
    pub do_item_get-Got : Got c key (do_item_get queued update c key (hash key))
    do_item_get-Got = elim (Option-cases (assoc_find c.table key (hash key))) [
      | inl e ↦ absent-Got e
      | inr (x, e) ↦ found-Got x e
    ]

    -- Every item has the key it had, and without a bump the given item is linked.
    pub record KeyedGot (r : Cache × ℕ) : Type 0 where
      pub keys : (a : ℕ) → (r.0.items a).key ≡ (c.items a).key
      pub linked : update ≡ false → r.1 ≢ 0 → (r.0.items r.1).it_flags.linked ≡ true

    absent-KeyedGot :
        assoc_find c.table key (hash key) ≡ none
        → KeyedGot (do_item_get queued update c key (hash key))
    unfolding do_item_get
    absent-KeyedGot e =
        let r : do_item_get queued update c key (hash key) ≡ (c, 0) = ground arith in
        subst KeyedGot (sym r) (record { keys = λ a. refl; linked = λ u nz. absurd (nz refl) })

    module _ (x : Item) (e : assoc_find c.table key (hash key) ≡ some x) where
      dropped-KeyedGot : KeyedGot (dropped x e, 0)
      dropped-KeyedGot =
          let (ek, el, en) = s.entries key x e in
          let r = do_item_unlink-Rekeyed (held x e) x.addr (hash key) (ground arith) in
          let u = do_item_unlink (held x e) x.addr (hash key) in
          record {
            keys = λ a. (do_item_remove-Keyed u x.addr).key a ∙ r.key a ∙ (held-Keyed x e).key a;
            linked = λ u nz. absurd (nz refl);
          }

      given-KeyedGot : KeyedGot (given x e, x.addr)
      given-KeyedGot =
          let (ek, el, en) = s.entries key x e in
          record {
            keys = λ a.
                if_either (λ z. (z.items a).key ≡ (c.items a).key) update
                  (do_item_bump queued (held x e) x.addr) (held x e)
                  (λ h.
                    (do_item_bump-Keyed queued (held x e) x.addr).key a ∙ (held-Keyed x e).key a)
                  (λ h. (held-Keyed x e).key a);
            linked = λ u nz. ground arith;
          }

      found-KeyedGot : KeyedGot (do_item_get queued update c key (hash key))
      found-KeyedGot = subst KeyedGot (sym (get-some x e)) (
          if_either KeyedGot (dead x e) (dropped x e, 0) (given x e, x.addr) (λ h. dropped-KeyedGot)
            (λ h. given-KeyedGot))

    pub do_item_get-KeyedGot : KeyedGot (do_item_get queued update c key (hash key))
    do_item_get-KeyedGot = elim (Option-cases (assoc_find c.table key (hash key))) [
      | inl e ↦ absent-KeyedGot e
      | inr (x, e) ↦ found-KeyedGot x e
    ]
