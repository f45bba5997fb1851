-- ===== src/Memcached/StoreItem/Semantics.antt =====
-- Which commands of memcached-sr/memcached.c store, and what the table has afterwards.
use bmc_cache.Base.{
  ℕ, Bool, true, false, not, none, some, List, ltb, ◌==◌, ◌&&◌, ◌||◌, if◌then◌else◌, ◌≡◌, ◌≢◌, inl,
  inr, refl, sym, ap, subst, ◌∙◌, arith, if_either,
}
use bmc_cache.Memcached.Types.{StrItem, Cache, set_item}
use bmc_cache.Memcached.Assoc.{Table, same_key, assoc_find}
use bmc_cache.Memcached.Assoc.Chain.{same_key-cases, same_key_eq}
use bmc_cache.Memcached.Assoc.Sound.{Sound}
use bmc_cache.Memcached.Items.{
  item_get_cas, do_item_get, do_item_update, do_item_replace, do_item_remove,
}
use bmc_cache.Memcached.Items.Kept.{do_item_update-Kept}
use bmc_cache.Memcached.Items.Table.{Keyed, Keyed-refl, set_item-Keyed, do_item_remove-Keyed}
use bmc_cache.Memcached.Items.Lookup.{CacheSound, do_item_get-Got, do_item_get-KeyedGot}
use bmc_cache.Memcached.Alloc.{Round}
use bmc_cache.Memcached.StoreItem.{
  Command, add, set, replace, append, prepend, cas, not_stored, exists, not_found, Stored, refused,
  store_replaced, store_cas, store_linked, store_by, release, do_store_item, is_stored,
}
use bmc_cache.Memcached.StoreItem.Replace.{
  Replaced, Prepared, replace-Replaced, store_linked-Replaced,
}

-- The commands that take the value of another item.
abbrev pub joins : Command → Bool
joins append = true
joins prepend = true
joins other = false

module _ (hash : List ℕ → ℕ) where
  -- Whether the command stored, as `accepted` says, and the table of the new item or the one before.
  record Outcome (accepted : Bool) (t : Table) (key : List ℕ) (it : ℕ) (s : Stored) : Type 0 where
    sound : Sound hash s.cache.table
    result : is_stored s.result ≡ accepted
    found :
        (k : List ℕ)
        → assoc_find s.cache.table k (hash k) ≡ (
            if accepted && same_key k key
            then some (record { key = key; addr = it })
            else assoc_find t k (hash k))

  module _ (t : Table) (key : List ℕ) (it : ℕ) (accepted : Bool) (s : Stored) where
    stored-Outcome :
        accepted ≡ true
        → is_stored s.result ≡ true
        → Replaced hash t key it s.cache.table
        → Outcome accepted t key it s
    stored-Outcome e is r =
        subst (λ b. Outcome b t key it s) (sym e)
          (record { sound = r.sound; result = is; found = r.found })

    refused-Outcome :
        accepted ≡ false
        → is_stored s.result ≡ false
        → Sound hash t
        → s.cache.table ≡ t
        → Outcome accepted t key it s
    refused-Outcome e is sound same =
        subst (λ b. Outcome b t key it s) (sym e)
          (record {
            sound = subst (Sound hash) (sym same) sound;
            result = is;
            found = λ k. ap (λ z. assoc_find z k (hash k)) same;
          })

  -- What each of the other commands asks of the old item: `add` that there is none, `replace` that
  -- there is one, `cas` that there is one with the same id (or, for a stale one, a later id).
  abbrev pub accepts : Command → Bool → Cache → ℕ → ℕ → Bool
  accepts add set_stale c old_it it = old_it == 0
  accepts set set_stale c old_it it = true
  accepts replace set_stale c old_it it = not (old_it == 0)
  accepts cas set_stale c old_it it =
      not (old_it == 0)
      && (item_get_cas (c.items it) == item_get_cas (c.items old_it)
          || (set_stale && ltb (item_get_cas (c.items it)) (item_get_cas (c.items old_it))))
  accepts joined set_stale c old_it it = false

  -- Whether the command stored, and what the table finds then: under the key the new item, or else
  -- what the lookup found, and under the others what it found before.
  pub record Decided (accepted : Bool) (c : Cache) (old_it it : ℕ) (s : Stored) : Type 0 where
    pub sound : Sound hash s.cache.table
    pub result : is_stored s.result ≡ accepted
    pub found :
        (k : List ℕ)
        → assoc_find s.cache.table k (hash k) ≡ (
            if same_key k (c.items it).key
            then (if accepted
                then some (record { key = (c.items it).key; addr = it })
                else if old_it == 0
                then none
                else some (record { key = (c.items it).key; addr = old_it }))
            else assoc_find c.table k (hash k))

  module _ (rounds : ℕ) (env : ℕ → Round) where
    module _ (c : Cache) (key : List ℕ) (old_it it : ℕ) (p : Prepared hash c key old_it it) where
      linked-Outcome :
          (b : Bool) → b ≡ true → Outcome b c.table key it (store_linked c old_it it (hash key))
      unfolding store_linked
      linked-Outcome b e =
          stored-Outcome c.table key it b (store_linked c old_it it (hash key)) e refl
            (store_linked-Replaced hash c key old_it it p)

      store_by-add :
          (b : Bool)
          → Outcome
              (old_it == 0)
              c.table
              key
              it
              (store_by hash rounds env add b c old_it it (hash key)).0
      unfolding store_by
      store_by-add b =
          if_either (λ (z : Stored × ℕ). Outcome (old_it == 0) c.table key it z.0) (old_it == 0)
            (store_linked c old_it it (hash key), 0)
            (refused (do_item_update c old_it) it not_stored, 0)
            (λ e. linked-Outcome (old_it == 0) e)
            (λ e.
              refused-Outcome c.table key it (old_it == 0)
                (refused (do_item_update c old_it) it not_stored) e refl p.sound
                (do_item_update-Kept c old_it).table)

      store_by-replace :
          (b : Bool)
          → Outcome
              (not (old_it == 0))
              c.table
              key
              it
              (store_by hash rounds env replace b c old_it it (hash key)).0
      unfolding store_by
      store_by-replace b =
          if_either (λ (z : Stored × ℕ). Outcome (not (old_it == 0)) c.table key it z.0)
            (old_it == 0) (refused c it not_stored, 0) (store_linked c old_it it (hash key), 0)
            (λ e.
              refused-Outcome c.table key it (not (old_it == 0)) (refused c it not_stored)
                (ap not e) refl p.sound refl)
            (λ e. linked-Outcome (not (old_it == 0)) (ap not e))

      abbrev same_id : Bool
      same_id = item_get_cas (c.items it) == item_get_cas (c.items old_it)

      abbrev earlier : Bool → Bool
      earlier b = b && ltb (item_get_cas (c.items it)) (item_get_cas (c.items old_it))

      replaced-Outcome :
          (d : Cache) (b : Bool)
          → Prepared hash d key old_it it
          → d.table ≡ c.table
          → old_it ≢ 0
          → b ≡ true
          → Outcome b c.table key it (store_replaced d old_it it (hash key))
      unfolding store_replaced
      replaced-Outcome d b q same nz e =
          stored-Outcome c.table key it b (store_replaced d old_it it (hash key)) e refl (
            subst (λ t. Replaced hash t key it (do_item_replace d old_it it (hash key)).table) same
              (replace-Replaced hash d key old_it it q nz))

      relabelled-Prepared :
          (i : StrItem)
          → i.key ≡ (c.items it).key
          → i.it_flags.linked ≡ (c.items it).it_flags.linked
          → Prepared hash (set_item c it i) key old_it it
      relabelled-Prepared i ek el = record {
        sound = p.sound;
        named = (set_item-Keyed c it i ek).key it ∙ p.named;
        absent = p.absent;
        present = λ nz.
            let (ok, ol) = p.present nz in
            ((set_item-Keyed c it i ek).key old_it ∙ ok, ground arith);
      }

      store_cas-Outcome :
          (b : Bool)
          → Outcome
              (not (old_it == 0) && (same_id || earlier b))
              c.table
              key
              it
              (store_cas b c old_it it (hash key))
      unfolding store_cas
      store_cas-Outcome b =
          let i = c.items it in
          let o = c.items old_it in
          let stale_it : StrItem = record i {
            exptime = o.exptime;
            it_flags = record (i.it_flags) {
              stale = true;
              token_sent = i.it_flags.token_sent || o.it_flags.token_sent;
            };
          } in
          let d = set_item c it stale_it in
          let marked = store_replaced d old_it it (hash key) in
          let late : Stored = if earlier b then marked else refused c it exists in
          let there : Stored = if same_id then store_replaced c old_it it (hash key) else late in
          let ok = not (old_it == 0) && (same_id || earlier b) in
          if_either (Outcome ok c.table key it) (old_it == 0) (refused c it not_found) there
            (λ e.
              refused-Outcome c.table key it ok (refused c it not_found) (ground arith) refl p.sound
                refl)
            (λ z.
              if_either (Outcome ok c.table key it) same_id (store_replaced c old_it it (hash key))
                late (λ e. replaced-Outcome c ok p refl (λ n. absurd (ground arith)) (ground arith))
                (λ n.
                  if_either (Outcome ok c.table key it) (earlier b) marked (refused c it exists)
                    (λ e.
                      replaced-Outcome d ok (relabelled-Prepared stale_it refl refl) refl
                        (λ n. absurd (ground arith)) (ground arith))
                    (λ e.
                      refused-Outcome c.table key it ok (refused c it exists) (ground arith) refl
                        p.sound refl)))

      store_by-Outcome :
          (comm : Command) (b : Bool)
          → joins comm ≡ false
          → Outcome
              (accepts comm b c old_it it)
              c.table
              key
              it
              (store_by hash rounds env comm b c old_it it (hash key)).0
      unfolding store_by
      store_by-Outcome add b h = store_by-add b
      store_by-Outcome set b h = linked-Outcome true refl
      store_by-Outcome replace b h = store_by-replace b
      store_by-Outcome append b h = absurd (ground arith)
      store_by-Outcome prepend b h = absurd (ground arith)
      store_by-Outcome cas b h = store_cas-Outcome b

    release-Keyed : (c : Cache) (it : ℕ) → Keyed c (release hash rounds env c it)
    unfolding release
    release-Keyed c it =
        if_either (Keyed c) (it == 0) c (do_item_remove c it) (λ e. Keyed-refl c)
          (λ e. do_item_remove-Keyed c it)

    module _ (c : Cache) (it : ℕ) (b : Bool) (s : CacheSound hash c) where
      abbrev key : List ℕ
      key = (c.items it).key

      abbrev looked_up : Cache × ℕ
      looked_up = do_item_get false false c key (hash key)

      looked_up-Prepared : Prepared hash looked_up.0 key looked_up.1 it
      looked_up-Prepared =
          let g = do_item_get-Got hash false false c key s in
          let ks = do_item_get-KeyedGot hash false false c key s in
          record {
            sound = g.sound;
            named = ks.keys it;
            absent = λ z. elim g.outcome [ inl (n, e) ↦ e | inr (nz, e, t, live) ↦ absurd (nz z) ];
            present = λ nz. elim g.outcome [
              | inl (n, e) ↦ absurd (nz n)
              | inr (n, e, t, live) ↦
                  let (ek, el, en) = s.entries key (record { key = key; addr = looked_up.1 }) e in
                  (ks.keys looked_up.1 ∙ ek, ks.linked refl nz)
            ];
          }

      looked_up-found :
          (k : List ℕ)
          → assoc_find looked_up.0.table k (hash k) ≡ (
              if same_key k key
              then (if looked_up.1 == 0
                  then none
                  else some (record { key = key; addr = looked_up.1 }))
              else assoc_find c.table k (hash k))
      looked_up-found k =
          let g = do_item_get-Got hash false false c key s in
          elim (same_key-cases k key) [
            | inl e ↦
                let q = same_key_eq k key e in
                ap (λ z. assoc_find looked_up.0.table z (hash z)) e ∙ elim g.outcome [
                  | inl (n, f) ↦ ground arith
                  | inr (n, f, t, live) ↦
                      ap (λ z. assoc_find z key (hash key)) t
                      ∙ (let m : (looked_up.1 == 0) ≡ false = ground arith in ground arith)
                ]
            | inr e ↦ g.others k e ∙ ground arith
          ]

      -- Where the table is sound and finds linked items by their own keys, a command other than
      -- `append` and `prepend` stores exactly when what the lookup finds is as it asks, and afterwards
      -- the table finds under the key the new item if it stored and what the lookup found
      -- otherwise, and under the other keys what it found before.
      pub do_store_item-Decided :
          (comm : Command)
          → joins comm ≡ false
          → Decided
              (accepts comm b looked_up.0 looked_up.1 it)
              c
              looked_up.1
              it
              (do_store_item hash rounds env comm b c it (hash key))
      unfolding do_store_item
      do_store_item-Decided comm h =
          let o = store_by-Outcome looked_up.0 key looked_up.1 it looked_up-Prepared comm b h in
          let d = (store_by hash rounds env comm b looked_up.0 looked_up.1 it (hash key)).0.cache in
          let n = (store_by hash rounds env comm b looked_up.0 looked_up.1 it (hash key)).1 in
          let d1 = release hash rounds env d looked_up.1 in
          let d2 = release hash rounds env d1 n in
          let same : d2.table ≡ d.table =
            (release-Keyed d1 n).table ∙ (release-Keyed d looked_up.1).table in
          record {
            sound = subst (Sound hash) (sym same) o.sound;
            result = o.result;
            found = λ k.
                ap (λ z. assoc_find z k (hash k)) same
                ∙ o.found k
                ∙ (let f = looked_up-found k in ground arith);
          }
