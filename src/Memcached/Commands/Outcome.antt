-- ===== src/Memcached/Commands/Outcome.antt =====
-- What the commands of memcached-sr/memcached.c do to the map and to the references of the items.
use bmc_cache.Base.{
  ℕ, suc, ◌+◌, List, Bool, false, ◌==◌, ◌&&◌, not, ltb, if◌then◌else◌, ◌≡◌, ◌≢◌, inl, inr, refl,
  sym, ap, subst, ◌∙◌, arith, Bool-cases, if_either, length,
}
use bmc_cache.Memcached.Types.{Cache}
use bmc_cache.Memcached.Assoc.Refine.{Dict}
use bmc_cache.Memcached.Items.{do_item_remove, do_item_unlink, do_item_get}
use bmc_cache.Memcached.Alloc.{Round}
use bmc_cache.Memcached.StoreItem.{Command, set, do_store_item}
use bmc_cache.Memcached.StoreItem.Semantics.{joins, accepts}
use bmc_cache.Memcached.Threads.{item_get, item_get_locked, item_unlink, item_remove, store_item}
use bmc_cache.Memcached.Commands.{
  text, conn_new_cmd, conn_write, conn_swallow, out_string, token, set_noreply_maybe,
}
use bmc_cache.Memcached.Commands.Ascii.{
  Server, key_max_length, delete_is_valid, process_delete_command, complete_nread_ascii,
  value_is_valid,
}
use bmc_cache.Memcached.Commands.Update.{refuse_update}
use bmc_cache.Memcached.Refs.Counted.{Counted, without_key}
use bmc_cache.Memcached.Refs.Steps.{
  holders, holders-here, same-Counted, do_item_remove-Counted, do_item_unlink-Counted,
}
use bmc_cache.Memcached.Refs.Lookup.{holders-back, do_item_get-Held}
use bmc_cache.Memcached.Refs.Store.{map_after, do_store_item-Counted}
use bmc_cache.Memcached.Refs.Reach.{Few}

-- Without a key twice.
without_key-again :
    (m : Dict) (key k : List ℕ) → without_key m key k ≡ without_key (without_key m key) key k
without_key-again m key k = ground arith

module _ (hash : List ℕ → ℕ) where
  module _ (c : Cache) (m : Dict) (refs : ℕ → ℕ) (key : List ℕ) (v : Counted hash c m refs)
      (few : Few refs) where
    abbrev c1 : Cache
    c1 = (do_item_get false false c key (hash key)).0

    abbrev it : ℕ
    it = (do_item_get false false c key (hash key)).1

    -- A lookup, an unlink of what it gave and a release of the lookup's reference.
    looked_up_unlinked :
        it ≢ 0
        → (hv : ℕ) → hv ≡ hash key
        → Counted hash (do_item_remove (do_item_unlink c1 it hv) it) (without_key m key) refs
    looked_up_unlinked nz hv eh = elim (do_item_get-Held hash m refs false false key c v few) [
      | inl (z, w) ↦ absurd (nz z)
      | inr (n, there, live, w) ↦
          let more = holders refs it (refs it + 1) in
          let (ek, el, en) = w.entries key (record { key = key; addr = it }) there in
          let u =
            subst (λ k. Counted hash (do_item_unlink c1 it (hash k)) (without_key m k) more) ek
              (do_item_unlink-Counted hash c1 m more it w el) in
          let u' =
            subst (λ h. Counted hash (do_item_unlink c1 it h) (without_key m key) more) (sym eh)
              u in
          let d = do_item_unlink c1 it hv in
          let h = holders-here refs it (refs it + 1) in
          same-Counted hash (do_item_remove d it) (without_key m key) (without_key m key)
            (holders more it (refs it)) refs (λ k. refl) (holders-back refs it (refs it + 1))
            (do_item_remove-Counted hash d (without_key m key) more it u' (refs it)
              (h ∙ omega arith))
    ]

    looked_up_missed : it ≡ 0 → Counted hash c1 (without_key m key) refs
    looked_up_missed z = elim (do_item_get-Held hash m refs false false key c v few) [
      | inl (h, w) ↦ w
      | inr (n, there, live, w) ↦ absurd (n z)
    ]

  -- Where the references are counted, a deletion with a valid line and a key of at most 250 bytes takes
  -- the key out of the map, leaves the references of the others counted and answers "DELETED" if
  -- a lookup gave an item and "NOT_FOUND" if it did not.
  pub process_delete_command-Counted :
      (grown : Bool) (s : Server) (words : List (List ℕ)) (m : Dict) (refs : ℕ → ℕ)
      → Counted hash s.cache m refs
      → Few refs
      → (ltb 3 (length words + 1) && not (delete_is_valid hash s.conn words)) ≡ false
      → ltb key_max_length (length (token words 1)) ≡ false
      → Counted hash
          (process_delete_command hash grown s words).cache
          (without_key m (token words 1))
          refs
        × ((process_delete_command hash grown s words).conn
            ≡ out_string grown
                (if ltb 3 (length words + 1) then set_noreply_maybe s.conn words else s.conn)
                (text (
                  if (item_get hash false s.cache (token words 1) false).1 == 0
                  then "NOT_FOUND"
                  else "DELETED")))
  unfolding process_delete_command item_get_locked item_get
  process_delete_command-Counted grown s words m refs v few valid short =
      let key = token words 1 in
      elim (Bool-cases (it s.cache m refs key v few == 0)) [
        | inl z ↦
            let w = looked_up_missed s.cache m refs key v few (ground arith) in
            let same : c1 s.cache m refs key v few
                ≡ (process_delete_command hash grown s words).cache =
              ground arith in
            (subst (λ (d : Cache). Counted hash d (without_key m key) refs) same w, ground arith)
        | inr z ↦
            let i = it s.cache m refs key v few in
            let w =
              looked_up_unlinked s.cache m refs key v few (λ h. absurd (ground arith)) (hash key)
                refl in
            let d = do_item_remove (do_item_unlink (c1 s.cache m refs key v few) i (hash key)) i in
            let same : d ≡ (process_delete_command hash grown s words).cache = ground arith in
            (subst (λ (d : Cache). Counted hash d (without_key m key) refs) same w, ground arith)
      ]

  module _ (rounds : ℕ) (env : ℕ → Round) where
    -- The map after the end of a storing command.
    abbrev pub after_nread : Bool → Server → Dict → Dict
    after_nread chunks_end s m =
        let k = s.conn in
        let i = s.cache.items k.item in
        let (c1, old) = item_get hash false s.cache i.key false in
        if value_is_valid hash rounds env chunks_end i
        then map_after (accepts hash k.cmd k.set_stale c1 old k.item) m i.key old k.item
        else m

    -- Where the references are counted and the connection holds its new item, which is not linked, the end
    -- of a storing command other than `append` and `prepend` leaves the references counted
    -- with those of the connection's item one less, stores by the command's rule if the
    -- value ends with its line end and changes no map otherwise; the connection has no item then.
    pub complete_nread_ascii-Counted :
        (grown chunks_end : Bool) (s : Server) (m : Dict) (refs : ℕ → ℕ) (n : ℕ)
        → Counted hash s.cache m refs
        → Few refs
        → refs s.conn.item ≡ suc n
        → (s.cache.items s.conn.item).it_flags.linked ≡ false
        → joins s.conn.cmd ≡ false
        → Counted hash
            (complete_nread_ascii hash rounds env grown chunks_end s).cache
            (after_nread chunks_end s m)
            (holders refs s.conn.item n)
          × ((complete_nread_ascii hash rounds env grown chunks_end s).conn.item ≡ 0)
    unfolding complete_nread_ascii item_get item_remove store_item
    complete_nread_ascii-Counted grown chunks_end s m refs n v few e un j =
        let it = s.conn.item in
        let i = s.cache.items it in
        let r =
          do_store_item-Counted hash rounds env s.cache m refs it s.conn.set_stale v (omega arith)
            un few s.conn.cmd j in
        let valid = value_is_valid hash rounds env chunks_end i in
        (
          elim (Bool-cases valid) [
            | inl t ↦
                let stored =
                  (do_store_item hash rounds env s.conn.cmd s.conn.set_stale s.cache it
                    (hash i.key)).cache in
                let (c1, old) = do_item_get false false s.cache i.key (hash i.key) in
                let m1 =
                  map_after (accepts hash s.conn.cmd s.conn.set_stale c1 old it) m i.key old it in
                let w = do_item_remove-Counted hash stored m1 refs it r n e in
                let same_c : do_item_remove stored it
                    ≡ (complete_nread_ascii hash rounds env grown chunks_end s).cache =
                  ground arith in
                let same_m : m1 ≡ after_nread chunks_end s m = ground arith in
                subst
                  (λ (d : Cache). Counted hash d (after_nread chunks_end s m) (holders refs it n))
                  same_c
                  (subst
                    (λ (d : Dict). Counted hash (do_item_remove stored it) d (holders refs it n))
                    same_m w)
            | inr t ↦
                let w = do_item_remove-Counted hash s.cache m refs it v n e in
                let same_c : do_item_remove s.cache it
                    ≡ (complete_nread_ascii hash rounds env grown chunks_end s).cache =
                  ground arith in
                let same_m : m ≡ after_nread chunks_end s m = ground arith in
                subst
                  (λ (d : Cache). Counted hash d (after_nread chunks_end s m) (holders refs it n))
                  same_c
                  (subst
                    (λ (d : Dict). Counted hash (do_item_remove s.cache it) d (holders refs it n))
                    same_m w)
          ],
          refl,
        )

    -- A `set` without memory takes the key out of the map.
    abbrev pub after_refusal : Command → Dict → List ℕ → Dict
    after_refusal set m key = without_key m key
    after_refusal other m key = m

    abbrev dropped : Cache → List ℕ → Cache
    dropped c key =
        let (d, it) = item_get hash false c key false in
        if it == 0 then d else item_remove hash (item_unlink hash d it) it

    dropped-Counted :
        (c : Cache) (m : Dict) (refs : ℕ → ℕ) (key : List ℕ)
        → Counted hash c m refs
        → Few refs
        → Counted hash (dropped c key) (without_key m key) refs
    unfolding item_get item_remove item_unlink
    dropped-Counted c m refs key v few =
        let i = it c m refs key v few in
        let d = c1 c m refs key v few in
        if_either (λ z. Counted hash z (without_key m key) refs) (i == 0) d
          (do_item_remove (do_item_unlink d i (hash (d.items i).key)) i)
          (λ e. looked_up_missed c m refs key v few (ground arith))
          (λ e. elim (do_item_get-Held hash m refs false false key c v few) [
            | inl (z, w) ↦ absurd (ground arith)
            | inr (n, there, live, w) ↦
                let (ek, el, en) = w.entries key (record { key = key; addr = i }) there in
                looked_up_unlinked c m refs key v few n (hash (d.items i).key) (ap hash ek)
          ])

    -- Where the references are counted, the answer to a failed allocation leaves them counted, and
    -- the map without the key if it is `set` or as it was if it is another one. The size of the value
    -- becomes the number of bytes to swallow after the answer; but where no reply is wanted there is
    -- no answer, and the connection reads its next command at once.
    pub refuse_update-Counted :
        (grown : Bool) (s : Server) (key : List ℕ) (flags vlen : ℕ) (comm : Command) (m : Dict)
        (refs : ℕ → ℕ)
        → Counted hash s.cache m refs
        → Few refs
        → let r = refuse_update hash rounds env grown s key flags vlen comm in
          Counted hash r.cache (after_refusal comm m key) refs
          × (r.conn.write_and_go ≡ conn_swallow)
          × (r.conn.sbytes ≡ vlen)
          × (r.conn.state ≡ (if s.conn.noreply then conn_new_cmd else conn_write))
    unfolding refuse_update out_string
    refuse_update-Counted grown s key flags vlen Command.set m refs v few =
        (dropped-Counted s.cache m refs key v few, refl, refl, ground arith)
    refuse_update-Counted grown s key flags vlen Command.add m refs v few =
        (v, refl, refl, ground arith)
    refuse_update-Counted grown s key flags vlen Command.replace m refs v few =
        (v, refl, refl, ground arith)
    refuse_update-Counted grown s key flags vlen Command.append m refs v few =
        (v, refl, refl, ground arith)
    refuse_update-Counted grown s key flags vlen Command.prepend m refs v few =
        (v, refl, refl, ground arith)
    refuse_update-Counted grown s key flags vlen Command.cas m refs v few =
        (v, refl, refl, ground arith)
