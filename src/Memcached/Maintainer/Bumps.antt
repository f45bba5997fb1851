-- ===== src/Memcached/Maintainer/Bumps.antt =====
-- The queue of bumps of memcached-sr/items.c gives up its references.
use bmc_cache.Base.{ℕ, ◌+◌, List, [], ◌∷◌, ◌==◌, refl, arith}
use bmc_cache.Memcached.Types.{Cache}
use bmc_cache.Memcached.Assoc.Refine.{Dict}
use bmc_cache.Memcached.Items.{do_item_update, do_item_remove}
use bmc_cache.Memcached.Threads.{item_remove}
use bmc_cache.Memcached.Maintainer.{bump_entries, lru_maintainer_bumps}
use bmc_cache.Memcached.Refs.Counted.{one_if, Counted}
use bmc_cache.Memcached.Refs.Steps.{same-Counted, do_item_update-Counted}
use bmc_cache.Memcached.Refs.Released.{times, release_one}

module _ (hash : List ℕ → ℕ) where
  -- How often an item is in the buffers.
  abbrev pub queued : List (List ℕ) → ℕ → ℕ
  queued [] a = 0
  queued (buffer ∷ buffers) a = times hash buffer a + queued buffers a

  bump_entries-Counted :
      (its : List ℕ) (c : Cache) (m : Dict) (refs : ℕ → ℕ)
      → Counted hash c m (λ a. refs a + times hash its a)
      → Counted hash (bump_entries its c) m refs
  unfolding bump_entries item_remove
  bump_entries-Counted [] c m refs v =
      same-Counted hash c m m (λ a. refs a + 0) refs (λ k. refl) (λ a. omega arith) v
  bump_entries-Counted (it ∷ its) c m refs v =
      let with_it : ℕ → ℕ = λ a. refs a + times hash its a + one_if (a == it) in
      let w =
        same-Counted hash c m m (λ a. refs a + times hash (it ∷ its) a) with_it (λ k. refl)
          (λ a. omega arith) v in
      bump_entries-Counted its (do_item_remove (do_item_update c it) it) m refs (
        release_one hash (do_item_update c it) m (λ a. refs a + times hash its a) it
          (do_item_update-Counted hash c m with_it it w))

  -- Where the references are counted for the buffers of bumps and other holders, they are counted for
  -- the others alone after the maintainer has emptied the buffers, for the same map.
  pub lru_maintainer_bumps-Counted :
      (buffers : List (List ℕ)) (c : Cache) (m : Dict) (refs : ℕ → ℕ)
      → Counted hash c m (λ a. refs a + queued buffers a)
      → Counted hash (lru_maintainer_bumps buffers c).0 m refs
  unfolding lru_maintainer_bumps
  lru_maintainer_bumps-Counted [] c m refs v =
      same-Counted hash c m m (λ a. refs a + 0) refs (λ k. refl) (λ a. omega arith) v
  lru_maintainer_bumps-Counted ([] ∷ buffers) c m refs v =
      lru_maintainer_bumps-Counted buffers c m refs (
        same-Counted hash c m m (λ a. refs a + (0 + queued buffers a))
          (λ a. refs a + queued buffers a) (λ k. refl) (λ a. omega arith) v)
  lru_maintainer_bumps-Counted ((it ∷ left) ∷ buffers) c m refs v =
      lru_maintainer_bumps-Counted buffers (bump_entries (it ∷ left) c) m refs (
        bump_entries-Counted (it ∷ left) c m (λ a. refs a + queued buffers a)
          (same-Counted hash c m m (λ a. refs a + queued ((it ∷ left) ∷ buffers) a)
            (λ a. refs a + queued buffers a + times hash (it ∷ left) a) (λ k. refl)
            (λ a. omega arith) v))
