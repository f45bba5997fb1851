-- ===== src/Memcached/Commands/Release.antt =====
-- The items that a connection of memcached-sr/memcached.c holds. The suffixes that it gives back to their
-- cache are not modelled.
use bmc_cache.Base.{ℕ, List, [], ◌∷◌, ◌==◌, if◌then◌else◌}
use bmc_cache.Memcached.Types.{Cache}
use bmc_cache.Memcached.Threads.{item_remove}
use bmc_cache.Memcached.Commands.{Conn}

module _ (hash : List ℕ → ℕ) where
  -- The loop over the items that are left.
  unfoldable pub release_items : Cache → List ℕ → Cache
  release_items c [] = c
  release_items c (it ∷ left) = release_items (item_remove hash c it) left

  unfoldable pub conn_release_items : Cache → Conn → Cache × Conn
  conn_release_items c k =
      let c1 = if k.item == 0 then c else item_remove hash c k.item in
      (release_items c1 k.ilist, record k { item = 0; ilist = [] })
