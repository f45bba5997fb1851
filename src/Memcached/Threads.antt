-- ===== src/Memcached/Threads.antt =====
-- The operations of memcached-sr/thread.c that take the lock of a key for a call of
-- memcached-sr/items.c. A call is one step of the state; calls under different locks are taken in
-- an order.
use bmc_cache.Base.{ℕ, Bool, List, Option}
use bmc_cache.Memcached.Types.{StrItem, Cache}
use bmc_cache.Memcached.Items.{
  do_item_get, do_item_touch, do_item_link, do_item_unlink, do_item_remove, do_item_replace,
}
use bmc_cache.Memcached.Alloc.{Round, do_item_alloc}
use bmc_cache.Memcached.StoreItem.{Command, Stored, do_store_item, DeltaResult, do_add_delta}

module _ (hash : List ℕ → ℕ) where
  unfoldable pub item_get : Bool → Cache → List ℕ → Bool → Cache × ℕ
  item_get queued c key do_update = do_item_get queued do_update c key (hash key)

  -- The last result is the hash, whose lock stays taken.
  unfoldable pub item_get_locked : Bool → Cache → List ℕ → Bool → Cache × ℕ × ℕ
  item_get_locked queued c key do_update =
      let (c1, it) = do_item_get queued do_update c key (hash key) in (c1, it, hash key)

  unfoldable pub item_touch : Bool → Cache → List ℕ → ℕ → Cache × ℕ
  item_touch queued c key exptime = do_item_touch queued c key exptime (hash key)

  unfoldable pub item_link : Cache → ℕ → Cache
  item_link c it = do_item_link c it (hash (c.items it).key)

  -- The hash only chooses the lock.
  unfoldable pub item_remove : Cache → ℕ → Cache
  item_remove c it = do_item_remove c it

  unfoldable pub item_replace : Cache → ℕ → ℕ → ℕ → Cache
  item_replace c old_it new_it hv = do_item_replace c old_it new_it hv

  unfoldable pub item_unlink : Cache → ℕ → Cache
  item_unlink c it = do_item_unlink c it (hash (c.items it).key)

  module _ (rounds : ℕ) (env : ℕ → Round) where
    unfoldable pub item_alloc : Cache → List ℕ → ℕ → ℕ → ℕ → Cache × ℕ
    item_alloc c key flags exptime nbytes = do_item_alloc hash rounds env c key flags exptime nbytes

    -- `parse` and `print` are as for `do_add_delta`.
    unfoldable pub add_delta :
        (StrItem → Option ℕ)
        → (ℕ → List ℕ)
        → Cache
        → List ℕ
        → Bool
        → ℕ
        → ℕ
        → Cache × DeltaResult × ℕ
    add_delta parse print c key incr delta expected =
        do_add_delta hash rounds env parse print c key incr delta expected (hash key)

    unfoldable pub store_item : Cache → ℕ → Command → Bool → Stored
    store_item c it comm set_stale =
        do_store_item hash rounds env comm set_stale c it (hash (c.items it).key)
