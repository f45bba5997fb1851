-- ===== src/Memcached/Alloc/Size.antt =====
-- The size that an item of memcached-sr/items.c is allocated for is the size that it is freed by.
use bmc_cache.Base.{ℕ, ◌+◌, ◌<◌, Bool, false, List, if◌then◌else◌, ◌≡◌, length, arith}
use bmc_cache.Memcached.Types.{Cache, item_ntotal, item_clsid}
use bmc_cache.Memcached.Items.{item_make_header}
use bmc_cache.Memcached.Alloc.{fill_item, first_lru}

-- A new chunk, without flags or with the one of a chunked item only, gets as an item the total size
-- that it was allocated for, and the class of that size below 64, whatever queue it begins in.
pub fill_item-item_ntotal :
    (c : Cache) (it id hdr_id : ℕ) (key : List ℕ) (flags exptime nbytes : ℕ) (chunked : Bool)
    → (c.items it).it_flags.has_cas ≡ false
    → (c.items it).it_flags.has_cflags ≡ false
    → id < 64
    → (item_ntotal ((fill_item c it id hdr_id key flags exptime nbytes chunked).items it)
        ≡ item_make_header (length key + 1) flags nbytes + (if c.settings.use_cas then 8 else 0))
      × (item_clsid ((fill_item c it id hdr_id key flags exptime nbytes chunked).items it) ≡ id)
unfolding fill_item item_ntotal item_make_header first_lru
fill_item-item_ntotal c it id hdr_id key flags exptime nbytes chunked h g lt =
    (ground arith, ground arith)
