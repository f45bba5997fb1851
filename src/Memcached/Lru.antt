-- ===== src/Memcached/Lru.antt =====
-- The LRU queues of memcached-sr/items.c, as lists that are linked both ways.
pub mod Segment
pub mod Queue
pub mod Sound
pub mod Link
pub mod Unlink
pub mod Crawl
use bmc_cache.Base.{ℕ, ◌+◌, ◌-◌, ◌%◌, ◌^◌, ◌==◌, if◌then◌else◌}
use bmc_cache.Memcached.Types.{StrItem, Cache, set_at, set_item, item_ntotal}

-- Counters of 32 and 64 bits.
abbrev pub add64 : ℕ → ℕ → ℕ
add64 a b = (a + b) % 2 ^ 64

abbrev pub sub64 : ℕ → ℕ → ℕ
sub64 a b = (a + (2 ^ 64 - b % 2 ^ 64)) % 2 ^ 64

-- `if (p) p->prev = v`
abbrev pub set_prev : (ℕ → StrItem) → ℕ → ℕ → ℕ → StrItem
set_prev m p v = if p == 0 then m else set_at m p (record (m p) { prev = v })

abbrev pub set_next : (ℕ → StrItem) → ℕ → ℕ → ℕ → StrItem
set_next m p v = if p == 0 then m else set_at m p (record (m p) { next = v })

unfoldable pub do_item_link_q : Cache → ℕ → Cache
do_item_link_q c it =
    let id = (c.items it).slabs_clsid in
    let head = c.heads id in
    let m1 = set_at c.items it (record (c.items it) { prev = 0; next = head }) in
    record c {
      items = set_prev m1 head it;
      heads = set_at c.heads id it;
      tails = if c.tails id == 0 then set_at c.tails id it else c.tails;
      sizes = set_at c.sizes id ((c.sizes id + 1) % 2 ^ 32);
      sizes_bytes = set_at c.sizes_bytes id (add64 (c.sizes_bytes id) (item_ntotal (c.items it)));
    }

unfoldable pub do_item_unlink_q : Cache → ℕ → Cache
do_item_unlink_q c it =
    let i = c.items it in
    let id = i.slabs_clsid in
    record c {
      heads = if c.heads id == it then set_at c.heads id i.next else c.heads;
      tails = if c.tails id == it then set_at c.tails id i.prev else c.tails;
      items = set_next (set_prev c.items i.next i.prev) i.prev i.next;
      sizes = set_at c.sizes id ((c.sizes id + (2 ^ 32 - 1)) % 2 ^ 32);
      sizes_bytes = set_at c.sizes_bytes id (sub64 (c.sizes_bytes id) (item_ntotal i));
    }
