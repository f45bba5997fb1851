-- ===== src/Memcached/Lru/Crawl.antt =====
-- The crawler in a queue of memcached-sr/items.c: the pseudo item that walks from the tail to the
-- head.
pub mod Links
pub mod Step
pub mod Walk
use bmc_cache.Base.{ℕ, ◌==◌, if◌then◌else◌}
use bmc_cache.Memcached.Types.{StrItem, Cache, set_at, set_item}
use bmc_cache.Memcached.Lru.{set_prev, set_next}

-- The item is the new tail. Crawlers are not counted.
unfoldable pub do_item_linktail_q : Cache → ℕ → Cache
do_item_linktail_q c it =
    let i = c.items it in
    let id = i.slabs_clsid in
    let tail = c.tails id in
    record c {
      items = set_next (set_at c.items it (record i { prev = tail; next = 0 })) tail it;
      tails = set_at c.tails id it;
      heads = if c.heads id == 0 then set_at c.heads id it else c.heads;
    }

unfoldable pub do_item_unlinktail_q : Cache → ℕ → Cache
do_item_unlinktail_q c it =
    let i = c.items it in
    let id = i.slabs_clsid in
    record c {
      heads = if c.heads id == it then set_at c.heads id i.next else c.heads;
      tails = if c.tails id == it then set_at c.tails id i.prev else c.tails;
      items = set_next (set_prev c.items i.next i.prev) i.prev i.next;
    }

-- At the head: the crawler leaves, if there is another item.
unfoldable pub crawl_off : Cache → ℕ → Cache
crawl_off c it =
    let i = c.items it in
    if i.next == 0
    then c
    else record c { heads = set_at c.heads i.slabs_clsid i.next; items = set_prev c.items i.next 0 }

-- The item in front of the crawler, `p`, gets the neighbour behind it.
unfoldable pub cut_out : (ℕ → StrItem) → ℕ → ℕ → ℕ → StrItem
cut_out m it p =
    let i = m it in if i.next == 0 then set_next m p 0 else set_prev (set_next m p i.next) i.next p

-- The crawler comes in front of `p`.
unfoldable pub swing : (ℕ → StrItem) → ℕ → ℕ → ℕ → StrItem
swing m it p = set_prev (set_at m it (record (m it) { next = p; prev = (m p).prev })) p it

-- Elsewhere: the crawler and the item in front of it change their places.
unfoldable pub crawl_past : Cache → ℕ → Cache
crawl_past c it =
    let i = c.items it in
    let id = i.slabs_clsid in
    let p = i.prev in
    let m = swing (cut_out c.items it p) it p in
    record c {
      heads = if c.heads id == p then set_at c.heads id it else c.heads;
      tails = if c.tails id == it then set_at c.tails id p else c.tails;
      items = set_next m (m it).prev it;
    }

-- The result is the next item to look at; 0 is NULL.
unfoldable pub do_item_crawl_q : Cache → ℕ → Cache × ℕ
do_item_crawl_q c it =
    if (c.items it).prev == 0
    then (crawl_off c it, 0)
    else (let c1 = crawl_past c it in (c1, (c1.items it).next))
