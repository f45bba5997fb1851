-- ===== src/Memcached/Lru/Crawl/Links.antt =====
-- The links that the assignments of `do_item_crawl_q` of memcached-sr/items.c make.
use bmc_cache.Base.{ℕ, ◌==◌, if◌then◌else◌, ◌≡◌, ◌≢◌, fun_ext, ap, ◌∙◌, arith}
use bmc_cache.Memcached.Types.{StrItem, Cache}
use bmc_cache.Memcached.Lru.{set_next}
use bmc_cache.Memcached.Lru.Segment.{set_link}
use bmc_cache.Memcached.Lru.Queue.{set_if}
use bmc_cache.Memcached.Lru.Sound.{next_of, prev_of, queue_of}
use bmc_cache.Memcached.Lru.Crawl.{do_item_crawl_q, crawl_past, cut_out, swing}

-- The links after each of the four assignments, by those before.
module _ (nx pv : ℕ → ℕ) (it p : ℕ) where
  abbrev pub nx_cut : ℕ → ℕ
  nx_cut = set_if nx p (nx it)

  abbrev pub pv_cut : ℕ → ℕ
  pv_cut = set_if pv (nx it) p

  abbrev pub pv_swung : ℕ → ℕ
  pv_swung = set_if (set_link pv_cut it (pv_cut p)) p it

  abbrev pub nx_swung : ℕ → ℕ
  nx_swung = set_if (set_link nx_cut it p) (pv_swung it) it

  module _ (zp : p ≢ 0) (apart : p ≢ it) (behind : nx it ≢ p) where
    pv_swung-it : pv_swung it ≡ pv p
    pv_swung-it = ground arith

    pub pv_swung-by :
        (a : ℕ) → pv_swung a ≡ (if a == it then pv p else if a == p then it else pv_cut a)
    pv_swung-by a = ground arith

    pub nx_swung-by :
        pv p ≢ it
        → pv p ≢ p
        → (a : ℕ)
        → nx_swung a ≡ (if a == it then p else if a == p then nx it else set_if nx (pv p) it a)
    nx_swung-by f g a = ap (λ k. set_if (set_link nx_cut it p) k it a) pv_swung-it ∙ ground arith

module _ (m : ℕ → StrItem) (it p a : ℕ) where
  cut_out-next : (cut_out m it p a).next ≡ nx_cut (λ b. (m b).next) (λ b. (m b).prev) it p a
  unfolding cut_out
  cut_out-next = ground arith

  cut_out-prev : (cut_out m it p a).prev ≡ pv_cut (λ b. (m b).next) (λ b. (m b).prev) it p a
  unfolding cut_out
  cut_out-prev = ground arith

  swing-next : (swing m it p a).next ≡ set_link (λ b. (m b).next) it p a
  unfolding swing
  swing-next = ground arith

  swing-prev : (swing m it p a).prev ≡ set_if (set_link (λ b. (m b).prev) it (m p).prev) p it a
  unfolding swing
  swing-prev = ground arith

  set_next-next : (set_next m p it a).next ≡ set_if (λ b. (m b).next) p it a
  set_next-next = ground arith

  set_next-prev : (set_next m p it a).prev ≡ (m a).prev
  set_next-prev = ground arith

pub past-prev_swung :
    (c : Cache) (it a : ℕ)
    → prev_of (crawl_past c it) a ≡ pv_swung (next_of c) (prev_of c) it (prev_of c it) a
unfolding crawl_past
past-prev_swung c it a =
    let p = prev_of c it in
    let m1 = cut_out c.items it p in
    let m = swing m1 it p in
    let e : (λ b. (m1 b).prev) ≡ pv_cut (next_of c) (prev_of c) it p =
      fun_ext (λ b. cut_out-prev c.items it p b) in
    set_next-prev m it ((m it).prev) a
    ∙ swing-prev m1 it p a
    ∙ ap (λ (f : ℕ → ℕ). set_if (set_link f it (f p)) p it a) e

pub past-next_swung :
    (c : Cache) (it a : ℕ)
    → next_of (crawl_past c it) a ≡ nx_swung (next_of c) (prev_of c) it (prev_of c it) a
unfolding crawl_past
past-next_swung c it a =
    let p = prev_of c it in
    let m1 = cut_out c.items it p in
    let m = swing m1 it p in
    let e : (λ b. (m1 b).next) ≡ nx_cut (next_of c) (prev_of c) it p =
      fun_ext (λ b. cut_out-next c.items it p b) in
    let f : (λ b. (m1 b).prev) ≡ pv_cut (next_of c) (prev_of c) it p =
      fun_ext (λ b. cut_out-prev c.items it p b) in
    let g : (λ b. (m b).next) ≡ set_link (nx_cut (next_of c) (prev_of c) it p) it p =
      fun_ext (λ b. swing-next m1 it p b) ∙ ap (λ (z : ℕ → ℕ). set_link z it p) e in
    let k : (m it).prev ≡ pv_swung (next_of c) (prev_of c) it p it =
      swing-prev m1 it p it ∙ ap (λ (z : ℕ → ℕ). set_if (set_link z it (z p)) p it it) f in
    set_next-next m it ((m it).prev) a
    ∙ ap (λ (z : ℕ → ℕ). set_if z (m it).prev it a) g
    ∙ ap (λ j. set_if (set_link (nx_cut (next_of c) (prev_of c) it p) it p) j it a) k

pub past_ends_swung :
    (c : Cache) (it : ℕ)
    → ((crawl_past c it).heads (queue_of c it)
        ≡ (if c.heads (queue_of c it) == prev_of c it then it else c.heads (queue_of c it)))
      × ((crawl_past c it).tails (queue_of c it)
          ≡ (if c.tails (queue_of c it) == it then prev_of c it else c.tails (queue_of c it)))
unfolding crawl_past
past_ends_swung c it = (ground arith, ground arith)

pub do_item_crawl_q-past :
    (c : Cache) (it : ℕ)
    → prev_of c it ≢ 0
    → do_item_crawl_q c it ≡ (crawl_past c it, next_of (crawl_past c it) it)
unfolding do_item_crawl_q
do_item_crawl_q-past c it ne = ground arith
