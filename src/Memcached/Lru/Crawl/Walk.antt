-- ===== src/Memcached/Lru/Crawl/Walk.antt =====
-- The walk of the crawler to the head of a queue of memcached-sr/items.c.
use bmc_cache.Base.{
  if_either, ℕ, zero, suc, ◌==◌, List, [], ◌∷◌, ◌++◌, length, ◌≡◌, refl, sym, ap, subst, ◌∙◌, arith,
}
use mathlib.Core.List.{append_assoc}
use bmc_cache.Memcached.Types.{StrItem, Cache, set_at}
use bmc_cache.Memcached.Lru.{set_prev, set_next}
use bmc_cache.Memcached.Lru.Queue.{IsQueue}
use bmc_cache.Memcached.Lru.Sound.{next_of, prev_of, queue_of}
use bmc_cache.Memcached.Lru.Crawl.{do_item_crawl_q, crawl_past, crawl_off, cut_out, swing}
use bmc_cache.Memcached.Lru.Crawl.Step.{do_item_crawl_q-IsQueue}

-- The state after so many steps of the crawler.
unfoldable pub crawl_times : ℕ → Cache → ℕ → Cache
crawl_times zero c it = c
crawl_times (suc n) c it = crawl_times n (do_item_crawl_q c it).0 it

set_prev-queue : (m : ℕ → StrItem) (p v a : ℕ) → (set_prev m p v a).slabs_clsid ≡ (m a).slabs_clsid
set_prev-queue m p v a = ground arith

set_next-queue : (m : ℕ → StrItem) (p v a : ℕ) → (set_next m p v a).slabs_clsid ≡ (m a).slabs_clsid
set_next-queue m p v a = ground arith

cut_out-queue : (m : ℕ → StrItem) (it p a : ℕ) → (cut_out m it p a).slabs_clsid ≡ (m a).slabs_clsid
unfolding cut_out
cut_out-queue m it p a = ground arith

swing-queue : (m : ℕ → StrItem) (it p a : ℕ) → (swing m it p a).slabs_clsid ≡ (m a).slabs_clsid
unfolding swing
swing-queue m it p a = ground arith

crawl_past-queue : (c : Cache) (it a : ℕ) → queue_of (crawl_past c it) a ≡ queue_of c a
unfolding crawl_past
crawl_past-queue c it a =
    let p = prev_of c it in
    let m1 = cut_out c.items it p in
    let m = swing m1 it p in
    set_next-queue m ((m it).prev) it a ∙ swing-queue m1 it p a ∙ cut_out-queue c.items it p a

crawl_off-queue : (c : Cache) (it a : ℕ) → queue_of (crawl_off c it) a ≡ queue_of c a
unfolding crawl_off
crawl_off-queue c it a =
    if_either (λ (z : Cache). queue_of z a ≡ queue_of c a) (next_of c it == 0) c
      (record c {
        heads = set_at c.heads (queue_of c it) (next_of c it);
        items = set_prev c.items (next_of c it) 0;
      })
      (λ e. refl) (λ e. set_prev-queue c.items (next_of c it) 0 a)

do_item_crawl_q-queue : (c : Cache) (it a : ℕ) → queue_of (do_item_crawl_q c it).0 a ≡ queue_of c a
unfolding do_item_crawl_q
do_item_crawl_q-queue c it a =
    if_either (λ (z : Cache × ℕ). queue_of z.0 a ≡ queue_of c a) (prev_of c it == 0)
      (crawl_off c it, 0) (crawl_past c it, next_of (crawl_past c it) it)
      (λ e. crawl_off-queue c it a) (λ e. crawl_past-queue c it a)

at_head : (c : Cache) (it : ℕ) → prev_of c it ≡ 0 → (do_item_crawl_q c it).1 ≡ 0
unfolding do_item_crawl_q
at_head c it e = ground arith

-- A list that is not empty has a last element.
last_split :
    (n : ℕ) (ys : List ℕ)
    → length ys ≡ suc n
    → (xs : List ℕ) × (x : ℕ) × (ys ≡ xs ++ (x ∷ [])) × (length xs ≡ n)
last_split n [] e = absurd (omega arith)
last_split zero (y ∷ []) e = ([], y, refl, refl)
last_split (suc n) (y ∷ []) e = absurd (omega arith)
last_split zero (y ∷ z ∷ zs) e = absurd (omega arith)
last_split (suc n) (y ∷ z ∷ zs) e =
    let (xs, x, f, l) = last_split n (z ∷ zs) (omega arith) in
    (y ∷ xs, x, ap (λ w. y ∷ w) f, ap suc l)

-- In a well-formed queue, after as many steps as there are items in front of the crawler, the next
-- step gives NULL, so that the walk ends, where nothing else changes the queue.
pub crawl_times-ends :
    (n : ℕ) (c : Cache) (it : ℕ) (ys zs : List ℕ)
    → IsQueue
        (next_of c)
        (prev_of c)
        (c.heads (queue_of c it))
        (c.tails (queue_of c it))
        (ys ++ (it ∷ zs))
    → length ys ≡ n
    → (do_item_crawl_q (crawl_times n c it) it).1 ≡ 0
unfolding crawl_times
crawl_times-ends zero c it [] zs q e = at_head c it q.linked.2
crawl_times-ends zero c it (y ∷ ys) zs q e = absurd (omega arith)
crawl_times-ends (suc n) c it ys zs q e =
    let (xs, x, f, l) = last_split n ys e in
    let id = queue_of c it in
    let d = (do_item_crawl_q c it).0 in
    let whole : ys ++ (it ∷ zs) ≡ xs ++ (x ∷ it ∷ zs) =
      ap (λ w. w ++ (it ∷ zs)) f ∙ append_assoc xs (x ∷ []) (it ∷ zs) in
    let q' = subst (IsQueue (next_of c) (prev_of c) (c.heads id) (c.tails id)) whole q in
    let (r, s) = do_item_crawl_q-IsQueue c it x xs zs q' in
    let same : queue_of d it ≡ id = do_item_crawl_q-queue c it it in
    crawl_times-ends n d it xs (x ∷ zs)
      (subst (λ j. IsQueue (next_of d) (prev_of d) (d.heads j) (d.tails j) (xs ++ (it ∷ x ∷ zs)))
        (sym same) s)
      l
