-- ===== src/Memcached/LruTests.antt =====
-- Queues and free chunks of memcached-sr, and the properties at them.
use bmc_cache.Base.{ℕ, ◌+◌, ◌<◌, ◌≤◌, false, List, [], ◌∷◌, ◌≡◌, ◌⊎◌, refl, arith}
use bmc_cache.Memcached.Types.{Cache, set_at, item_ntotal, item_clsid}
use bmc_cache.Memcached.Samples.{two_classes, empty_cache}
use bmc_cache.Memcached.Lru.{do_item_link_q, do_item_unlink_q}
use bmc_cache.Memcached.Lru.Queue.{IsQueue}
use bmc_cache.Memcached.Lru.Sound.{LruSound, next_of, prev_of}
use bmc_cache.Memcached.Lru.Crawl.{do_item_crawl_q}
use bmc_cache.Memcached.Lru.Crawl.Walk.{crawl_times, crawl_times-ends}
use bmc_cache.Memcached.Lru.Crawl.Step.{do_item_crawl_q-IsQueue}
use bmc_cache.Memcached.Lru.Link.{do_item_link_q-Sound}
use bmc_cache.Memcached.Lru.Unlink.{do_item_unlink_q-Sound}
use bmc_cache.Memcached.Slabs.{slabs_clsid, push_slot, pop_slot, split_slab_page_into_freelist}
use bmc_cache.Memcached.Slabs.Classes.{FirstFit, slabs_clsid-FirstFit}
use bmc_cache.Memcached.Slabs.Free.{IsFree, push_slot-IsFree, pop_slot-IsFree}
use bmc_cache.Memcached.Slabs.Page.{chunks, split_slab_page-IsFree}
use bmc_cache.Memcached.Items.{item_make_header}
use bmc_cache.Memcached.Alloc.{fill_item}
use bmc_cache.Memcached.Alloc.Size.{fill_item-item_ntotal}

abbrev no_queues : ℕ → List ℕ
no_queues j = []

empty_cache-LruSound : LruSound empty_cache no_queues
empty_cache-LruSound = record {
  queue = λ j. record { no_doubles = tt; linked = (refl, refl) };
  placed = λ j. tt;
  sized = λ j. refl;
}

abbrev one_linked : Cache
one_linked = do_item_link_q empty_cache 500

one_linked-LruSound : LruSound one_linked (set_at no_queues 0 (500 ∷ []))
one_linked-LruSound =
    do_item_link_q-Sound empty_cache no_queues empty_cache-LruSound 500 (λ e. absurd (ground arith))
      tt

two_linked-LruSound :
    LruSound
      (do_item_link_q one_linked 700)
      (set_at (set_at no_queues 0 (500 ∷ [])) 0 (700 ∷ 500 ∷ []))
unfolding do_item_link_q
two_linked-LruSound =
    do_item_link_q-Sound one_linked (set_at no_queues 0 (500 ∷ [])) one_linked-LruSound 700
      (λ e. absurd (ground arith)) ((λ e. absurd (ground arith)), tt)

do_item_link_q-Sound_example :
    LruSound
      (do_item_link_q one_linked 700)
      (set_at (set_at no_queues 0 (500 ∷ [])) 0 (700 ∷ 500 ∷ []))
unfolding do_item_link_q
do_item_link_q-Sound_example =
    do_item_link_q-Sound one_linked (set_at no_queues 0 (500 ∷ [])) one_linked-LruSound 700
      (λ e. absurd (ground arith)) ((λ e. absurd (ground arith)), tt)

do_item_unlink_q-Sound_example :
    LruSound
      (do_item_unlink_q (do_item_link_q one_linked 700) 500)
      (set_at (set_at (set_at no_queues 0 (500 ∷ [])) 0 (700 ∷ 500 ∷ [])) 0 (700 ∷ []))
unfolding do_item_link_q
do_item_unlink_q-Sound_example =
    do_item_unlink_q-Sound (do_item_link_q one_linked 700)
      (set_at (set_at no_queues 0 (500 ∷ [])) 0 (700 ∷ 500 ∷ [])) two_linked-LruSound 500 (700 ∷ [])
      [] refl

abbrev size_a : ℕ
size_a = 100

slabs_clsid-FirstFit_example :
    (((size_a ≡ 0) ⊎ (1048576 < size_a)) × (slabs_clsid empty_cache size_a ≡ 0))
    ⊎ ((0 < size_a)
        × (size_a ≤ 1048576)
        × FirstFit two_classes size_a 1 2 (slabs_clsid empty_cache size_a))
slabs_clsid-FirstFit_example = slabs_clsid-FirstFit empty_cache size_a (omega arith)

empty_cache-IsFree : IsFree empty_cache 1 []
empty_cache-IsFree = record {
  last = 0;
  linked = record { no_doubles = tt; linked = (refl, refl) };
  counted = refl;
}

abbrev one_free : Cache
one_free = push_slot empty_cache 1 500

push_slot-IsFree_example : IsFree one_free 1 (500 ∷ [])
push_slot-IsFree_example =
    push_slot-IsFree empty_cache 1 500 [] empty_cache-IsFree (λ e. absurd (ground arith)) tt

both-IsFree : IsFree (push_slot one_free 1 600) 1 (600 ∷ 500 ∷ [])
both-IsFree =
    push_slot-IsFree one_free 1 600 (500 ∷ [])
      (push_slot-IsFree empty_cache 1 500 [] empty_cache-IsFree (λ e. absurd (ground arith)) tt)
      (λ e. absurd (ground arith)) ((λ e. absurd (ground arith)), tt)

pop_slot-IsFree_test :
    ((pop_slot (push_slot one_free 1 600) 1).1 ≡ 600)
    × IsFree (pop_slot (push_slot one_free 1 600) 1).0 1 (500 ∷ [])
pop_slot-IsFree_test = pop_slot-IsFree (push_slot one_free 1 600) 1 600 (500 ∷ []) both-IsFree

split_slab_page-IsFree_example :
    IsFree (split_slab_page_into_freelist 3 empty_cache 4096 1) 1 (chunks 96 3 4096 [])
split_slab_page-IsFree_example = split_slab_page-IsFree 3 empty_cache 4096 1 96 [] (record {
  lower = omega arith;
  upper = omega arith;
  class_size = refl;
  positive = omega arith;
  not_null = omega arith;
  outside = tt;
  plain = λ a l h. refl;
  free = empty_cache-IsFree;
})

fill_item-item_ntotal_test :
    (item_ntotal ((fill_item empty_cache 500 1 0 (97 ∷ []) 7 0 5 false).items 500)
      ≡ item_make_header 2 7 5 + 8)
    × (item_clsid ((fill_item empty_cache 500 1 0 (97 ∷ []) 7 0 5 false).items 500) ≡ 1)
fill_item-item_ntotal_test =
    fill_item-item_ntotal empty_cache 500 1 0 (97 ∷ []) 7 0 5 false refl refl (omega arith)

do_item_crawl_q-IsQueue_test :
    ((do_item_crawl_q (do_item_link_q one_linked 700) 500).1 ≡ 700)
    × IsQueue
        (next_of (do_item_crawl_q (do_item_link_q one_linked 700) 500).0)
        (prev_of (do_item_crawl_q (do_item_link_q one_linked 700) 500).0)
        ((do_item_crawl_q (do_item_link_q one_linked 700) 500).0.heads 0)
        ((do_item_crawl_q (do_item_link_q one_linked 700) 500).0.tails 0)
        (500 ∷ 700 ∷ [])
unfolding do_item_link_q
do_item_crawl_q-IsQueue_test =
    do_item_crawl_q-IsQueue (do_item_link_q one_linked 700) 500 700 [] []
      (two_linked-LruSound.queue 0)

crawl_times-ends_example :
    (do_item_crawl_q (crawl_times 1 (do_item_link_q one_linked 700) 500) 500).1 ≡ 0
unfolding do_item_link_q
crawl_times-ends_example =
    crawl_times-ends 1 (do_item_link_q one_linked 700) 500 (700 ∷ []) []
      (two_linked-LruSound.queue 0) refl
