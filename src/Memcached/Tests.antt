-- ===== src/Memcached/Tests.antt =====
-- Small tables and statistics of memcached-sr, and the properties at them.
use bmc_cache.Base.{
  from_list, ℕ, ◌*◌, ◌/◌, Bool, true, false, none, some, List, [], ◌∷◌, ltb, ◌==◌, if◌then◌else◌,
  ◌≡◌, ◌↔◌, refl, arith,
}
use bmc_cache.Memcached.Assoc.{
  Item, Table, same_key, assoc_init, assoc_find, assoc_insert, assoc_delete, assoc_expand, maintain,
  bulk_move, move_bucket, move_chain, set_chain, chain_of, in_old, find_chain,
}
use bmc_cache.Memcached.Samples.{sum_bytes}
use bmc_cache.Memcached.Assoc.Refine.{started, inserted, maintained, Reach-assoc_find}
use bmc_cache.Memcached.Tokens.{tokenize_command, scan_line, add_token}
use bmc_cache.Memcached.Automove.{
  ItemStatsAutomove, SlabStatsAutomove, SlabAutomove, slab_automove_run, scan_classes, class_sum,
  window_sum, mark_window, has_free_pages, pick_oldest, pick_youngest, reclaim, decide,
}
use bmc_cache.Memcached.Automove.Decision.{Decision, slab_automove_run-Decision}

abbrev item_a : Item
item_a = record { key = 97 ∷ []; addr = 1 }

abbrev item_b : Item
item_b = record { key = 98 ∷ 99 ∷ []; addr = 2 }

abbrev two_items : Table
two_items = assoc_insert (assoc_insert (assoc_init 1) item_a 97) item_b 197

-- The table was doubled and the first of its two old buckets moved.
abbrev half_moved : Table
half_moved = maintain sum_bytes (true ∷ []) false false (maintain sum_bytes [] true true two_items)

half_moved-find : assoc_find half_moved (98 ∷ 99 ∷ []) 197 ≡ some item_b
unfolding same_key assoc_init assoc_find assoc_insert assoc_expand maintain bulk_move move_bucket
    move_chain set_chain chain_of in_old find_chain
half_moved-find = refl

Reach-assoc_find_example :
    (assoc_find half_moved (98 ∷ 99 ∷ []) 197 ≡ some item_b)
    × ((assoc_delete half_moved (98 ∷ 99 ∷ []) 197 ≡ none) ↔ (some item_b ≡ none))
unfolding same_key
Reach-assoc_find_example =
    Reach-assoc_find sum_bytes
      (maintained (true ∷ []) false false
        (maintained [] true true (inserted item_b (inserted item_a (started 1) refl) refl)))
      (98 ∷ 99 ∷ [])

-- Class 3 evicts at age 10, class 5 is of age 1000; windows of one round.
abbrev ages : ℕ → ItemStatsAutomove
ages n = record {
  evicted = if n == 3 then 7 else 0;
  outofmemory = 0;
  age = if n == 3 then 10 else if n == 5 then 1000 else 0;
}

abbrev no_ages : ℕ → ItemStatsAutomove
no_ages n = record { evicted = 0; outofmemory = 0; age = 0 }

abbrev five_pages : ℕ → SlabStatsAutomove
five_pages n = record { chunks_per_page = 10; free_chunks = 20; total_pages = 5 }

abbrev two_rounds : SlabAutomove
two_rounds = record {
  window_data = λ i. record {
    age = if i / 2 == 3 then 10 else if i / 2 == 5 then 1000 else 0;
    dirty = 1;
    evicted = if i / 2 == 3 then 2 else 0;
  };
  window_size = 2;
  window_cur = 6;
  iam_before = no_ages;
  sam_before = five_pages;
}

-- The ratio is 0.8.
abbrev below_ratio : ℕ → ℕ → Bool
below_ratio y o = ltb (y * 5) (o * 4)

below_ratio_irreflexive : (n : ℕ) → below_ratio n n ≡ false
below_ratio_irreflexive n = ground arith

slab_automove_run_moves :
    (slab_automove_run below_ratio two_rounds ages five_pages).1 ≡ (some 5, some 3)
unfolding slab_automove_run scan_classes class_sum window_sum mark_window has_free_pages pick_oldest
    pick_youngest reclaim decide
slab_automove_run_moves = refl

slab_automove_run-Decision_example :
    Decision two_rounds five_pages (slab_automove_run below_ratio two_rounds ages five_pages).1
slab_automove_run-Decision_example =
    slab_automove_run-Decision below_ratio below_ratio_irreflexive two_rounds ages five_pages

-- "get  ab c"
abbrev get_line : List ℕ
get_line = b'g' ∷ b'e' ∷ b't' ∷ b' ' ∷ b' ' ∷ b'a' ∷ b'b' ∷ b' ' ∷ b'c' ∷ []

get_line-tokens :
    (tokenize_command (from_list get_line) 0 9 8).1
    ≡ record { value = 0; length = 3 }
      ∷ record { value = 5; length = 2 }
      ∷ record { value = 8; length = 1 }
      ∷ []
unfolding tokenize_command scan_line add_token
get_line-tokens = refl
