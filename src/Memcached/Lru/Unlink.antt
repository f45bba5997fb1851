-- ===== src/Memcached/Lru/Unlink.antt =====
-- The LRU queues of memcached-sr/items.c as lists of addresses: what unlinking does.
use bmc_cache.Base.{
  ℕ, ◌+◌, ◌-◌, ◌%◌, ◌^◌, List, ◌∷◌, ◌++◌, ◌==◌, if◌then◌else◌, All, length, length-append, ◌≡◌, ◌≢◌,
  ◌⊎◌, inl, inr, sym, ap, subst, ◌∙◌, arith,
}
use bmc_cache.Memcached.Types.{Cache, set_at}
use bmc_cache.Memcached.Lru.{do_item_unlink_q}
use bmc_cache.Memcached.Lru.Segment.{All-map, All-append, All-split}
use bmc_cache.Memcached.Lru.Queue.{
  IsQueue, IsQueue-remove, IsQueue-agree, set_if, IsQueue-neighbours,
}
use bmc_cache.Memcached.Lru.Sound.{
  LruSound, next_of, prev_of, queue_of, InQueue, All-of, set_at-each,
}

-- An item of a queue, taken out.
module _ (c : Cache) (qs : ℕ → List ℕ) (s : LruSound c qs) (it : ℕ) (ys zs : List ℕ)
    (at : qs (queue_of c it) ≡ ys ++ (it ∷ zs)) where
  abbrev id : ℕ
  id = queue_of c it

  abbrev unlinked : Cache
  unlinked = do_item_unlink_q c it

  unlink-next : (a : ℕ) → next_of unlinked a ≡ set_if (next_of c) (prev_of c it) (next_of c it) a
  unfolding do_item_unlink_q
  unlink-next a = ground arith

  unlink-prev : (a : ℕ) → prev_of unlinked a ≡ set_if (prev_of c) (next_of c it) (prev_of c it) a
  unfolding do_item_unlink_q
  unlink-prev a = ground arith

  unlink-queue_of : (a : ℕ) → queue_of unlinked a ≡ queue_of c a
  unfolding do_item_unlink_q
  unlink-queue_of a = ground arith

  unlink-heads :
      (j : ℕ)
      → unlinked.heads j
        ≡ (if j == id then (if c.heads id == it then next_of c it else c.heads id) else c.heads j)
  unfolding do_item_unlink_q
  unlink-heads j = ground arith

  unlink-tails :
      (j : ℕ)
      → unlinked.tails j
        ≡ (if j == id then (if c.tails id == it then prev_of c it else c.tails id) else c.tails j)
  unfolding do_item_unlink_q
  unlink-tails j = ground arith

  unlink-sizes :
      (j : ℕ)
      → unlinked.sizes j ≡ (if j == id then (c.sizes j + (2 ^ 32 - 1)) % 2 ^ 32 else c.sizes j)
  unfolding do_item_unlink_q
  unlink-sizes j = ground arith

  here-queue : IsQueue (next_of c) (prev_of c) (c.heads id) (c.tails id) (ys ++ (it ∷ zs))
  here-queue = subst (IsQueue (next_of c) (prev_of c) (c.heads id) (c.tails id)) at (s.queue id)

  here-placed : All (λ a. queue_of c a ≡ id) (ys ++ (it ∷ zs))
  here-placed = subst (All (λ a. queue_of c a ≡ id)) at (s.placed id)

  unlink-placed :
      (j : ℕ) (xs : List ℕ) → All (λ a. queue_of c a ≡ j) xs → All (λ a. queue_of unlinked a ≡ j) xs
  unlink-placed j xs h =
      All-map (λ a. queue_of c a ≡ j) (λ a. queue_of unlinked a ≡ j) xs
        (λ a h. unlink-queue_of a ∙ h) h

  unlink-queue_here :
      IsQueue
        (next_of unlinked)
        (prev_of unlinked)
        (unlinked.heads id)
        (unlinked.tails id)
        (ys ++ zs)
  unlink-queue_here =
      IsQueue-agree (set_if (next_of c) (prev_of c it) (next_of c it))
        (set_if (prev_of c) (next_of c it) (prev_of c it)) (next_of unlinked) (prev_of unlinked)
        (if c.heads id == it then next_of c it else c.heads id)
        (if c.tails id == it then prev_of c it else c.tails id) (unlinked.heads id)
        (unlinked.tails id) (ys ++ zs)
        (IsQueue-remove (next_of c) (prev_of c) (c.heads id) (c.tails id) it ys zs here-queue)
        (All-of _ (ys ++ zs) (λ a. (unlink-next a, unlink-prev a)))
        (ground (arith, unlink-heads id)) (ground (arith, unlink-tails id))

  unlink-apart :
      (j a : ℕ)
      → j ≢ id
      → queue_of c a ≡ j
      → (next_of unlinked a ≡ next_of c a) × (prev_of unlinked a ≡ prev_of c a)
  unlink-apart j a ne h =
      let apart : (p : ℕ) → InQueue c id p → (p ≡ 0) ⊎ (a ≢ p) =
        λ p q. elim q [ inl e ↦ inl e | inr e ↦ inr (λ g. ne (sym h ∙ ap (queue_of c) g ∙ e)) ] in
      let (n, p) =
        IsQueue-neighbours (next_of c) (prev_of c) (λ x. queue_of c x ≡ id) (c.heads id)
          (c.tails id) it ys zs here-queue here-placed in
      (
        unlink-next a
            ∙ elim (apart (prev_of c it) p) [ inl e ↦ ground arith | inr e ↦ ground arith ],
        unlink-prev a
            ∙ elim (apart (next_of c it) n) [ inl e ↦ ground arith | inr e ↦ ground arith ],
      )

  unlink-queue_other :
      (j : ℕ)
      → j ≢ id
      → IsQueue (next_of unlinked) (prev_of unlinked) (unlinked.heads j) (unlinked.tails j) (qs j)
  unlink-queue_other j ne =
      IsQueue-agree (next_of c) (prev_of c) (next_of unlinked) (prev_of unlinked) (c.heads j)
        (c.tails j) (unlinked.heads j) (unlinked.tails j) (qs j) (s.queue j)
        (All-map (λ a. queue_of c a ≡ j)
          (λ a. (next_of unlinked a ≡ next_of c a) × (prev_of unlinked a ≡ prev_of c a)) (qs j)
          (λ a h. unlink-apart j a ne h) (s.placed j))
        (ground (arith, unlink-heads j)) (ground (arith, unlink-tails j))

  length-here : length (qs id) ≡ length (ys ++ zs) + 1
  length-here =
      let e = ap length at in
      let l = length-append ys (it ∷ zs) in let r = length-append ys zs in omega arith

  -- In well-formed queues, an item of the queue that its `slabs_clsid` names is taken out of it; all
  -- queues are well-formed lists again, both ways, and the others are the same.
  pub do_item_unlink_q-Sound : LruSound unlinked (set_at qs id (ys ++ zs))
  do_item_unlink_q-Sound =
      let (py, pz) = All-split (λ a. queue_of c a ≡ id) ys (it ∷ zs) here-placed in
      record {
        queue =
            set_at-each
              (λ j xs.
                IsQueue (next_of unlinked) (prev_of unlinked) (unlinked.heads j) (unlinked.tails j)
                  xs)
              qs id (ys ++ zs) unlink-queue_here unlink-queue_other;
        placed =
            set_at-each (λ j. All (λ a. queue_of unlinked a ≡ j)) qs id (ys ++ zs)
              (unlink-placed id (ys ++ zs) (All-append (λ a. queue_of c a ≡ id) ys zs py pz.1))
              (λ j ne. unlink-placed j (qs j) (s.placed j));
        sized =
            set_at-each (λ j xs. unlinked.sizes j ≡ length xs % 2 ^ 32) qs id (ys ++ zs)
              (let z = s.sized id in let l = length-here in ground (arith, unlink-sizes id))
              (λ j ne. let z = s.sized j in ground (arith, unlink-sizes j));
      }
