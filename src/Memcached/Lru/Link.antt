-- ===== src/Memcached/Lru/Link.antt =====
-- The LRU queues of memcached-sr/items.c as lists of addresses: what linking does.
use bmc_cache.Base.{
  ℕ, ◌+◌, ◌%◌, ◌^◌, List, [], ◌∷◌, ◌==◌, if◌then◌else◌, All, length, ◌≡◌, ◌≢◌, ◌⊎◌, inl, inr, sym,
  ap, ◌∙◌, arith,
}
use bmc_cache.Memcached.Types.{Cache, set_at}
use bmc_cache.Memcached.Lru.{do_item_link_q}
use bmc_cache.Memcached.Lru.Segment.{Segment, Away, All-map, set_link}
use bmc_cache.Memcached.Lru.Queue.{IsQueue, IsQueue-push, IsQueue-agree, set_if}
use bmc_cache.Memcached.Lru.Sound.{
  LruSound, next_of, prev_of, queue_of, InQueue, All-of, set_at-each,
}

module _ (c : Cache) (qs : ℕ → List ℕ) (s : LruSound c qs) where
  heads-InQueue : (id : ℕ) → InQueue c id (c.heads id)
  heads-InQueue id = go (qs id) ((s.queue id).linked) (s.placed id)
    where
      go :
          (xs : List ℕ)
          → Segment (next_of c) (prev_of c) (c.heads id) 0 xs 0 (c.tails id)
          → All (λ a. queue_of c a ≡ id) xs
          → InQueue c id (c.heads id)
      go [] (e, f) h = inl e
      go (x ∷ xs) (e, z, b, r) h = inr (ap (queue_of c) e ∙ h.0)

  module _ (it : ℕ) where
    abbrev id : ℕ
    id = queue_of c it

    link-next : (a : ℕ) → next_of (do_item_link_q c it) a ≡ set_link (next_of c) it (c.heads id) a
    unfolding do_item_link_q
    link-next a = ground arith

    link-prev :
        (a : ℕ)
        → prev_of (do_item_link_q c it) a ≡ set_if (set_link (prev_of c) it 0) (c.heads id) it a
    unfolding do_item_link_q
    link-prev a = ground arith

    link-queue_of : (a : ℕ) → queue_of (do_item_link_q c it) a ≡ queue_of c a
    unfolding do_item_link_q
    link-queue_of a = ground arith

    link-heads : (j : ℕ) → (do_item_link_q c it).heads j ≡ (if j == id then it else c.heads j)
    unfolding do_item_link_q
    link-heads j = ground arith

    link-tails :
        (j : ℕ)
        → (do_item_link_q c it).tails j
          ≡ (if j == id then (if c.tails id == 0 then it else c.tails id) else c.tails j)
    unfolding do_item_link_q
    link-tails j = ground arith

    link-sizes :
        (j : ℕ)
        → (do_item_link_q c it).sizes j ≡ (if j == id then (c.sizes j + 1) % 2 ^ 32 else c.sizes j)
    unfolding do_item_link_q
    link-sizes j = ground arith

    link-placed : (j : ℕ) → All (λ a. queue_of (do_item_link_q c it) a ≡ j) (qs j)
    link-placed j =
        All-map (λ a. queue_of c a ≡ j) (λ a. queue_of (do_item_link_q c it) a ≡ j) (qs j)
          (λ a h. link-queue_of a ∙ h) (s.placed j)

    module _ (nz : it ≢ 0) (new : Away it (qs id)) where
      abbrev linked : Cache
      linked = do_item_link_q c it

      link-queue_here :
          IsQueue (next_of linked) (prev_of linked) (linked.heads id) (linked.tails id) (it ∷ qs id)
      link-queue_here =
          IsQueue-agree (set_link (next_of c) it (c.heads id))
            (set_if (set_link (prev_of c) it 0) (c.heads id) it) (next_of linked) (prev_of linked)
            it (if c.tails id == 0 then it else c.tails id) (linked.heads id) (linked.tails id)
            (it ∷ qs id)
            (IsQueue-push (next_of c) (prev_of c) (c.heads id) (c.tails id) it (qs id) (s.queue id)
              nz new)
            (All-of _ (it ∷ qs id) (λ a. (link-next a, link-prev a)))
            (ground (arith, link-heads id)) (ground (arith, link-tails id))

      link-apart :
          (j a : ℕ)
          → j ≢ id
          → queue_of c a ≡ j
          → (next_of linked a ≡ next_of c a) × (prev_of linked a ≡ prev_of c a)
      link-apart j a ne h =
          let nit : a ≢ it = λ e. ne (sym h ∙ ap (queue_of c) e) in
          let head_apart : (c.heads id ≡ 0) ⊎ (a ≢ c.heads id) = elim (heads-InQueue id) [
            | inl e ↦ inl e
            | inr e ↦ inr (λ g. ne (sym h ∙ ap (queue_of c) g ∙ e))
          ] in
          (
            link-next a ∙ ground arith,
            link-prev a ∙ elim head_apart [ inl e ↦ ground arith | inr e ↦ ground arith ],
          )

      link-queue_other :
          (j : ℕ)
          → j ≢ id
          → IsQueue (next_of linked) (prev_of linked) (linked.heads j) (linked.tails j) (qs j)
      link-queue_other j ne =
          IsQueue-agree (next_of c) (prev_of c) (next_of linked) (prev_of linked) (c.heads j)
            (c.tails j) (linked.heads j) (linked.tails j) (qs j) (s.queue j)
            (All-map (λ a. queue_of c a ≡ j)
              (λ a. (next_of linked a ≡ next_of c a) × (prev_of linked a ≡ prev_of c a)) (qs j)
              (λ a h. link-apart j a ne h) (s.placed j))
            (ground (arith, link-heads j)) (ground (arith, link-tails j))

      -- In well-formed queues, an item that is not NULL and is not in the queue that its `slabs_clsid`
      -- names becomes the head of this queue; all queues are well-formed lists again, both ways,
      -- and the others are the same.
      pub do_item_link_q-Sound : LruSound linked (set_at qs id (it ∷ qs id))
      do_item_link_q-Sound = record {
        queue =
            set_at-each
              (λ j xs.
                IsQueue (next_of linked) (prev_of linked) (linked.heads j) (linked.tails j) xs)
              qs id (it ∷ qs id) link-queue_here link-queue_other;
        placed =
            set_at-each (λ j. All (λ a. queue_of linked a ≡ j)) qs id (it ∷ qs id)
              (link-queue_of it, link-placed id) (λ j ne. link-placed j);
        sized =
            set_at-each (λ j xs. linked.sizes j ≡ length xs % 2 ^ 32) qs id (it ∷ qs id)
              (let z = s.sized id in ground (arith, link-sizes id))
              (λ j ne. let z = s.sized j in ground (arith, link-sizes j));
      }
