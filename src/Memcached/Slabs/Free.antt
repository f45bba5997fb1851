-- ===== src/Memcached/Slabs/Free.antt =====
-- The free chunks of a class of memcached-sr/slabs.c: a stack.
use bmc_cache.Base.{
  ℕ, ◌+◌, ◌-◌, ◌%◌, ◌^◌, List, [], ◌∷◌, ◌==◌, if◌then◌else◌, ◌≡◌, ◌≢◌, arith, length, refl, sym,
  ◌∙◌, ap,
}
use bmc_cache.Memcached.Types.{Cache}
use bmc_cache.Memcached.Lru.Segment.{Away}
use bmc_cache.Memcached.Lru.Queue.{IsQueue, IsQueue-push, IsQueue-remove, IsQueue-agree, set_if}
use bmc_cache.Memcached.Lru.Sound.{next_of, prev_of, All-of}
use bmc_cache.Memcached.Slabs.{push_slot, pop_slot}

-- The free chunks of class `id` are the list, the next one to be given first.
pub record IsFree (c : Cache) (id : ℕ) (xs : List ℕ) : Type 0 where
  pub last : ℕ
  pub linked : IsQueue (next_of c) (prev_of c) ((c.slabs.slabclass id).slots) last xs
  pub counted : (c.slabs.slabclass id).sl_curr ≡ length xs % 2 ^ 32

module _ (c : Cache) (id it : ℕ) (xs : List ℕ) (f : IsFree c id xs) (nz : it ≢ 0)
    (new : Away it xs) where
  push_slot-next :
      (a : ℕ)
      → next_of (push_slot c id it) a
        ≡ (if a == it then (c.slabs.slabclass id).slots else next_of c a)
  unfolding push_slot
  push_slot-next a = ground arith

  push_slot-prev :
      (a : ℕ)
      → prev_of (push_slot c id it) a
        ≡ set_if (λ b. if b == it then 0 else prev_of c b) ((c.slabs.slabclass id).slots) it a
  unfolding push_slot
  push_slot-prev a = ground arith

  push_slot_fields :
      (((push_slot c id it).slabs.slabclass id).slots ≡ it)
      × (((push_slot c id it).slabs.slabclass id).sl_curr
          ≡ ((c.slabs.slabclass id).sl_curr + 1) % 2 ^ 32)
  unfolding push_slot
  push_slot_fields = ground arith

  -- A chunk that is not NULL and not free yet becomes the first free one of the class.
  pub push_slot-IsFree : IsFree (push_slot c id it) id (it ∷ xs)
  push_slot-IsFree =
      let (e, n) = push_slot_fields in
      let slots = (c.slabs.slabclass id).slots in
      let t : ℕ = if f.last == 0 then it else f.last in
      record {
        last = t;
        linked =
            IsQueue-agree (λ a. if a == it then slots else next_of c a)
              (set_if (λ b. if b == it then 0 else prev_of c b) slots it)
              (next_of (push_slot c id it)) (prev_of (push_slot c id it)) it t
              ((push_slot c id it).slabs.slabclass id).slots t (it ∷ xs)
              (IsQueue-push (next_of c) (prev_of c) slots f.last it xs f.linked nz new)
              (All-of _ (it ∷ xs) (λ a. (push_slot-next a, push_slot-prev a))) e refl;
        counted = let k = f.counted in ground arith;
      }

module _ (c : Cache) (id x : ℕ) (xs : List ℕ) (f : IsFree c id (x ∷ xs)) where
  first-slot : (c.slabs.slabclass id).slots ≡ x
  first-slot = f.linked.linked.0

  first-prev : prev_of c x ≡ 0
  first-prev = f.linked.linked.2

  pop_slot-next : (a : ℕ) → next_of (pop_slot c id).0 a ≡ next_of c a
  unfolding pop_slot
  pop_slot-next a = ground arith

  pop_slot-prev :
      (a : ℕ)
      → prev_of (pop_slot c id).0 a
        ≡ set_if (prev_of c) (next_of c (c.slabs.slabclass id).slots) 0 a
  unfolding pop_slot
  pop_slot-prev a = ground arith

  pop_slot_fields :
      ((pop_slot c id).1 ≡ (c.slabs.slabclass id).slots)
      × (((pop_slot c id).0.slabs.slabclass id).slots ≡ next_of c (c.slabs.slabclass id).slots)
      × (((pop_slot c id).0.slabs.slabclass id).sl_curr
          ≡ ((c.slabs.slabclass id).sl_curr + (2 ^ 32 - 1)) % 2 ^ 32)
  unfolding pop_slot
  pop_slot_fields = ground arith

  -- If there are free chunks, the first one is given, and the others stay, in their order.
  pub pop_slot-IsFree : ((pop_slot c id).1 ≡ x) × IsFree (pop_slot c id).0 id xs
  pop_slot-IsFree =
      let (e, s, n) = pop_slot_fields in
      let nx = next_of c in
      let pv = prev_of c in
      let slots = (c.slabs.slabclass id).slots in
      let head : ℕ = if slots == x then nx x else slots in
      let t : ℕ = if f.last == x then pv x else f.last in
      let fs = first-slot in
      let fp = first-prev in
      let removed = IsQueue-remove nx pv slots f.last x [] xs f.linked in
      (
        e ∙ first-slot,
        record {
          last = t;
          linked =
              IsQueue-agree (set_if nx (pv x) (nx x)) (set_if pv (nx x) (pv x))
                (next_of (pop_slot c id).0) (prev_of (pop_slot c id).0) head t
                ((pop_slot c id).0.slabs.slabclass id).slots t xs removed
                (All-of _ xs (λ a. (
                  pop_slot-next a ∙ ground arith,
                  pop_slot-prev a
                      ∙ ap (λ z. set_if pv z 0 a) (ap nx fs)
                      ∙ ap (λ z. set_if pv (nx x) z a) (sym fp),
                )))
                (ground (arith, ap nx fs)) refl;
          counted = let k = f.counted in ground arith;
        },
      )
