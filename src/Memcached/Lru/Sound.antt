-- ===== src/Memcached/Lru/Sound.antt =====
-- The LRU queues of memcached-sr/items.c as lists of addresses: what linking and unlinking do.
use bmc_cache.Base.{
  ℕ, ◌%◌, ◌^◌, List, [], ◌∷◌, ◌==◌, All, length, ◌≡◌, ◌≢◌, ◌⊎◌, subst, arith, if_either,
}
use bmc_cache.Memcached.Types.{Cache, set_at}
use bmc_cache.Memcached.Lru.Queue.{IsQueue}

abbrev pub next_of : Cache → ℕ → ℕ
next_of c a = (c.items a).next

abbrev pub prev_of : Cache → ℕ → ℕ
prev_of c a = (c.items a).prev

abbrev pub queue_of : Cache → ℕ → ℕ
queue_of c a = (c.items a).slabs_clsid

-- The queues are the lists, head first: every item is in the queue that its `slabs_clsid` names,
-- and the sizes are counted.
pub record LruSound (c : Cache) (qs : ℕ → List ℕ) : Type 0 where
  pub queue : (id : ℕ) → IsQueue (next_of c) (prev_of c) (c.heads id) (c.tails id) (qs id)
  pub placed : (id : ℕ) → All (λ a. queue_of c a ≡ id) (qs id)
  pub sized : (id : ℕ) → c.sizes id ≡ length (qs id) % 2 ^ 32

-- NULL, or an item of the queue.
abbrev pub InQueue : Cache → ℕ → ℕ → Type 0
InQueue c id p = (p ≡ 0) ⊎ (queue_of c p ≡ id)

pub All-of {κ} : (P : ℕ → Type κ) (xs : List ℕ) → ((x : ℕ) → P x) → All P xs
All-of P [] f = tt
All-of P (x ∷ xs) f = (f x, All-of P xs f)

-- One list of a family is another one.
pub set_at-each {κ} :
    (P : ℕ → List ℕ → Type κ) (qs : ℕ → List ℕ) (id : ℕ) (xs : List ℕ)
    → P id xs
    → ((j : ℕ) → j ≢ id → P j (qs j))
    → (j : ℕ) → P j (set_at qs id xs j)
set_at-each P qs id xs here other j =
    if_either (P j) (j == id) xs (qs j)
      (λ e. let same : id ≡ j = ground arith in subst (λ z. P z xs) same here)
      (λ e. other j (λ h. absurd (ground arith)))
