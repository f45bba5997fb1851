-- ===== src/Memcached/Assoc/Sound.antt =====
-- The invariant of the table of memcached-sr/assoc.c, and the change of one chain.
use bmc_cache.Base.{
  ℕ, ◌-◌, ◌%◌, ◌≤◌, true, false, none, List, if◌then◌else◌, ◌≡◌, ◌≢◌, inl, inr, ap, arith,
}
use bmc_cache.Memcached.Assoc.{
  Item, Table, same_key, find_chain, hashsize, in_old, chain_of, set_chain, assoc_find,
}
use bmc_cache.Memcached.Assoc.Chain.{Distinct, same_key-cases, same_key_eq}

module _ (hash : List ℕ → ℕ) where
  -- Chains have no doubles, keys are in the buckets of their hashes, and while the table expands,
  -- the new buckets have no key that is to come from the old ones.
  pub record Sound (t : Table) : Type 0 where
    pub distinct_new : (b : ℕ) → Distinct (t.primary_hashtable b)
    pub distinct_old : (b : ℕ) → Distinct (t.old_hashtable b)
    pub placed_new :
        (k : List ℕ) (b : ℕ)
        → hash k % hashsize t.hashpower ≢ b
        → find_chain k (t.primary_hashtable b) ≡ none
    pub placed_old :
        (k : List ℕ) (b : ℕ)
        → t.expanding ≡ true
        → hash k % hashsize (t.hashpower - 1) ≢ b
        → find_chain k (t.old_hashtable b) ≡ none
    pub settled :
        (k : List ℕ) (b : ℕ)
        → t.expanding ≡ true
        → t.expand_bucket ≤ hash k % hashsize (t.hashpower - 1)
        → find_chain k (t.primary_hashtable b) ≡ none

  module _ (t : Table) (key : List ℕ) (chain : List Item) where
    -- The new chain differs in one key only.
    abbrev pub Changes : Type 0
    Changes =
        (k : List ℕ)
        → same_key k key ≡ false
        → find_chain k chain ≡ find_chain k (chain_of t (hash key))

    set_chain-same : chain_of (set_chain t (hash key) chain) (hash key) ≡ chain
    unfolding chain_of set_chain in_old
    set_chain-same = ground arith

    set_chain-other :
        Changes
        → (k : List ℕ) → same_key k key ≡ false
        → find_chain k (chain_of (set_chain t (hash key) chain) (hash k))
          ≡ find_chain k (chain_of t (hash k))
    unfolding chain_of set_chain in_old
    set_chain-other h k e = let eq = h k e in ground arith

    pub assoc_find-set_chain :
        Changes
        → (k : List ℕ)
        → assoc_find (set_chain t (hash key) chain) k (hash k)
          ≡ (if same_key k key then find_chain k chain else assoc_find t k (hash k))
    unfolding assoc_find
    assoc_find-set_chain h k = elim (same_key-cases k key) [
      | inl e ↦
          let s = same_key_eq k key e in
          let hk : hash k ≡ hash key = ap hash e in
          let c = ap (find_chain k) (set_chain-same) in ground arith
      | inr e ↦ let o = set_chain-other h k e in ground arith
    ]

    set_chain-placed_new :
        Changes
        → Sound t
        → (k : List ℕ) (b : ℕ) → hash k % hashsize t.hashpower ≢ b
        → find_chain k ((set_chain t (hash key) chain).primary_hashtable b) ≡ none
    unfolding chain_of set_chain in_old
    set_chain-placed_new h s k b ne =
        let old = s.placed_new k b ne in
        elim (same_key-cases k key) [
          | inl e ↦ let hk : hash k ≡ hash key = ap hash e in ground arith
          | inr e ↦ let eq = h k e in ground arith
        ]

    set_chain-placed_old :
        Changes
        → Sound t
        → (k : List ℕ) (b : ℕ) → t.expanding ≡ true
        → hash k % hashsize (t.hashpower - 1) ≢ b
        → find_chain k ((set_chain t (hash key) chain).old_hashtable b) ≡ none
    unfolding chain_of set_chain in_old
    set_chain-placed_old h s k b ex ne =
        let old = s.placed_old k b ex ne in
        elim (same_key-cases k key) [
          | inl e ↦ let hk : hash k ≡ hash key = ap hash e in ground arith
          | inr e ↦ let eq = h k e in ground arith
        ]

    set_chain-settled :
        Changes
        → Sound t
        → (k : List ℕ) (b : ℕ) → t.expanding ≡ true
        → t.expand_bucket ≤ hash k % hashsize (t.hashpower - 1)
        → find_chain k ((set_chain t (hash key) chain).primary_hashtable b) ≡ none
    unfolding chain_of set_chain in_old
    set_chain-settled h s k b ex le =
        let old = s.settled k b ex le in
        elim (same_key-cases k key) [
          | inl e ↦ let hk : hash k ≡ hash key = ap hash e in ground arith
          | inr e ↦ let eq = h k e in ground arith
        ]

    set_chain-Distinct_new :
        Distinct chain
        → Sound t
        → (b : ℕ) → Distinct ((set_chain t (hash key) chain).primary_hashtable b)
    unfolding chain_of set_chain in_old
    set_chain-Distinct_new d s b = let old = s.distinct_new b in ground arith

    set_chain-Distinct_old :
        Distinct chain
        → Sound t
        → (b : ℕ) → Distinct ((set_chain t (hash key) chain).old_hashtable b)
    unfolding chain_of set_chain in_old
    set_chain-Distinct_old d s b = let old = s.distinct_old b in ground arith

    set_chain_fields :
        ((set_chain t (hash key) chain).hashpower ≡ t.hashpower)
        × ((set_chain t (hash key) chain).expanding ≡ t.expanding)
        × ((set_chain t (hash key) chain).expand_bucket ≡ t.expand_bucket)
    unfolding set_chain
    set_chain_fields = ground arith

    pub set_chain-Sound : Changes → Distinct chain → Sound t → Sound (set_chain t (hash key) chain)
    set_chain-Sound h d s =
        let (hp, ex, eb) = set_chain_fields in
        record {
          distinct_new = set_chain-Distinct_new d s;
          distinct_old = set_chain-Distinct_old d s;
          placed_new = rw hp (set_chain-placed_new h s);
          placed_old = rw (hp, ex) (set_chain-placed_old h s);
          settled = rw (hp, ex, eb) (set_chain-settled h s);
        }
