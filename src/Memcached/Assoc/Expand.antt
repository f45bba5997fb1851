-- ===== src/Memcached/Assoc/Expand.antt =====
-- The expansion of memcached-sr/assoc.c: nothing is lost and nothing is found that was not there.
use bmc_cache.Base.{
  ℕ, ◌+◌, ◌-◌, ◌%◌, ◌≤◌, ◌<◌, Bool, true, false, Option, none, some, List, [], ◌==◌, if◌then◌else◌,
  ◌≡◌, ◌≢◌, ◌⊎◌, inl, inr, refl, sym, ap, Bool-cases, arith,
}
use native.Mathlib.Nat.{mod-lt}
use bmc_cache.Memcached.Assoc.{
  Item, Table, find_chain, hashsize, in_old, chain_of, assoc_find, assoc_expand, move_chain,
  move_bucket,
}
use bmc_cache.Memcached.Assoc.Chain.{
  Distinct, or_else, find_chain-nil, find_chain-move, find_chain-move_none, find_chain-move_other,
  move_chain-Distinct,
}
use bmc_cache.Memcached.Assoc.Sound.{Sound}

module _ (hash : List ℕ → ℕ) (t : Table) (s : Sound hash t) where
  module _ (ex : t.expanding ≡ false) where
    pub assoc_find-assoc_expand :
        (allocated : Bool) (k : List ℕ)
        → assoc_find (assoc_expand allocated t) k (hash k) ≡ assoc_find t k (hash k)
    unfolding assoc_expand assoc_find chain_of in_old
    assoc_find-assoc_expand true k =
        let e : t.hashpower + 1 - 1 ≡ t.hashpower = omega arith in ground (arith, ap hashsize e)
    assoc_find-assoc_expand false k = ground arith

    pub assoc_expand-Sound : (allocated : Bool) → Sound hash (assoc_expand allocated t)
    unfolding assoc_expand
    assoc_expand-Sound true =
        let e : t.hashpower + 1 - 1 ≡ t.hashpower = omega arith in
        record {
          distinct_new = λ b. tt;
          distinct_old = s.distinct_new;
          placed_new = λ k b ne. find_chain-nil k;
          placed_old = λ k b h ne. s.placed_new k b (rw e at ne);
          settled = λ k b h le. find_chain-nil k;
        }
    assoc_expand-Sound false = record {
      distinct_new = s.distinct_new;
      distinct_old = s.distinct_new;
      placed_new = s.placed_new;
      placed_old = λ k b h ne. absurd (ground arith);
      settled = s.settled;
    }

  module _ (ex : t.expanding ≡ true) where
    abbrev moved_table : ℕ → List Item
    moved_table = move_chain hash t.hashpower (t.old_hashtable t.expand_bucket) t.primary_hashtable

    -- The keys of the bucket that moves are those of its number.
    moves-cases :
        (k : List ℕ)
        → (hash k % hashsize (t.hashpower - 1) ≡ t.expand_bucket)
          ⊎ (find_chain k (t.old_hashtable t.expand_bucket) ≡ none)
    moves-cases k = elim (Bool-cases (hash k % hashsize (t.hashpower - 1) == t.expand_bucket)) [
      | inl e ↦ inl (ground arith)
      | inr e ↦ inr (s.placed_old k t.expand_bucket ex (λ h. absurd (ground arith)))
    ]

    moved_table-Disjoint :
        (k : List ℕ) (b : ℕ)
        → (find_chain k (t.old_hashtable t.expand_bucket) ≡ none)
          ⊎ (find_chain k (t.primary_hashtable b) ≡ none)
    moved_table-Disjoint k b = elim (moves-cases k) [
      | inl e ↦ inr (s.settled k b ex (omega arith))
      | inr e ↦ inl e
    ]

    or_else-none : (o : Option Item) → or_else o none ≡ o
    or_else-none none = refl
    or_else-none (some a) = refl

    moved_table-found :
        (k : List ℕ)
        → find_chain k (moved_table (hash k % hashsize t.hashpower)) ≡ (
            if hash k % hashsize (t.hashpower - 1) == t.expand_bucket
            then find_chain k (t.old_hashtable t.expand_bucket)
            else find_chain k (t.primary_hashtable (hash k % hashsize t.hashpower)))
    moved_table-found k =
        let chain = t.old_hashtable t.expand_bucket in
        let b = hash k % hashsize t.hashpower in
        let m =
          find_chain-move hash t.hashpower k chain t.primary_hashtable
            (s.distinct_old t.expand_bucket) in
        let n = or_else-none (find_chain k chain) in
        elim (Bool-cases (hash k % hashsize (t.hashpower - 1) == t.expand_bucket)) [
          | inl e ↦ let st = s.settled k b ex (ground arith) in ground arith
          | inr e ↦
              let pl = s.placed_old k t.expand_bucket ex (λ h. absurd (ground arith)) in
              ground arith
        ]

    -- The last bucket is the last one that a hash has.
    below :
        (k : List ℕ)
        → t.expand_bucket + 1 ≡ hashsize (t.hashpower - 1)
        → hash k % hashsize (t.hashpower - 1) < t.expand_bucket + 1
    below k e = rw (sym e) (mod-lt (hash k) {m = t.expand_bucket + 1} (omega arith))

    pub assoc_find-move_bucket :
        (k : List ℕ) → assoc_find (move_bucket hash t) k (hash k) ≡ assoc_find t k (hash k)
    unfolding move_bucket assoc_find chain_of in_old
    assoc_find-move_bucket k =
        let m = moved_table-found k in
        elim (Bool-cases (t.expand_bucket + 1 == hashsize (t.hashpower - 1))) [
          | inl e ↦ let b = below k (ground arith) in ground arith
          | inr e ↦ ground arith
        ]

    move_bucket-Distinct_new : (b : ℕ) → Distinct ((move_bucket hash t).primary_hashtable b)
    unfolding move_bucket
    move_bucket-Distinct_new b =
        let d =
          move_chain-Distinct hash t.hashpower (t.old_hashtable t.expand_bucket) t.primary_hashtable
            (s.distinct_old t.expand_bucket) moved_table-Disjoint s.distinct_new b in
        ground arith

    move_bucket-Distinct_old : (b : ℕ) → Distinct ((move_bucket hash t).old_hashtable b)
    unfolding move_bucket
    move_bucket-Distinct_old b =
        let d = s.distinct_old b in let n : Distinct [] = tt in ground arith

    move_bucket-placed_new :
        (k : List ℕ) (b : ℕ)
        → hash k % hashsize t.hashpower ≢ b
        → find_chain k ((move_bucket hash t).primary_hashtable b) ≡ none
    unfolding move_bucket
    move_bucket-placed_new k b ne =
        let m =
          find_chain-move_other hash t.hashpower k (t.old_hashtable t.expand_bucket)
            t.primary_hashtable b ne in
        let p = s.placed_new k b ne in ground arith

    move_bucket-placed_old :
        (k : List ℕ) (b : ℕ)
        → hash k % hashsize (t.hashpower - 1) ≢ b
        → find_chain k ((move_bucket hash t).old_hashtable b) ≡ none
    unfolding move_bucket
    move_bucket-placed_old k b ne =
        let p = s.placed_old k b ex ne in let n = find_chain-nil k in ground arith

    move_bucket-settled :
        (k : List ℕ) (b : ℕ)
        → t.expand_bucket + 1 ≤ hash k % hashsize (t.hashpower - 1)
        → find_chain k ((move_bucket hash t).primary_hashtable b) ≡ none
    unfolding move_bucket
    move_bucket-settled k b le =
        let p = s.placed_old k t.expand_bucket ex (λ h. absurd (omega arith)) in
        let m =
          find_chain-move_none hash t.hashpower k (t.old_hashtable t.expand_bucket)
            t.primary_hashtable b p in
        let q = s.settled k b ex (omega arith) in ground arith

    move_bucket_fields :
        ((move_bucket hash t).hashpower ≡ t.hashpower)
        × ((move_bucket hash t).expand_bucket ≡ t.expand_bucket + 1)
    unfolding move_bucket
    move_bucket_fields = ground arith

    pub move_bucket-Sound : Sound hash (move_bucket hash t)
    move_bucket-Sound =
        let (hp, eb) = move_bucket_fields in
        record {
          distinct_new = move_bucket-Distinct_new;
          distinct_old = move_bucket-Distinct_old;
          placed_new = rw hp move_bucket-placed_new;
          placed_old = λ k b h ne. move_bucket-placed_old k b (rw hp at ne);
          settled = λ k b h le. move_bucket-settled k b (rw (hp, eb) at le);
        }
