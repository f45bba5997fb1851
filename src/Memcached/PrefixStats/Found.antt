-- ===== src/Memcached/PrefixStats/Found.antt =====
-- What a record of memcached-sr/stats.c counts.
use bmc_cache.Base.{ℕ, ◌%◌, Option, none, some, List, [], ◌∷◌, if◌then◌else◌, ◌≡◌, ◌≢◌}
use bmc_cache.Memcached.PrefixStats.{
  PrefixStats, PrefixTable, prefix_hash_size, prefix_of, starts_with, new_prefix, add_prefix,
}

-- The structure that stands for a prefix in its chain: the first one whose prefix begins with it.
unfoldable pub first_match : List ℕ → List PrefixStats → Option PrefixStats
first_match w [] = none
first_match w (pfs ∷ next) = if starts_with pfs.prefix w then some pfs else first_match w next

abbrev pub KeepsPrefix : (PrefixStats → PrefixStats) → Type 0
KeepsPrefix f = (pfs : PrefixStats) → (f pfs).prefix ≡ pfs.prefix

abbrev pub or_new : List ℕ → Option PrefixStats → PrefixStats
or_new w none = new_prefix w
or_new w (some pfs) = pfs

-- The structure of the prefix is as `f` makes it of the one before, or of a new one, and the other
-- chains are as they were.
abbrev pub Recorded :
    (List ℕ → ℕ) → (PrefixStats → PrefixStats) → List ℕ → PrefixTable → PrefixTable → Type 0
Recorded hash f w t t' =
    let i = hash w % prefix_hash_size in
    (first_match w (t'.prefix_stats i) ≡ some (f (or_new w (first_match w (t.prefix_stats i)))))
    × ((j : ℕ) → j ≢ i → t'.prefix_stats j ≡ t.prefix_stats j)

module _ (hash : List ℕ → ℕ) (delimiter : ℕ) (t : PrefixTable) (key w : List ℕ)
    (e : prefix_of delimiter key ≡ some w) where
  abbrev i : ℕ
  i = hash w % prefix_hash_size

  abbrev chain : List PrefixStats
  chain = t.prefix_stats i

  abbrev added : PrefixTable
  added = add_prefix t i w
