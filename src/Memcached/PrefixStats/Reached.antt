-- ===== src/Memcached/PrefixStats/Reached.antt =====
-- The numbers of memcached-sr/stats.c stay those of its chains.
use bmc_cache.Base.{
  ℕ, ◌%◌, ◌<◌, Bool, true, false, none, some, List, if◌then◌else◌, ◌≡◌, refl, sym, subst, inl, inr,
  arith, Option-cases, if_either,
}
use bmc_cache.Memcached.PrefixStats.{
  PrefixStats, PrefixTable, prefix_hash_size, prefix_of, find_prefix, add_prefix, stats_prefix_init,
  stats_prefix_clear, stats_prefix_find, record_found, count_get, count_delete, count_set,
  stats_prefix_record_get, stats_prefix_record_delete, stats_prefix_record_set,
}
use bmc_cache.Memcached.PrefixStats.Sums.{
  IsSummed, Counts, place-IsSummed, added-IsSummed, stats_prefix_init-IsSummed,
  stats_prefix_clear-IsSummed,
}

module _ (hash : List ℕ → ℕ) (delimiter : ℕ) (allocated : Bool) (f : PrefixStats → PrefixStats)
    (k : Counts f) (t : PrefixTable) (s : IsSummed t) where
  recorded_at :
      (w : List ℕ)
      → IsSummed (
          record_found f (elim (find_prefix w (t.prefix_stats (hash w % prefix_hash_size))) [
            | some n ↦ (t, some (hash w % prefix_hash_size, n))
            | none ↦
                if allocated
                then (
                  add_prefix t (hash w % prefix_hash_size) w,
                  some (hash w % prefix_hash_size, 0),
                )
                else (t, none)
          ]))
  unfolding record_found
  recorded_at w =
      let i = hash w % prefix_hash_size in
      let lt : i < prefix_hash_size = omega arith in
      let added = add_prefix t i w in
      elim (find_prefix w (t.prefix_stats i))
        as (λ o. IsSummed (
          record_found f (elim o [
            | some n ↦ (t, some (i, n))
            | none ↦ if allocated then (added, some (i, 0)) else (t, none)
          ]))) [
            | some n ↦ place-IsSummed f k t i n lt s
            | none ↦
                if_either (λ r. IsSummed (record_found f r)) allocated (added, some (i, 0))
                  (t, none) (λ h. place-IsSummed f k added i 0 lt (added-IsSummed t i w lt s))
                  (λ h. s)
          ]

  record-IsSummed :
      (key : List ℕ) → IsSummed (record_found f (stats_prefix_find hash delimiter allocated t key))
  unfolding record_found stats_prefix_find
  record-IsSummed key = elim (Option-cases (prefix_of delimiter key)) [
    | inl e ↦
        let none_found : t ≡ record_found f (stats_prefix_find hash delimiter allocated t key) =
          ground arith in
        subst IsSummed none_found s
    | inr (w, e) ↦
        subst
          (λ o. IsSummed (
            record_found f (elim o [
              | none ↦ (t, none)
              | some w ↦ elim (find_prefix w (t.prefix_stats (hash w % prefix_hash_size))) [
                | some n ↦ (t, some (hash w % prefix_hash_size, n))
                | none ↦
                    if allocated
                    then (
                      add_prefix t (hash w % prefix_hash_size) w,
                      some (hash w % prefix_hash_size, 0),
                    )
                    else (t, none)
              ]
            ])))
          (sym e) (recorded_at w)
  ]

count_get-Counts : (is_hit : Bool) → Counts (count_get is_hit)
count_get-Counts true pfs = (refl, λ (g, a, d, h). (omega arith, a, d, omega arith))
count_get-Counts false pfs = (refl, λ (g, a, d, h). (omega arith, a, d, h))

count_delete-Counts : Counts count_delete
count_delete-Counts pfs = (refl, λ (g, a, d, h). (g, a, omega arith, h))

count_set-Counts : Counts count_set
count_set-Counts pfs = (refl, λ (g, a, d, h). (g, omega arith, d, h))

-- The states that the operations reach.
pub data Reached (hash : List ℕ → ℕ) (delimiter : ℕ) : PrefixTable → Type 0 where
  initial : Reached hash delimiter stats_prefix_init
  cleared :
      {t : PrefixTable} → Reached hash delimiter t → Reached hash delimiter (stats_prefix_clear t)
  got :
      {t : PrefixTable} (allocated : Bool) (key : List ℕ) (is_hit : Bool)
      → Reached hash delimiter t
      → Reached hash delimiter (stats_prefix_record_get hash delimiter allocated t key is_hit)
  deleted :
      {t : PrefixTable} (allocated : Bool) (key : List ℕ)
      → Reached hash delimiter t
      → Reached hash delimiter (stats_prefix_record_delete hash delimiter allocated t key)
  stored :
      {t : PrefixTable} (allocated : Bool) (key : List ℕ)
      → Reached hash delimiter t
      → Reached hash delimiter (stats_prefix_record_set hash delimiter allocated t key)

pub Reached-IsSummed :
    (hash : List ℕ → ℕ) (delimiter : ℕ) {t : PrefixTable} → Reached hash delimiter t → IsSummed t
unfolding stats_prefix_record_get stats_prefix_record_delete stats_prefix_record_set
Reached-IsSummed hash delimiter initial = stats_prefix_init-IsSummed
Reached-IsSummed hash delimiter (cleared {t} r) =
    stats_prefix_clear-IsSummed t (Reached-IsSummed hash delimiter r)
Reached-IsSummed hash delimiter (got {t} allocated key is_hit r) =
    record-IsSummed hash delimiter allocated (count_get is_hit) (count_get-Counts is_hit) t
      (Reached-IsSummed hash delimiter r) key
Reached-IsSummed hash delimiter (deleted {t} allocated key r) =
    record-IsSummed hash delimiter allocated count_delete count_delete-Counts t
      (Reached-IsSummed hash delimiter r) key
Reached-IsSummed hash delimiter (stored {t} allocated key r) =
    record-IsSummed hash delimiter allocated count_set count_set-Counts t
      (Reached-IsSummed hash delimiter r) key
