-- ===== src/Memcached/PrefixStats/Sums.antt =====
-- The numbers that memcached-sr/stats.c keeps of its chains.
use bmc_cache.Base.{
  ℕ, zero, suc, ◌+◌, ◌^◌, ◌<◌, ◌≤◌, some, List, [], ◌∷◌, ◌==◌, ltb, if◌then◌else◌, length, All, ◌≡◌,
  ◌≢◌, refl, sym, ap, subst, ◌∙◌, inl, inr, arith, Bool-cases,
}
use bmc_cache.Memcached.Types.{set_at}
use bmc_cache.Memcached.PrefixStats.{
  PrefixStats, PrefixTable, prefix_hash_size, int, new_prefix, add_prefix, stats_prefix_init,
  stats_prefix_clear, at_place, record_found,
}

plus_zero : (n : ℕ) → n + 0 ≡ n
plus_zero n = omega arith

-- The sum over the chains from `i` on.
abbrev pub sum_from : (List PrefixStats → ℕ) → ℕ → ℕ → (ℕ → List PrefixStats) → ℕ
sum_from v zero i chains = 0
sum_from v (suc left) i chains = v (chains i) + sum_from v left (i + 1) chains

abbrev pub bytes : List PrefixStats → ℕ
bytes [] = 0
bytes (pfs ∷ next) = length pfs.prefix + bytes next

-- Counters of 64 bits.
abbrev pub Fits : PrefixStats → Type 0
Fits pfs =
    (pfs.num_gets < 2 ^ 64)
    × (pfs.num_sets < 2 ^ 64)
    × (pfs.num_deletes < 2 ^ 64)
    × (pfs.num_hits < 2 ^ 64)

-- The numbers are those of the chains, as far as an `int` holds them.
pub record IsSummed (t : PrefixTable) : Type 0 where
  pub num : t.num_prefixes ≡ int (sum_from length prefix_hash_size 0 t.prefix_stats)
  pub total : t.total_prefix_size ≡ int (sum_from bytes prefix_hash_size 0 t.prefix_stats)
  pub fits : (i : ℕ) → All Fits (t.prefix_stats i)

module _ (v : List PrefixStats → ℕ) (chains : ℕ → List PrefixStats) (j : ℕ)
    (chain : List PrefixStats) where
  sum_from-before :
      (left i : ℕ) → j < i → sum_from v left i (set_at chains j chain) ≡ sum_from v left i chains
  sum_from-before zero i lt = refl
  sum_from-before (suc left) i lt =
      let ih = sum_from-before left (i + 1) (omega arith) in
      let same : set_at chains j chain i ≡ chains i = ground arith in
      let e = ap v same in omega arith

  -- Another chain changes the sum by what it has more.
  sum_from-set_at :
      (d left i : ℕ)
      → i ≤ j
      → j < i + left
      → v chain ≡ v (chains j) + d
      → sum_from v left i (set_at chains j chain) ≡ sum_from v left i chains + d
  sum_from-set_at d zero i le lt e = absurd (omega arith)
  sum_from-set_at d (suc left) i le lt e = elim (Bool-cases (i == j)) [
    | inl h ↦
        let q : i ≡ j = ground arith in
        let same : set_at chains j chain i ≡ chain = ground arith in
        let here = ap v same in
        let at = ap (λ k. v (chains k)) q in
        let rest = sum_from-before left (i + 1) (omega arith) in omega arith
    | inr h ↦
        let ne : i ≢ j = λ z. absurd (ground arith) in
        let same : set_at chains j chain i ≡ chains i = ground arith in
        let here = ap v same in
        let ih = sum_from-set_at d left (i + 1) (ground arith) (omega arith) e in omega arith
  ]

sum_from-none :
    (v : List PrefixStats → ℕ) (chains : ℕ → List PrefixStats) (left i : ℕ)
    → v [] ≡ 0
    → ((k : ℕ) → k < i + left → chains k ≡ [])
    → sum_from v left i chains ≡ 0
sum_from-none v chains zero i e f = refl
sum_from-none v chains (suc left) i e f =
    let here = ap v (f i (omega arith)) in
    let rest = sum_from-none v chains left (i + 1) e (λ k lt. f k (omega arith)) in omega arith

pub stats_prefix_init-IsSummed : IsSummed stats_prefix_init
unfolding stats_prefix_init
stats_prefix_init-IsSummed = record {
  num = ap int (sym (sum_from-none length (λ i. []) prefix_hash_size 0 refl (λ k lt. refl)));
  total = ap int (sym (sum_from-none bytes (λ i. []) prefix_hash_size 0 refl (λ k lt. refl)));
  fits = λ i. tt;
}

pub stats_prefix_clear-IsSummed : (t : PrefixTable) → IsSummed t → IsSummed (stats_prefix_clear t)
unfolding stats_prefix_clear
stats_prefix_clear-IsSummed t s =
    let chains : ℕ → List PrefixStats =
      λ i. if ltb i prefix_hash_size then [] else t.prefix_stats i in
    let none_left : (k : ℕ) → k < 0 + prefix_hash_size → chains k ≡ [] = λ k lt. ground arith in
    record {
      num = ap int (sym (sum_from-none length chains prefix_hash_size 0 refl none_left));
      total = ap int (sym (sum_from-none bytes chains prefix_hash_size 0 refl none_left));
      fits = λ i. elim (Bool-cases (ltb i prefix_hash_size)) [
        | inl h ↦ let e : [] ≡ chains i = ground arith in subst (All Fits) e tt
        | inr h ↦
            let e : t.prefix_stats i ≡ chains i = ground arith in subst (All Fits) e (s.fits i)
      ];
    }

-- A write keeps the prefix, and the counters within 64 bits.
abbrev pub Counts : (PrefixStats → PrefixStats) → Type 0
Counts f = (pfs : PrefixStats) → ((f pfs).prefix ≡ pfs.prefix) × (Fits pfs → Fits (f pfs))

module _ (f : PrefixStats → PrefixStats) (k : Counts f) where
  at_place-sums :
      (chain : List PrefixStats) (n : ℕ)
      → (length (at_place n f chain) ≡ length chain)
        × (bytes (at_place n f chain) ≡ bytes chain)
        × (All Fits chain → All Fits (at_place n f chain))
  unfolding at_place
  at_place-sums [] n = (refl, refl, λ a. a)
  at_place-sums (pfs ∷ next) zero =
      (refl, ap (λ p. length p + bytes next) (k pfs).0, λ a. ((k pfs).1 a.0, a.1))
  at_place-sums (pfs ∷ next) (suc n) =
      let (l, b, a) = at_place-sums next n in
      (ap suc l, ap (λ z. length pfs.prefix + z) b, λ h. (h.0, a h.1))

  -- A write to a structure of a chain.
  pub place-IsSummed :
      (t : PrefixTable) (i n : ℕ)
      → i < prefix_hash_size
      → IsSummed t
      → IsSummed (record_found f (t, some (i, n)))
  unfolding record_found
  place-IsSummed t i n lt s =
      let chain = at_place n f (t.prefix_stats i) in
      let (l, b, a) = at_place-sums (t.prefix_stats i) n in
      let el =
        sum_from-set_at length t.prefix_stats i chain 0 prefix_hash_size 0 (omega arith)
          (omega arith) (l ∙ omega arith) in
      let eb =
        sum_from-set_at bytes t.prefix_stats i chain 0 prefix_hash_size 0 (omega arith)
          (omega arith) (b ∙ omega arith) in
      let sn = s.num in
      let st = s.total in
      record {
        num =
            sn ∙ ap int (sym (el ∙ plus_zero (sum_from length prefix_hash_size 0 t.prefix_stats)));
        total =
            st ∙ ap int (sym (eb ∙ plus_zero (sum_from bytes prefix_hash_size 0 t.prefix_stats)));
        fits = λ j. elim (Bool-cases (j == i)) [
          | inl h ↦
              let e : chain ≡ set_at t.prefix_stats i chain j = ground arith in
              subst (All Fits) e (a (s.fits i))
          | inr h ↦
              let e : t.prefix_stats j ≡ set_at t.prefix_stats i chain j = ground arith in
              subst (All Fits) e (s.fits j)
        ];
      }

pub added-IsSummed :
    (t : PrefixTable) (i : ℕ) (w : List ℕ)
    → i < prefix_hash_size
    → IsSummed t
    → IsSummed (add_prefix t i w)
added-IsSummed t i w lt s =
    let chain = new_prefix w ∷ t.prefix_stats i in
    let el =
      sum_from-set_at length t.prefix_stats i chain 1 prefix_hash_size 0 (omega arith) (omega arith)
        (omega arith) in
    let eb =
      sum_from-set_at bytes t.prefix_stats i chain (length w) prefix_hash_size 0 (omega arith)
        (omega arith) (omega arith) in
    let sn = s.num in
    let st = s.total in
    record {
      num = ground arith;
      total = ground arith;
      fits = λ j. elim (Bool-cases (j == i)) [
        | inl h ↦
            let e : chain ≡ set_at t.prefix_stats i chain j = ground arith in
            subst (All Fits) e ((omega arith, omega arith, omega arith, omega arith), s.fits i)
        | inr h ↦
            let e : t.prefix_stats j ≡ set_at t.prefix_stats i chain j = ground arith in
            subst (All Fits) e (s.fits j)
      ];
    }
