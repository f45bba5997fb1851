-- ===== src/Memcached/Automove/Decision.antt =====
-- What slab_automove_run of memcached-sr/slab_automove.c may decide.
use bmc_cache.Base.{
  ℕ, zero, suc, ◌+◌, ◌*◌, ◌%◌, ◌^◌, ◌≤◌, ◌<◌, Bool, true, false, ◌&&◌, Option, none, some, ltb,
  ◌==◌, ◌≡◌, ◌≢◌, inl, inr, refl, sym, ◌∙◌, subst, ap, if_either, Bool-cases, Option-cases, arith,
}
use bmc_cache.Memcached.Automove.{
  WindowData, ItemStatsAutomove, SlabStatsAutomove, SlabAutomove, Pick, min_pages_for_source,
  max_number_of_slab_classes, mark_window, has_free_pages, class_sum, pick_oldest, pick_youngest,
  scan_classes, start_pick, decide, slab_automove_run, reclaim, set_window,
}

module _ (a : SlabAutomove) (iam_after : ℕ → ItemStatsAutomove)
    (sam_after : ℕ → SlabStatsAutomove) where
  -- Before class `n`: the chosen classes are below it, the oldest has pages to give, and one class
  -- that is both has one age.
  pub record Chosen (n : ℕ) (k : Pick) : Type 0 where
    pub oldest_below :
        (o : ℕ)
        → k.oldest ≡ some o
        → (1 ≤ o) × (o < n) × (min_pages_for_source < (sam_after o).total_pages)
    pub youngest_below : (y : ℕ) → k.youngest ≡ some y → (1 ≤ y) × (y < n)
    pub one_age : (o : ℕ) → k.oldest ≡ some o → k.youngest ≡ some o → k.oldest_age ≡ k.youngest_age

  module _ (n : ℕ) (w wd : WindowData) (k : Pick) (h : 1 ≤ n) (c : Chosen n k) where
    abbrev picked : Pick
    picked = pick_youngest a iam_after sam_after n w wd (pick_oldest a iam_after sam_after n w k)

    picked-oldest_below :
        (o : ℕ)
        → picked.oldest ≡ some o
        → (1 ≤ o) × (o < n + 1) × (min_pages_for_source < (sam_after o).total_pages)
    unfolding pick_youngest pick_oldest
    picked-oldest_below o e = let f = c.oldest_below o in ground arith

    picked-youngest_below : (y : ℕ) → picked.youngest ≡ some y → (1 ≤ y) × (y < n + 1)
    unfolding pick_youngest pick_oldest
    picked-youngest_below y e = let f = c.youngest_below y in ground arith

    picked-one_age :
        (o : ℕ)
        → picked.oldest ≡ some o
        → picked.youngest ≡ some o
        → picked.oldest_age ≡ picked.youngest_age
    unfolding pick_youngest pick_oldest
    picked-one_age o e e' =
        let f = c.youngest_below o in
        let g = c.oldest_below o in let q = c.one_age o in ground arith

    picked-Chosen : Chosen (n + 1) picked
    picked-Chosen = record {
      oldest_below = picked-oldest_below;
      youngest_below = picked-youngest_below;
      one_age = picked-one_age;
    }

  Chosen-mono : (n m : ℕ) (k : Pick) → n ≤ m → Chosen n k → Chosen m k
  Chosen-mono n m k le c = record {
    oldest_below = λ o e. let (a1, a2, a3) = c.oldest_below o e in (a1, omega arith, a3);
    youngest_below = λ y e. let (a1, a2) = c.youngest_below y e in (a1, omega arith);
    one_age = c.one_age;
  }

  -- What the loop leaves: chosen classes, and the class that it broke at.
  pub Scanned : ℕ → Pick × Option ℕ → Type 0
  Scanned m r =
      Chosen m r.0
      × ((b : ℕ)
          → r.1 ≡ some b
          → (1 ≤ b) × (b < m) × (has_free_pages a iam_after sam_after b ≡ true))

  scan-breaks :
      (n m : ℕ) (k : Pick)
      → 1 ≤ n
      → n < m
      → Chosen n k
      → has_free_pages a iam_after sam_after n ≡ true
      → Scanned m (k, some n)
  unfolding Scanned
  scan-breaks n m k h lt c free = (
    Chosen-mono n m k (omega arith) c,
    λ b q.
        let same : n ≡ b = cc in
        subst (λ z. (1 ≤ z) × (z < m) × (has_free_pages a iam_after sam_after z ≡ true)) same
          (h, lt, free),
  )

  pub scan_classes-Scanned :
      (left n : ℕ) (k : Pick)
      → 1 ≤ n
      → Chosen n k
      → Scanned (n + left) (scan_classes a iam_after sam_after left n k)
  unfolding scan_classes Scanned
  scan_classes-Scanned zero n k h c = (Chosen-mono n (n + 0) k (omega arith) c, λ b e. absurd cc)
  scan_classes-Scanned (suc left) n k h c =
      let wd = mark_window a iam_after sam_after n in
      let w_sum = class_sum a iam_after sam_after k.window_data n in
      let k1 : Pick = record k {
        window_data =
            set_window k.window_data (n * a.window_size + a.window_cur % a.window_size) wd;
      } in
      let c1 : Chosen n k1 = record {
        oldest_below = c.oldest_below;
        youngest_below = c.youngest_below;
        one_age = c.one_age;
      } in
      let ih =
        scan_classes-Scanned left (n + 1) (picked n w_sum wd k1 h c1) (omega arith)
          (picked-Chosen n w_sum wd k1 h c1) in
      let e : n + 1 + left ≡ n + suc left = omega arith in
      if_either (Scanned (n + suc left))
        (has_free_pages a iam_after sam_after n && w_sum.dirty == 0) (k1, some n)
        (scan_classes a iam_after sam_after left (n + 1) (picked n w_sum wd k1 h c1))
        (λ free. scan-breaks n (n + suc left) k1 h (omega arith) c1 (ground arith))
        (λ goes_on.
          subst
            (λ z.
              Scanned z
                (scan_classes a iam_after sam_after left (n + 1) (picked n w_sum wd k1 h c1)))
            e ih)

-- The results of the automover: nothing, a page for the pool, or a page for another class.
pub data Decision (a : SlabAutomove) (sam_after : ℕ → SlabStatsAutomove)
    : Option ℕ × Option ℕ → Type 0 where
  stays : Decision a sam_after (none, none)
  to_pool :
      (n : ℕ)
      → 1 ≤ n
      → n < max_number_of_slab_classes
      → (sam_after n).chunks_per_page * 5 < (sam_after n).free_chunks * 2
      → Decision a sam_after (some n, some 0)
  moves :
      (o y : ℕ)
      → 1 ≤ o
      → o < max_number_of_slab_classes
      → 1 ≤ y
      → y < max_number_of_slab_classes
      → o ≢ y
      → min_pages_for_source < (sam_after o).total_pages
      → a.window_size < (a.window_cur + 1) % 2 ^ 32
      → Decision a sam_after (some o, some y)

module _ (below : ℕ → ℕ → Bool) (irreflexive : (n : ℕ) → below n n ≡ false) (a : SlabAutomove)
    (iam_after : ℕ → ItemStatsAutomove) (sam_after : ℕ → SlabStatsAutomove) where
  abbrev counted : SlabAutomove
  counted = record a { window_cur = (a.window_cur + 1) % 2 ^ 32 }

  reclaim-Decision :
      (broke : Option ℕ)
      → ((b : ℕ)
          → broke ≡ some b
          → (1 ≤ b) × (b < 64) × (has_free_pages counted iam_after sam_after b ≡ true))
      → Decision a sam_after (reclaim broke)
  unfolding reclaim has_free_pages
  reclaim-Decision none h = stays
  reclaim-Decision (some n) h = let (h1, h2, h3) = h n refl in to_pool n h1 h2 (ground arith)

  -- Both classes of a move are in range and differ.
  decide-Decision :
      (k : Pick) (found : Option ℕ × Option ℕ)
      → Chosen counted iam_after sam_after 64 k
      → Decision a sam_after found
      → Decision a sam_after
          (decide below (record a { window_cur = (a.window_cur + 1) % 2 ^ 32 }) k found)
  unfolding decide
  decide-Decision k found c d =
      let b = record a { window_cur = (a.window_cur + 1) % 2 ^ 32 } in
      let stay : decide below b k found ≡ found → Decision a sam_after (decide below b k found) =
        λ e. subst (Decision a sam_after) (sym e) d in
      elim (Option-cases k.youngest) [
        | inl ey ↦ stay (ground arith)
        | inr (y, ey) ↦ elim (Option-cases k.oldest) [
          | inl eo ↦ stay (ground arith)
          | inr (o, eo) ↦
              let goes =
                ltb b.window_size b.window_cur
                && below k.youngest_age k.oldest_age
                && k.youngest_evicting in
              elim (Bool-cases goes) [
                | inr e ↦ stay (ground arith)
                | inl e ↦
                    let r : decide below b k found ≡ (some o, some y) = ground arith in
                    let (o1, o2, o3) = c.oldest_below o eo in
                    let (y1, y2) = c.youngest_below y ey in
                    let differ : o ≢ y = λ q.
                      let ages = c.one_age o eo (ey ∙ ap some (sym q)) in
                      let irr = irreflexive k.oldest_age in absurd (ground arith) in
                    subst (Decision a sam_after) (sym r)
                      (moves o y o1 o2 y1 y2 differ o3 (ground arith))
              ]
        ]
      ]

  -- If no age is below itself times the ratio, the automover decides nothing, or that a class with
  -- more than two and a half pages of free chunks gives a page to the pool, or that a class with
  -- more than two pages gives one to another class; both are slab classes, and the last is decided
  -- only when more windows were counted than there are in a round.
  pub slab_automove_run-Decision :
      Decision a sam_after (slab_automove_run below a iam_after sam_after).1
  unfolding slab_automove_run Scanned
  slab_automove_run-Decision =
      let start : Chosen counted iam_after sam_after 1 (start_pick a.window_data) = record {
        oldest_below = λ o e. absurd cc;
        youngest_below = λ y e. absurd cc;
        one_age = λ o e e'. absurd cc;
      } in
      let (c, h) =
        scan_classes-Scanned counted iam_after sam_after 63 1 (start_pick a.window_data)
          (omega arith) start in
      let r = scan_classes counted iam_after sam_after 63 1 (start_pick a.window_data) in
      decide-Decision r.0 (reclaim r.1) c (reclaim-Decision r.1 h)
