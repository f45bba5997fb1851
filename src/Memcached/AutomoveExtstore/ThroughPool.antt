-- ===== src/Memcached/AutomoveExtstore/ThroughPool.antt =====
-- The decisions of memcached-sr/slab_automove_extstore.c move pages to the pool or out of it.
use bmc_cache.Base.{
  ℕ, zero, suc, ◌+◌, ◌-◌, ◌*◌, ◌%◌, ◌^◌, ◌/◌, ◌<◌, ◌≤◌, Bool, true, not, ◌&&◌, Option, none, some,
  ltb, leb, ◌==◌, if◌then◌else◌, ◌≡◌, ◌⊎◌, inl, inr, refl, arith, if_either,
}
use bmc_cache.Memcached.Types.{set_at}
use bmc_cache.Memcached.Automove.{
  ItemStatsAutomove, max_number_of_slab_classes, power_smallest, min_pages_for_source,
}
use bmc_cache.Memcached.AutomoveExtstore.{
  ExtAutomove, ExtWindow, GlobalWindow, ExtSlabStats, ExtPick, no_window, ext_window_sum,
  window_index, ext_mark_window, small_slab, free_enough, reclaims, ext_pick_oldest,
  ext_pick_youngest, ext_scan_classes, ext_start, relax, give_to, balance, drain, ext_decide,
  global_pool_check, memcheck, window_global_sum, slab_automove_extstore_run,
}

abbrev pub IsSlabClass : ℕ → Type 0
IsSlabClass n = (1 ≤ n) × (n < max_number_of_slab_classes)

abbrev IsClassOrNone : Option ℕ → Type 0
IsClassOrNone none = Unit
IsClassOrNone (some n) = IsSlabClass n

-- No move, one from a class to the pool, or one from the pool to a class.
abbrev pub IsThroughPool : Option ℕ → Option ℕ → Type 0
IsThroughPool none none = Unit
IsThroughPool none (some d) = ⊥
IsThroughPool (some s) none = ⊥
IsThroughPool (some s) (some d) = ((d ≡ 0) × IsSlabClass s) ⊎ ((s ≡ 0) × IsSlabClass d)

record Picked (k : ExtPick) : Type 0 where
  old : IsClassOrNone k.oldest
  young : IsClassOrNone k.youngest
  moved : IsThroughPool k.src k.dst

module _ (a : ExtAutomove) (iam_after : ℕ → ItemStatsAutomove) (sam_after : ℕ → ExtSlabStats) where
  ext_pick_oldest-Picked :
      (n age : ℕ) (k : ExtPick)
      → IsSlabClass n
      → Picked k
      → Picked (ext_pick_oldest a iam_after sam_after n age k)
  unfolding ext_pick_oldest
  ext_pick_oldest-Picked n age k h p =
      if_either Picked
        (not (small_slab a iam_after sam_after n)
          && ltb k.oldest_age age
          && ltb min_pages_for_source (sam_after n).total_pages)
        (record k { oldest = some n; oldest_age = age }) k
        (λ e. record { old = h; young = p.young; moved = p.moved }) (λ e. p)

  ext_pick_youngest-Picked :
      (n : ℕ) (w : ExtWindow) (age : ℕ) (k : ExtPick)
      → IsSlabClass n
      → Picked k
      → Picked (ext_pick_youngest a iam_after sam_after n w age k)
  unfolding ext_pick_youngest
  ext_pick_youngest-Picked n w age k h p =
      if_either Picked
        (not (small_slab a iam_after sam_after n)
          && ltb age k.youngest_age
          && not ((sam_after n).total_pages == 0)
          && ltb w.excess_free a.window_size
          && not (not (w.relaxed == 0) && free_enough a iam_after sam_after n))
        (record k { youngest = some n; youngest_age = age }) k
        (λ e. record { old = p.old; young = h; moved = p.moved }) (λ e. p)

  ext_scan_classes-Picked :
      (left n : ℕ) (k : ExtPick)
      → 1 ≤ n
      → n + left ≤ max_number_of_slab_classes
      → Picked k
      → Picked (ext_scan_classes a iam_after sam_after left n k)
  unfolding ext_scan_classes
  ext_scan_classes-Picked zero n k one le p = p
  ext_scan_classes-Picked (suc left) n k one le p =
      let w = ext_window_sum a.window_size k.windows (n * a.window_size) no_window in
      let age = w.age / a.window_size in
      let h : IsSlabClass n = (one, omega arith) in
      let k1 = record k {
        windows = set_at k.windows (window_index a n) (ext_mark_window a iam_after sam_after n);
      } in
      let p1 : Picked k1 = record { old = p.old; young = p.young; moved = p.moved } in
      let k2 = record k1 { src = some n; dst = some 0; too_free = true } in
      let p2 : Picked k2 = record { old = p.old; young = p.young; moved = inl (refl, h) } in
      let b = reclaims a iam_after sam_after n w in
      let q = if_either Picked b k2 k1 (λ e. p2) (λ e. p1) in
      let k3 = if b then k2 else k1 in
      let o = ext_pick_oldest a iam_after sam_after n age k3 in
      ext_scan_classes-Picked left (n + 1) (ext_pick_youngest a iam_after sam_after n w age o)
        (omega arith) (omega arith)
        (ext_pick_youngest-Picked n w age o h (ext_pick_oldest-Picked n age k3 h q))

  give_to-Picked :
      (y : ℕ) (k : ExtPick)
      → IsSlabClass y
      → Picked k
      → Picked (give_to a iam_after sam_after 0 y k)
  unfolding give_to
  give_to-Picked y k h p =
      if_either Picked (free_enough a iam_after sam_after y) (relax a iam_after sam_after k y)
        (relax a iam_after sam_after (record k { src = some 0; dst = some y }) y)
        (λ e. record { old = p.old; young = p.young; moved = p.moved })
        (λ e. record { old = p.old; young = p.young; moved = inr (refl, h) })

  balance-Picked :
      (below : ℕ → ℕ → Bool) (k : ExtPick)
      → Picked k
      → Picked (balance a iam_after sam_after below k)
  unfolding balance
  balance-Picked below k p = go k.youngest k.oldest p.young
    where
      go :
          (y o : Option ℕ)
          → IsClassOrNone y
          → Picked (elim y [
            | none ↦ k
            | some y ↦ elim o [
              | none ↦ k
              | some o ↦
                  if not k.too_free && not (y == o) && below k.youngest_age k.oldest_age
                  then give_to a iam_after sam_after 0 y k
                  else k
            ]
          ])
      go none o h = p
      go (some y) none h = p
      go (some y) (some o) h =
          if_either Picked (not k.too_free && not (y == o) && below k.youngest_age k.oldest_age)
            (give_to a iam_after sam_after 0 y k) k (λ e. give_to-Picked y k h p) (λ e. p)

  drain-Picked :
      (below : ℕ → ℕ → Bool) (wg : GlobalWindow) (k : ExtPick)
      → Picked k
      → Picked (drain a iam_after sam_after below wg k)
  unfolding drain
  drain-Picked below wg k p = go k.oldest p.old
    where
      go :
          (o : Option ℕ)
          → IsClassOrNone o
          → Picked (elim o [
            | none ↦ balance a iam_after sam_after below k
            | some o ↦
                if not k.too_free && not (wg.pool_low == 0)
                then record k { src = some o; dst = some 0 }
                else balance a iam_after sam_after below k
          ])
      go none h = balance-Picked below k p
      go (some o) h =
          if_either Picked (not k.too_free && not (wg.pool_low == 0))
            (record k { src = some o; dst = some 0 }) (balance a iam_after sam_after below k)
            (λ e. record { old = p.old; young = p.young; moved = inl (refl, h) })
            (λ e. balance-Picked below k p)

  ext_decide-Picked :
      (below : ℕ → ℕ → Bool) (wg : GlobalWindow) (k : ExtPick)
      → Picked k
      → Picked (ext_decide a iam_after sam_after below wg k)
  unfolding ext_decide
  ext_decide-Picked below wg k p =
      if_either Picked (ltb a.window_cur a.window_size) k (decided k.youngest) (λ e. p)
        (λ e. go k.youngest p.young)
    where
      decided : Option ℕ → ExtPick
      decided none = drain a iam_after sam_after below wg k
      decided (some y) =
          if leb a.window_size wg.pool_high && wg.pool_low == 0
          then give_to a iam_after sam_after 0 y k
          else drain a iam_after sam_after below wg k

      go : (y : Option ℕ) → IsClassOrNone y → Picked (decided y)
      go none h = drain-Picked below wg k p
      go (some y) h =
          if_either Picked (leb a.window_size wg.pool_high && wg.pool_low == 0)
            (give_to a iam_after sam_after 0 y k) (drain a iam_after sam_after below wg k)
            (λ e. give_to-Picked y k h p) (λ e. drain-Picked below wg k p)

-- A run decides nothing, or that a slab class gives a page to the pool, or that the pool gives one to
-- a slab class.
pub slab_automove_extstore_run-IsThroughPool :
    (below : ℕ → ℕ → Bool) (portion : ℕ → ℕ) (current_time count : ℕ) (mem_limit_reached : Bool)
    (a : ExtAutomove) (iam_after : ℕ → ItemStatsAutomove) (sam_after : ℕ → ExtSlabStats)
    → let r =
        slab_automove_extstore_run below portion current_time count mem_limit_reached a iam_after
          sam_after in
      IsThroughPool r.1.0 r.1.1
unfolding slab_automove_extstore_run
slab_automove_extstore_run-IsThroughPool below portion current_time count mem_limit_reached a
      iam_after sam_after =
    let a1 = global_pool_check count mem_limit_reached a in
    let wg =
      window_global_sum a1.window_size a1.window_global 0
        (record { pool_low = 0; pool_high = 0 }) in
    let a2 =
      memcheck portion current_time sam_after
        (record a1 { window_cur = (a1.window_cur + 1) % 2 ^ 32 }) in
    let k = ext_start a2 iam_after sam_after in
    let p : Picked k = record { old = tt; young = tt; moved = tt } in
    let q =
      ext_scan_classes-Picked a2 iam_after sam_after (max_number_of_slab_classes - 1) power_smallest
        k (omega arith) (omega arith) p in
    (ext_decide-Picked a2 iam_after sam_after below wg
      (ext_scan_classes a2 iam_after sam_after (max_number_of_slab_classes - 1) power_smallest k)
      q).moved
