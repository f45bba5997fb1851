-- ===== src/Memcached/AutomoveExtstore.antt =====
-- memcached-sr/slab_automove_extstore.c: which slab class gives a page to which where values may lie in
-- external storage, and how much memory is to be kept free.
pub mod ThroughPool
use bmc_cache.Base.{
  ℕ, zero, suc, ◌+◌, ◌-◌, ◌*◌, ◌/◌, ◌%◌, ◌^◌, Bool, true, false, not, ◌&&◌, ◌||◌, Option, none,
  some, ltb, leb, ◌==◌, if◌then◌else◌, u32,
}
use bmc_cache.Memcached.Types.{set_at}
use bmc_cache.Memcached.Lru.{add64}
use bmc_cache.Memcached.Automove.{
  ItemStatsAutomove, power_smallest, max_number_of_slab_classes, min_pages_for_source,
}

-- struct window_data
pub record ExtWindow : Type 0 where
  pub age : ℕ
  pub dirty : ℕ
  pub evicted : ℕ
  pub excess_free : ℕ
  pub relaxed : ℕ

-- struct window_global
pub record GlobalWindow : Type 0 where
  pub pool_low : ℕ
  pub pool_high : ℕ

-- slab_stats_automove
pub record ExtSlabStats : Type 0 where
  pub chunk_size : ℕ
  pub chunks_per_page : ℕ
  pub free_chunks : ℕ
  pub total_pages : ℕ

-- The arrays are functions; the two ratios stand at their uses, as `below` and `portion`.
-- `ext_free_memchunks` is the one of the settings.
pub record ExtAutomove : Type 0 where
  pub window_data : ℕ → ExtWindow
  pub window_global : ℕ → GlobalWindow
  pub window_size : ℕ
  pub window_cur : ℕ
  pub item_size : ℕ
  pub last_memcheck_run : ℕ
  pub pool_filled_once : Bool
  pub free_mem : ℕ → ℕ
  pub ext_free_memchunks : ℕ → ℕ
  pub iam_before : ℕ → ItemStatsAutomove
  pub sam_before : ℕ → ExtSlabStats

abbrev pub memcheck_period : ℕ
memcheck_period = 60

abbrev pub no_window : ExtWindow
no_window = record { age = 0; dirty = 0; evicted = 0; excess_free = 0; relaxed = 0 }

-- The windows from index `at` on; the first argument counts those that are left.
unfoldable pub ext_window_sum : ℕ → (ℕ → ExtWindow) → ℕ → ExtWindow → ExtWindow
ext_window_sum zero wd at w = w
ext_window_sum (suc left) wd at w =
    let d = wd at in
    ext_window_sum left wd (at + 1) (record {
      age = add64 w.age d.age;
      dirty = add64 w.dirty d.dirty;
      evicted = add64 w.evicted d.evicted;
      excess_free = u32 (w.excess_free + d.excess_free);
      relaxed = u32 (w.relaxed + d.relaxed);
    })

unfoldable pub window_global_sum : ℕ → (ℕ → GlobalWindow) → ℕ → GlobalWindow → GlobalWindow
window_global_sum zero wg at w = w
window_global_sum (suc left) wg at w =
    let d = wg at in
    window_global_sum left wg (at + 1) (record {
      pool_low = u32 (w.pool_low + d.pool_low);
      pool_high = u32 (w.pool_high + d.pool_high);
    })

-- `count` and `mem_limit_reached` are what global_page_pool_size gives.
unfoldable pub global_pool_check : ℕ → Bool → ExtAutomove → ExtAutomove
global_pool_check count mem_limit_reached a =
    let free = a.free_mem 0 in
    let low = ltb count (free / 2) in
    let high = ltb free count in
    let wg : GlobalWindow = record {
      pool_low = if mem_limit_reached && low then 1 else 0;
      pool_high = if mem_limit_reached && not low && high then 1 else 0;
    } in
    record a {
      window_global = set_at a.window_global (a.window_cur % a.window_size) wg;
      pool_filled_once = a.pool_filled_once || (mem_limit_reached && (low || not high));
    }

-- At least one and a half pages. `portion` multiplies by the ratio of free memory, down to a whole
-- number.
unfoldable pub hold_free : (ℕ → ℕ) → ExtSlabStats → ℕ
hold_free portion sam =
    let part = portion (sam.total_pages * sam.chunks_per_page) in
    if ltb (2 * part) (3 * sam.chunks_per_page) then 3 * sam.chunks_per_page / 2 else part

-- The loop from class `n` on; the first argument counts the classes that are left. The second result is
-- the number of pages.
unfoldable pub memcheck_classes :
    (ℕ → ℕ) → (ℕ → ExtSlabStats) → ℕ → ℕ → ExtAutomove → ℕ → ExtAutomove × ℕ
memcheck_classes portion sam_after zero n a total_pages = (a, total_pages)
memcheck_classes portion sam_after (suc left) n a total_pages =
    let held = hold_free portion (sam_after n) in
    memcheck_classes portion sam_after left (n + 1)
      (record a {
        free_mem = set_at a.free_mem n held;
        ext_free_memchunks =
            if not (a.ext_free_memchunks n == held) && a.pool_filled_once
            then set_at a.ext_free_memchunks n held
            else a.ext_free_memchunks;
      })
      (u32 (total_pages + (sam_after n).total_pages))

unfoldable pub memcheck : (ℕ → ℕ) → ℕ → (ℕ → ExtSlabStats) → ExtAutomove → ExtAutomove
memcheck portion current_time sam_after a =
    let (a1, total_pages) =
      memcheck_classes portion sam_after (max_number_of_slab_classes - 1) 1
        (record a { last_memcheck_run = current_time }) 0 in
    if ltb current_time (u32 (a.last_memcheck_run + memcheck_period)) then a else record a1 {
      free_mem = set_at a1.free_mem 0 (portion (u32 (total_pages + (sam_after 0).total_pages)));
    }

abbrev pub window_index : ExtAutomove → ℕ → ℕ
window_index a n = n * a.window_size + a.window_cur % a.window_size

-- The variables of the loop over the classes; none is -1.
pub record ExtPick : Type 0 where
  pub windows : ℕ → ExtWindow
  pub oldest : Option ℕ
  pub oldest_age : ℕ
  pub youngest : Option ℕ
  pub youngest_age : ℕ
  pub too_free : Bool
  pub src : Option ℕ
  pub dst : Option ℕ

module _ (a : ExtAutomove) (iam_after : ℕ → ItemStatsAutomove) (sam_after : ℕ → ExtSlabStats) where
  unfoldable pub ext_mark_window : ℕ → ExtWindow
  ext_mark_window n =
      let evicting =
        ltb (a.iam_before n).evicted (iam_after n).evicted
        || ltb (a.iam_before n).outofmemory (iam_after n).outofmemory in
      record {
        age = (iam_after n).age;
        dirty =
            if evicting || ltb (a.sam_before n).total_pages (sam_after n).total_pages then 1 else 0;
        evicted = if evicting then 1 else 0;
        excess_free =
            if ltb (u32 (a.free_mem n * 2)) (sam_after n).free_chunks && ltb 0 (a.free_mem n)
            then 1
            else 0;
        relaxed = 0;
      }

  -- A class of items that are smaller than those that go to the storage.
  abbrev pub small_slab : ℕ → Bool
  small_slab n = ltb (a.sam_before n).chunk_size a.item_size

  abbrev pub free_enough : ℕ → Bool
  free_enough n = ltb (a.free_mem n) (sam_after n).free_chunks

  -- More than two and a half pages of free chunks in a window that is not dirty.
  unfoldable pub reclaims : ℕ → ExtWindow → Bool
  reclaims n w_sum =
      ltb ((sam_after n).chunks_per_page * 5) ((sam_after n).free_chunks * 2)
      && w_sum.dirty == 0
      && (small_slab n || leb a.window_size w_sum.excess_free)

  unfoldable pub ext_pick_oldest : ℕ → ℕ → ExtPick → ExtPick
  ext_pick_oldest n age k =
      if not (small_slab n)
        && ltb k.oldest_age age
        && ltb min_pages_for_source (sam_after n).total_pages
      then record k { oldest = some n; oldest_age = age }
      else k

  unfoldable pub ext_pick_youngest : ℕ → ExtWindow → ℕ → ExtPick → ExtPick
  ext_pick_youngest n w_sum age k =
      if not (small_slab n)
        && ltb age k.youngest_age
        && not ((sam_after n).total_pages == 0)
        && ltb w_sum.excess_free a.window_size
        && not (not (w_sum.relaxed == 0) && free_enough n)
      then record k { youngest = some n; youngest_age = age }
      else k

  -- The loop from class `n` on; the first argument counts the classes that are left.
  unfoldable pub ext_scan_classes : ℕ → ℕ → ExtPick → ExtPick
  ext_scan_classes zero n k = k
  ext_scan_classes (suc left) n k =
      let w_sum = ext_window_sum a.window_size k.windows (n * a.window_size) no_window in
      let age = w_sum.age / a.window_size in
      let k1 = record k { windows = set_at k.windows (window_index a n) (ext_mark_window n) } in
      let k2 =
        if reclaims n w_sum
        then record k1 { src = some n; dst = some 0; too_free = true }
        else k1 in
      ext_scan_classes left (n + 1) (ext_pick_youngest n w_sum age (ext_pick_oldest n age k2))

  abbrev pub ext_start : ExtPick
  ext_start = record {
    windows = a.window_data;
    oldest = none;
    oldest_age = 0;
    youngest = none;
    youngest_age = 2 ^ 64 - 1;
    too_free = false;
    src = none;
    dst = none;
  }

  abbrev pub relax : ExtPick → ℕ → ExtPick
  relax k y =
      let i = window_index a y in
      record k { windows = set_at k.windows i (record (k.windows i) { relaxed = 1 }) }

  -- `*src` and `*dst` for the youngest class, if it has used up what it has.
  unfoldable pub give_to : ℕ → ℕ → ExtPick → ExtPick
  give_to from y k =
      if free_enough y then relax k y else relax (record k { src = some from; dst = some y }) y

  -- The last of the three decisions. `below` compares an age with another one times the ratio.
  unfoldable pub balance : (ℕ → ℕ → Bool) → ExtPick → ExtPick
  balance below k = elim (k.youngest) [
    | none ↦ k
    | some y ↦ elim (k.oldest) [
      | none ↦ k
      | some o ↦
          if not k.too_free && not (y == o) && below k.youngest_age k.oldest_age
          then give_to 0 y k
          else k
    ]
  ]

  unfoldable pub drain : (ℕ → ℕ → Bool) → GlobalWindow → ExtPick → ExtPick
  drain below wg k = elim (k.oldest) [
    | none ↦ balance below k
    | some o ↦
        if not k.too_free && not (wg.pool_low == 0)
        then record k { src = some o; dst = some 0 }
        else balance below k
  ]

  unfoldable pub ext_decide : (ℕ → ℕ → Bool) → GlobalWindow → ExtPick → ExtPick
  ext_decide below wg k = if ltb a.window_cur a.window_size then k else elim (k.youngest) [
    | none ↦ drain below wg k
    | some y ↦
        if leb a.window_size wg.pool_high && wg.pool_low == 0
        then give_to 0 y k
        else drain below wg k
  ]

-- The statistics after are those that the two fill functions read. The results are the new state,
-- `*src` and `*dst`.
unfoldable pub slab_automove_extstore_run :
    (ℕ → ℕ → Bool)
    → (ℕ → ℕ)
    → ℕ
    → ℕ
    → Bool
    → ExtAutomove
    → (ℕ → ItemStatsAutomove)
    → (ℕ → ExtSlabStats)
    → ExtAutomove × (Option ℕ × Option ℕ)
slab_automove_extstore_run below portion current_time count mem_limit_reached a iam_after
      sam_after =
    let a1 = global_pool_check count mem_limit_reached a in
    let wg =
      window_global_sum a1.window_size a1.window_global 0
        (record { pool_low = 0; pool_high = 0 }) in
    let a2 =
      memcheck portion current_time sam_after
        (record a1 { window_cur = u32 (a1.window_cur + 1) }) in
    let k =
      ext_scan_classes a2 iam_after sam_after (max_number_of_slab_classes - 1) power_smallest
        (ext_start a2 iam_after sam_after) in
    let d = ext_decide a2 iam_after sam_after below wg k in
    (
      record a2 { window_data = d.windows; iam_before = iam_after; sam_before = sam_after },
      (d.src, d.dst),
    )
