-- ===== src/Memcached/Automove.antt =====
-- memcached-sr/slab_automove.c: which slab class gives a page to which.
pub mod Decision
use bmc_cache.Base.{
  ℕ, zero, suc, ◌+◌, ◌-◌, ◌*◌, ◌/◌, ◌%◌, ◌^◌, Bool, true, false, ◌&&◌, ◌||◌, Option, none, some,
  ltb, ◌==◌, if◌then◌else◌,
}

-- struct window_data
pub record WindowData : Type 0 where
  pub age : ℕ
  pub dirty : ℕ
  pub evicted : ℕ

pub record ItemStatsAutomove : Type 0 where
  pub evicted : ℕ
  pub outofmemory : ℕ
  pub age : ℕ

pub record SlabStatsAutomove : Type 0 where
  pub chunks_per_page : ℕ
  pub free_chunks : ℕ
  pub total_pages : ℕ

-- The arrays are functions. `max_age_ratio` stands at its one use, as the test `below`.
pub record SlabAutomove : Type 0 where
  pub window_data : ℕ → WindowData
  pub window_size : ℕ
  pub window_cur : ℕ
  pub iam_before : ℕ → ItemStatsAutomove
  pub sam_before : ℕ → SlabStatsAutomove

abbrev pub power_smallest : ℕ
power_smallest = 1

abbrev pub max_number_of_slab_classes : ℕ
max_number_of_slab_classes = 64

abbrev pub min_pages_for_source : ℕ
min_pages_for_source = 2

abbrev pub empty_window : WindowData
empty_window = record { age = 0; dirty = 0; evicted = 0 }

abbrev pub set_window : (ℕ → WindowData) → ℕ → WindowData → ℕ → WindowData
set_window w i d j = if j == i then d else w j

-- The sum of the windows from index `at` on; the first argument counts those that are left.
unfoldable pub window_sum : ℕ → (ℕ → WindowData) → ℕ → WindowData → WindowData
window_sum zero wd at w = w
window_sum (suc left) wd at w =
    let d = wd at in
    window_sum left wd (at + 1) (record {
      age = (w.age + d.age) % 2 ^ 64;
      dirty = (w.dirty + d.dirty) % 2 ^ 64;
      evicted = (w.evicted + d.evicted) % 2 ^ 64;
    })

-- The variables of the loop over the classes. `none` is the -1 of `oldest` and `youngest`.
pub record Pick : Type 0 where
  pub window_data : ℕ → WindowData
  pub oldest : Option ℕ
  pub oldest_age : ℕ
  pub youngest : Option ℕ
  pub youngest_age : ℕ
  pub youngest_evicting : Bool

module _ (a : SlabAutomove) (iam_after : ℕ → ItemStatsAutomove)
    (sam_after : ℕ → SlabStatsAutomove) where
  -- The current window of a class.
  unfoldable pub mark_window : ℕ → WindowData
  mark_window n =
      let evicting =
        ltb (a.iam_before n).evicted (iam_after n).evicted
        || ltb (a.iam_before n).outofmemory (iam_after n).outofmemory in
      record {
        age = (iam_after n).age;
        dirty =
            if evicting || ltb (a.sam_before n).total_pages (sam_after n).total_pages then 1 else 0;
        evicted = if evicting then 1 else 0;
      }

  -- More than two and a half pages of free chunks.
  unfoldable pub has_free_pages : ℕ → Bool
  has_free_pages n = ltb ((sam_after n).chunks_per_page * 5) ((sam_after n).free_chunks * 2)

  -- What the window of a class sums to, the current one being cleared.
  unfoldable pub class_sum : (ℕ → WindowData) → ℕ → WindowData
  class_sum w n =
      let offset = n * a.window_size in
      window_sum a.window_size (set_window w (offset + a.window_cur % a.window_size) empty_window)
        offset empty_window

  -- The tests for the oldest and the youngest class, at the sum and the current window of `n`.
  unfoldable pub pick_oldest : ℕ → WindowData → Pick → Pick
  pick_oldest n w_sum k =
      let age = w_sum.age / a.window_size in
      if ltb k.oldest_age age && ltb min_pages_for_source (sam_after n).total_pages
      then record k { oldest = some n; oldest_age = age }
      else k

  unfoldable pub pick_youngest : ℕ → WindowData → WindowData → Pick → Pick
  pick_youngest n w_sum wd k =
      let age = w_sum.age / a.window_size in
      if ltb age k.youngest_age && ltb (a.window_size / 2) w_sum.evicted
      then record k {
        youngest = some n;
        youngest_age = age;
        youngest_evicting = if wd.evicted == 0 then false else true;
      }
      else k

  -- The loop from class `n` on; the second result is the class at which it breaks.
  unfoldable pub scan_classes : ℕ → ℕ → Pick → Pick × Option ℕ
  scan_classes zero n k = (k, none)
  scan_classes (suc left) n k =
      let wd = mark_window n in
      let w_sum = class_sum k.window_data n in
      let k1 = record k {
        window_data =
            set_window k.window_data (n * a.window_size + a.window_cur % a.window_size) wd;
      } in
      let rest = scan_classes left (n + 1) (pick_youngest n w_sum wd (pick_oldest n w_sum k1)) in
      if has_free_pages n && w_sum.dirty == 0 then (k1, some n) else rest

abbrev pub start_pick : (ℕ → WindowData) → Pick
start_pick w = record {
  window_data = w;
  oldest = none;
  oldest_age = 0;
  youngest = none;
  youngest_age = 2 ^ 64 - 1;
  youngest_evicting = false;
}

-- The decision after the loop, at what the loop left in `*src` and `*dst`. `below` compares an
-- age with another one times the ratio.
unfoldable pub decide :
    (ℕ → ℕ → Bool) → SlabAutomove → Pick → Option ℕ × Option ℕ → Option ℕ × Option ℕ
decide below a k found = elim (k.youngest) [
  | none ↦ found
  | some y ↦ elim (k.oldest) [
    | none ↦ found
    | some o ↦
        if ltb a.window_size a.window_cur
          && below k.youngest_age k.oldest_age
          && k.youngest_evicting
        then (some o, some y)
        else found
  ]
]

-- What the loop leaves in `*src` and `*dst`: a class that it broke at gives a page to the pool.
unfoldable pub reclaim : Option ℕ → Option ℕ × Option ℕ
reclaim none = (none, none)
reclaim (some n) = (some n, some 0)

-- The statistics after are those that the two fill functions read. The results are the new state,
-- `*src` and `*dst`.
unfoldable pub slab_automove_run :
    (ℕ → ℕ → Bool)
    → SlabAutomove
    → (ℕ → ItemStatsAutomove)
    → (ℕ → SlabStatsAutomove)
    → SlabAutomove × (Option ℕ × Option ℕ)
slab_automove_run below a iam_after sam_after =
    let a1 = record a { window_cur = (a.window_cur + 1) % 2 ^ 32 } in
    let (k, broke) =
      scan_classes a1 iam_after sam_after 63 power_smallest (start_pick a.window_data) in
    (
      record a1 { window_data = k.window_data; iam_before = iam_after; sam_before = sam_after },
      decide below a1 k (reclaim broke),
    )
