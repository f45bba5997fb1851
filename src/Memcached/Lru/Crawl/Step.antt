-- ===== src/Memcached/Lru/Crawl/Step.antt =====
-- A step of the crawler in a queue of memcached-sr/items.c.
use bmc_cache.Base.{
  ℕ, List, [], ◌∷◌, ◌++◌, ◌==◌, if◌then◌else◌, All, ◌≡◌, ◌≢◌, refl, sym, ap, subst, ◌∙◌, arith,
}
use bmc_cache.Memcached.Types.{Cache}
use bmc_cache.Memcached.Lru.Segment.{
  Segment, Away, NoDoubles, All-map, NoDoubles-split, NoDoubles-join, Segment-agree, Segment-append,
  Segment-split, Segment-nonzero,
}
use bmc_cache.Memcached.Lru.Queue.{
  IsQueue, IsQueue-agree, set_if, front-linked, back-linked, next-Away, prev-Away,
}
use bmc_cache.Memcached.Lru.Sound.{next_of, prev_of, queue_of, All-of}
use bmc_cache.Memcached.Lru.Crawl.{do_item_crawl_q, crawl_past}
use bmc_cache.Memcached.Lru.Crawl.Links.{
  nx_swung, pv_swung, nx_swung-by, pv_swung-by, past-next_swung, past-prev_swung, past_ends_swung,
  do_item_crawl_q-past,
}

All-and {κ} : (P Q : ℕ → Type κ) (xs : List ℕ) → All P xs → All Q xs → All (λ a. P a × Q a) xs
All-and P Q [] h g = tt
All-and P Q (a ∷ xs) h g = ((h.0, g.0), All-and P Q xs h.1 g.1)

module _ (c : Cache) (it x : ℕ) (ys zs : List ℕ)
    (q : IsQueue
      (next_of c)
      (prev_of c)
      (c.heads (queue_of c it))
      (c.tails (queue_of c it))
      (ys ++ (x ∷ it ∷ zs))) where
  abbrev id : ℕ
  id = queue_of c it

  abbrev nx : ℕ → ℕ
  nx = next_of c

  abbrev pv : ℕ → ℕ
  pv = prev_of c

  -- The links in front of the two, and behind them.
  parts :
      (Segment nx pv (c.heads id) 0 ys x (pv x))
      × (pv it ≡ x)
      × (x ≢ 0)
      × (it ≢ 0)
      × Segment nx pv (nx it) it zs 0 (c.tails id)
  parts =
      let (m, k, front, (e, zx, b, (e', zi, b', back))) =
        Segment-split nx pv (c.heads id) 0 ys (x ∷ it ∷ zs) 0 (c.tails id) q.linked in
      (
        subst (λ z. Segment nx pv (c.heads id) 0 ys z (pv x)) e
            (subst (λ z. Segment nx pv (c.heads id) 0 ys m z) (sym b) front),
        b',
        zx,
        zi,
        back,
      )

  -- The links afterwards, by those before.
  abbrev nx' : ℕ → ℕ
  nx' a = if a == it then x else if a == x then nx it else set_if nx (pv x) it a

  abbrev pv' : ℕ → ℕ
  pv' a = if a == it then pv x else if a == x then it else set_if pv (nx it) x a

  -- The neighbours are other addresses.
  record IsApart : Type 0 where
    prev_item : x ≢ it
    behind_it : nx it ≢ it
    behind_x : nx it ≢ x
    front_it : pv x ≢ it
    front_x : pv x ≢ x
    front : All (λ y. (y ≢ nx it) × ((y ≢ x) × (y ≢ it))) ys
    back : All (λ z. (z ≢ pv x) × ((x ≢ z) × (it ≢ z))) zs
    front_unlike : NoDoubles ys × Away x ys
    back_unlike : NoDoubles zs × Away it zs
    all_unlike : NoDoubles (ys ++ (it ∷ x ∷ zs))

  neighbours-IsApart : IsApart
  neighbours-IsApart =
      let (s, e, zx, zi, t) = parts in
      let (dy, ((xi, xz), (iz, dz)), w) = NoDoubles-split ys (x ∷ it ∷ zs) q.no_doubles in
      let nzs = Segment-nonzero nx pv (nx it) it zs 0 (c.tails id) t in
      let nys = Segment-nonzero nx pv (c.heads id) 0 ys x (pv x) s in
      let (fx, (fi, fz)) =
        prev-Away nx pv (c.heads id) x (pv x) ys (x ∷ it ∷ zs) s (zx, (zi, nzs)) w in
      let (bx, (bi, bn)) =
        next-Away nx pv (nx it) it (c.tails id) (x ∷ it ∷ []) zs t (zx, (zi, tt)) (xz, (iz, tt)) in
      record {
        prev_item = xi;
        behind_it = λ h. bi (sym h);
        behind_x = λ h. bx (sym h);
        front_it = λ h. fi (sym h);
        front_x = λ h. fx (sym h);
        front =
            All-and (λ y. y ≢ nx it) (λ y. (y ≢ x) × (y ≢ it)) ys
              (next-Away nx pv (nx it) it (c.tails id) ys zs t nys
                (All-map (λ y. Away y (x ∷ it ∷ zs)) (λ y. Away y zs) ys (λ y h. h.1.1) w))
              (All-map (λ y. Away y (x ∷ it ∷ zs)) (λ y. (y ≢ x) × (y ≢ it)) ys
                (λ y h. (h.0, h.1.0)) w);
        back =
            All-and (λ z. z ≢ pv x) (λ z. (x ≢ z) × (it ≢ z)) zs fz
              (All-and (λ z. x ≢ z) (λ z. it ≢ z) zs xz iz);
        front_unlike =
            (dy, All-map (λ y. Away y (x ∷ it ∷ zs)) (λ y. x ≢ y) ys (λ y h g. h.0 (sym g)) w);
        back_unlike = (dz, iz);
        all_unlike =
            NoDoubles-join ys (it ∷ x ∷ zs) dy ((λ h. xi (sym h), iz), (xz, dz))
              (All-map (λ y. Away y (x ∷ it ∷ zs)) (λ y. Away y (it ∷ x ∷ zs)) ys
                (λ y h. (h.1.0, (h.0, h.1.1))) w);
      }

  past-next : (a : ℕ) → next_of (crawl_past c it) a ≡ nx' a
  past-next a =
      let (s, e, zx, zi, t) = parts in
      let r = neighbours-IsApart in
      past-next_swung c it a
      ∙ ap (λ z. nx_swung nx pv it z a) e
      ∙ nx_swung-by nx pv it x zx r.prev_item r.behind_x r.front_it r.front_x a

  past-prev : (a : ℕ) → prev_of (crawl_past c it) a ≡ pv' a
  past-prev a =
      let (s, e, zx, zi, t) = parts in
      let r = neighbours-IsApart in
      past-prev_swung c it a
      ∙ ap (λ z. pv_swung nx pv it z a) e
      ∙ pv_swung-by nx pv it x zx r.prev_item r.behind_x a

  abbrev head' : ℕ
  head' = if c.heads id == x then it else c.heads id

  abbrev tail' : ℕ
  tail' = if c.tails id == it then x else c.tails id

  past-front : Segment nx' pv' head' 0 ys it (pv x)
  past-front =
      let (s, e, zx, zi, t) = parts in
      let r = neighbours-IsApart in
      Segment-agree (set_if nx (pv x) it) pv nx' pv' head' 0 ys it (pv x)
        (All-map (λ y. (y ≢ nx it) × ((y ≢ x) × (y ≢ it)))
          (λ y. (nx' y ≡ set_if nx (pv x) it y) × (pv' y ≡ pv y)) ys
          (λ y (h, (g, f)). (ground arith, ground arith)) r.front)
        (front-linked nx pv (c.heads id) x (pv x) it ys r.front_unlike.0 r.front_unlike.1 s)

  past-back : Segment nx' pv' (nx it) x zs 0 tail'
  past-back =
      let (s, e, zx, zi, t) = parts in
      let r = neighbours-IsApart in
      Segment-agree nx (set_if pv (nx it) x) nx' pv' (nx it) x zs 0 tail'
        (All-map (λ z. (z ≢ pv x) × ((x ≢ z) × (it ≢ z)))
          (λ z. (nx' z ≡ nx z) × (pv' z ≡ set_if pv (nx it) x z)) zs
          (λ z (h, (g, f)). (ground arith, ground arith)) r.back)
        (back-linked nx pv it (nx it) x (c.tails id) zs r.back_unlike.0 r.back_unlike.1 t)

  past-linked : Segment nx' pv' head' 0 (ys ++ (it ∷ x ∷ zs)) 0 tail'
  past-linked =
      let (s, e, zx, zi, t) = parts in
      let r = neighbours-IsApart in
      let ne = r.prev_item in
      let at_x : nx' x ≡ nx it = ground arith in
      let at_it : nx' it ≡ x = ground arith in
      let before : pv' x ≡ it = ground arith in
      let back = subst (λ z. Segment nx' pv' z x zs 0 tail') (sym at_x) past-back in
      let two : Segment nx' pv' (nx' it) it (x ∷ zs) 0 tail' = (at_it, zx, before, back) in
      let first : pv' it ≡ pv x = ground arith in
      Segment-append nx' pv' head' 0 ys (it ∷ x ∷ zs) it (pv x) 0 tail' past-front
        (refl, zi, first, two)

  nx'-it : nx' it ≡ x
  nx'-it = ground arith

  past_ends : ((crawl_past c it).heads id ≡ head') × ((crawl_past c it).tails id ≡ tail')
  past_ends =
      let (s, e, zx, zi, t) = parts in
      let (h, l) = past_ends_swung c it in
      (
        h ∙ ap (λ z. if◌then◌else◌ (c.heads id == z) it (c.heads id)) e,
        l ∙ ap (λ z. if◌then◌else◌ (c.tails id == it) z (c.tails id)) e,
      )

  -- Behind another item of a well-formed queue, the crawler and this item change their places, the
  -- queue is well-formed again, and the result is the item.
  pub do_item_crawl_q-IsQueue :
      ((do_item_crawl_q c it).1 ≡ x)
      × IsQueue
          (next_of (do_item_crawl_q c it).0)
          (prev_of (do_item_crawl_q c it).0)
          ((do_item_crawl_q c it).0.heads id)
          ((do_item_crawl_q c it).0.tails id)
          (ys ++ (it ∷ x ∷ zs))
  do_item_crawl_q-IsQueue =
      let (s, e, zx, zi, t) = parts in
      let d = crawl_past c it in
      let (eh, et) = past_ends in
      let r = neighbours-IsApart in
      let same = do_item_crawl_q-past c it (λ h. zx (sym e ∙ h)) in
      let at_it = nx'-it in
      let done =
        IsQueue-agree nx' pv' (next_of d) (prev_of d) head' tail' (d.heads id) (d.tails id)
          (ys ++ (it ∷ x ∷ zs)) (record { no_doubles = r.all_unlike; linked = past-linked })
          (All-of _ (ys ++ (it ∷ x ∷ zs)) (λ a. (past-next a, past-prev a))) eh et in
      subst
        (λ (z : Cache × ℕ).
          (z.1 ≡ x)
          × IsQueue (next_of z.0) (prev_of z.0) (z.0.heads id) (z.0.tails id) (ys ++ (it ∷ x ∷ zs)))
        (sym same) (past-next it ∙ at_it, done)
