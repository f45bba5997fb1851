-- ===== src/Memcached/Slabs/Rebalance/Pages.antt =====
-- The pages of the classes at the end of a move of memcached-sr/slabs.c.
use bmc_cache.Base.{
  ℕ, zero, suc, ◌+◌, ◌<◌, Bool, true, List, [], ◌∷◌, ◌++◌, ltb, ◌||◌, ◌==◌, if◌then◌else◌, ◌≡◌, ◌≢◌,
  inl, inr, refl, sym, ap, ◌∙◌, arith, Bool-cases, if_either,
}
use bmc_cache.Memcached.Types.{Cache, SlabClass, set_at, set_item}
use bmc_cache.Memcached.Lru.{set_prev}
use bmc_cache.Memcached.Slabs.{
  push_slot, slabbed_only, free_chunks, do_slabs_free_chunked, do_slabs_free,
  split_slab_page_into_freelist, clear_page,
}
use bmc_cache.Memcached.Slabs.Rebalance.{
  Rebalancer, drop_first_page, append_page, give_page, use_page, slab_rebalance_finish,
}

-- The entries of an array from `i` on.
abbrev pub pages_from : ℕ → ℕ → (ℕ → ℕ) → List ℕ
pages_from zero i l = []
pages_from (suc n) i l = l i ∷ pages_from n (i + 1) l

abbrev pub pages : Cache → ℕ → List ℕ
pages c id = let p = c.slabs.slabclass id in pages_from p.slabs 0 p.slab_list

-- The classes have the pages that they had.
abbrev Paged : Cache → Cache → Type 0
Paged c c' =
    (id : ℕ)
    → ((c'.slabs.slabclass id).slabs ≡ (c.slabs.slabclass id).slabs)
      × ((c'.slabs.slabclass id).slab_list ≡ (c.slabs.slabclass id).slab_list)

Paged-trans : (c d e : Cache) → Paged c d → Paged d e → Paged c e
Paged-trans c d e p q id = ((q id).0 ∙ (p id).0, (q id).1 ∙ (p id).1)

Paged-pages : (c c' : Cache) → Paged c c' → (id : ℕ) → pages c' id ≡ pages c id
Paged-pages c c' p id =
    ap (λ n. pages_from n 0 (c'.slabs.slabclass id).slab_list) (p id).0
    ∙ ap (pages_from (c.slabs.slabclass id).slabs 0) (p id).1

push_slot-Paged : (c : Cache) (id it : ℕ) → Paged c (push_slot c id it)
unfolding push_slot
push_slot-Paged c id it j = elim (Bool-cases (j == id)) [
  | inl e ↦
      let h : id ≡ j = ground arith in
      (
        ground arith ∙ ap (λ k. (c.slabs.slabclass k).slabs) h,
        ground arith ∙ ap (λ k. (c.slabs.slabclass k).slab_list) h,
      )
  | inr e ↦ (ground arith, ground arith)
]

free_chunks-Paged : (left : ℕ) (c : Cache) (chunk : ℕ) → Paged c (free_chunks left c chunk)
unfolding free_chunks
free_chunks-Paged zero c chunk = λ j. (refl, refl)
free_chunks-Paged (suc left) c chunk =
    let i = c.items chunk in
    let marked = set_item c chunk (record i { it_flags = slabbed_only }) in
    let pushed = push_slot marked i.slabs_clsid chunk in
    let rest = free_chunks left pushed i.next in
    if_either (Paged c) (chunk == 0) c rest (λ e j. (refl, refl))
      (λ e.
        Paged-trans c pushed rest (push_slot-Paged marked i.slabs_clsid chunk)
          (free_chunks-Paged left pushed i.next))

do_slabs_free-Paged : (c : Cache) (it size id : ℕ) → Paged c (do_slabs_free c it size id)
unfolding do_slabs_free do_slabs_free_chunked
do_slabs_free-Paged c it size id =
    let i = c.items it in
    let c1 = set_item c it (record i { it_flags = slabbed_only }) in
    let c2 : Cache = record c1 { items = set_prev c1.items i.chunk_next 0 } in
    let c3 = push_slot c2 i.orig_clsid it in
    let chunked = free_chunks size c3 i.chunk_next in
    let marked = set_item c it (record i { it_flags = slabbed_only; slabs_clsid = id }) in
    if_either (Paged c) (ltb id 1 || ltb c.slabs.power_largest id) c
      (if i.it_flags.chunked then chunked else push_slot marked id it) (λ e j. (refl, refl))
      (λ e.
        if_either (Paged c) i.it_flags.chunked chunked (push_slot marked id it)
          (λ h.
            Paged-trans c c3 chunked (push_slot-Paged c2 i.orig_clsid it)
              (free_chunks-Paged size c3 i.chunk_next))
          (λ h. push_slot-Paged marked id it))

split-Paged :
    (left : ℕ) (c : Cache) (ptr id : ℕ) → Paged c (split_slab_page_into_freelist left c ptr id)
unfolding split_slab_page_into_freelist
split-Paged zero c ptr id = λ j. (refl, refl)
split-Paged (suc left) c ptr id =
    let d = do_slabs_free c ptr 0 id in
    let next = ptr + (c.slabs.slabclass id).size in
    Paged-trans c d (split_slab_page_into_freelist left d next id) (do_slabs_free-Paged c ptr 0 id)
      (split-Paged left d next id)

pages_from-agree :
    (n i j : ℕ) (l l' : ℕ → ℕ)
    → ((k : ℕ) → k < n → l' (j + k) ≡ l (i + k))
    → pages_from n j l' ≡ pages_from n i l
pages_from-agree zero i j l l' h = refl
pages_from-agree (suc n) i j l l' h =
    let first : l' j ≡ l i = ap l' (omega arith) ∙ h 0 (omega arith) ∙ ap l (omega arith) in
    let rest =
      pages_from-agree n (i + 1) (j + 1) l l'
        (λ k lt. ap l' (omega arith) ∙ h (suc k) (omega arith) ∙ ap l (omega arith)) in
    ap (λ x. x ∷ pages_from n (j + 1) l') first ∙ ap (λ xs. l i ∷ xs) rest

pages_from-last :
    (n i : ℕ) (l : ℕ → ℕ) → pages_from (n + 1) i l ≡ pages_from n i l ++ (l (i + n) ∷ [])
pages_from-last zero i l = let a : i ≡ i + 0 = omega arith in ap (λ k. l k ∷ []) a
pages_from-last (suc n) i l =
    let ih = pages_from-last n (i + 1) l in
    let a : suc n + 1 ≡ suc (n + 1) = omega arith in
    let b : i + 1 + n ≡ i + suc n = omega arith in
    ap (λ m. pages_from m i l) a
    ∙ ap (λ xs. l i ∷ xs) ih
    ∙ ap (λ k. l i ∷ pages_from n (i + 1) l ++ (l k ∷ [])) b

dropped_pages :
    (p : SlabClass) (n : ℕ)
    → p.slabs ≡ suc n
    → pages_from (drop_first_page p).slabs 0 (drop_first_page p).slab_list
      ≡ pages_from n 1 p.slab_list
unfolding drop_first_page
dropped_pages p n e =
    ap (λ m. pages_from m 0 (λ x. if ltb x m then p.slab_list (x + 1) else p.slab_list x))
      (omega arith)
    ∙ pages_from-agree n 1 0 p.slab_list
        (λ x. if ltb x n then p.slab_list (x + 1) else p.slab_list x) (λ k lt. one_on k lt)
  where
    one_on :
        (k : ℕ)
        → k < n
        → (if ltb (0 + k) n then p.slab_list (0 + k + 1) else p.slab_list (0 + k))
          ≡ p.slab_list (1 + k)
    one_on k lt =
        let t : ltb (0 + k) n ≡ true = ground arith in
        ap (λ (b : Bool). if b then p.slab_list (0 + k + 1) else p.slab_list (0 + k)) t
        ∙ ap p.slab_list (omega arith)

appended_pages :
    (p : SlabClass) (page : ℕ)
    → pages_from (append_page p page).slabs 0 (append_page p page).slab_list
      ≡ pages_from p.slabs 0 p.slab_list ++ (page ∷ [])
unfolding append_page
appended_pages p page =
    let l = set_at p.slab_list p.slabs page in
    let same = pages_from-agree p.slabs 0 0 p.slab_list l (λ k lt. ground arith) in
    let here : l (0 + p.slabs) ≡ page = ground arith in
    pages_from-last p.slabs 0 l
    ∙ ap (λ xs. xs ++ (l (0 + p.slabs) ∷ [])) same
    ∙ ap (λ x. pages_from p.slabs 0 p.slab_list ++ (x ∷ [])) here

given :
    (c : Cache) (s d page : ℕ)
    → s ≢ d
    → ((give_page c s d page).slabs.slabclass s ≡ drop_first_page (c.slabs.slabclass s))
      × ((give_page c s d page).slabs.slabclass d ≡ append_page (c.slabs.slabclass d) page)
      × ((id : ℕ)
          → id ≢ s
          → id ≢ d
          → (give_page c s d page).slabs.slabclass id ≡ c.slabs.slabclass id)
unfolding give_page
given c s d page ne = (ground arith, ground arith, λ id a b. ground arith)

-- If source and destination differ and the destination is not the pool, then after the end of a move
-- the source has its pages without the first one, the destination has the moved page behind its own,
-- the other classes have what they had, and no move is under way.
pub slab_rebalance_finish-pages :
    (r : Rebalancer) (n : ℕ)
    → r.slab_rebal.s_clsid ≢ r.slab_rebal.d_clsid
    → 0 < r.slab_rebal.d_clsid
    → (r.cache.slabs.slabclass r.slab_rebal.s_clsid).slabs ≡ suc n
    → let f = slab_rebalance_finish r in
      let s = r.slab_rebal.s_clsid in
      let d = r.slab_rebal.d_clsid in
      (pages f.cache s ≡ pages_from n 1 (r.cache.slabs.slabclass s).slab_list)
      × (pages f.cache d ≡ pages r.cache d ++ (r.slab_rebal.slab_start ∷ []))
      × ((id : ℕ) → id ≢ s → id ≢ d → pages f.cache id ≡ pages r.cache id)
      × (f.slab_rebalance_signal ≡ 0)
unfolding slab_rebalance_finish use_page
slab_rebalance_finish-pages r n ne lt e =
    let s = r.slab_rebal.s_clsid in
    let d = r.slab_rebal.d_clsid in
    let page = r.slab_rebal.slab_start in
    let g = give_page r.cache s d page in
    let cleared : Cache = record g { items = clear_page g.items page g.settings.slab_page_size } in
    let split = split_slab_page_into_freelist (g.slabs.slabclass d).perslab cleared page d in
    let same : split ≡ (slab_rebalance_finish r).cache = ground arith in
    let kept : (id : ℕ) → pages (slab_rebalance_finish r).cache id ≡ pages g id = λ id.
      ap (λ (c : Cache). pages c id) (sym same)
      ∙ Paged-pages g split (split-Paged (g.slabs.slabclass d).perslab cleared page d) id in
    let (gs, gd, go) = given r.cache s d page ne in
    (
      kept s
          ∙ ap (λ p. pages_from p.slabs 0 p.slab_list) gs
          ∙ dropped_pages (r.cache.slabs.slabclass s) n e,
      kept d
          ∙ ap (λ p. pages_from p.slabs 0 p.slab_list) gd
          ∙ appended_pages (r.cache.slabs.slabclass d) page,
      λ id a b. kept id ∙ ap (λ p. pages_from p.slabs 0 p.slab_list) (go id a b),
      refl,
    )
