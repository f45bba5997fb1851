-- ===== src/Memcached/Refs/Lookup.antt =====
-- A lookup, `do_item_get` of memcached-sr/items.c, takes the references that it says it takes.
use bmc_cache.Base.{
  ℕ, ◌+◌, ◌^◌, ◌<◌, List, Bool, false, ◌==◌, ◌&&◌, if◌then◌else◌, ◌≡◌, ◌≢◌, ◌⊎◌, inl, inr, refl,
  sym, ap, subst, ◌∙◌, arith, if_either, none, some, Bool-cases, Option-cases,
}
use bmc_cache.Memcached.Types.{Cache}
use bmc_cache.Memcached.Assoc.{Item, assoc_find}
use bmc_cache.Memcached.Assoc.Chain.{same_key-cases, same_key_eq}
use bmc_cache.Memcached.Assoc.Refine.{Dict}
use bmc_cache.Memcached.Items.{do_item_remove, do_item_unlink, do_item_bump, do_item_get}
use bmc_cache.Memcached.Items.Lookup.{
  CacheSound, IsLive, held, dead, dropped, given, get-some, alive, assoc_find-key,
}
use bmc_cache.Memcached.Refs.Counted.{one_if, Counted, without_key}
use bmc_cache.Memcached.Refs.Links.{bump_queued}
use bmc_cache.Memcached.Refs.Steps.{
  holders, holders-here, same-Counted, refcount_incr-Counted, do_item_remove-Counted,
  do_item_unlink-Counted, do_item_bump-Counted,
}

pub Counted-CacheSound :
    (hash : List ℕ → ℕ) (c : Cache) (m : Dict) (refs : ℕ → ℕ)
    → Counted hash c m refs
    → CacheSound hash c
Counted-CacheSound hash c m refs v = record {
  table = v.sound;
  entries = λ k x e. v.entries k x (sym (v.found k) ∙ e);
}

without_key-absent :
    (m : Dict) (key : List ℕ) → m key ≡ none → (k : List ℕ) → without_key m key k ≡ m k
without_key-absent m key e k = elim (same_key-cases k key) [
  | inl h ↦ let q = same_key_eq k key h in let z = ap m h in ground arith
  | inr h ↦ ground arith
]

pub holders-again :
    (refs : ℕ → ℕ) (it n p : ℕ) → (a : ℕ) → holders refs it p a ≡ holders (holders refs it n) it p a
holders-again refs it n p a = ground arith

pub holders-back :
    (refs : ℕ → ℕ) (it n : ℕ) → (a : ℕ) → refs a ≡ holders (holders refs it n) it (refs it) a
holders-back refs it n a = elim (Bool-cases (a == it)) [
  | inl e ↦ let h : a ≡ it = ground arith in ap refs h ∙ ground arith
  | inr e ↦ ground arith
]

module _ (hash : List ℕ → ℕ) (m : Dict) (refs : ℕ → ℕ) (queued update : Bool) (key : List ℕ) where
  -- The result of a lookup: no item, the key is not in the map any more and nothing else is held; or the
  -- live item that the map has, which is held once more, or, with a bump, once more again.
  abbrev pub Held : Cache → Cache × ℕ → Type 0
  Held c (c', it) =
      ((it ≡ 0) × Counted hash c' (without_key m key) refs)
      ⊎ ((it ≢ 0)
          × (m key ≡ some (record { key = key; addr = it }))
          × IsLive hash c it
          × Counted hash c' m
              (holders refs it (refs it + (1 + one_if (update && bump_queued queued c it)))))

  module _ (c : Cache) (v : Counted hash c m refs) (less : (a : ℕ) → refs a + 3 < 2 ^ 16) where
    abbrev s : CacheSound hash c
    s = Counted-CacheSound hash c m refs v

    absent-Held : m key ≡ none → Held c (do_item_get queued update c key (hash key))
    unfolding do_item_get
    absent-Held e =
        let n = v.found key ∙ e in
        let r : do_item_get queued update c key (hash key) ≡ (c, 0) = ground arith in
        subst (Held c) (sym r) (
          inl (
            refl,
            same-Counted hash c m (without_key m key) refs refs (without_key-absent m key e)
                (λ a. refl) v,
          ))

    module _ (x : Item) (e : m key ≡ some x) where
      abbrev it : ℕ
      it = x.addr

      abbrev f : assoc_find c.table key (hash key) ≡ some x
      f = v.found key ∙ e

      abbrev more : ℕ → ℕ
      more = holders refs it (refs it + 1)

      abbrev c1 : Cache
      c1 = held hash queued update c key s x f

      held_more : Counted hash c1 m more
      held_more =
          let (ek, el, nz) = v.entries key x e in
          let l = less it in refcount_incr-Counted hash c m refs it v nz (inr el) (omega arith)

      unlinked : Counted hash (do_item_unlink c1 it (hash key)) (without_key m key) more
      unlinked =
          let (ek, el, nz) = v.entries key x e in
          let same : (c1.items it).key ≡ key = ground arith in
          subst (λ z. Counted hash (do_item_unlink c1 it (hash z)) (without_key m z) more) same
            (do_item_unlink-Counted hash c1 m more it held_more (ground arith))

      let_go : Counted hash (dropped hash queued update c key s x f) (without_key m key) refs
      let_go =
          let u = do_item_unlink c1 it (hash key) in
          let n = holders-here refs it (refs it + 1) in
          same-Counted hash (do_item_remove u it) (without_key m key) (without_key m key)
            (holders more it (refs it)) refs (λ k. refl) (holders-back refs it (refs it + 1))
            (do_item_remove-Counted hash u (without_key m key) more it unlinked (refs it)
              (n ∙ omega arith))

      abbrev taken : Bool → ℕ → ℕ
      taken b = holders refs it (refs it + (1 + one_if b))

      kept :
          Counted hash
            (given hash queued update c key s x f)
            m
            (taken (update && bump_queued queued c it))
      kept = elim (Bool-cases update) [
        | inr u ↦
            let same : given hash queued update c key s x f ≡ c1 =
              ap (λ (b : Bool). if b then do_item_bump queued c1 it else c1) u in
            let none_queued : (update && bump_queued queued c it) ≡ false = ground arith in
            subst (λ b. Counted hash (given hash queued update c key s x f) m (taken b))
              (sym none_queued) (subst (λ z. Counted hash z m more) (sym same) held_more)
        | inl u ↦
            let (ek, el, nz) = v.entries key x e in
            let d = do_item_bump queued c1 it in
            let same : given hash queued update c key s x f ≡ d =
              ap (λ (b : Bool). if b then do_item_bump queued c1 it else c1) u in
            let n = holders-here refs it (refs it + 1) in
            let l = less it in
            let q : bump_queued queued c1 it ≡ (update && bump_queued queued c it) = ground arith in
            let p = one_if (bump_queued queued c1 it) in
            let b =
              do_item_bump-Counted hash c1 m more it held_more queued nz (inl (omega arith))
                (omega arith) in
            let b' =
              same-Counted hash d m m (holders more it (more it + p))
                (taken (bump_queued queued c1 it)) (λ k. refl)
                (λ a.
                  ap (λ z. holders refs it z a) (omega arith)
                  ∙ holders-again refs it (refs it + 1) (more it + p) a)
                b in
            subst (λ z. Counted hash (given hash queued update c key s x f) m (taken z)) q
              (subst (λ z. Counted hash z m (taken (bump_queued queued c1 it))) (sym same) b')
      ]

      found-Held : Held c (do_item_get queued update c key (hash key))
      found-Held =
          let (ek, el, nz) = v.entries key x e in
          let kx : key ≡ x.key = assoc_find-key c.table key (hash key) x f in
          let there : m key ≡ some (record { key = key; addr = it }) =
            e ∙ ap (λ z. some (record { key = z; addr = it })) (sym kx) in
          subst (Held c) (sym (get-some hash queued update c key s x f)) (
            if_either (Held c) (dead hash queued update c key s x f)
              (dropped hash queued update c key s x f, 0) (given hash queued update c key s x f, it)
              (λ h. inl (refl, let_go))
              (λ h. inr (nz, there, alive hash queued update c key s x f h, kept)))

    pub do_item_get-Held : Held c (do_item_get queued update c key (hash key))
    do_item_get-Held = elim (Option-cases (m key)) [
      | inl e ↦ absent-Held e
      | inr (x, e) ↦ found-Held x e
    ]
