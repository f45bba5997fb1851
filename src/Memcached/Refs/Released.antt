-- ===== src/Memcached/Refs/Released.antt =====
-- When an item of memcached-sr/items.c is freed, and what a connection of memcached-sr/memcached.c
-- leaves behind.
use bmc_cache.Base.{
  ℕ, zero, suc, ◌+◌, List, [], ◌∷◌, Bool, true, false, ◌==◌, ◌&&◌, not, if◌then◌else◌, ◌≡◌, inl,
  inr, refl, sym, ap, subst, ◌∙◌, arith, Bool-cases,
}
use bmc_cache.Memcached.Types.{Cache, set_item}
use bmc_cache.Memcached.Assoc.Refine.{Dict}
use bmc_cache.Memcached.Items.{refcount_decr, do_item_remove, item_free}
use bmc_cache.Memcached.Threads.{item_remove}
use bmc_cache.Memcached.Commands.{Conn}
use bmc_cache.Memcached.Commands.Release.{release_items, conn_release_items}
use bmc_cache.Memcached.Refs.{Frame}
use bmc_cache.Memcached.Refs.Effect.{set_item-Frame, Frame-trans}
use bmc_cache.Memcached.Refs.Counted.{one_if, one_if-small, Counted}
use bmc_cache.Memcached.Refs.Steps.{holders, holders-here, same-Counted, do_item_remove-Counted}

module _ (hash : List ℕ → ℕ) where
  module _ (c : Cache) (m : Dict) (refs : ℕ → ℕ) (it n : ℕ) (v : Counted hash c m refs)
      (e : refs it ≡ suc n) where
    abbrev released : Cache
    released = set_item c it (refcount_decr (c.items it))

    left : (released.items it).refcount ≡ n + one_if (c.items it).it_flags.linked
    left =
        let (r, p) = v.counted it (inl (omega arith)) in
        let s = v.small it in let o = one_if-small (c.items it).it_flags.linked in ground arith

    last : (b : Bool) → (n + one_if b == 0) ≡ ((n == 0) && not b)
    last true = ground arith
    last false = ground arith

    -- In a state whose references are counted, the release of a held item frees it if nobody else holds
    -- it and it is not linked, and otherwise only counts the reference off.
    pub item_remove-item_free :
        item_remove hash c it
        ≡ (if (n == 0) && not (c.items it).it_flags.linked then item_free released it else released)
    unfolding item_remove do_item_remove
    item_remove-item_free =
        ap (λ (b : Bool). if b then item_free released it else released)
          (ap (λ z. z == 0) left ∙ last (c.items it).it_flags.linked)

  item_remove-Counted :
      (m : Dict) (refs : ℕ → ℕ) (it : ℕ) (c c1 : Cache) (n : ℕ)
      → Counted hash c m refs
      → refs it ≡ suc n
      → item_remove hash c it ≡ c1
      → Counted hash c1 m (holders refs it n)
  unfolding item_remove
  item_remove-Counted m refs it c c1 n v e same =
      subst (λ x. Counted hash x m (holders refs it n)) same
        (do_item_remove-Counted hash c m refs it v n e)

  -- The releases of all holders.
  abbrev pub releases : ℕ → Cache → ℕ → Cache
  releases zero c it = c
  releases (suc n) c it = releases n (item_remove hash c it) it

  -- In a state whose references are counted, an item that is not linked and has so many holders is
  -- freed by the last of as many releases: until then the free chunks and the other items
  -- stay, and it has no reference then.
  pub releases-item_free :
      (n : ℕ) (c : Cache) (m : Dict) (refs : ℕ → ℕ) (it : ℕ)
      → Counted hash c m refs
      → refs it ≡ suc n
      → (c.items it).it_flags.linked ≡ false
      → (d : Cache) × (releases (suc n) c it ≡ item_free d it)
        × (d.slabs ≡ c.slabs)
        × ((d.items it).refcount ≡ 0)
        × Frame it c d
  releases-item_free zero c m refs it v e un =
      let d = released c m refs it zero v e in
      let l = left c m refs it zero v e in
      (
        d,
        item_remove-item_free c m refs it zero v e
            ∙ ap (λ (b : Bool). if not b then item_free d it else d) un,
        refl,
        l ∙ ap (λ b. 0 + one_if b) un,
        set_item-Frame c it (refcount_decr (c.items it)),
      )
  releases-item_free (suc n) c m refs it v e un =
      let c1 = released c m refs it (suc n) v e in
      let same : item_remove hash c it ≡ c1 =
        item_remove-item_free c m refs it (suc n) v e ∙ ground arith in
      let v1 = item_remove-Counted m refs it c c1 (suc n) v e same in
      let (d, r, s, z, f) =
        releases-item_free n c1 m (holders refs it (suc n)) it v1 (holders-here refs it (suc n))
          (ground arith) in
      (
        d,
        ap (λ x. releases (suc n) x it) same ∙ r,
        s,
        z,
        Frame-trans it c c1 d (set_item-Frame c it (refcount_decr (c.items it))) f,
      )

  -- How often an item is in a list.
  abbrev pub times : List ℕ → ℕ → ℕ
  times [] a = 0
  times (it ∷ its) a = one_if (a == it) + times its a

  pub release_one :
      (c : Cache) (m : Dict) (refs : ℕ → ℕ) (it : ℕ)
      → Counted hash c m (λ a. refs a + one_if (a == it))
      → Counted hash (item_remove hash c it) m refs
  unfolding item_remove
  release_one c m refs it v =
      let plus : ℕ → ℕ = λ a. refs a + one_if (a == it) in
      let here : plus it ≡ suc (refs it) = ground arith in
      same-Counted hash (do_item_remove c it) m m (holders plus it (refs it)) refs (λ k. refl)
        (λ a. elim (Bool-cases (a == it)) [
          | inl h ↦ let q : a ≡ it = ground arith in ap refs q ∙ ground arith
          | inr h ↦ ground arith
        ])
        (do_item_remove-Counted hash c m plus it v (refs it) here)

  release_items-Counted :
      (its : List ℕ) (c : Cache) (m : Dict) (refs : ℕ → ℕ)
      → Counted hash c m (λ a. refs a + times its a)
      → Counted hash (release_items hash c its) m refs
  unfolding release_items
  release_items-Counted [] c m refs v =
      same-Counted hash c m m (λ a. refs a + 0) refs (λ k. refl) (λ a. omega arith) v
  release_items-Counted (it ∷ its) c m refs v =
      release_items-Counted its (item_remove hash c it) m refs (
        release_one c m (λ a. refs a + times its a) it
          (same-Counted hash c m m (λ a. refs a + times (it ∷ its) a)
            (λ a. refs a + times its a + one_if (a == it)) (λ k. refl) (λ a. omega arith) v))

  -- The items that a connection holds: the one that it reads the value of, and those that it writes out.
  abbrev pub held_by : Conn → ℕ → ℕ
  held_by k a = (if k.item == 0 then 0 else one_if (a == k.item)) + times k.ilist a

  -- Where the references are counted for a connection and other holders, they are counted for the
  -- others alone after `conn_release_items`, for the same map, and the connection holds nothing.
  pub conn_release_items-Counted :
      (c : Cache) (k : Conn) (m : Dict) (refs : ℕ → ℕ)
      → Counted hash c m (λ a. refs a + held_by k a)
      → Counted hash (conn_release_items hash c k).0 m refs
        × ((a : ℕ) → held_by (conn_release_items hash c k).1 a ≡ 0)
  unfolding conn_release_items
  conn_release_items-Counted c k m refs v = elim (Bool-cases (k.item == 0)) [
    | inl z ↦
        let same : c ≡ (if k.item == 0 then c else item_remove hash c k.item) = ground arith in
        (
          release_items-Counted k.ilist (if k.item == 0 then c else item_remove hash c k.item) m
              refs
              (subst (λ d. Counted hash d m (λ a. refs a + times k.ilist a)) same
                (same-Counted hash c m m (λ a. refs a + held_by k a) (λ a. refs a + times k.ilist a)
                  (λ q. refl)
                  (λ a.
                    (omega arith)
                    ∙ ap (λ b. refs a + ((if b then 0 else one_if (a == k.item)) + times k.ilist a))
                        (sym z))
                  v)),
          λ a. refl,
        )
    | inr z ↦
        let same : item_remove hash c k.item
            ≡ (if k.item == 0 then c else item_remove hash c k.item) =
          ground arith in
        (
          release_items-Counted k.ilist (if k.item == 0 then c else item_remove hash c k.item) m
              refs
              (subst (λ d. Counted hash d m (λ a. refs a + times k.ilist a)) same
                (release_one c m (λ a. refs a + times k.ilist a) k.item
                  (same-Counted hash c m m (λ a. refs a + held_by k a)
                    (λ a. refs a + times k.ilist a + one_if (a == k.item)) (λ q. refl)
                    (λ a.
                      (omega arith)
                      ∙ ap
                          (λ b.
                            refs a + ((if b then 0 else one_if (a == k.item)) + times k.ilist a))
                          (sym z))
                    v))),
          λ a. refl,
        )
  ]
