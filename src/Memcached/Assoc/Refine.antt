-- ===== src/Memcached/Assoc/Refine.antt =====
-- The table of memcached-sr/assoc.c is a finite map from keys to items, in every state that its
-- operations and the expansion reach.
use bmc_cache.Base.{
  ℕ, Bool, true, false, Option, none, some, List, [], ◌∷◌, if◌then◌else◌, ◌≡◌, ◌↔◌, inl, inr, refl,
  sym, subst, ◌∙◌, Option-cases, arith,
}
use bmc_cache.Memcached.Assoc.{
  Item, Table, same_key, assoc_init, assoc_find, assoc_insert, assoc_delete, assoc_expand,
  assoc_start_expand, bulk_move, move_bucket, maintain, find_chain, in_old, chain_of,
}
use bmc_cache.Memcached.Assoc.Sound.{Sound}
use bmc_cache.Memcached.Assoc.Update.{
  assoc_insert-Sound, assoc_find-assoc_insert, assoc_delete-some, assoc_delete-none,
}
use bmc_cache.Memcached.Assoc.Expand.{
  assoc_find-assoc_expand, assoc_expand-Sound, assoc_find-move_bucket, move_bucket-Sound,
}

-- The map that a table stands for.
abbrev pub Dict : Type 0
Dict = List ℕ → Option Item

module _ (hash : List ℕ → ℕ) where
  -- The states that the operations reach, each with its map. An insertion is of a key that is not
  -- there, and a deletion returns. The maintenance thread works at any outcomes of its locks and of
  -- calloc.
  pub data Reach : Table → Dict → Type 0 where
    started : (n : ℕ) → Reach (assoc_init n) (λ k. none)
    inserted :
        {t : Table} {d : Dict} (it : Item)
        → Reach t d
        → d it.key ≡ none
        → Reach (assoc_insert t it (hash it.key)) (λ k. if same_key k it.key then some it else d k)
    deleted :
        {t t' : Table} {d : Dict} (key : List ℕ)
        → Reach t d
        → assoc_delete t key (hash key) ≡ some t'
        → Reach t' (λ k. if same_key k key then none else d k)
    signalled :
        {t : Table} {d : Dict} (curr_items : ℕ)
        → Reach t d
        → Reach (assoc_start_expand curr_items t).0 d
    maintained :
        {t : Table} {d : Dict} (locks : List Bool) (woken allocated : Bool)
        → Reach t d
        → Reach (maintain hash locks woken allocated t) d

  -- The table is sound and finds what the map has.
  abbrev pub Refines : Table → Dict → Type 0
  Refines t d = Sound hash t × ((k : List ℕ) → assoc_find t k (hash k) ≡ d k)

  pub started-Refines : (n : ℕ) → Refines (assoc_init n) (λ k. none)
  unfolding assoc_init assoc_find chain_of in_old find_chain
  started-Refines n = (
    record {
      distinct_new = λ b. tt;
      distinct_old = λ b. tt;
      placed_new = λ k b h. refl;
      placed_old = λ k b h ne. refl;
      settled = λ k b h le. refl;
    },
    λ k. refl,
  )

  if-Refines :
      (b : Bool) (x y : Table) (d : Dict)
      → (b ≡ true → Refines x d)
      → (b ≡ false → Refines y d)
      → Refines (if b then x else y) d
  if-Refines true x y d f g = f refl
  if-Refines false x y d f g = g refl

  move_bucket-Refines :
      (t : Table) (d : Dict) → t.expanding ≡ true → Refines t d → Refines (move_bucket hash t) d
  move_bucket-Refines t d ex (s, f) =
      (move_bucket-Sound hash t s ex, λ k. assoc_find-move_bucket hash t s ex k ∙ f k)

  assoc_expand-Refines :
      (allocated : Bool) (t : Table) (d : Dict)
      → t.expanding ≡ false
      → Refines t d
      → Refines (assoc_expand allocated t) d
  assoc_expand-Refines allocated t d ex (s, f) = (
    assoc_expand-Sound hash t s ex allocated,
    λ k. assoc_find-assoc_expand hash t s ex allocated k ∙ f k,
  )

  bulk_move-Refines :
      (locks : List Bool) (t : Table) (d : Dict) → Refines t d → Refines (bulk_move hash locks t) d
  unfolding bulk_move
  bulk_move-Refines [] t d r = r
  bulk_move-Refines (l ∷ locks) t d r =
      if-Refines t.expanding _ _ d
        (λ ex.
          bulk_move-Refines locks _ d
            (if-Refines l _ _ d (λ h. move_bucket-Refines t d ex r) (λ h. r)))
        (λ h. r)

  started_expanding-Refines :
      (t : Table) (d : Dict) (b : Bool)
      → Refines t d
      → Refines (record t { started_expanding = b }) d
  unfolding assoc_find chain_of in_old
  started_expanding-Refines t d b (s, f) = (
    record {
      distinct_new = s.distinct_new;
      distinct_old = s.distinct_old;
      placed_new = s.placed_new;
      placed_old = s.placed_old;
      settled = s.settled;
    },
    f,
  )

  pub maintain-Refines :
      (locks : List Bool) (woken allocated : Bool) (t : Table) (d : Dict)
      → Refines t d
      → Refines (maintain hash locks woken allocated t) d
  unfolding maintain
  maintain-Refines locks woken allocated t d r =
      let t1 = bulk_move hash locks t in
      let r1 = bulk_move-Refines locks t d r in
      let r2 = started_expanding-Refines t1 d false r1 in
      if-Refines t1.expanding _ _ d (λ h. r1)
        (λ ex.
          if-Refines woken _ _ d
            (λ h. assoc_expand-Refines allocated (record t1 { started_expanding = false }) d ex r2)
            (λ h. r2))

  pub signalled-Refines :
      (n : ℕ) (t : Table) (d : Dict) → Refines t d → Refines (assoc_start_expand n t).0 d
  unfolding assoc_start_expand
  signalled-Refines n t d r = let q = started_expanding-Refines t d true r in ground arith

  -- Reached states find exactly the map.
  pub Reach-Refines : {t : Table} {d : Dict} → Reach t d → Refines t d
  Reach-Refines (started n) = started-Refines n
  Reach-Refines (inserted {t} {d} it r h) =
      let (s, f) = Reach-Refines r in
      let fresh = f it.key ∙ h in
      (
        assoc_insert-Sound hash t s it fresh,
        λ k. let e = assoc_find-assoc_insert hash t s it fresh k in let fk = f k in ground arith,
      )
  Reach-Refines (deleted {t} {t'} {d} key r h) =
      let (s, f) = Reach-Refines r in
      elim (Option-cases (assoc_find t key (hash key))) [
        | inl e ↦ let n = assoc_delete-none hash t s key e in absurd (ground arith)
        | inr (it, e) ↦
            let (t2, e2, s2, f2) = assoc_delete-some hash t s key it e in
            let same : t2 ≡ t' = cc in
            subst (λ z. Refines z (λ k. if same_key k key then none else d k)) same
              (s2, λ k. let a = f2 k in let b = f k in ground arith)
      ]
  Reach-Refines (signalled n r) = signalled-Refines n _ _ (Reach-Refines r)
  Reach-Refines (maintained locks woken allocated r) =
      maintain-Refines locks woken allocated _ _ (Reach-Refines r)

  -- In every reached state the table finds for each key, under its hash, what the map has, and the
  -- assertion of a deletion fails exactly for the keys that the map does not have.
  pub Reach-assoc_find :
      {t : Table} {d : Dict}
      → Reach t d
      → (k : List ℕ)
      → (assoc_find t k (hash k) ≡ d k) × ((assoc_delete t k (hash k) ≡ none) ↔ (d k ≡ none))
  Reach-assoc_find {t} {d} r k =
      let (s, f) = Reach-Refines r in
      let none_of : d k ≡ none → assoc_delete t k (hash k) ≡ none =
        λ h. assoc_delete-none hash t s k (f k ∙ h) in
      let of_none : assoc_delete t k (hash k) ≡ none → d k ≡ none = λ h.
        elim (Option-cases (assoc_find t k (hash k))) [
          | inl e ↦ sym (f k) ∙ e
          | inr (it, e) ↦ let (t2, e2, s2, f2) = assoc_delete-some hash t s k it e in absurd cc
        ] in
      (f k, (of_none, none_of))
