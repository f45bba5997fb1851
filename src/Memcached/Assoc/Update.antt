-- ===== src/Memcached/Assoc/Update.antt =====
-- assoc_insert and assoc_delete of memcached-sr/assoc.c, by what is found afterwards.
use bmc_cache.Base.{
  ℕ, ◌%◌, ◌-◌, false, none, some, List, [], ◌∷◌, if◌then◌else◌, ◌≡◌, ◌⊎◌, inl, inr, refl, ◌∙◌,
  arith,
}
use bmc_cache.Memcached.Assoc.{
  Item, Table, hashsize, same_key, find_chain, chain_of, set_chain, assoc_find, hashitem_before,
  assoc_insert, assoc_delete,
}
use bmc_cache.Memcached.Assoc.Chain.{
  Distinct, same_key-cases, same_key_eq, find_chain-here, find_chain-later, find_chain-nil, remove,
  find_chain-remove, remove-Distinct,
}
use bmc_cache.Memcached.Assoc.Sound.{Sound, set_chain-Sound, assoc_find-set_chain}

-- The position that the deletion looks for is that of the item that is found.
hashitem_before-cases :
    (key : List ℕ) (chain : List Item)
    → ((find_chain key chain ≡ none) × ((hashitem_before key chain).1 ≡ []))
      ⊎ ((it : Item) × (nxt : List Item) × (find_chain key chain ≡ some it)
          × ((hashitem_before key chain).1 ≡ it ∷ nxt))
unfolding hashitem_before
hashitem_before-cases key [] = inl (find_chain-nil key, refl)
hashitem_before-cases key (x ∷ xs) = elim (same_key-cases key x.key) [
  | inl e ↦ let s = same_key_eq key x.key e in inr (x, xs, find_chain-here key x xs e, ground arith)
  | inr e ↦
      let l = find_chain-later key x xs e in
      elim (hashitem_before-cases key xs) [
        | inl h ↦ inl (l ∙ h.0, ground (arith, h.1))
        | inr h ↦ inr (h.0, h.1, l ∙ h.2, ground (arith, h.3))
      ]
]

module _ (hash : List ℕ → ℕ) (t : Table) (s : Sound hash t) where
  chain_of-Distinct : (hv : ℕ) → Distinct (chain_of t hv)
  unfolding chain_of
  chain_of-Distinct hv =
      let old = s.distinct_old (hv % hashsize (t.hashpower - 1)) in
      let new = s.distinct_new (hv % hashsize t.hashpower) in ground arith

  module _ (it : Item) (fresh : assoc_find t it.key (hash it.key) ≡ none) where
    pub assoc_insert-Sound : Sound hash (assoc_insert t it (hash it.key))
    unfolding assoc_insert assoc_find
    assoc_insert-Sound =
        set_chain-Sound hash t it.key (it ∷ chain_of t (hash it.key))
          (λ k h. find_chain-later k it (chain_of t (hash it.key)) h)
          (fresh, chain_of-Distinct (hash it.key)) s

    pub assoc_find-assoc_insert :
        (k : List ℕ)
        → assoc_find (assoc_insert t it (hash it.key)) k (hash k)
          ≡ (if same_key k it.key then some it else assoc_find t k (hash k))
    unfolding assoc_insert
    assoc_find-assoc_insert k =
        let chain = chain_of t (hash it.key) in
        let f =
          assoc_find-set_chain hash t it.key (it ∷ chain) (λ k' h. find_chain-later k' it chain h)
            k in
        elim (same_key-cases k it.key) [
          | inl e ↦
              let l = find_chain-here k it chain e in let q = same_key_eq k it.key e in ground arith
          | inr e ↦ ground arith
        ]

  module _ (key : List ℕ) where
    removed-changes :
        (k : List ℕ)
        → same_key k key ≡ false
        → find_chain k (remove key (chain_of t (hash key))) ≡ find_chain k (chain_of t (hash key))
    removed-changes k h =
        let f = find_chain-remove key k (chain_of t (hash key)) (chain_of-Distinct (hash key)) in
        ground arith

    removed-Sound : Sound hash (set_chain t (hash key) (remove key (chain_of t (hash key))))
    removed-Sound =
        set_chain-Sound hash t key (remove key (chain_of t (hash key))) removed-changes
          (remove-Distinct key (chain_of t (hash key)) (chain_of-Distinct (hash key))) s

    removed-found :
        (k : List ℕ)
        → assoc_find (set_chain t (hash key) (remove key (chain_of t (hash key)))) k (hash k)
          ≡ (if same_key k key then none else assoc_find t k (hash k))
    removed-found k =
        let chain = chain_of t (hash key) in
        let f = assoc_find-set_chain hash t key (remove key chain) removed-changes k in
        let r = find_chain-remove key k chain (chain_of-Distinct (hash key)) in ground arith

    -- A key that is found is deleted.
    pub assoc_delete-some :
        (it : Item)
        → assoc_find t key (hash key) ≡ some it
        → (t' : Table) × (assoc_delete t key (hash key) ≡ some t')
          × Sound hash t'
          × ((k : List ℕ)
              → assoc_find t' k (hash k)
                ≡ (if same_key k key then none else assoc_find t k (hash k)))
    unfolding assoc_delete assoc_find
    assoc_delete-some it f = elim (hashitem_before-cases key (chain_of t (hash key))) [
      | inl h ↦ absurd (ground (arith, h.0))
      | inr h ↦ (
        set_chain t (hash key) (remove key (chain_of t (hash key))),
        ground (arith, h.3),
        removed-Sound,
        removed-found,
      )
    ]

    -- A key that is not found makes the assertion fail.
    pub assoc_delete-none :
        assoc_find t key (hash key) ≡ none → assoc_delete t key (hash key) ≡ none
    unfolding assoc_delete assoc_find
    assoc_delete-none f = elim (hashitem_before-cases key (chain_of t (hash key))) [
      | inl h ↦ ground (arith, h.1)
      | inr h ↦ absurd (ground (arith, h.2))
    ]
