-- ===== src/Memcached/Assoc/Chain.antt =====
-- The chains of memcached-sr/assoc.c: what is found after an insertion, a deletion and a move.
use bmc_cache.Base.{
  ℕ, ◌%◌, true, false, Option, none, some, List, [], ◌∷◌, ◌++◌, ◌==◌, if◌then◌else◌, ◌≡◌, ◌≢◌, ◌⊎◌,
  inl, inr, refl, sym, ap, subst, ◌∙◌, Bool-cases, arith,
}
use mathlib.Core.Bool.{true≢false}
use bmc_cache.Memcached.Assoc.{
  Item, Buckets, same_key, set_bucket, find_chain, hashitem_before, move_chain, hashsize,
}

-- No two items of the chain have one key.
abbrev pub Distinct : List Item → Type 0
Distinct [] = Unit
Distinct (it ∷ next) = (find_chain it.key next ≡ none) × Distinct next

abbrev pub or_else : Option Item → Option Item → Option Item
or_else none b = b
or_else (some a) b = some a

same_key_sound : (xs ys : List ℕ) → same_key xs ys ≡ true → xs ≡ ys
unfolding same_key
same_key_sound [] [] h = refl
same_key_sound [] (y ∷ ys) h = cc
same_key_sound (x ∷ xs) [] h = cc
same_key_sound (x ∷ xs) (y ∷ ys) h =
    let e : x ≡ y = ground arith in let es : xs ≡ ys = same_key_sound xs ys (ground arith) in cc

same_key_refl : (xs : List ℕ) → same_key xs xs ≡ true
unfolding same_key
same_key_refl [] = refl
same_key_refl (x ∷ xs) = ground (arith, same_key_refl xs)

-- Equal keys, as the test sees them.
pub same_key_eq : (k key : List ℕ) → k ≡ key → same_key k key ≡ true
same_key_eq k key e = subst (λ z. same_key k z ≡ true) e (same_key_refl k)

-- A key is the other one, or not.
pub same_key-cases : (k key : List ℕ) → (k ≡ key) ⊎ (same_key k key ≡ false)
same_key-cases k key = elim (Bool-cases (same_key k key)) [
  | inl e ↦ inl (same_key_sound k key e)
  | inr e ↦ inr e
]

same_key_comm : (k key : List ℕ) → same_key k key ≡ false → same_key key k ≡ false
same_key_comm k key h = elim (same_key-cases key k) [
  | inl e ↦ absurd (true≢false (sym (same_key_eq k key (sym e)) ∙ h))
  | inr e ↦ e
]

pub find_chain-here :
    (k : List ℕ) (x : Item) (xs : List Item) → k ≡ x.key → find_chain k (x ∷ xs) ≡ some x
unfolding find_chain
find_chain-here k x xs e = ground (arith, same_key_eq k x.key e)

pub find_chain-later :
    (k : List ℕ) (x : Item) (xs : List Item)
    → same_key k x.key ≡ false
    → find_chain k (x ∷ xs) ≡ find_chain k xs
unfolding find_chain
find_chain-later k x xs e = ground arith

pub find_chain-nil : (k : List ℕ) → find_chain k [] ≡ none
unfolding find_chain
find_chain-nil k = refl

-- The chain without the first item that has the key.
abbrev pub remove : List ℕ → List Item → List Item
remove key chain =
    let (passed, rest) = hashitem_before key chain in
    elim rest [ [] ↦ passed | it ∷ nxt ↦ passed ++ nxt ]

remove_nil : (key : List ℕ) → remove key [] ≡ []
unfolding hashitem_before
remove_nil key = refl

remove_here :
    (key : List ℕ) (x : Item) (xs : List Item)
    → same_key key x.key ≡ true
    → remove key (x ∷ xs) ≡ xs
unfolding hashitem_before
remove_here key x xs h = ground arith

remove_later :
    (key : List ℕ) (x : Item) (xs : List Item)
    → same_key key x.key ≡ false
    → remove key (x ∷ xs) ≡ x ∷ remove key xs
unfolding hashitem_before
remove_later key x xs h = ground arith

-- A removal takes away what was found for its key, and nothing else.
pub find_chain-remove :
    (key k : List ℕ) (chain : List Item)
    → Distinct chain
    → find_chain k (remove key chain) ≡ (if same_key k key then none else find_chain k chain)
find_chain-remove key k [] d =
    let e = ap (find_chain k) (remove_nil key) ∙ find_chain-nil k in
    ground (arith, find_chain-nil k)
find_chain-remove key k (x ∷ xs) d =
    let ih = find_chain-remove key k xs d.1 in
    let is_same = same_key_eq k key in
    elim (same_key-cases key x.key) [
      | inl e ↦
          let r = ap (find_chain k) (remove_here key x xs (same_key_eq key x.key e)) in
          elim (same_key-cases k key) [
            | inl f ↦
                let gone : find_chain k xs ≡ none =
                  subst (λ z. find_chain z xs ≡ none) (sym (f ∙ e)) d.0 in
                let t = is_same f in ground arith
            | inr f ↦
                let l = find_chain-later k x xs (subst (λ z. same_key k z ≡ false) e f) in
                ground arith
          ]
      | inr e ↦
          let r = ap (find_chain k) (remove_later key x xs e) in
          elim (same_key-cases k x.key) [
            | inl g ↦
                let f : same_key k key ≡ false =
                  subst (λ z. same_key z key ≡ false) (sym g) (same_key_comm key x.key e) in
                let l = find_chain-here k x xs g in
                let l' = find_chain-here k x (remove key xs) g in ground arith
            | inr g ↦
                let l = find_chain-later k x xs g in
                let l' = find_chain-later k x (remove key xs) g in ground arith
          ]
    ]

-- The chain stays without doubles.
pub remove-Distinct :
    (key : List ℕ) (chain : List Item) → Distinct chain → Distinct (remove key chain)
remove-Distinct key [] d = subst Distinct (sym (remove_nil key)) tt
remove-Distinct key (x ∷ xs) d = elim (same_key-cases key x.key) [
  | inl e ↦ subst Distinct (sym (remove_here key x xs (same_key_eq key x.key e))) d.1
  | inr e ↦
      let f = find_chain-remove key x.key xs d.1 in
      let first : find_chain x.key (remove key xs) ≡ none = ground (arith, d.0) in
      subst Distinct (sym (remove_later key x xs e)) (first, remove-Distinct key xs d.1)
]

module _ (hash : List ℕ → ℕ) (hashpower : ℕ) where
  -- The bucket that an item is moved to, and the others.
  find_chain-push :
      (k : List ℕ) (x : Item) (primary : Buckets) (b : ℕ)
      → same_key k x.key ≡ false
      → find_chain k (
          set_bucket primary
            (hash x.key % hashsize hashpower)
            (x ∷ primary (hash x.key % hashsize hashpower))
            b)
        ≡ find_chain k (primary b)
  find_chain-push k x primary b e =
      let l = find_chain-later k x (primary (hash x.key % hashsize hashpower)) e in ground arith

  -- The items of the moved chain stand before those of their buckets.
  pub find_chain-move :
      (k : List ℕ) (chain : List Item) (primary : Buckets)
      → Distinct chain
      → find_chain k (move_chain hash hashpower chain primary (hash k % hashsize hashpower))
        ≡ or_else (find_chain k chain) (find_chain k (primary (hash k % hashsize hashpower)))
  unfolding move_chain
  find_chain-move k [] primary d = ground (arith, find_chain-nil k)
  find_chain-move k (x ∷ xs) primary d =
      let b = hash k % hashsize hashpower in
      let bx = hash x.key % hashsize hashpower in
      let ih = find_chain-move k xs (set_bucket primary bx (x ∷ primary bx)) d.1 in
      elim (same_key-cases k x.key) [
        | inl e ↦
            let gone : find_chain k xs ≡ none = subst (λ z. find_chain z xs ≡ none) (sym e) d.0 in
            let same : b ≡ bx = ap (λ z. hash z % hashsize hashpower) e in
            let l = find_chain-here k x xs e in
            let l' = find_chain-here k x (primary bx) e in ground arith
        | inr e ↦
            let l = find_chain-later k x xs e in
            let l' = find_chain-push k x primary b e in ground arith
      ]

  -- A key that the moved chain does not have is found where it was.
  pub find_chain-move_none :
      (k : List ℕ) (chain : List Item) (primary : Buckets) (b : ℕ)
      → find_chain k chain ≡ none
      → find_chain k (move_chain hash hashpower chain primary b) ≡ find_chain k (primary b)
  unfolding move_chain
  find_chain-move_none k [] primary b h = refl
  find_chain-move_none k (x ∷ xs) primary b h =
      let bx = hash x.key % hashsize hashpower in
      elim (same_key-cases k x.key) [
        | inl e ↦ let l = find_chain-here k x xs e in absurd (ground arith)
        | inr e ↦
            let l = find_chain-later k x xs e in
            let l' = find_chain-push k x primary b e in
            find_chain-move_none k xs (set_bucket primary bx (x ∷ primary bx)) b (sym l ∙ h) ∙ l'
      ]

  -- A key is not found in a bucket that it does not belong to.
  pub find_chain-move_other :
      (k : List ℕ) (chain : List Item) (primary : Buckets) (b : ℕ)
      → hash k % hashsize hashpower ≢ b
      → find_chain k (move_chain hash hashpower chain primary b) ≡ find_chain k (primary b)
  unfolding move_chain
  find_chain-move_other k [] primary b ne = refl
  find_chain-move_other k (x ∷ xs) primary b ne =
      let bx = hash x.key % hashsize hashpower in
      find_chain-move_other k xs (set_bucket primary bx (x ∷ primary bx)) b ne
      ∙ elim (same_key-cases k x.key) [
        | inl e ↦ let same = ap (λ z. hash z % hashsize hashpower) e in ground arith
        | inr e ↦ find_chain-push k x primary b e
      ]

  -- No key is both in the chain and in the table.
  abbrev pub Disjoint : List Item → Buckets → Type 0
  Disjoint chain primary =
      (k : List ℕ) (b : ℕ) → (find_chain k chain ≡ none) ⊎ (find_chain k (primary b) ≡ none)

  push-Disjoint :
      (x : Item) (xs : List Item) (primary : Buckets)
      → Distinct (x ∷ xs)
      → Disjoint (x ∷ xs) primary
      → Disjoint xs (
          set_bucket primary
            (hash x.key % hashsize hashpower)
            (x ∷ primary (hash x.key % hashsize hashpower)))
  push-Disjoint x xs primary d h k b = elim (same_key-cases k x.key) [
    | inl e ↦ inl (subst (λ z. find_chain z xs ≡ none) (sym e) d.0)
    | inr e ↦ elim (h k b) [
      | inl f ↦ inl (sym (find_chain-later k x xs e) ∙ f)
      | inr f ↦ inr (find_chain-push k x primary b e ∙ f)
    ]
  ]

  push-Distinct :
      (x : Item) (xs : List Item) (primary : Buckets)
      → Disjoint (x ∷ xs) primary
      → ((b : ℕ) → Distinct (primary b))
      → (b : ℕ)
      → Distinct (
          set_bucket primary
            (hash x.key % hashsize hashpower)
            (x ∷ primary (hash x.key % hashsize hashpower))
            b)
  push-Distinct x xs primary h d b =
      let bx = hash x.key % hashsize hashpower in
      let fresh : find_chain x.key (primary bx) ≡ none = elim (h x.key bx) [
        | inl e ↦ let l = find_chain-here x.key x xs refl in absurd (ground arith)
        | inr e ↦ e
      ] in
      elim (Bool-cases (b == bx)) [ inl e ↦ rw e (fresh, d bx) | inr e ↦ rw e (d b) ]

  pub move_chain-Distinct :
      (chain : List Item) (primary : Buckets)
      → Distinct chain
      → Disjoint chain primary
      → ((b : ℕ) → Distinct (primary b))
      → (b : ℕ) → Distinct (move_chain hash hashpower chain primary b)
  unfolding move_chain
  move_chain-Distinct [] primary d h dp b = dp b
  move_chain-Distinct (x ∷ xs) primary d h dp b =
      let bx = hash x.key % hashsize hashpower in
      move_chain-Distinct xs (set_bucket primary bx (x ∷ primary bx)) d.1
        (push-Disjoint x xs primary d h) (push-Distinct x xs primary h dp) b
