-- ===== src/Memcached/Lru/Segment.antt =====
-- Pieces of a list that is linked both ways, by the two links of each address.
use bmc_cache.Base.{
  ℕ, List, [], ◌∷◌, ◌++◌, ◌==◌, if◌then◌else◌, All, ◌≡◌, ◌≢◌, refl, sym, subst, arith, ◌∙◌,
}

-- From `p`, reached from `prev`, over the addresses of the list to `q`; `last` is the one before.
abbrev pub Segment : (ℕ → ℕ) → (ℕ → ℕ) → ℕ → ℕ → List ℕ → ℕ → ℕ → Type 0
Segment nx pv p prev [] q last = (p ≡ q) × (last ≡ prev)
Segment nx pv p prev (a ∷ xs) q last =
    (p ≡ a) × (a ≢ 0) × (pv a ≡ prev) × Segment nx pv (nx a) a xs q last

-- The address is not one of the list.
abbrev pub Away : ℕ → List ℕ → Type 0
Away x = All (λ a. x ≢ a)

abbrev pub NoDoubles : List ℕ → Type 0
NoDoubles [] = Unit
NoDoubles (a ∷ xs) = Away a xs × NoDoubles xs

pub All-map {ℓ κ} :
    {A : Type ℓ} (P Q : A → Type κ) (xs : List A) → ((x : A) → P x → Q x) → All P xs → All Q xs
All-map P Q [] f h = tt
All-map P Q (x ∷ xs) f h = (f x h.0, All-map P Q xs f h.1)

pub All-append {ℓ κ} :
    {A : Type ℓ} (P : A → Type κ) (xs ys : List A) → All P xs → All P ys → All P (xs ++ ys)
All-append P [] ys hx hy = hy
All-append P (x ∷ xs) ys hx hy = (hx.0, All-append P xs ys hx.1 hy)

pub All-split {ℓ κ} :
    {A : Type ℓ} (P : A → Type κ) (xs ys : List A) → All P (xs ++ ys) → All P xs × All P ys
All-split P [] ys h = (tt, h)
All-split P (x ∷ xs) ys h = let (l, r) = All-split P xs ys h.1 in ((h.0, l), r)

-- What a list without doubles says of its two parts.
pub NoDoubles-split :
    (xs ys : List ℕ) → NoDoubles (xs ++ ys) → NoDoubles xs × NoDoubles ys × All (λ x. Away x ys) xs
NoDoubles-split [] ys d = (tt, d, tt)
NoDoubles-split (x ∷ xs) ys d =
    let (l, r, a) = NoDoubles-split xs ys d.1 in
    let (ax, ay) = All-split (λ z. x ≢ z) xs ys d.0 in ((ax, l), r, (ay, a))

pub NoDoubles-join :
    (xs ys : List ℕ) → NoDoubles xs → NoDoubles ys → All (λ x. Away x ys) xs → NoDoubles (xs ++ ys)
NoDoubles-join [] ys l r a = r
NoDoubles-join (x ∷ xs) ys l r a =
    (All-append (λ z. x ≢ z) xs ys l.0 a.0, NoDoubles-join xs ys l.1 r a.1)

-- Links of other addresses do not matter.
pub Segment-agree :
    (nx pv nx' pv' : ℕ → ℕ) (p prev : ℕ) (xs : List ℕ) (q last : ℕ)
    → All (λ a. (nx' a ≡ nx a) × (pv' a ≡ pv a)) xs
    → Segment nx pv p prev xs q last
    → Segment nx' pv' p prev xs q last
Segment-agree nx pv nx' pv' p prev [] q last h s = s
Segment-agree nx pv nx' pv' p prev (a ∷ xs) q last h (e, z, b, r) =
    let (hn, hp) = h.0 in
    let ih = Segment-agree nx pv nx' pv' (nx a) a xs q last h.1 r in
    (e, z, hp ∙ b, subst (λ m. Segment nx' pv' m a xs q last) (sym hn) ih)

-- Two pieces that meet are one piece.
pub Segment-append :
    (nx pv : ℕ → ℕ) (p prev : ℕ) (xs ys : List ℕ) (m k q last : ℕ)
    → Segment nx pv p prev xs m k
    → Segment nx pv m k ys q last
    → Segment nx pv p prev (xs ++ ys) q last
Segment-append nx pv p prev [] ys m k q last (e, f) r =
    subst (λ z. Segment nx pv z prev ys q last) (sym e)
      (subst (λ z. Segment nx pv m z ys q last) f r)
Segment-append nx pv p prev (a ∷ xs) ys m k q last (e, z, b, s) r =
    (e, z, b, Segment-append nx pv (nx a) a xs ys m k q last s r)

-- A piece can be cut anywhere.
pub Segment-split :
    (nx pv : ℕ → ℕ) (p prev : ℕ) (xs ys : List ℕ) (q last : ℕ)
    → Segment nx pv p prev (xs ++ ys) q last
    → (m : ℕ) × (k : ℕ) × Segment nx pv p prev xs m k × Segment nx pv m k ys q last
Segment-split nx pv p prev [] ys q last s = (p, prev, (refl, refl), s)
Segment-split nx pv p prev (a ∷ xs) ys q last (e, z, b, s) =
    let (m, k, l, r) = Segment-split nx pv (nx a) a xs ys q last s in (m, k, (e, z, b, l), r)

-- What every address of a piece has, its last one has.
pub Segment-last {κ} :
    (P : ℕ → Type κ) (nx pv : ℕ → ℕ) (p prev x : ℕ) (xs : List ℕ) (q last : ℕ)
    → All P (x ∷ xs)
    → Segment nx pv p prev (x ∷ xs) q last
    → P last
Segment-last P nx pv p prev x [] q last h (e, z, b, (f, l)) = subst P (sym l) h.0
Segment-last P nx pv p prev x (y ∷ xs) q last h (e, z, b, s) =
    Segment-last P nx pv (nx x) x y xs q last h.1 s

pub Segment-nonzero :
    (nx pv : ℕ → ℕ) (p prev : ℕ) (xs : List ℕ) (q last : ℕ)
    → Segment nx pv p prev xs q last
    → All (λ a. a ≢ 0) xs
Segment-nonzero nx pv p prev [] q last s = tt
Segment-nonzero nx pv p prev (a ∷ xs) q last (e, z, b, s) =
    (z, Segment-nonzero nx pv (nx a) a xs q last s)

abbrev pub set_link : (ℕ → ℕ) → ℕ → ℕ → ℕ → ℕ
set_link f p v a = if a == p then v else f a

-- A link away from a list.
pub set_link-Away :
    (nx pv : ℕ → ℕ) (p v : ℕ) (xs : List ℕ)
    → Away p xs
    → All (λ a. (set_link nx p v a ≡ nx a) × (pv a ≡ pv a)) xs
set_link-Away nx pv p v xs h =
    All-map (λ a. p ≢ a) (λ a. (set_link nx p v a ≡ nx a) × (pv a ≡ pv a)) xs
      (λ a ne. (ground arith, refl)) h

pub set_link_prev-Away :
    (nx pv : ℕ → ℕ) (p v : ℕ) (xs : List ℕ)
    → Away p xs
    → All (λ a. (nx a ≡ nx a) × (set_link pv p v a ≡ pv a)) xs
set_link_prev-Away nx pv p v xs h =
    All-map (λ a. p ≢ a) (λ a. (nx a ≡ nx a) × (set_link pv p v a ≡ pv a)) xs
      (λ a ne. (refl, ground arith)) h

-- The forward link of the last address set to another one.
pub Segment-set_last :
    (nx pv : ℕ → ℕ) (p prev x : ℕ) (xs : List ℕ) (q last q' : ℕ)
    → NoDoubles (x ∷ xs)
    → Segment nx pv p prev (x ∷ xs) q last
    → Segment (set_link nx last q') pv p prev (x ∷ xs) q' last
Segment-set_last nx pv p prev x [] q last q' d (e, z, b, (f, l)) = (e, z, b, (ground arith, l))
Segment-set_last nx pv p prev x (y ∷ xs) q last q' d (e, z, b, s) =
    let ne : x ≢ last = Segment-last (λ a. x ≢ a) nx pv (nx x) x y xs q last d.0 s in
    let same : set_link nx last q' x ≡ nx x = ground arith in
    let ih = Segment-set_last nx pv (nx x) x y xs q last q' d.1 s in
    (e, z, b, subst (λ m. Segment (set_link nx last q') pv m x (y ∷ xs) q' last) (sym same) ih)

-- The back link of the first address set to another one.
pub Segment-set_first :
    (nx pv : ℕ → ℕ) (p prev x : ℕ) (xs : List ℕ) (q last prev' : ℕ)
    → NoDoubles (x ∷ xs)
    → Segment nx pv p prev (x ∷ xs) q last
    → Segment nx (set_link pv x prev') p prev' (x ∷ xs) q last
Segment-set_first nx pv p prev x xs q last prev' d (e, z, b, s) = (
  e,
  z,
  ground arith,
  Segment-agree nx pv nx (set_link pv x prev') (nx x) x xs q last
      (set_link_prev-Away nx pv x prev' xs d.0) s,
)
