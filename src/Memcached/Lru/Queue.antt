-- ===== src/Memcached/Lru/Queue.antt =====
-- A new head, and the removal of an address, on lists that are linked both ways.
use bmc_cache.Base.{
  ℕ, List, [], ◌∷◌, ◌++◌, ◌==◌, if◌then◌else◌, All, ◌≡◌, ◌≢◌, ◌↔◌, ◌⊎◌, inl, inr, ap, refl, sym,
  subst, arith, ◌∙◌,
}
use bmc_cache.Memcached.Lru.Segment.{
  Segment, Away, NoDoubles, All-map, All-split, NoDoubles-split, NoDoubles-join, Segment-agree,
  Segment-append, Segment-split, Segment-last, Segment-nonzero, set_link, Segment-set_last,
  Segment-set_first,
}

-- `if (p) p->link = v`
abbrev pub set_if : (ℕ → ℕ) → ℕ → ℕ → ℕ → ℕ
set_if f p v = if p == 0 then f else set_link f p v

pub set_if-zero : (f : ℕ → ℕ) (p v : ℕ) → p ≡ 0 → set_if f p v ≡ f
set_if-zero f p v e = ground arith

pub set_if-nonzero : (f : ℕ → ℕ) (p v : ℕ) → p ≢ 0 → set_if f p v ≡ set_link f p v
set_if-nonzero f p v e = ground arith

-- The addresses from head to tail.
pub record IsQueue (nx pv : ℕ → ℕ) (head tail : ℕ) (xs : List ℕ) : Type 0 where
  pub no_doubles : NoDoubles xs
  pub linked : Segment nx pv head 0 xs 0 tail

module _ (nx pv : ℕ → ℕ) where
  -- A queue without addresses has no head and no tail, another one has both.
  pub IsQueue-ends :
      (head tail : ℕ) (xs : List ℕ) → IsQueue nx pv head tail xs → (head ≡ 0) ↔ (tail ≡ 0)
  IsQueue-ends head tail [] q = let (e, f) = q.linked in (λ h. f, λ h. e)
  IsQueue-ends head tail (x ∷ xs) q =
      let (e, z, b, s) = q.linked in
      let ne : tail ≢ 0 =
        Segment-last (λ a. a ≢ 0) nx pv head 0 x xs 0 tail
          (Segment-nonzero nx pv head 0 (x ∷ xs) 0 tail q.linked) q.linked in
      (λ h. absurd (z (sym e ∙ h)), λ h. absurd (ne h))

  -- The new head.
  push-linked :
      (head tail a : ℕ) (xs : List ℕ)
      → IsQueue nx pv head tail xs
      → a ≢ 0
      → Away a xs
      → Segment
          (set_link nx a head)
          (set_if (set_link pv a 0) head a)
          a
          0
          (a ∷ xs)
          0
          (if tail == 0 then a else tail)
  push-linked head tail a [] q z w =
      let (e, f) = q.linked in (refl, z, ground arith, (ground arith, ground arith))
  push-linked head tail a (x ∷ xs) q z w =
      let (e, zx, b, s) = q.linked in
      let pv1 = set_link pv a 0 in
      let nx1 = set_link nx a head in
      let apart : All (λ y. (nx1 y ≡ nx y) × (pv1 y ≡ pv y)) (x ∷ xs) =
        All-map (λ y. a ≢ y) (λ y. (nx1 y ≡ nx y) × (pv1 y ≡ pv y)) (x ∷ xs)
          (λ y ne. (ground arith, ground arith)) w in
      let kept = Segment-agree nx pv nx1 pv1 head 0 (x ∷ xs) 0 tail apart q.linked in
      let moved = Segment-set_first nx1 pv1 head 0 x xs 0 tail a q.no_doubles kept in
      let ne : tail ≢ 0 =
        Segment-last (λ y. y ≢ 0) nx pv head 0 x xs 0 tail
          (Segment-nonzero nx pv head 0 (x ∷ xs) 0 tail q.linked) q.linked in
      let stays : (if tail == 0 then a else tail) ≡ tail = ground arith in
      let same : set_if pv1 head a ≡ set_link pv1 x a =
        set_if-nonzero pv1 head a (λ h. zx (sym e ∙ h)) ∙ ap (λ y. set_link pv1 y a) e in
      let w0 = w.0 in
      let first : set_link pv1 x a a ≡ 0 = ground arith in
      let at_head : nx1 a ≡ head = ground arith in
      subst (λ t. Segment nx1 (set_if pv1 head a) a 0 (a ∷ x ∷ xs) 0 t) (sym stays)
        (subst (λ f. Segment nx1 f a 0 (a ∷ x ∷ xs) 0 tail) (sym same)
          (
            refl,
            z,
            first,
            subst (λ p. Segment nx1 (set_link pv1 x a) p a (x ∷ xs) 0 tail) (sym at_head) moved,
          ))

  pub IsQueue-push :
      (head tail a : ℕ) (xs : List ℕ)
      → IsQueue nx pv head tail xs
      → a ≢ 0
      → Away a xs
      → IsQueue
          (set_link nx a head)
          (set_if (set_link pv a 0) head a)
          a
          (if tail == 0 then a else tail)
          (a ∷ xs)
  IsQueue-push head tail a xs q z w = record {
    no_doubles = (w, q.no_doubles);
    linked = push-linked head tail a xs q z w;
  }

  -- The part before the address that is taken out.
  pub front-linked :
      (head a k q' : ℕ) (ys : List ℕ)
      → NoDoubles ys
      → Away a ys
      → Segment nx pv head 0 ys a k
      → Segment (set_if nx k q') pv (if head == a then q' else head) 0 ys q' k
  front-linked head a k q' [] d w (e, f) = (ground arith, f)
  front-linked head a k q' (y ∷ ys) d w s =
      let (e, z, b, r) = s in
      let ne : k ≢ 0 =
        Segment-last (λ x. x ≢ 0) nx pv head 0 y ys a k
          (Segment-nonzero nx pv head 0 (y ∷ ys) a k s) s in
      let moved = Segment-set_last nx pv head 0 y ys a k q' d s in
      let stays : (if head == a then q' else head) ≡ head = let w0 = w.0 in ground arith in
      subst (λ f. Segment f pv (if head == a then q' else head) 0 (y ∷ ys) q' k)
        (sym (set_if-nonzero nx k q' ne))
        (subst (λ p. Segment (set_link nx k q') pv p 0 (y ∷ ys) q' k) (sym stays) moved)

  -- The part behind it.
  pub back-linked :
      (a p k tail : ℕ) (zs : List ℕ)
      → NoDoubles zs
      → Away a zs
      → Segment nx pv p a zs 0 tail
      → Segment nx (set_if pv p k) p k zs 0 (if tail == a then k else tail)
  back-linked a p k tail [] d w (e, f) = (e, ground arith)
  back-linked a p k tail (z ∷ zs) d w s =
      let (e, nz, b, r) = s in
      let ne : a ≢ tail = Segment-last (λ x. a ≢ x) nx pv p a z zs 0 tail w s in
      let moved = Segment-set_first nx pv p a z zs 0 tail k d s in
      let stays : (if tail == a then k else tail) ≡ tail = ground arith in
      let same : set_link pv z k ≡ set_if pv p k = sym (
        set_if-nonzero pv p k (λ h. nz (sym e ∙ h))
        ∙ subst (λ x. set_link pv p k ≡ set_link pv x k) e refl) in
      subst (λ t. Segment nx (set_if pv p k) p k (z ∷ zs) 0 t) (sym stays)
        (subst (λ f. Segment nx f p k (z ∷ zs) 0 tail) same moved)

  -- The part before an address is away from the part behind it, and from where that begins.
  pub next-Away :
      (p a tail : ℕ) (ys zs : List ℕ)
      → Segment nx pv p a zs 0 tail
      → All (λ y. y ≢ 0) ys
      → All (λ y. Away y zs) ys
      → All (λ y. y ≢ p) ys
  next-Away p a tail ys [] (e, f) nz w =
      All-map (λ y. y ≢ 0) (λ y. y ≢ p) ys (λ y h g. h (g ∙ e)) nz
  next-Away p a tail ys (z ∷ zs) (e, r, r', r'') nz w =
      All-map (λ y. Away y (z ∷ zs)) (λ y. y ≢ p) ys (λ y h g. h.0 (g ∙ e)) w

  pub prev-Away :
      (head a k : ℕ) (ys zs : List ℕ)
      → Segment nx pv head 0 ys a k
      → All (λ y. y ≢ 0) zs
      → All (λ y. Away y zs) ys
      → All (λ z. z ≢ k) zs
  prev-Away head a k [] zs (e, f) nz w =
      All-map (λ y. y ≢ 0) (λ y. y ≢ k) zs (λ y h g. h (g ∙ f)) nz
  prev-Away head a k (y ∷ ys) zs s nz w =
      All-map (λ z. k ≢ z) (λ z. z ≢ k) zs (λ z h g. h (sym g))
        (Segment-last (λ x. Away x zs) nx pv head 0 y ys a k w s)

  -- The two parts, joined.
  parts-joined :
      (head tail a : ℕ) (ys zs : List ℕ)
      → NoDoubles ys × NoDoubles zs × Away a zs × Away a ys × All (λ y. Away y zs) ys
      → Segment nx pv head 0 ys a (pv a)
      → Segment nx pv (nx a) a zs 0 tail
      → Segment
          (set_if nx (pv a) (nx a))
          (set_if pv (nx a) (pv a))
          (if head == a then nx a else head)
          0
          (ys ++ zs)
          0
          (if tail == a then pv a else tail)
  parts-joined head tail a ys zs (dy, dz, wz, wy, apart) front back =
      let nx' = set_if nx (pv a) (nx a) in
      let pv' = set_if pv (nx a) (pv a) in
      let head' : ℕ = if head == a then nx a else head in
      let tail' : ℕ = if tail == a then pv a else tail in
      let ny = Segment-nonzero nx pv head 0 ys a (pv a) front in
      let nz = Segment-nonzero nx pv (nx a) a zs 0 tail back in
      let before = front-linked head a (pv a) (nx a) ys dy wy front in
      let behind = back-linked a (nx a) (pv a) tail zs dz wz back in
      let away_y = next-Away (nx a) a tail ys zs back ny apart in
      let away_z = prev-Away head a (pv a) ys zs front nz apart in
      Segment-append nx' pv' head' 0 ys zs (nx a) (pv a) 0 tail'
        (Segment-agree nx' pv nx' pv' head' 0 ys (nx a) (pv a)
          (All-map (λ y. y ≢ nx a) (λ y. (nx' y ≡ nx' y) × (pv' y ≡ pv y)) ys
            (λ y h. (refl, ground arith)) away_y)
          before)
        (Segment-agree nx pv' nx' pv' (nx a) (pv a) zs 0 tail'
          (All-map (λ z. z ≢ pv a) (λ z. (nx' z ≡ nx z) × (pv' z ≡ pv' z)) zs
            (λ z h. (ground arith, refl)) away_z)
          behind)

  -- An address taken out.
  pub IsQueue-remove :
      (head tail a : ℕ) (ys zs : List ℕ)
      → IsQueue nx pv head tail (ys ++ (a ∷ zs))
      → IsQueue
          (set_if nx (pv a) (nx a))
          (set_if pv (nx a) (pv a))
          (if head == a then nx a else head)
          (if tail == a then pv a else tail)
          (ys ++ zs)
  IsQueue-remove head tail a ys zs q =
      let (m, k, front, (e, z, b, back)) = Segment-split nx pv head 0 ys (a ∷ zs) 0 tail q.linked in
      let (dy, (wz, dz), apart) = NoDoubles-split ys (a ∷ zs) q.no_doubles in
      let wy = All-map (λ y. Away y (a ∷ zs)) (λ y. a ≢ y) ys (λ y h g. h.0 (sym g)) apart in
      let apart' = All-map (λ y. Away y (a ∷ zs)) (λ y. Away y zs) ys (λ y h. h.1) apart in
      let front' =
        subst (λ x. Segment nx pv head 0 ys x (pv a)) e
          (subst (λ x. Segment nx pv head 0 ys m x) (sym b) front) in
      record {
        no_doubles = NoDoubles-join ys zs dy dz apart';
        linked = parts-joined head tail a ys zs (dy, dz, wz, wy, apart') front' back;
      }

  -- A queue is the same by other links that agree on its addresses.
  pub IsQueue-agree :
      (nx' pv' : ℕ → ℕ) (head tail head' tail' : ℕ) (xs : List ℕ)
      → IsQueue nx pv head tail xs
      → All (λ a. (nx' a ≡ nx a) × (pv' a ≡ pv a)) xs
      → head' ≡ head
      → tail' ≡ tail
      → IsQueue nx' pv' head' tail' xs
  IsQueue-agree nx' pv' head tail head' tail' xs q h e f =
      subst (λ x. IsQueue nx' pv' x tail' xs) (sym e)
        (subst (λ x. IsQueue nx' pv' head x xs) (sym f)
          (record {
            no_doubles = q.no_doubles;
            linked = Segment-agree nx pv nx' pv' head 0 xs 0 tail h q.linked;
          }))

  -- The neighbours of an address are none, or in the queue.
  pub IsQueue-neighbours {κ} :
      (P : ℕ → Type κ) (head tail a : ℕ) (ys zs : List ℕ)
      → IsQueue nx pv head tail (ys ++ (a ∷ zs))
      → All P (ys ++ (a ∷ zs))
      → ((nx a ≡ 0) ⊎ P (nx a)) × ((pv a ≡ 0) ⊎ P (pv a))
  IsQueue-neighbours P head tail a ys zs q h =
      let (m, k, front, (e, z, b, back)) = Segment-split nx pv head 0 ys (a ∷ zs) 0 tail q.linked in
      let (hy, hz) = All-split P ys (a ∷ zs) h in
      (
        next-neighbour P a tail zs back hz.1,
        subst (λ x. (x ≡ 0) ⊎ P x) (sym b) (prev-neighbour P head m k ys front hy),
      )
    where
      next-neighbour :
          (P : ℕ → Type κ) (a tail : ℕ) (zs : List ℕ)
          → Segment nx pv (nx a) a zs 0 tail
          → All P zs
          → (nx a ≡ 0) ⊎ P (nx a)
      next-neighbour P a tail [] (e, f) h = inl e
      next-neighbour P a tail (z ∷ zs) (e, r, r', r'') h = inr (subst P (sym e) h.0)

      prev-neighbour :
          (P : ℕ → Type κ) (head m k : ℕ) (ys : List ℕ)
          → Segment nx pv head 0 ys m k
          → All P ys
          → (k ≡ 0) ⊎ P k
      prev-neighbour P head m k [] (e, f) h = inl f
      prev-neighbour P head m k (y ∷ ys) s h = inr (Segment-last P nx pv head 0 y ys m k h s)
