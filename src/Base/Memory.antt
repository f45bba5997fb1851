-- ===== src/Base/Memory.antt =====
-- Byte-addressed memory, arrays of fixed size, and the slots of a kernel map, as functions.
use Prim.Native.Nat.{ℕ, zero, suc, ◌+◌, ◌-◌, ◌<◌, ◌≤◌}
use mathlib.Core.Path.{◌≡◌, refl, subst, ◌∙◌, fun_ext}
use mathlib.Core.Bool.{◌&&◌}
use mathlib.Core.Option.{Option, some}
use mathlib.Core.List.{List, [], ◌∷◌, ◌++◌}
use native.Mathlib.Nat.{add-zero}
use native.Mathlib.Omega.{arith}
use bmc_cache.Base.Tests.{ltb, leb, ◌==◌, if◌then◌else◌}

abbrev pub Mem : Type 0
Mem = ℕ → ℕ

-- m[a] = v
abbrev pub write : Mem → ℕ → ℕ → Mem
write m a v b = if b == a then v else m b

-- memcpy and memmove of `n` bytes from `src` to `dst`; the source is read before the write.
abbrev pub copy_range : Mem → ℕ → Mem → ℕ → ℕ → Mem
copy_range m dst from src n a = if leb dst a && ltb a (dst + n) then from (src + (a - dst)) else m a

-- A map's slots: `none` is the NULL of a lookup.
abbrev pub Slots : Type 0 → Type 0
Slots V = ℕ → Option V

-- A write through the pointer that a lookup at `i` gave.
abbrev pub update : {V : Type 0} → Slots V → ℕ → V → Slots V
update m i v j = if j == i then some v else m j

module _ {ℓ} {A : Type ℓ} where
  abbrev pub length : List A → ℕ
  length [] = 0
  length (x ∷ xs) = suc (length xs)

-- The bytes of `m` from `a` on begin with the list.
abbrev pub Reads : Mem → ℕ → List ℕ → Type 0
Reads m a [] = Unit
Reads m a (c ∷ cs) = (m a ≡ c) × Reads m (a + 1) cs

abbrev pub All {ℓ κ} : {A : Type ℓ} → (A → Type κ) → List A → Type κ
All P [] = Unit
All P (x ∷ xs) = P x × All P xs

-- The bytes of the list, in a memory that is zero elsewhere: for tests.
abbrev pub from_list : List ℕ → Mem
from_list [] a = 0
from_list (c ∷ cs) zero = c
from_list (c ∷ cs) (suc a) = from_list cs a

pub length-append {ℓ} : {A : Type ℓ} (xs ys : List A) → length (xs ++ ys) ≡ length xs + length ys
length-append [] ys = omega arith
length-append (x ∷ xs) ys = omega (arith, length-append xs ys)

pub Reads-append :
    (m : Mem) (a : ℕ) (xs ys : List ℕ)
    → Reads m a (xs ++ ys)
    → Reads m a xs × Reads m (a + length xs) ys
Reads-append m a [] ys r = (tt, rw add-zero r)
Reads-append m a (x ∷ xs) ys r =
    let parts = Reads-append m (a + 1) xs ys r.1 in
    let e : a + 1 + length xs ≡ a + suc (length xs) = omega arith in
    ((r.0, parts.0), rw e at (parts.1))

pub Reads-at : (m : Mem) (xs : List ℕ) {a b : ℕ} → a ≡ b → Reads m a xs → Reads m b xs
Reads-at m xs e r = subst (λ k. Reads m k xs) e r

-- Two places that hold the same text agree byte by byte.
pub Reads-agree :
    (m n : Mem) (xs : List ℕ) (a b j : ℕ)
    → Reads m a xs
    → Reads n b xs
    → j < length xs
    → m (a + j) ≡ n (b + j)
Reads-agree m n [] a b j r q h = absurd (omega arith)
Reads-agree m n (x ∷ xs) a b zero r q h = rw (add-zero, add-zero, r.0, q.0)
Reads-agree m n (x ∷ xs) a b (suc j) r q h =
    let ih = Reads-agree m n xs (a + 1) (b + 1) j r.1 q.1 (omega arith) in
    let ea : a + suc j ≡ a + 1 + j = omega arith in
    let eb : b + suc j ≡ b + 1 + j = omega arith in rw (ea, eb) ih

-- What agrees byte by byte with a text holds it.
pub Reads-of_agree :
    (m n : Mem) (xs : List ℕ) (a b : ℕ)
    → Reads m a xs
    → ((j : ℕ) → j < length xs → n (b + j) ≡ m (a + j))
    → Reads n b xs
Reads-of_agree m n [] a b r h = tt
Reads-of_agree m n (x ∷ xs) a b r h =
    let first : n b ≡ m a = rw (add-zero, add-zero) at (h 0 (omega arith)) in
    (
      first ∙ r.0,
      Reads-of_agree m n xs (a + 1) (b + 1) r.1 (λ j lt.
          let ea : a + 1 + j ≡ a + suc j = omega arith in
          let eb : b + 1 + j ≡ b + suc j = omega arith in rw (ea, eb) (h (suc j) (omega arith))),
    )

pub copy_range-none : (m : Mem) (dst : ℕ) (from : Mem) (src : ℕ) → copy_range m dst from src 0 ≡ m
copy_range-none m dst from src = fun_ext (λ a. ground arith)

-- A copy to the front of an array grows by one byte.
pub copy_range-write :
    (d : Mem) (from : Mem) (src k : ℕ)
    → write (copy_range d 0 from src k) k (from (src + k)) ≡ copy_range d 0 from src (k + 1)
copy_range-write d from src k = fun_ext (λ a. ground arith)

pub Reads-join :
    (m : Mem) (a : ℕ) (xs ys : List ℕ)
    → Reads m a xs
    → Reads m (a + length xs) ys
    → Reads m a (xs ++ ys)
Reads-join m a [] ys l r = Reads-at m ys {b = a} (omega arith) r
Reads-join m a (x ∷ xs) ys l r =
    (l.0, Reads-join m (a + 1) xs ys l.1 (Reads-at m ys {b = a + 1 + length xs} (omega arith) r))

-- memcpy of the bytes of a list.
abbrev pub write_text : Mem → ℕ → List ℕ → Mem
write_text m a [] = m
write_text m a (x ∷ xs) = write_text (write m a x) (a + 1) xs

-- What is written behind an address does not change it.
pub write_text-other : (m : Mem) (a b : ℕ) (xs : List ℕ) → b < a → write_text m a xs b ≡ m b
write_text-other m a b [] lt = refl
write_text-other m a b (x ∷ xs) lt =
    write_text-other (write m a x) (a + 1) b xs (omega arith) ∙ ground arith

pub write_text-behind :
    (m : Mem) (a b : ℕ) (xs : List ℕ) → a + length xs ≤ b → write_text m a xs b ≡ m b
write_text-behind m a b [] le = refl
write_text-behind m a b (x ∷ xs) le =
    write_text-behind (write m a x) (a + 1) b xs (omega arith) ∙ ground arith

pub write_text-Reads : (m : Mem) (a : ℕ) (xs : List ℕ) → Reads (write_text m a xs) a xs
write_text-Reads m a [] = tt
write_text-Reads m a (x ∷ xs) = (
  write_text-other (write m a x) (a + 1) a xs (omega arith) ∙ ground arith,
  write_text-Reads (write m a x) (a + 1) xs,
)
