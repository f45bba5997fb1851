-- ===== src/Memcached/Tokens/Covered.antt =====
-- Lists of tokens of a line: in order, and which bytes they hold.
use bmc_cache.Base.{ℕ, ◌+◌, ◌≤◌, ◌<◌, List, [], ◌∷◌, ◌++◌, All, ◌⊎◌, inl, inr, arith}
use bmc_cache.Memcached.Tokens.{Token}

-- The byte at `a` is in one of the tokens.
abbrev pub Covered : List Token → ℕ → Type 0
Covered [] a = ⊥
Covered (t ∷ ts) a = ((t.value ≤ a) × (a < t.value + t.length)) ⊎ Covered ts a

-- Each token begins at least one byte behind the end of the one before it, the first at `low` or
-- behind it.
abbrev pub Increasing : ℕ → List Token → Type 0
Increasing low [] = Unit
Increasing low (t ∷ ts) = (low ≤ t.value) × Increasing (t.value + t.length + 1) ts

-- Every token ends before `s`.
abbrev pub Before : ℕ → List Token → Type 0
Before s ts = All (λ (t : Token). t.value + t.length < s) ts

pub Before-le : (s s' : ℕ) (ts : List Token) → s ≤ s' → Before s ts → Before s' ts
Before-le s s' [] le h = tt
Before-le s s' (t ∷ ts) le h = (omega arith, Before-le s s' ts le h.1)

pub Covered-append :
    (ts : List Token) (t : Token) (a : ℕ) → Covered ts a → Covered (ts ++ (t ∷ [])) a
Covered-append [] t a h = absurd h
Covered-append (u ∷ ts) t a (inl h) = inl h
Covered-append (u ∷ ts) t a (inr h) = inr (Covered-append ts t a h)

pub Covered-last :
    (ts : List Token) (t : Token) (a : ℕ)
    → t.value ≤ a
    → a < t.value + t.length
    → Covered (ts ++ (t ∷ [])) a
Covered-last [] t a lo hi = inl (lo, hi)
Covered-last (u ∷ ts) t a lo hi = inr (Covered-last ts t a lo hi)

pub Increasing-append :
    (low : ℕ) (ts : List Token) (t : Token)
    → Increasing low ts
    → low ≤ t.value
    → Before t.value ts
    → Increasing low (ts ++ (t ∷ []))
Increasing-append low [] t h le b = (le, tt)
Increasing-append low (u ∷ ts) t h le b =
    (h.0, Increasing-append (u.value + u.length + 1) ts t h.1 (omega arith) b.1)
