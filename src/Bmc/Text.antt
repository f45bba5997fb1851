-- ===== src/Bmc/Text.antt =====
-- The text of keys in requests and replies, and the hash of a key.
use bmc_cache.Base.{Reads, length, ℕ, ◌≢◌, List, [], ◌∷◌, All, ◌≡◌, ◌<◌, ◌^◌, arith}
use bmc_cache.Bmc.Types.{Key, fnv_offset_basis, fnv_step}

-- A byte that ends no key in any of the programs.
abbrev pub IsKeyByte : ℕ → Type 0
IsKeyByte c = (c ≢ b' ') × (c ≢ b'\r')

abbrev pub IsKey : List ℕ → Type 0
IsKey = All IsKeyByte

-- The hash of a text, from a start value.
unfoldable pub fnv_from : ℕ → List ℕ → ℕ
fnv_from h [] = h
fnv_from h (c ∷ cs) = fnv_from (fnv_step h c) cs

unfoldable pub fnv : List ℕ → ℕ
fnv cs = fnv_from fnv_offset_basis cs

pub fnv_step-lt : (h c : ℕ) → fnv_step h c < 2 ^ 32
unfolding fnv_step
fnv_step-lt h c = omega arith

-- A saved key: its text, its length and its hash.
abbrev pub Saves : Key → List ℕ → Type 0
Saves k key = Reads k.data_ 0 key × (k.len ≡ length key) × (k.hash ≡ fnv key)
