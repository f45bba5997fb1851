-- ===== src/Memcached/Tokens/Split.antt =====
-- The tokens of memcached-sr/memcached.c's `tokenize_command` are the words of the line.
use bmc_cache.Base.{ℕ, ◌+◌, ◌≤◌, ◌<◌, List, Mem, length, All, ◌≡◌, ◌≢◌, ◌⊎◌}
use bmc_cache.Memcached.Tokens.Covered.{Covered, Increasing}
use bmc_cache.Memcached.Tokens.{Token}
use bmc_cache.Memcached.Tokens.Words.{IsWord}

module _ (m : Mem) (command stop max_tokens : ℕ) where
  -- What the tokens `ts` are of the line, where the text is `mem` afterwards and `e` is where the
  -- scan ended.
  pub record IsSplit (mem : Mem) (ts : List Token) (e : ℕ) : Type 0 where
    pub few : length ts < max_tokens
    pub words : All (IsWord m command stop mem) ts
    pub in_order : Increasing command ts
    pub inside : e ≤ stop
    pub ended : (e ≡ stop) ⊎ (length ts + 1 ≡ max_tokens)
    pub complete : (a : ℕ) → command ≤ a → a < e → m a ≢ b' ' → Covered ts a
    pub cuts : (a : ℕ) → (mem a ≡ m a) ⊎ ((m a ≡ b' ') × (mem a ≡ 0))
