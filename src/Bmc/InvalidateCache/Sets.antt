-- ===== src/Bmc/InvalidateCache/Sets.antt =====
-- A set command leaves no valid entry in the slot of its key.
use bmc_cache.Base.{ℕ, ◌+◌, ◌≡◌, List, [], ◌∷◌, ◌++◌}
use bmc_cache.Bmc.Types.{Packet}
use bmc_cache.Bmc.InvalidateCache.{Scan}
use bmc_cache.Bmc.InvalidateCache.Commands.{Fits}

-- A command behind bytes that begin none: "set", one more byte, spaces, the key and a space.
abbrev pub set_text : List ℕ → ℕ → List ℕ → List ℕ → List ℕ
set_text junk sep gap key = junk ++ (b's' ∷ b'e' ∷ b't' ∷ sep ∷ (gap ++ (key ++ (b' ' ∷ []))))

module _ (p : Packet) (payload : ℕ) where
  -- The rounds that are left when the scan reaches `n` more bytes.
  abbrev Ready : ℕ → Scan → ℕ → ℕ → Type 0
  Ready left c n total = (total ≡ n + left) × Fits p payload c n
