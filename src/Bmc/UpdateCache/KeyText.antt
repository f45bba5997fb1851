-- ===== src/Bmc/UpdateCache/KeyText.antt =====
-- What the key loop of `bmc_update_cache_main` reads.
use bmc_cache.Base.{ℕ, zero, suc, ◌+◌, ◌≤◌, ◌≡◌, List, [], ◌∷◌, Reads, length, arith}
use bmc_cache.Bmc.Types.{Packet, fnv_step}
use bmc_cache.Bmc.Text.{IsKey, fnv_from}
use bmc_cache.Bmc.UpdateCache.{hash_reply}

-- The loop hashes a key up to the space behind it.
pub hash_reply-Reads :
    (key : List ℕ) (left off hash : ℕ) (p : Packet) (payload : ℕ)
    → Reads p.mem (payload + off) key
    → IsKey key
    → p.mem (payload + off + length key) ≡ b' '
    → payload + off + length key ≤ p.end
    → length key ≤ left
    → hash_reply p payload left off hash ≡ fnv_from hash key
unfolding hash_reply fnv_from
hash_reply-Reads [] zero off hash p payload r k e fits more = ground arith
hash_reply-Reads [] (suc left) off hash p payload r k e fits more = ground arith
hash_reply-Reads (b ∷ key) zero off hash p payload r k e fits more = absurd (omega arith)
hash_reply-Reads (b ∷ key) (suc left) off hash p payload r k e fits more =
    ground (arith, hash_reply-Reads key left (off + 1) (fnv_step hash b) p payload)
