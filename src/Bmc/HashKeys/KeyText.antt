-- ===== src/Bmc/HashKeys/KeyText.antt =====
-- What the key loop of `bmc_hash_keys_main` reads.
use bmc_cache.Base.{
  ℕ, zero, suc, ◌+◌, ◌≤◌, ◌<◌, ◌≡◌, ◌⊎◌, ◌||◌, List, [], ◌∷◌, ◌==◌, Reads, length, arith,
}
use bmc_cache.Bmc.Types.{Packet, fnv_step}
use bmc_cache.Bmc.Text.{IsKey, fnv_from}
use bmc_cache.Bmc.HashKeys.{Scan, scan_key}

-- The loop reads a key up to the space or the '\r' behind it, from any point of its way.
pub scan_key-Reads :
    (key : List ℕ) (left t : ℕ) (p : Packet) (c : Scan)
    → Reads p.mem (p.start + c.off) key
    → IsKey key
    → p.mem (p.start + c.off + length key) ≡ t
    → (t ≡ b' ') ⊎ (t ≡ b'\r')
    → p.start + c.off + length key + 1 ≤ p.end
    → length key < left
    → scan_key left p c ≡ record {
      hash = fnv_from c.hash key;
      key_len = c.key_len + length key;
      off = c.off + length key;
      done_parsing = t == b'\r' || c.done_parsing;
    }
unfolding scan_key fnv_from
scan_key-Reads key zero t p c r k e d fits more = absurd (omega arith)
scan_key-Reads [] (suc left) t p c r k e d fits more = ground arith
scan_key-Reads (b ∷ key) (suc left) t p c r k e d fits more = ground (
  arith,
  scan_key-Reads key left t p
      (record c { hash = fnv_step c.hash b; key_len = c.key_len + 1; off = c.off + 1 }),
)
