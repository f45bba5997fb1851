-- ===== src/Bmc/Hashes.antt =====
-- The key of a request and the key of a reply lead to the same slot.
use bmc_cache.Base.{ℕ, ◌+◌, ◌≤◌, ◌≡◌, ◌⊎◌, ◌∙◌, sym, ap, List, Reads, Reads-at, length, arith, ◌++◌}
use bmc_cache.Bmc.Types.{Packet, max_key_length, fnv_offset_basis}
use bmc_cache.Bmc.Text.{IsKey, fnv}
use bmc_cache.Bmc.HashKeys.{Scan, scan_key, start_scan}
use bmc_cache.Bmc.HashKeys.KeyText.{scan_key-Reads}
use bmc_cache.Bmc.UpdateCache.{hash_reply}
use bmc_cache.Bmc.UpdateCache.Fill.{value_line, hash_reply-value_line}

-- A key of at most `max_key_length` bytes has one hash: that which `bmc_hash_keys_main` computes
-- of a request with the key, up to a space or '\r' behind it, is that which
-- `bmc_update_cache_main` computes of a reply for the key.
pub scan_key-eq-hash_reply :
    (p q : Packet) (payload t : ℕ) (key rest tail : List ℕ)
    → IsKey key
    → length key ≤ max_key_length
    → Reads p.mem p.start key
    → p.mem (p.start + length key) ≡ t
    → (t ≡ b' ') ⊎ (t ≡ b'\r')
    → p.start + length key + 1 ≤ p.end
    → Reads q.mem payload (value_line key rest ++ tail)
    → payload + 6 + length key ≤ q.end
    → (scan_key 251 p start_scan).hash ≡ hash_reply q payload max_key_length 6 fnv_offset_basis
unfolding fnv
scan_key-eq-hash_reply p q payload t key rest tail k short r at ends fits reply fits' =
    let read =
      scan_key-Reads key 251 t p start_scan (Reads-at p.mem key {b = p.start + 0} (omega arith) r) k
        (ground (arith, at)) ends (omega arith) (omega arith) in
    ap (λ (c : Scan). c.hash) read
    ∙ sym (hash_reply-value_line q payload key rest tail reply k short fits')
