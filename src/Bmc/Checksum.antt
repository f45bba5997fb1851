-- ===== src/Bmc/Checksum.antt =====
-- `compute_ip_checksum`.
pub mod Valid
use bmc_cache.Base.{ℕ, zero, suc, ◌+◌, ◌-◌, ◌/◌, ◌%◌, ◌^◌, Mem, load_le16, store_le16, u16, u32}

-- The loop that sums `left` words of 16 bits from the address `a` on, in a `u32`.
unfoldable pub sum_words : ℕ → Mem → ℕ → ℕ → ℕ
sum_words zero m a csum = csum
sum_words (suc left) m a csum = sum_words left m (a + 2) (u32 (csum + load_le16 m a))

-- ~((csum & 0xffff) + (csum >> 16)), cut to 16 bits by the return type.
unfoldable pub fold_checksum : ℕ → ℕ
fold_checksum csum = u16 (2 ^ 32 - 1 - u32 (csum % 2 ^ 16 + csum / 2 ^ 16))

-- `ip->check` is at offset 10 of the header, and is zeroed before the sum.
unfoldable pub zero_check : Mem → ℕ → Mem
zero_check m ip = store_le16 m (ip + 10) 0

unfoldable pub compute_ip_checksum : Mem → ℕ → ℕ
compute_ip_checksum m ip = fold_checksum (sum_words 10 (zero_check m ip) ip 0)
