-- ===== src/Base/Word.antt =====
-- Casts to the fixed widths, and loads and stores of two bytes in either order.
use Prim.Native.Nat.{ℕ, ◌+◌, ◌-◌, ◌*◌, ◌/◌, ◌%◌, ◌^◌}
use bmc_cache.Base.Memory.{Mem, write}
use bmc_cache.Base.Tests.{ltb, if◌then◌else◌}

abbrev pub u8 : ℕ → ℕ
u8 n = n % 2 ^ 8

abbrev pub u16 : ℕ → ℕ
u16 n = n % 2 ^ 16

abbrev pub u32 : ℕ → ℕ
u32 n = n % 2 ^ 32

-- A `char` is signed: as an operand of a 32-bit operation it is extended by its sign.
abbrev pub sign_extend : ℕ → ℕ
sign_extend c = if ltb c 128 then c else c + 2 ^ 32 - 256

-- A 16-bit field in network order, and in the order of the (little-endian) machine.
abbrev pub load_be16 : Mem → ℕ → ℕ
load_be16 m a = m a * 256 + m (a + 1)

abbrev pub load_le16 : Mem → ℕ → ℕ
load_le16 m a = m a + m (a + 1) * 256

abbrev pub store_be16 : Mem → ℕ → ℕ → Mem
store_be16 m a v = write (write m a (u16 v / 256)) (a + 1) (u8 v)

abbrev pub store_le16 : Mem → ℕ → ℕ → Mem
store_le16 m a v = write (write m a (u8 v)) (a + 1) (u16 v / 256)
