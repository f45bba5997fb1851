-- ===== src/Bmc/Kernel.antt =====
-- What BMC relies on of the kernel's helpers: parameters of the programs, and documented
-- behaviour of them, by name.
use bmc_cache.Base.{
  ℕ, ◌+◌, ◌-◌, ◌≤◌, ◌<◌, ◌≡◌, ◌&&◌, Option, none, some, ltb, leb, if◌then◌else◌, ℤ, pos_part,
  neg_part, arith,
}
use bmc_cache.Bmc.Types.{Packet, eth_size}

-- `bpf_xdp_adjust_head` and `bpf_xdp_adjust_tail`; `none` is a result other than zero.
abbrev pub Adjust : Type 0
Adjust = Packet → ℤ → Option Packet

-- The head moves to any place from the start of the buffer to an Ethernet header before the end,
-- and the bytes stay where they are.
abbrev pub AdjustsHead : ℕ → Adjust → Type 0
AdjustsHead buffer adjust_head =
    (p : Packet) (d : ℤ) (n : ℕ)
    → buffer ≤ n
    → n + eth_size ≤ p.end
    → n + neg_part d ≡ p.start + pos_part d
    → adjust_head p d ≡ some (record p { start = n })

-- The tail moves back to any place from an Ethernet header behind the start on.
abbrev pub AdjustsTail : Adjust → Type 0
AdjustsTail adjust_tail =
    (p : Packet) (d : ℤ) (n : ℕ)
    → p.start + eth_size ≤ n
    → n < p.end
    → n + neg_part d ≡ p.end + pos_part d
    → adjust_tail p d ≡ some (record p { end = n })

-- Helpers that do this and fail otherwise: the assumptions can be met.
abbrev pub bounded_head : ℕ → Adjust
bounded_head buffer p d =
    let n = p.start + pos_part d - neg_part d in
    if leb (buffer + neg_part d) (p.start + pos_part d) && leb (n + eth_size) p.end
    then some (record p { start = n })
    else none

abbrev pub bounded_tail : Adjust
bounded_tail p d =
    let n = p.end + pos_part d - neg_part d in
    if leb (p.start + eth_size + neg_part d) (p.end + pos_part d) && ltb n p.end
    then some (record p { end = n })
    else none

pub bounded_head-AdjustsHead : (buffer : ℕ) → AdjustsHead buffer (bounded_head buffer)
bounded_head-AdjustsHead buffer p d n lo hi e = ground arith

pub bounded_tail-AdjustsTail : AdjustsTail bounded_tail
bounded_tail-AdjustsTail p d n lo hi e = ground arith
