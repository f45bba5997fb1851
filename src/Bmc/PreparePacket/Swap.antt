-- ===== src/Bmc/PreparePacket/Swap.antt =====
-- The headers of a reply: source and destination change places, and nothing else moves.
use bmc_cache.Bmc.Types.{eth_size, ip_size}
use bmc_cache.Base.{
  ◌⊎◌, inl, inr, sym, Bool-cases, refl, ℕ, ◌+◌, ◌-◌, ◌≤◌, ◌<◌, ◌≡◌, ◌∙◌, ap, fun_ext, ◌&&◌, ltb,
  leb, if◌then◌else◌, Mem, arith,
}
use bmc_cache.Bmc.PreparePacket.{swap_range, swap_addresses}

-- Where the byte at `b` comes from when the `n` bytes at `lo` and at `lo + n` change places.
abbrev pub exchange : ℕ → ℕ → ℕ → ℕ
exchange lo n b =
    if leb lo b && ltb b (lo + n)
    then b + n
    else if leb (lo + n) b && ltb b (lo + n + n)
    then b - n
    else b

exchange_twice : (lo n b : ℕ) → exchange lo n (exchange lo n b) ≡ b
exchange_twice lo n b = ground arith

pub exchange_outside : (lo n b : ℕ) → (b < lo) ⊎ (lo + n + n ≤ b) → exchange lo n b ≡ b
exchange_outside lo n b h = ground arith

exchange-lt : (lo n b : ℕ) → b < lo + n + n → exchange lo n b < lo + n + n
exchange-lt lo n b h = ground arith

pub le-exchange : (lo n m b : ℕ) → m ≤ lo → m ≤ b → m ≤ exchange lo n b
le-exchange lo n m b h k = ground arith

-- Exchanges at places that do not overlap commute.
exchange_comm :
    (lo n hi k b : ℕ)
    → lo + n + n ≤ hi
    → exchange hi k (exchange lo n b) ≡ exchange lo n (exchange hi k b)
exchange_comm lo n hi k b h = elim (Bool-cases (ltb b (lo + n + n))) [
  | inl e ↦
      let low : b < lo + n + n = ground arith in
      let low' = exchange-lt lo n b low in
      exchange_outside hi k (exchange lo n b) (inl (omega arith))
      ∙ ap (exchange lo n) (sym (exchange_outside hi k b (inl (omega arith))))
  | inr e ↦
      let high : lo + n + n ≤ b = ground arith in
      let high' = le-exchange hi k (lo + n + n) b h high in
      ap (exchange hi k) (exchange_outside lo n b (inr high))
      ∙ sym (exchange_outside lo n (exchange hi k b) (inr high'))
]

swap_range-low :
    (m : Mem) (lo hi n b : ℕ) → hi ≡ lo + n → swap_range m lo hi n b ≡ m (exchange lo n b)
unfolding swap_range
swap_range-low m lo hi n b e = ground arith

swap_range-high :
    (m : Mem) (lo hi n b : ℕ) → hi ≡ lo + n → swap_range m hi lo n b ≡ m (exchange lo n b)
unfolding swap_range
swap_range-high m lo hi n b e = ground arith

-- Where each byte of the new frame at `eth` comes from: the MAC addresses, the IP addresses and
-- the ports change places.
abbrev pub mirror : ℕ → ℕ → ℕ
mirror eth b =
    exchange eth 6 (exchange (eth + eth_size + 12) 4 (exchange (eth + eth_size + ip_size) 2 b))

pub swap_addresses-mirror : (m : Mem) (eth b : ℕ) → swap_addresses m eth b ≡ m (mirror eth b)
unfolding swap_addresses
swap_addresses-mirror m eth b =
    let ip : ℕ = eth + eth_size in
    let udp : ℕ = ip + ip_size in
    let m1 = swap_range m (eth + 6) eth 6 in
    let m2 = swap_range m1 (ip + 12) (ip + 16) 4 in
    let b1 = exchange udp 2 b in
    swap_range-low m2 udp (udp + 2) 2 b refl
    ∙ swap_range-low m1 (ip + 12) (ip + 16) 4 b1 (omega arith)
    ∙ swap_range-high m eth (eth + 6) 6 (exchange (ip + 12) 4 b1) refl

mirror-mirror : (eth b : ℕ) → mirror eth (mirror eth b) ≡ b
mirror-mirror eth b =
    let ip : ℕ = eth + eth_size + 12 in
    let udp : ℕ = eth + eth_size + ip_size in
    let c : ℕ = exchange udp 2 b in
    let d : ℕ = exchange ip 4 c in
    rw
      (
        exchange_comm eth 6 udp 2 d (omega arith),
        exchange_comm eth 6 ip 4 (exchange udp 2 d) (omega arith),
        exchange_twice eth 6,
        exchange_comm ip 4 udp 2 c (omega arith),
        exchange_twice ip 4,
        exchange_twice udp 2,
      )
      refl

-- A reply to the reply has the headers of the request again.
pub swap_addresses_twice : (m : Mem) (eth : ℕ) → swap_addresses (swap_addresses m eth) eth ≡ m
swap_addresses_twice m eth = fun_ext (λ b.
    swap_addresses-mirror (swap_addresses m eth) eth b
    ∙ swap_addresses-mirror m eth (mirror eth b)
    ∙ ap m (mirror-mirror eth b))

exchange_bounds :
    (lo n lower upper b : ℕ)
    → lower ≤ lo
    → lo + n + n ≤ upper
    → lower ≤ b
    → b < upper
    → (lower ≤ exchange lo n b) × (exchange lo n b < upper)
exchange_bounds lo n lower upper b p q r t = ground arith

-- The places stay within the headers.
pub mirror-bounds : (n b : ℕ) → n ≤ b → b < n + 50 → (n ≤ mirror n b) × (mirror n b < n + 50)
mirror-bounds n b lo hi =
    let udp : ℕ = n + eth_size + ip_size in
    let ip : ℕ = n + eth_size + 12 in
    let first = exchange_bounds udp 2 n (n + 50) b (omega arith) (omega arith) lo hi in
    let second =
      exchange_bounds ip 4 n (n + 50) (exchange udp 2 b) (omega arith) (omega arith) first.0
        first.1 in
    exchange_bounds n 6 n (n + 50) (exchange ip 4 (exchange udp 2 b)) (omega arith) (omega arith)
      second.0 second.1
