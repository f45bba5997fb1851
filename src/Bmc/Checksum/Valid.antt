-- ===== src/Bmc/Checksum/Valid.antt =====
-- When a receiver accepts the header checksum that `bmc_write_reply_main` stores.
use bmc_cache.Base.{
  ℕ, zero, suc, ◌+◌, ◌*◌, ◌/◌, ◌%◌, ◌^◌, ◌≤◌, ◌<◌, ◌≡◌, ◌↔◌, ◌⊎◌, inl, inr, refl, Mem, load_le16,
  store_le16, u32, arith,
}
use bmc_cache.Bmc.Checksum.{sum_words, fold_checksum, zero_check, compute_ip_checksum}

abbrev pub IsBytes : Mem → Type 0
IsBytes m = (a : ℕ) → m a < 256

-- The sum of the words without the wrap of `u32`.
plain_sum : ℕ → Mem → ℕ → ℕ
plain_sum zero m a = 0
plain_sum (suc left) m a = load_le16 m a + plain_sum left m (a + 2)

plain_sum-lt : (left : ℕ) (m : Mem) (a : ℕ) → IsBytes m → plain_sum left m a ≤ left * 65535
unfolding plain_sum
plain_sum-lt zero m a b = omega arith
plain_sum-lt (suc left) m a b = omega (arith, plain_sum-lt left m (a + 2) b, b a, b (a + 1))

sum_words-plain :
    (left : ℕ) (m : Mem) (a csum : ℕ)
    → IsBytes m
    → csum + left * 65535 < 2 ^ 32
    → sum_words left m a csum ≡ csum + plain_sum left m a
unfolding sum_words plain_sum
sum_words-plain zero m a csum b h = omega arith
sum_words-plain (suc left) m a csum b h =
    let fits : csum + load_le16 m a + left * 65535 < 2 ^ 32 = omega (arith, b a, b (a + 1)) in
    let same : u32 (csum + load_le16 m a) ≡ csum + load_le16 m a = omega arith in
    rw same (omega (arith, sum_words-plain left m (a + 2) (csum + load_le16 m a) b fits))

-- A sum does not change with bytes outside of it.
plain_sum-store :
    (left : ℕ) (m : Mem) (a at v : ℕ)
    → (at + 2 ≤ a) ⊎ (a + 2 * left ≤ at)
    → plain_sum left (store_le16 m at v) a ≡ plain_sum left m a
unfolding plain_sum
plain_sum-store zero m a at v h = refl
plain_sum-store (suc left) m a at v h = ground (arith, plain_sum-store left m (a + 2) at v)

-- One folding step of a receiver.
abbrev pub fold : ℕ → ℕ
fold n = n % 2 ^ 16 + n / 2 ^ 16

-- What a receiver adds up, in the header at `ip`.
pub header_sum : Mem → ℕ → ℕ
header_sum m ip = sum_words 10 m ip 0

plain_sum-suc :
    (left : ℕ) (m : Mem) (a b c : ℕ)
    → b ≡ a
    → c ≡ a + 2
    → plain_sum (suc left) m b ≡ load_le16 m a + plain_sum left m c
unfolding plain_sum
plain_sum-suc left m a b c e f = rw (e, f)

plain_sum-add :
    (i j n : ℕ) (m : Mem) (a : ℕ)
    → n ≡ i + j
    → plain_sum n m a ≡ plain_sum i m a + plain_sum j m (a + 2 * i)
unfolding plain_sum
plain_sum-add zero j n m a e =
    let e' : n ≡ j = omega arith in
    let at : a + 2 * 0 ≡ a = omega arith in rw (e', at) (omega arith)
plain_sum-add (suc i) j zero m a e = absurd (omega arith)
plain_sum-add (suc i) j (suc n) m a e =
    let at : a + 2 * suc i ≡ a + 2 + 2 * i = omega arith in
    rw at (omega (arith, plain_sum-add i j n m (a + 2) (omega arith)))

load-store : (m : Mem) (a v : ℕ) → v < 2 ^ 16 → load_le16 (store_le16 m a v) a ≡ v
load-store m a v h = ground arith

-- The sum of a header splits at the checksum.
plain_sum-check :
    (m : Mem) (ip v : ℕ)
    → v < 2 ^ 16
    → plain_sum 10 (store_le16 m (ip + 10) v) ip ≡ plain_sum 5 m ip + (v + plain_sum 4 m (ip + 12))
plain_sum-check m ip v h =
    let m' : Mem = store_le16 m (ip + 10) v in
    let back = plain_sum-suc 4 m' (ip + 10) (ip + 2 * 5) (ip + 12) (omega arith) (omega arith) in
    omega (
      arith,
      plain_sum-add 5 5 10 m' ip refl,
      back,
      load-store m (ip + 10) v h,
      plain_sum-store 5 m ip (ip + 10) v (inr (omega arith)),
      plain_sum-store 4 m (ip + 12) (ip + 10) v (inl (omega arith)),
    )

store-IsBytes : (m : Mem) (a v : ℕ) → IsBytes m → IsBytes (store_le16 m a v)
store-IsBytes m a v b i = ground (arith, b i)

-- The frame with the checksum that the program stores.
abbrev pub with_checksum : Mem → ℕ → Mem
with_checksum m ip = store_le16 (zero_check m ip) (ip + 10) (compute_ip_checksum m ip)

-- A receiver folds its sum twice, and accepts 0xffff. It accepts the stored checksum exactly when
-- the program's single folding step of the other words has no carry of its own.
pub checksum_accepted_iff :
    (m : Mem) (ip : ℕ)
    → IsBytes m
    → (fold (fold (header_sum (with_checksum m ip) ip)) ≡ 0xffff)
      ↔ (fold (header_sum (zero_check m ip) ip) < 2 ^ 16)
unfolding header_sum compute_ip_checksum fold_checksum zero_check
checksum_accepted_iff m ip b =
    let z : Mem = store_le16 m (ip + 10) 0 in
    let zb : IsBytes z = store-IsBytes m (ip + 10) 0 b in
    let total = sum_words 10 z ip 0 in
    let c : ℕ = fold_checksum total in
    let w : Mem = store_le16 z (ip + 10) c in
    let w_words = sum_words-plain 10 w ip 0 (store-IsBytes z (ip + 10) c zb) (omega arith) in
    let z_words = sum_words-plain 10 z ip 0 zb (omega arith) in
    let w_parts = plain_sum-check z ip c (omega arith) in
    let z_parts = plain_sum-check m ip 0 (omega arith) in
    let low = plain_sum-store 5 m ip (ip + 10) 0 (inr (omega arith)) in
    let high = plain_sum-store 4 m (ip + 12) (ip + 10) 0 (inl (omega arith)) in
    let low_bound = plain_sum-lt 5 m ip b in
    let high_bound = plain_sum-lt 4 m (ip + 12) b in
    let whole : sum_words 10 w ip 0 ≡ total + c = omega arith in
    let bound : total ≤ 589815 = omega arith in
    (λ h. omega (arith, whole, bound), λ h. omega (arith, whole, bound))
