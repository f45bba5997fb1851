-- ===== src/Bmc/PreparePacket/Headers.antt =====
-- What `bmc_prepare_packet_main` hands to the reply.
use bmc_cache.Base.{
  ◌-◌, ltb, if◌then◌else◌, ◌⊎◌, inl, inr, ap, sym, Bool-cases, ◌∙◌, ℕ, ◌+◌, ◌≤◌, ◌<◌, ◌≡◌, false,
  some, ◌||◌, leb, Mem, copy_range, pos, sub_ℕ, arith,
}
use bmc_cache.Bmc.Types.{
  State, tail_call, write_reply, xdp_pass, headers_size, adjust_head_len, eth_size, ip_size,
}
use bmc_cache.Bmc.Kernel.{Adjust, AdjustsHead}
use bmc_cache.Bmc.PreparePacket.Swap.{
  exchange, exchange_outside, le-exchange, mirror, swap_addresses-mirror,
}
use bmc_cache.Bmc.PreparePacket.{swap_addresses, prepare_packet_main}

-- The memory with the headers of a reply at `n`, made from those at `old`.
abbrev pub reply_headers : Mem → ℕ → ℕ → Mem
reply_headers m n old = swap_addresses (copy_range m n m old headers_size) n

-- The offset in the frame of the request from which the byte at an offset of the reply's headers
-- comes: the MAC addresses stand at 0 and 6, the IP addresses at 26 and 30, the ports at 34 and 36.
abbrev pub came_from : ℕ → ℕ
came_from j =
    if ltb j 6
    then j + 6
    else if ltb j 12
    then j - 6
    else if ltb j 26
    then j
    else if ltb j 30
    then j + 4
    else if ltb j 34
    then j - 4
    else if ltb j 36
    then j + 2
    else if ltb j 38
    then j - 2
    else j

came_from-bounds : (j : ℕ) → j < headers_size → came_from j < headers_size
came_from-bounds j h = ground arith

exchange-add : (n lo k j : ℕ) → exchange (n + lo) k (n + j) ≡ n + exchange lo k j
exchange-add n lo k j = ground arith

-- The exchanges at places that do not meet, in the order of the places.
came_from-exchange : (j : ℕ) → exchange 0 6 (exchange 26 4 (exchange 34 2 j)) ≡ came_from j
came_from-exchange j = elim (Bool-cases (ltb j 12)) [
  | inl low ↦
      let lt : j < 12 = ground arith in
      let a : exchange 34 2 j ≡ j = ground arith in
      let b : exchange 26 4 j ≡ j = ground arith in rw (a, b) (ground arith)
  | inr high ↦
      let le : 12 ≤ j = ground arith in
      let d = exchange 26 4 (exchange 34 2 j) in
      let far : 12 ≤ d =
        le-exchange 26 4 12 _ (omega arith) (le-exchange 34 2 12 j (omega arith) le) in
      exchange_outside 0 6 d (inr far) ∙ upper j le
]
  where
    upper : (j : ℕ) → 12 ≤ j → exchange 26 4 (exchange 34 2 j) ≡ came_from j
    upper j le = elim (Bool-cases (ltb j 34)) [
      | inl low ↦ let a : exchange 34 2 j ≡ j = ground arith in rw a (ground arith)
      | inr high ↦
          let k : 34 ≤ exchange 34 2 j = le-exchange 34 2 34 j (omega arith) (ground arith) in
          exchange_outside 26 4 (exchange 34 2 j) (inr k) ∙ ground arith
    ]

mirror-came_from : (n j : ℕ) → mirror n (n + j) ≡ n + came_from j
mirror-came_from n j =
    let mac : n + 0 ≡ n = omega arith in
    let ip : n + eth_size + 12 ≡ n + 26 = omega arith in
    let udp : n + eth_size + ip_size ≡ n + 34 = omega arith in
    ap (λ z. exchange n 6 (exchange z 4 (exchange (n + eth_size + ip_size) 2 (n + j)))) ip
    ∙ ap (λ z. exchange n 6 (exchange (n + 26) 4 (exchange z 2 (n + j)))) udp
    ∙ ap (λ z. exchange n 6 (exchange (n + 26) 4 z)) (exchange-add n 34 2 j)
    ∙ ap (exchange n 6) (exchange-add n 26 4 (exchange 34 2 j))
    ∙ ap (λ z. exchange z 6 (n + exchange 26 4 (exchange 34 2 j))) (sym mac)
    ∙ exchange-add n 0 6 (exchange 26 4 (exchange 34 2 j))
    ∙ ap (λ z. n + z) (came_from-exchange j)

mirror-outside : (n a : ℕ) → (a < n) ⊎ (n + headers_size ≤ a) → mirror n a ≡ a
mirror-outside n a h = ground arith

module _ (m : Mem) (n old : ℕ) where
  reply_headers-came_from :
      (j : ℕ) → j < headers_size → reply_headers m n old (n + j) ≡ m (old + came_from j)
  reply_headers-came_from j h =
      let lt = came_from-bounds j h in
      swap_addresses-mirror (copy_range m n m old headers_size) n (n + j)
      ∙ ap (copy_range m n m old headers_size) (mirror-came_from n j)
      ∙ ground (arith, lt)

  reply_headers-outside : (a : ℕ) → (a < n) ⊎ (n + headers_size ≤ a) → reply_headers m n old a ≡ m a
  reply_headers-outside a out =
      swap_addresses-mirror (copy_range m n m old headers_size) n a
      ∙ ap (copy_range m n m old headers_size) (mirror-outside n a out)
      ∙ ground arith

module _ (buffer : ℕ) (adjust_head : Adjust) (moves : AdjustsHead buffer adjust_head) where
  -- If the buffer has `adjust_head_len` bytes in front of a packet with more than its headers,
  -- the new headers stand there, and the packet begins behind them.
  pub prepare_packet_main-frame :
      (s : State) (n : ℕ)
      → n + adjust_head_len ≡ s.pkt.start
      → buffer ≤ n
      → s.pkt.start + headers_size + 1 < s.pkt.end
      → prepare_packet_main adjust_head s ≡ (
        record s {
          pkt = record (s.pkt) {
            mem = reply_headers s.pkt.mem n s.pkt.start;
            start = n + headers_size;
          };
        },
        tail_call write_reply xdp_pass,
      )
  unfolding prepare_packet_main
  prepare_packet_main-frame s n e lo roomy =
      let popped : adjust_head s.pkt (sub_ℕ 0 adjust_head_len)
          ≡ some (record (s.pkt) { start = n }) =
        moves s.pkt (sub_ℕ 0 adjust_head_len) n lo (omega arith) (omega arith) in
      let enough : (leb s.pkt.end (n + headers_size)
            || leb s.pkt.end (n + adjust_head_len + headers_size + 1))
          ≡ false =
        ground arith in
      let p1 = record (s.pkt) {
        mem = reply_headers s.pkt.mem n (n + adjust_head_len);
        start = n;
      } in
      let pushed : adjust_head p1 (pos headers_size)
          ≡ some (record p1 { start = n + headers_size }) =
        moves p1 (pos headers_size) (n + headers_size) (omega arith) (omega arith) (omega arith) in
      ground (arith, popped, enough, pushed, e)

  -- If the buffer has `adjust_head_len` bytes in front of a packet with more than its headers, the
  -- program goes on to the reply program with the packet behind new headers in front: byte for byte
  -- these are the old ones with the two MAC addresses, the two IP addresses and the two ports
  -- exchanged, and no byte outside of them changes.
  pub prepare_packet_main-headers :
      (s : State) (n : ℕ)
      → n + adjust_head_len ≡ s.pkt.start
      → buffer ≤ n
      → s.pkt.start + headers_size + 1 < s.pkt.end
      → (m : Mem) × (prepare_packet_main adjust_head s ≡ (
        record s { pkt = record (s.pkt) { mem = m; start = n + headers_size } },
        tail_call write_reply xdp_pass,
      ))
        × ((j : ℕ) → j < headers_size → m (n + j) ≡ s.pkt.mem (s.pkt.start + came_from j))
        × ((a : ℕ) → (a < n) ⊎ (n + headers_size ≤ a) → m a ≡ s.pkt.mem a)
  prepare_packet_main-headers s n e lo roomy = (
    reply_headers s.pkt.mem n s.pkt.start,
    prepare_packet_main-frame s n e lo roomy,
    λ j h. reply_headers-came_from s.pkt.mem n s.pkt.start j h,
    λ a out. reply_headers-outside s.pkt.mem n s.pkt.start a out,
  )
