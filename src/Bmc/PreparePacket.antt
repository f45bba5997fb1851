-- ===== src/Bmc/PreparePacket.antt =====
-- `bmc_prepare_packet_main`: makes the headers of a reply from those of the request.
pub mod Swap
pub mod Headers
use bmc_cache.Base.{
  ℕ, ◌+◌, ◌||◌, Option, none, some, leb, if◌then◌else◌, Mem, copy_range, ℤ, pos, sub_ℕ,
}
use bmc_cache.Bmc.Types.{
  State, Packet, xdp_pass, write_reply, Outcome, ret, tail_call, headers_size, eth_size, ip_size,
  adjust_head_len,
}

-- memcpy through a temporary: the `n` bytes at `a` and at `b` change places.
unfoldable pub swap_range : Mem → ℕ → ℕ → ℕ → Mem
swap_range m a b n = copy_range (copy_range m a m b n) b m a n

-- The source and the destination change places: MAC addresses, IP addresses, UDP ports.
unfoldable pub swap_addresses : Mem → ℕ → Mem
swap_addresses m eth =
    let ip = eth + eth_size in
    let udp = ip + ip_size in
    let m1 = swap_range m (eth + 6) eth 6 in
    let m2 = swap_range m1 (ip + 12) (ip + 16) 4 in swap_range m2 udp (udp + 2) 2

module _ (adjust_head : Packet → ℤ → Option Packet) where
  unfoldable pub prepare_packet_main : State → State × Outcome
  prepare_packet_main s = elim (adjust_head s.pkt (sub_ℕ 0 adjust_head_len)) [
    | none ↦ (s, ret xdp_pass)
    | some p ↦
        let payload = p.start + headers_size in
        let old_data = p.start + adjust_head_len in
        let old_payload = old_data + headers_size in
        if leb p.end payload || leb p.end (old_payload + 1)
        then (record s { pkt = p }, ret xdp_pass)
        else (let m = copy_range p.mem p.start p.mem old_data headers_size in
            let p1 = record p { mem = swap_addresses m p.start } in
            elim (adjust_head p1 (pos headers_size)) [
              | none ↦ (record s { pkt = p1 }, ret xdp_pass)
              | some p2 ↦ (record s { pkt = p2 }, tail_call write_reply xdp_pass)
            ])
  ]
