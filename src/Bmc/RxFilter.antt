-- ===== src/Bmc/RxFilter.antt =====
-- `bmc_rx_filter_main`: which received packets BMC takes over.
pub mod Get
use bmc_cache.Base.{
  ℕ, zero, suc, ◌+◌, Bool, ◌&&◌, Option, none, some, ltb, leb, ◌==◌, if◌then◌else◌, Mem, load_be16,
  u16, u32, ℤ, pos,
}
use bmc_cache.Bmc.Types.{
  State, Packet, xdp_pass, hash_keys, invalidate_cache, Outcome, ret, tail_call, eth_size, ip_size,
  udp_size, tcp_size, memcached_udp_size, headers_size, ipproto_udp, ipproto_tcp, memcached_port,
  max_packet_length,
}

-- The destination port and the address of the text, from the switch on `ip->protocol`; `none` is
-- an early return.
unfoldable pub transport : Packet → Option (ℕ × ℕ)
transport p =
    let transp = p.start + eth_size + ip_size in
    let proto = p.mem (p.start + eth_size + 9) in
    if ltb p.end transp
    then none
    else if proto == ipproto_udp
    then if ltb p.end (transp + udp_size)
      then none
      else some (load_be16 p.mem (transp + 2), transp + udp_size + memcached_udp_size)
    else if proto == ipproto_tcp
    then if ltb p.end (transp + tcp_size)
      then none
      else some (load_be16 p.mem (transp + 2), transp + tcp_size)
    else none

-- `payload[0..3]` is "get "
unfoldable pub is_get : Mem → ℕ → Bool
is_get m payload =
    m payload == b'g'
    && m (payload + 1) == b'e'
    && m (payload + 2) == b't'
    && m (payload + 3) == b' '

-- The loop that moves `off` to the first key; the first argument is `BMC_MAX_PACKET_LENGTH - off`.
unfoldable pub skip_spaces : ℕ → Packet → ℕ → ℕ → ℕ
skip_spaces zero p payload off = off
skip_spaces (suc left) p payload off =
    let rest = skip_spaces left p payload (off + 1) in
    if leb (payload + off + 1) p.end && p.mem (payload + off) == b' ' then rest else off

module _ (adjust_head : Packet → ℤ → Option Packet) where
  -- The branch of a GET request over UDP.
  unfoldable pub receive_get : State → ℕ → State × Outcome
  receive_get s payload = elim (s.stats) [
    | none ↦ (s, ret xdp_pass)
    | some st ↦
        let s1 = record s {
          stats = some (record st { get_recv_count = u32 (st.get_recv_count + 1) });
        } in
        elim (s.pctx) [
          | none ↦ (s1, ret xdp_pass)
          | some c ↦
              let c1 = record c { key_count = 0; current_key = 0; write_pkt_offset = 0 } in
              let off = skip_spaces 1496 s.pkt payload 4 in
              if ltb off max_packet_length
              then (let s2 = record s1 { pctx = some (record c1 { read_pkt_offset = u16 off }) } in
                  elim (adjust_head s.pkt (pos (headers_size + off))) [
                    | none ↦ (s2, ret xdp_pass)
                    | some p ↦ (record s2 { pkt = p }, tail_call hash_keys xdp_pass)
                  ])
              else (record s1 { pctx = some c1 }, ret xdp_pass)
        ]
  ]

  unfoldable pub rx_filter : State → State × Outcome
  rx_filter s = elim (transport s.pkt) [
    | none ↦ (s, ret xdp_pass)
    | some (dport, payload) ↦
        let proto = s.pkt.mem (s.pkt.start + eth_size + 9) in
        if dport == memcached_port && leb (payload + 4) s.pkt.end
        then if proto == ipproto_udp && is_get s.pkt.mem payload
          then receive_get s payload
          else if proto == ipproto_tcp
          then (s, tail_call invalidate_cache xdp_pass)
          else (s, ret xdp_pass)
        else (s, ret xdp_pass)
  ]
