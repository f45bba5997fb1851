-- ===== src/Bmc/InvalidateCache.antt =====
-- `bmc_invalidate_cache_main`: scans a TCP segment for set commands and drops what they change.
pub mod Drops
pub mod Sets
pub mod Commands
use bmc_cache.Base.{
  ℕ, zero, suc, ◌+◌, Bool, true, false, not, ◌&&◌, none, some, ltb, leb, ◌==◌, if◌then◌else◌, Slots,
  update, u32,
}
use bmc_cache.Bmc.Types.{
  State, Packet, Entry, Stats, xdp_pass, Outcome, ret, eth_size, ip_size, tcp_size,
  max_packet_length, fnv_offset_basis, fnv_step, cache_idx,
}

-- The variables of the loop, and what it writes. `hash` is not initialised in the source; it is
-- read only once a key was found, and starts at zero here.
pub record Scan : Type 0 where
  pub off : ℕ
  pub set_found : Bool
  pub key_found : Bool
  pub hash : ℕ
  pub kcache : Slots Entry
  pub stats : Stats

-- The body of the loop goes on, or returns.
pub data Flow : Type 0 where
  next : Scan → Flow
  halt : Scan → Flow

-- The end of a key: the slot is made invalid.
unfoldable pub drop_entry : Scan → Flow
drop_entry c = elim (c.kcache (cache_idx c.hash)) [
  | none ↦ halt c
  | some entry ↦
      let c1 = record c { set_found = false; key_found = false } in
      if entry.valid
      then next (record c1 {
        kcache = update c.kcache (cache_idx c.hash) (record entry { valid = false });
        stats = record (c.stats) { invalidation_count = u32 (c.stats.invalidation_count + 1) };
      })
      else next c1
]

-- The body of the loop, at the text `payload`.
unfoldable pub scan_body : Packet → ℕ → Scan → Flow
scan_body p payload c =
    let at = payload + c.off in
    if not c.set_found
      && p.mem at == b's'
      && leb (at + 3) p.end
      && p.mem (at + 1) == b'e'
      && p.mem (at + 2) == b't'
    then next (record c {
      set_found = true;
      off = c.off + 3;
      stats = record (c.stats) { set_recv_count = u32 (c.stats.set_recv_count + 1) };
    })
    else if not c.key_found && c.set_found && not (p.mem at == b' ')
    then (if p.mem at == b'\r'
        then next (record c { set_found = false; key_found = false })
        else next (record c { hash = fnv_step fnv_offset_basis (p.mem at); key_found = true }))
    else if c.key_found
    then (if p.mem at == b' '
        then drop_entry c
        else next (record c { hash = fnv_step c.hash (p.mem at) }))
    else next c

-- The loop. Every round moves `off`, so `BMC_MAX_PACKET_LENGTH - off` rounds are enough.
unfoldable pub scan_sets : ℕ → Packet → ℕ → Scan → Scan
scan_sets zero p payload c = c
scan_sets (suc left) p payload c =
    if ltb c.off max_packet_length && leb (payload + c.off + 1) p.end
    then elim (scan_body p payload c) [
      | next c' ↦ scan_sets left p payload (record c' { off = c'.off + 1 })
      | halt c' ↦ c'
    ]
    else c

abbrev pub start_scan : Slots Entry → Stats → Scan
start_scan k st = record {
  off = 0;
  set_found = false;
  key_found = false;
  hash = 0;
  kcache = k;
  stats = st;
}

-- The text of a TCP segment begins behind its headers.
abbrev pub segment_text : Packet → ℕ
segment_text p = p.start + eth_size + ip_size + tcp_size

unfoldable pub scan_segment : State → Stats → Scan
scan_segment s st = scan_sets max_packet_length s.pkt (segment_text s.pkt) (start_scan s.kcache st)

unfoldable pub invalidate_cache_main : State → State × Outcome
invalidate_cache_main s =
    if leb s.pkt.end (segment_text s.pkt) then (s, ret xdp_pass) else elim (s.stats) [
      | none ↦ (s, ret xdp_pass)
      | some st ↦
          let c = scan_segment s st in
          (record s { kcache = c.kcache; stats = some c.stats }, ret xdp_pass)
    ]
