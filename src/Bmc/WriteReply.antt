-- ===== src/Bmc/WriteReply.antt =====
-- `bmc_write_reply_main`: copies a cached reply into the packet, key by key.
pub mod Section
pub mod CopyEntry
pub mod Finish
use bmc_cache.Base.{
  ℕ, zero, suc, ◌+◌, ◌-◌, Bool, true, false, ◌&&◌, ◌||◌, Option, none, some, ltb, leb, ◌==◌,
  if◌then◌else◌, Mem, write, copy_range, store_be16, store_le16, u16, u32, ℤ, pos, sub_ℕ,
}
use bmc_cache.Bmc.Types.{
  State, Packet, Entry, Key, Stats, ParsingContext, xdp_pass, xdp_drop, xdp_tx, write_reply,
  Outcome, ret, tail_call, headers_size, eth_size, ip_size, udp_size, adjust_head_len,
  max_cache_data_size, max_key_in_packet, cache_idx, set_mem,
}
use bmc_cache.Bmc.Checksum.{zero_check, compute_ip_checksum}

-- The loop that compares the saved key with the cached one, and does not stop at a difference;
-- its first argument is `BMC_MAX_KEY_LENGTH - i`.
unfoldable pub compare_key : ℕ → Key → Entry → ℕ → Bool → Bool
compare_key zero key entry i cache_hit = cache_hit
compare_key (suc left) key entry i cache_hit =
    let rest =
      compare_key left key entry (i + 1)
        (if key.data_ i == entry.data_ (6 + i) then cache_hit else false) in
    if ltb i key.len then rest else cache_hit

-- The variables of the two copy loops: the packet's memory, `off` and `written`.
pub record Copy : Type 0 where
  pub mem : Mem
  pub off : ℕ
  pub written : ℕ

module _ (entry : Entry) (payload data_end : ℕ) where
  -- The loop over `unsigned long long`. `off` grows by 8 a round, so `left` rounds are enough if
  -- `BMC_MAX_CACHE_DATA_SIZE` is at most `off + 8 * left`.
  unfoldable pub copy_words : ℕ → Copy → Copy
  copy_words zero c = c
  copy_words (suc left) c =
      let rest = copy_words left (record {
        mem = copy_range c.mem (payload + c.off) entry.data_ c.off 8;
        off = c.off + 8;
        written = c.written + 8;
      }) in
      if ltb (c.off + 8) max_cache_data_size
        && leb (c.off + 8) entry.len
        && leb (payload + c.off + 8) data_end
      then rest
      else c

  -- The loop over the last bytes.
  unfoldable pub copy_tail : ℕ → Copy → Copy
  copy_tail zero c = c
  copy_tail (suc left) c =
      let rest = copy_tail left (record {
        mem = write c.mem (payload + c.off) (entry.data_ c.off);
        off = c.off + 1;
        written = c.written + 1;
      }) in
      if ltb c.off max_cache_data_size && ltb c.off entry.len && leb (payload + c.off + 1) data_end
      then rest
      else c

  unfoldable pub copy_entry : Mem → Copy
  copy_entry m =
      copy_tail max_cache_data_size
        (copy_words max_cache_data_size (record { mem = m; off = 0; written = 0 }))

-- What the locked section leaves: the memory, `written` and `cache_hit`.
pub record Lookup : Type 0 where
  pub mem : Mem
  pub written : ℕ
  pub cache_hit : Bool

unfoldable pub reply_section : Packet → Key → Entry → Lookup
reply_section p key entry =
    if entry.valid && key.hash == entry.hash
    then (if compare_key 250 key entry 0 true
        then (let c = copy_entry entry p.start p.end p.mem in
            record { mem = c.mem; written = c.written; cache_hit = true })
        else record { mem = p.mem; written = 0; cache_hit = false })
    else record { mem = p.mem; written = 0; cache_hit = true }

-- "END\r\n" at `a`
unfoldable pub write_end : Mem → ℕ → Mem
write_end m a =
    write (write (write (write (write m a b'E') (a + 1) b'N') (a + 2) b'D') (a + 3) b'\r') (a + 4)
      b'\n'

-- The lengths and checksums of the reply whose last byte is below the address `stop`.
unfoldable pub write_lengths : Mem → ℕ → ℕ → Mem
write_lengths m eth stop =
    let ip = eth + eth_size in
    let udp = ip + ip_size in
    let m1 = store_be16 m (ip + 2) (stop - ip) in
    let m2 = store_le16 (zero_check m1 ip) (ip + 10) (compute_ip_checksum m1 ip) in
    let m3 = store_be16 m2 (udp + 6) 0 in store_be16 m3 (udp + 4) (stop - udp)

unfoldable pub count_lookup : Stats → Bool → Stats
count_lookup st cache_hit =
    if cache_hit
    then record st { hit_count = u32 (st.hit_count + 1) }
    else record st { miss_count = u32 (st.miss_count + 1) }

module _ (adjust_head : Packet → ℤ → Option Packet) (adjust_tail : Packet → ℤ → Option Packet) where
  -- The reply is complete: the program pops the headers and sends the packet back.
  unfoldable pub send_reply : State → ParsingContext → ℕ → State × Outcome
  send_reply s c written =
      let s1 = set_mem s (write_end s.pkt.mem (s.pkt.start + written)) in
      let written' = written + 5 in
      elim (adjust_head s1.pkt (sub_ℕ 0 (headers_size + c.write_pkt_offset))) [
        | none ↦ (s1, ret xdp_drop)
        | some p ↦
            let s2 = record s1 { pkt = p } in
            let stop = p.start + headers_size + c.write_pkt_offset + written' in
            if ltb p.end (p.start + eth_size + ip_size + udp_size)
            then (s2, ret xdp_pass)
            else (let s3 = set_mem s2 (write_lengths p.mem p.start stop) in
                elim (adjust_tail s3.pkt (sub_ℕ stop p.end)) [
                  | none ↦ (s3, ret xdp_tx)
                  | some p' ↦ (record s3 { pkt = p' }, ret xdp_tx)
                ])
      ]

  -- No saved key was found again: the request goes on to the network stack.
  unfoldable pub give_up : State → ParsingContext → Stats → State × Outcome
  give_up s c st =
      let s1 = record s {
        stats = some (record st { hit_misprediction = u32 (st.hit_misprediction + c.key_count) });
      } in
      elim (adjust_head s1.pkt (pos (adjust_head_len - headers_size))) [
        | none ↦ (s1, ret xdp_pass)
        | some p ↦ (record s1 { pkt = p }, ret xdp_pass)
      ]

  unfoldable pub next_key : State → ParsingContext → ℕ → State × Outcome
  next_key s c written =
      let s1 = record s {
        pctx = some (record c { write_pkt_offset = u16 (c.write_pkt_offset + written) });
      } in
      elim (adjust_head s1.pkt (pos written)) [
        | none ↦ (s1, ret xdp_drop)
        | some p ↦ (record s1 { pkt = p }, tail_call write_reply xdp_drop)
      ]

  -- What follows the locked section, with the statistics and the context already counted up.
  unfoldable pub finish : State → ParsingContext → Stats → ℕ → State × Outcome
  finish s c st written =
      if c.current_key == c.key_count && (ltb 0 c.write_pkt_offset || ltb 0 written)
      then (if leb (s.pkt.start + written + 5) s.pkt.end
          then send_reply s c written
          else (s, ret xdp_drop))
      else if c.current_key == c.key_count
      then give_up s c st
      else if ltb c.current_key max_key_in_packet
      then next_key s c written
      else (s, ret xdp_drop)

  unfoldable pub reply_one : State → ParsingContext → Key → Entry → State × Outcome
  reply_one s c key entry =
      let l = reply_section s.pkt key entry in
      let s1 = set_mem s l.mem in
      elim (s.stats) [
        | none ↦ (s1, ret xdp_pass)
        | some st ↦
            let st' = count_lookup st l.cache_hit in
            let c' = record c { current_key = u32 (c.current_key + 1) } in
            finish (record s1 { stats = some st'; pctx = some c' }) c' st' l.written
      ]

  unfoldable pub write_reply_main : State → State × Outcome
  write_reply_main s = if leb s.pkt.end s.pkt.start then (s, ret xdp_pass) else elim (s.pctx) [
    | none ↦ (s, ret xdp_pass)
    | some c ↦ elim (s.keys c.current_key) [
      | none ↦ (s, ret xdp_pass)
      | some key ↦ elim (s.kcache (cache_idx key.hash)) [
        | none ↦ (s, ret xdp_drop)
        | some entry ↦ reply_one s c key entry
      ]
    ]
  ]
