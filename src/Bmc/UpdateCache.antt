-- ===== src/Bmc/UpdateCache.antt =====
-- `bmc_tx_filter_main` and `bmc_update_cache_main`: replies of memcached enter the cache.
pub mod KeyText
pub mod Fill
pub mod StoreReply
use bmc_cache.Base.{
  ℕ, zero, suc, ◌+◌, Bool, true, false, not, ◌&&◌, ◌||◌, none, some, ltb, leb, ◌==◌, if◌then◌else◌,
  Mem, write, update, load_be16, u32,
}
use bmc_cache.Bmc.Types.{
  State, Packet, Entry, xdp_pass, tc_act_ok, update_cache, Outcome, ret, tail_call, headers_size,
  eth_size, ip_size, udp_size, ipproto_udp, memcached_port, max_key_length, max_cache_data_size,
  fnv_offset_basis, fnv_step, cache_idx,
}

-- `payload[0..5]` is "VALUE "
unfoldable pub is_value : Mem → ℕ → Bool
is_value m payload =
    m payload == b'V'
    && m (payload + 1) == b'A'
    && m (payload + 2) == b'L'
    && m (payload + 3) == b'U'
    && m (payload + 4) == b'E'
    && m (payload + 5) == b' '

-- The first argument is `skb->len`, the length of the whole packet, of which the program may see
-- only a part.
unfoldable pub tx_filter : ℕ → State → State × Outcome
tx_filter skb_len s =
    let ip = s.pkt.start + eth_size in
    let udp = ip + ip_size in
    let payload = s.pkt.start + headers_size in
    if ltb (max_cache_data_size + headers_size) skb_len
    then (s, ret tc_act_ok)
    else if ltb s.pkt.end (ip + ip_size)
    then (s, ret xdp_pass)
    else if not (s.pkt.mem (ip + 9) == ipproto_udp)
    then (s, ret tc_act_ok)
    else if ltb s.pkt.end (udp + udp_size)
    then (s, ret tc_act_ok)
    else if load_be16 s.pkt.mem udp == memcached_port
        && leb (payload + 5 + 1) s.pkt.end
        && is_value s.pkt.mem payload
    then elim (s.stats) [
      | none ↦ (s, ret xdp_pass)
      | some st ↦ (
        record s { stats = some (record st { get_resp_count = u32 (st.get_resp_count + 1) }) },
        tail_call update_cache tc_act_ok,
      )
    ]
    else (s, ret tc_act_ok)

module _ (p : Packet) (payload : ℕ) where
  -- The loop that hashes the key of the reply; its first argument is
  -- `BMC_MAX_KEY_LENGTH - (off - 6)`.
  unfoldable pub hash_reply : ℕ → ℕ → ℕ → ℕ
  hash_reply zero off hash = hash
  hash_reply (suc left) off hash =
      let rest = hash_reply left (off + 1) (fnv_step hash (p.mem (payload + off))) in
      if leb (payload + off + 1) p.end && not (p.mem (payload + off) == b' ') then rest else hash

  -- The loop that compares the keys: `true` is `diff = 1`.
  unfoldable pub differs : Entry → ℕ → ℕ → Bool
  differs entry zero off = false
  differs entry (suc left) off =
      let rest = differs entry left (off + 1) in
      let b = p.mem (payload + off) in
      let d = entry.data_ off in
      if leb (payload + off + 1) p.end && ltb off entry.len && (not (b == b' ') || not (d == b' '))
      then (if d == b then rest else true)
      else false

  -- The loop that stores the reply up to its second '\n'; its first argument is
  -- `BMC_MAX_CACHE_DATA_SIZE - j`. The result is the entry with its `data` and `len`, and `count`.
  unfoldable pub store_reply : ℕ → Entry → ℕ → ℕ → Entry × ℕ
  store_reply zero entry j count = (entry, count)
  store_reply (suc left) entry j count =
      let b = p.mem (payload + j) in
      let rest =
        store_reply left (record entry { data_ = write entry.data_ j b; len = entry.len + 1 })
          (j + 1) (if b == b'\n' then count + 1 else count) in
      if leb (payload + j + 1) p.end && ltb count 2 then rest else (entry, count)

  -- The locked section from the reset of `len` on: the entry, and whether the copy was complete.
  unfoldable pub overwrite : Entry → ℕ → Entry × Bool
  overwrite entry hash =
      let (e, count) = store_reply max_cache_data_size (record entry { len = 0 }) 0 0 in
      if count == 2 then (record e { valid = true; hash = hash }, true) else (e, false)

  -- `cache is up-to-date; no need to update`
  unfoldable pub up_to_date : Entry → ℕ → Bool
  up_to_date entry hash = entry.valid && entry.hash == hash && not (differs entry 250 6)

unfoldable pub update_cache_main : State → State × Outcome
update_cache_main s =
    let payload = s.pkt.start + headers_size in
    let hash = hash_reply s.pkt payload max_key_length 6 fnv_offset_basis in
    elim (s.kcache (cache_idx hash)) [
      | none ↦ (s, ret tc_act_ok)
      | some entry ↦
          if up_to_date s.pkt payload entry hash
          then (s, ret tc_act_ok)
          else (let (e, complete) = overwrite s.pkt payload entry hash in
              let s1 = record s { kcache = update s.kcache (cache_idx hash) e } in
              if complete
              then elim (s.stats) [
                | none ↦ (s1, ret xdp_pass)
                | some st ↦ (
                  record s1 {
                    stats = some (record st { update_count = u32 (st.update_count + 1) });
                  },
                  ret tc_act_ok,
                )
              ]
              else (s1, ret tc_act_ok))
    ]
