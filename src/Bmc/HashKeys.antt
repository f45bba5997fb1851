-- ===== src/Bmc/HashKeys.antt =====
-- `bmc_hash_keys_main`: reads one key of a GET request, and looks for its slot in the cache.
pub mod KeyText
pub mod Classify
use bmc_cache.Base.{
  ℕ, zero, suc, ◌+◌, Bool, true, false, ◌&&◌, ◌||◌, Option, none, some, ltb, leb, ◌==◌,
  if◌then◌else◌, Mem, write, update, u16, u32, ℤ, pos, sub_ℕ,
}
use bmc_cache.Bmc.Types.{
  State, Packet, Entry, Key, ParsingContext, xdp_pass, hash_keys, prepare_packet, Outcome, ret,
  tail_call, headers_size, max_key_length, fnv_offset_basis, fnv_step, cache_idx,
}

-- The variables of the loop that computes the hash.
pub record Scan : Type 0 where
  pub hash : ℕ
  pub key_len : ℕ
  pub off : ℕ
  pub done_parsing : Bool

-- The loop; its first argument is `BMC_MAX_KEY_LENGTH + 1 - off`.
unfoldable pub scan_key : ℕ → Packet → Scan → Scan
scan_key zero p c = c
scan_key (suc left) p c =
    let b = p.mem (p.start + c.off) in
    let rest =
      scan_key left p
        (record c { hash = fnv_step c.hash b; key_len = c.key_len + 1; off = c.off + 1 }) in
    if leb (p.start + c.off + 1) p.end
    then if b == b'\r' then record c { done_parsing = true } else if b == b' ' then c else rest
    else c

abbrev pub start_scan : Scan
start_scan = record { hash = fnv_offset_basis; key_len = 0; off = 0; done_parsing = false }

-- The loop that saves the request's key; its first argument is `key_len - i`.
unfoldable pub copy_key : ℕ → Packet → ℕ → Mem → Mem
copy_key zero p i d = d
copy_key (suc left) p i d =
    let rest = copy_key left p (i + 1) (write d i (p.mem (p.start + i))) in
    if leb (p.start + i + 1) p.end then rest else d

-- The two ways out of the cache test: a saved key or a counted miss, and none for no `map_stats`.
unfoldable pub classify : State → ParsingContext → Key → Entry → Scan → Option State
classify s c key entry sc =
    if entry.valid && entry.hash == sc.hash
    then some (record s {
      keys = update s.keys c.key_count (record {
        hash = sc.hash;
        data_ = copy_key sc.key_len s.pkt 0 key.data_;
        len = sc.key_len;
      });
      pctx = some (record c { key_count = u32 (c.key_count + 1) });
    })
    else elim (s.stats) [
      | none ↦ none
      | some st ↦
          some (record s { stats = some (record st { miss_count = u32 (st.miss_count + 1) }) })
    ]

module _ (adjust_head : Packet → ℤ → Option Packet) where
  -- The head goes back to the start of the packet. The result of the helper is not tested.
  unfoldable pub restore_head : State → ParsingContext → State
  restore_head s c = elim (adjust_head s.pkt (sub_ℕ 0 (headers_size + c.read_pkt_offset))) [
    | none ↦ s
    | some p ↦ record s { pkt = p }
  ]

  -- What follows the cache test: the end of the request, or the next key.
  unfoldable pub advance : State → ParsingContext → Scan → State × Outcome
  advance s c sc =
      if sc.done_parsing
      then (
        restore_head s c,
        if ltb 0 c.key_count then tail_call prepare_packet xdp_pass else ret xdp_pass,
      )
      else (let off = sc.off + 1 in
          let s1 = record s {
            pctx = some (record c { read_pkt_offset = u16 (c.read_pkt_offset + off) });
          } in
          elim (adjust_head s.pkt (pos off)) [
            | none ↦ (s1, ret xdp_pass)
            | some p ↦ (record s1 { pkt = p }, tail_call hash_keys xdp_pass)
          ])

  unfoldable pub advance_from : State → Scan → State × Outcome
  advance_from s sc = elim (s.pctx) [ none ↦ (s, ret xdp_pass) | some c ↦ advance s c sc ]

  -- The program once the loop is done.
  unfoldable pub hash_scanned : State → ParsingContext → Key → Scan → State × Outcome
  hash_scanned s c key sc =
      let s1 = record s { keys = update s.keys c.key_count (record key { hash = sc.hash }) } in
      if sc.key_len == 0 || ltb max_key_length sc.key_len
      then (restore_head s1 c, ret xdp_pass)
      else elim (s.kcache (cache_idx sc.hash)) [
        | none ↦ (s1, ret xdp_pass)
        | some entry ↦ elim (classify s1 c key entry sc) [
          | none ↦ (s1, ret xdp_pass)
          | some s2 ↦ advance_from s2 sc
        ]
      ]

  unfoldable pub hash_keys_main : State → State × Outcome
  hash_keys_main s = if leb s.pkt.end s.pkt.start then (s, ret xdp_pass) else elim (s.pctx) [
    | none ↦ (s, ret xdp_pass)
    | some c ↦ elim (s.keys c.key_count) [
      | none ↦ (s, ret xdp_pass)
      | some key ↦ hash_scanned s c key (scan_key 251 s.pkt start_scan)
    ]
  ]
