-- ===== src/Bmc/InvalidateCache/Drops.antt =====
-- The scan changes nothing in the cache but the `valid` flags that it clears.
use bmc_cache.Base.{
  ℕ, zero, suc, ◌+◌, ◌≡◌, ◌⊎◌, inl, inr, refl, Bool, false, Option, none, some, Slots, arith,
  Option-cases,
}
use bmc_cache.Bmc.Types.{Entry, Packet, State, Stats, max_packet_length, xdp_pass, ret}
use bmc_cache.Bmc.InvalidateCache.{
  Scan, Flow, next, halt, drop_entry, scan_body, scan_sets, start_scan, segment_text, scan_segment,
  invalidate_cache_main,
}

abbrev pub clear : Option Entry → Option Entry
clear none = none
clear (some e) = some (record e { valid = false })

-- A slot is as it was, or its entry was made invalid.
abbrev pub Dropped : Option Entry → Option Entry → Type 0
Dropped o o' = (o' ≡ o) ⊎ (o' ≡ clear o)

pub Dropped-trans : (a b c : Option Entry) → Dropped a b → Dropped b c → Dropped a c
Dropped-trans a b c d e = ground arith

abbrev pub AllDropped : Slots Entry → Slots Entry → Type 0
AllDropped k k' = (i : ℕ) → Dropped (k i) (k' i)

-- A lookup that a GET request can hit.
abbrev pub is_valid : Option Entry → Bool
is_valid none = false
is_valid (some e) = e.valid

pub Dropped-invalid :
    (o o' : Option Entry) → Dropped o o' → is_valid o ≡ false → is_valid o' ≡ false
Dropped-invalid o o' d h = ground arith

abbrev pub after : Flow → Scan
after (next c) = c
after (halt c) = c

drop_entry-Dropped : (c : Scan) → AllDropped c.kcache (after (drop_entry c)).kcache
unfolding drop_entry
drop_entry-Dropped c i = ground arith

pub scan_body-Dropped :
    (p : Packet) (payload : ℕ) (c : Scan)
    → AllDropped c.kcache (after (scan_body p payload c)).kcache
unfolding scan_body
scan_body-Dropped p payload c i = ground (arith, drop_entry-Dropped c i)

pub scan_sets-Dropped :
    (left : ℕ) (p : Packet) (payload : ℕ) (c : Scan)
    → AllDropped c.kcache (scan_sets left p payload c).kcache
unfolding scan_sets
scan_sets-Dropped zero p payload c i = inl refl
scan_sets-Dropped (suc left) p payload c i =
    let c' : Scan = after (scan_body p payload c) in
    ground (
      arith,
      scan_body-Dropped p payload c i,
      scan_sets-Dropped left p payload (record c' { off = c'.off + 1 }) i,
    )

pub scan_segment-Dropped : (s : State) (st : Stats) → AllDropped s.kcache (scan_segment s st).kcache
unfolding scan_segment
scan_segment-Dropped s st =
    scan_sets-Dropped max_packet_length s.pkt (segment_text s.pkt) (start_scan s.kcache st)

-- Whatever the segment holds, the program passes the packet on unchanged, and every slot of the
-- cache is as it was or has lost its `valid` flag alone.
pub invalidate_cache_main-Dropped :
    (s : State)
    → let (s', out) = invalidate_cache_main s in
      AllDropped s.kcache s'.kcache
      × (s'.pkt ≡ s.pkt)
      × (s'.keys ≡ s.keys)
      × (s'.pctx ≡ s.pctx)
      × (out ≡ ret xdp_pass)
unfolding invalidate_cache_main
invalidate_cache_main-Dropped s = (
  λ i. elim (Option-cases s.stats) [
    | inl e ↦ ground arith
    | inr (st, e) ↦ ground (arith, scan_segment-Dropped s st i)
  ],
  ground arith,
  ground arith,
  ground arith,
  ground arith,
)
