-- ===== src/Bmc/Interleave.antt =====
-- How the programs of several CPUs interleave on the cache that they share. Of the programs of
-- bmc/bmc_kern.c only `bmc_invalidate_cache_main` takes a lock more than once; it is cut into the
-- rounds of its loop. The others take a lock at most once, and read nothing that another CPU
-- writes outside of that section.
use bmc_cache.Base.{
  ℕ, zero, suc, ◌+◌, ◌<◌, ◌≡◌, ◌≢◌, ◌⊎◌, inl, inr, ◌∙◌, refl, ap, ◌&&◌, ltb, leb, ◌==◌,
  if◌then◌else◌, Slots, Bool-cases, arith,
}
use bmc_cache.Bmc.Types.{State, Packet, Entry, Stats, Prog, invalidate_cache, max_packet_length}
use bmc_cache.Bmc.Kernel.{Adjust}
use bmc_cache.Bmc.InvalidateCache.{
  Scan, Flow, next, halt, scan_body, scan_sets, start_scan, segment_text,
}
use bmc_cache.Bmc.Run.{program}

-- A CPU scans a segment, or is between two programs.
pub data Cpu : Type 0 where
  idle : Cpu
  scanning : Packet → Scan → Cpu

pub record System : Type 0 where
  pub kcache : Slots Entry
  pub cpus : ℕ → Cpu

Flow-cases : (f : Flow) → ((c : Scan) × (f ≡ next c)) ⊎ ((c : Scan) × (f ≡ halt c))
Flow-cases (next c) = inl (c, refl)
Flow-cases (halt c) = inr (c, refl)

-- What a CPU goes on with after a round.
unfoldable pub after_round : Packet → Flow → Cpu
after_round p (next c) = scanning p (record c { off = c.off + 1 })
after_round p (halt c) = idle

abbrev pub flow_cache : Flow → Slots Entry
flow_cache (next c) = c.kcache
flow_cache (halt c) = c.kcache

-- One round of the scan's loop, on the cache that it finds: at most one locked section.
unfoldable pub scan_round : Packet → Scan → Slots Entry → Slots Entry × Cpu
scan_round p c k =
    let flow = scan_body p (segment_text p) (record c { kcache = k }) in
    if ltb c.off max_packet_length && leb (segment_text p + c.off + 1) p.end
    then (flow_cache flow, after_round p flow)
    else (k, idle)

unfoldable pub assign : (ℕ → Cpu) → ℕ → Cpu → ℕ → Cpu
assign cpus i cpu j = if j == i then cpu else cpus j

abbrev pub goes_on : System → ℕ → Slots Entry × Cpu → System
goes_on y i (k, cpu) = record { kcache = k; cpus = assign y.cpus i cpu }

module _ (adjust_head adjust_tail : Adjust) where
  -- A step of any CPU `i`: it runs a program with at most one locked section, on a packet, saved
  -- keys, a context and statistics of its own; or it begins to scan a segment; or it does the next
  -- round of its scan.
  pub data Step (y : System) : System → Type 0 where
    runs :
        (i : ℕ) (p : Prog) (s : State)
        → y.cpus i ≡ idle
        → p ≢ invalidate_cache
        → s.kcache ≡ y.kcache
        → Step y (record y { kcache = (program adjust_head adjust_tail p s).0.kcache })
    starts :
        (i : ℕ) (p : Packet) (st : Stats)
        → y.cpus i ≡ idle
        → segment_text p < p.end
        → Step y (goes_on y i (y.kcache, scanning p (start_scan y.kcache st)))
    scans :
        (i : ℕ) (p : Packet) (c : Scan)
        → y.cpus i ≡ scanning p c
        → Step y (goes_on y i (scan_round p c y.kcache))

  pub data Reach (y : System) : System → Type 0 where
    here : Reach y y
    then_step : {z w : System} → Reach y z → Step z w → Reach y w

  Reach-trans : {y z w : System} → Reach y z → Reach z w → Reach y w
  Reach-trans r here = r
  Reach-trans r (then_step q s) = then_step (Reach-trans r q) s

  -- The rounds of a CPU that no other disturbs are the loop of the program.
  pub scan_sets-Reach :
      (left i : ℕ) (p : Packet) (c : Scan) (y : System)
      → y.cpus i ≡ scanning p c
      → y.kcache ≡ c.kcache
      → (z : System) × Reach y z × (z.kcache ≡ (scan_sets left p (segment_text p) c).kcache)
  unfolding scan_sets scan_round assign after_round
  scan_sets-Reach zero i p c y at same = (y, here, same)
  scan_sets-Reach (suc left) i p c y at same =
      let text = segment_text p in
      let ahead = ltb c.off max_packet_length && leb (text + c.off + 1) p.end in
      let stepped = goes_on y i (scan_round p c y.kcache) in
      let one : Reach y stepped = then_step here (scans i p c at) in
      elim (Bool-cases ahead) [
        | inr stop ↦ (y, here, ground arith)
        | inl go ↦ elim (Flow-cases (scan_body p text c)) [
          | inl (c', q) ↦
              let body : scan_body p text (record c { kcache = y.kcache }) ≡ next c' =
                ap (λ k. scan_body p text (record c { kcache = k })) same ∙ q in
              let c2 : Scan = record c' { off = c'.off + 1 } in
              let at' : stepped.cpus i ≡ scanning p c2 = ground arith in
              let same' : stepped.kcache ≡ c2.kcache = ground arith in
              let (z, r, e) = scan_sets-Reach left i p c2 stepped at' same' in
              (z, Reach-trans one r, e ∙ ground arith)
          | inr (c', q) ↦
              let body : scan_body p text (record c { kcache = y.kcache }) ≡ halt c' =
                ap (λ k. scan_body p text (record c { kcache = k })) same ∙ q in
              (stepped, one, ground arith)
        ]
      ]
