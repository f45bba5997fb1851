-- ===== src/Bmc/InvalidateCache/Commands.antt =====
-- How the scan of a TCP segment goes through the parts of a set command.
use bmc_cache.Base.{
  ℕ, zero, suc, ◌+◌, ◌≤◌, ◌≡◌, ◌≢◌, true, false, List, [], ◌∷◌, Reads, All, length, arith, u32,
}
use bmc_cache.Bmc.Types.{Packet, fnv_step, fnv_offset_basis, max_packet_length}
use bmc_cache.Bmc.Text.{fnv_from}
use bmc_cache.Bmc.InvalidateCache.{Scan, scan_body, scan_sets, drop_entry, next, halt}

module _ (p : Packet) (payload : ℕ) where
  -- The next `n` bytes of the text are there, and within the limit of the loop.
  abbrev pub Fits : Scan → ℕ → Type 0
  Fits c n = (c.off + n ≤ max_packet_length) × (payload + c.off + n ≤ p.end)

  -- Bytes that begin no command.
  pub scan_sets-junk :
      (junk : List ℕ) (total left : ℕ) (c : Scan)
      → total ≡ length junk + left
      → Reads p.mem (payload + c.off) junk
      → All (λ b. b ≢ b's') junk
      → c.set_found ≡ false
      → c.key_found ≡ false
      → Fits c (length junk)
      → scan_sets total p payload c
        ≡ scan_sets left p payload (record c { off = c.off + length junk })
  unfolding scan_sets scan_body
  scan_sets-junk [] total left c e r a sf kf f = ground arith
  scan_sets-junk (b ∷ junk) zero left c e r a sf kf f = absurd (omega arith)
  scan_sets-junk (b ∷ junk) (suc total) left c e r a sf kf f =
      ground (arith, scan_sets-junk junk total left (record c { off = c.off + 1 }))

  -- "set" and the byte behind it, whatever it is.
  pub scan_sets-set :
      (sep left : ℕ) (c : Scan)
      → Reads p.mem (payload + c.off) (b's' ∷ b'e' ∷ b't' ∷ sep ∷ [])
      → c.set_found ≡ false
      → Fits c 4
      → scan_sets (suc left) p payload c
        ≡ scan_sets left p payload (record c {
          off = c.off + 4;
          set_found = true;
          stats = record (c.stats) { set_recv_count = u32 (c.stats.set_recv_count + 1) };
        })
  unfolding scan_sets scan_body
  scan_sets-set sep left c r sf f = ground arith

  -- Spaces before the key.
  pub scan_sets-gap :
      (gap : List ℕ) (total left : ℕ) (c : Scan)
      → total ≡ length gap + left
      → Reads p.mem (payload + c.off) gap
      → All (λ b. b ≡ b' ') gap
      → c.set_found ≡ true
      → c.key_found ≡ false
      → Fits c (length gap)
      → scan_sets total p payload c
        ≡ scan_sets left p payload (record c { off = c.off + length gap })
  unfolding scan_sets scan_body
  scan_sets-gap [] total left c e r a sf kf f = ground arith
  scan_sets-gap (b ∷ gap) zero left c e r a sf kf f = absurd (omega arith)
  scan_sets-gap (b ∷ gap) (suc total) left c e r a sf kf f =
      ground (arith, scan_sets-gap gap total left (record c { off = c.off + 1 }))

  -- The first byte of the key starts the hash.
  pub scan_sets-start :
      (b left : ℕ) (c : Scan)
      → p.mem (payload + c.off) ≡ b
      → b ≢ b' '
      → b ≢ b'\r'
      → c.set_found ≡ true
      → c.key_found ≡ false
      → Fits c 1
      → scan_sets (suc left) p payload c
        ≡ scan_sets left p payload
            (record c { off = c.off + 1; key_found = true; hash = fnv_step fnv_offset_basis b })
  unfolding scan_sets scan_body
  scan_sets-start b left c r ns nr sf kf f = ground arith

  -- The later bytes, up to a space: here a '\r' does not end the key.
  pub scan_sets-key :
      (key : List ℕ) (total left : ℕ) (c : Scan)
      → total ≡ length key + left
      → Reads p.mem (payload + c.off) key
      → All (λ b. b ≢ b' ') key
      → c.set_found ≡ true
      → c.key_found ≡ true
      → Fits c (length key)
      → scan_sets total p payload c
        ≡ scan_sets left p payload
            (record c { off = c.off + length key; hash = fnv_from c.hash key })
  unfolding scan_sets scan_body fnv_from
  scan_sets-key [] total left c e r a sf kf f = ground arith
  scan_sets-key (b ∷ key) zero left c e r a sf kf f = absurd (omega arith)
  scan_sets-key (b ∷ key) (suc total) left c e r a sf kf f =
      ground (
        arith,
        scan_sets-key key total left (record c { off = c.off + 1; hash = fnv_step c.hash b }),
      )

  -- The space behind the key: the scan goes on, or ends at a slot that is missing.
  pub scan_sets-end :
      (left : ℕ) (c : Scan)
      → p.mem (payload + c.off) ≡ b' '
      → c.set_found ≡ true
      → c.key_found ≡ true
      → Fits c 1
      → scan_sets (suc left) p payload c ≡ (elim (drop_entry c) [
        | next c' ↦ scan_sets left p payload (record c' { off = c'.off + 1 })
        | halt c' ↦ c'
      ])
  unfolding scan_sets scan_body
  scan_sets-end left c r sf kf f = ground arith
