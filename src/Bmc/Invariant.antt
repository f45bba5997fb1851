-- ===== src/Bmc/Invariant.antt =====
-- What holds of the cache whatever packets arrive, and however the locked sections of several CPUs
-- interleave.
use bmc_cache.Base.{
  write, if◌then◌else◌, ℕ, zero, suc, ◌+◌, ◌≤◌, ◌≡◌, ◌⊎◌, inl, inr, ◌∙◌, refl, sym, ap, subst, true,
  Option, none, some, Slots, update, ◌==◌, arith, Bool-cases, Option-cases,
}
use bmc_cache.Bmc.Types.{
  State, Packet, Entry, Prog, hash_keys, prepare_packet, write_reply, invalidate_cache,
  update_cache, cache_idx, max_cache_data_size, fnv_offset_basis, max_key_length, headers_size,
}
use bmc_cache.Bmc.Kernel.{Adjust}
use bmc_cache.Bmc.HashKeys.{
  hash_keys_main, hash_scanned, classify, advance, advance_from, restore_head,
}
use bmc_cache.Bmc.PreparePacket.{prepare_packet_main}
use bmc_cache.Bmc.WriteReply.{write_reply_main, reply_one, finish, send_reply, give_up, next_key}
use bmc_cache.Bmc.InvalidateCache.{Scan, segment_text, invalidate_cache_main}
use bmc_cache.Bmc.InvalidateCache.Drops.{Dropped, scan_body-Dropped, invalidate_cache_main-Dropped}
use bmc_cache.Bmc.Interleave.{System, scan_round, runs, starts, scans, Reach, here, then_step}
use bmc_cache.Bmc.UpdateCache.{store_reply, overwrite, up_to_date, hash_reply, update_cache_main}
use bmc_cache.Bmc.Run.{program}

-- An entry fits its array, and one that can be hit lies in the slot of its hash.
abbrev pub IsPlaced : ℕ → Entry → Type 0
IsPlaced i e = (e.len ≤ max_cache_data_size) × ((e.valid ≡ true) → cache_idx e.hash ≡ i)

abbrev pub IsSound : Slots Entry → Type 0
IsSound k = (i : ℕ) (e : Entry) → k i ≡ some e → IsPlaced i e

store_reply-keeps :
    (p : Packet) (payload left : ℕ) (e : Entry) (j count : ℕ)
    → let r = (store_reply p payload left e j count).0 in
      (r.len ≤ e.len + left) × (r.valid ≡ e.valid) × (r.hash ≡ e.hash)
unfolding store_reply
store_reply-keeps p payload zero e j count = (omega arith, refl, refl)
store_reply-keeps p payload (suc left) e j count =
    let b : ℕ = p.mem (payload + j) in
    let e' : Entry = record e { data_ = write e.data_ j b; len = e.len + 1 } in
    ground
      (arith, store_reply-keeps p payload left e' (j + 1) (if b == b'\n' then count + 1 else count))

overwrite-IsPlaced :
    (p : Packet) (payload i : ℕ) (e : Entry) (hash : ℕ)
    → IsPlaced i e
    → cache_idx hash ≡ i
    → IsPlaced i (overwrite p payload e hash).0
unfolding overwrite
overwrite-IsPlaced p payload i e hash h at =
    ground (arith, store_reply-keeps p payload max_cache_data_size (record e { len = 0 }) 0 0)

clear-IsPlaced :
    (i : ℕ) (o o' : Option Entry) (e' : Entry)
    → Dropped o o'
    → ((e : Entry) → o ≡ some e → IsPlaced i e)
    → o' ≡ some e'
    → IsPlaced i e'
clear-IsPlaced i none o' e' d h q = ground arith
clear-IsPlaced i (some e) o' e' d h q = ground (arith, h e refl)

invalidate-IsSound : (s : State) → IsSound s.kcache → IsSound (invalidate_cache_main s).0.kcache
invalidate-IsSound s h i e q =
    clear-IsPlaced i (s.kcache i) ((invalidate_cache_main s).0.kcache i) e
      ((invalidate_cache_main-Dropped s).0 i) (h i) q

-- The only slot that an update writes is that of the reply's hash.
update-kcache :
    (s : State)
    → let payload = s.pkt.start + headers_size in
      let hash = hash_reply s.pkt payload max_key_length 6 fnv_offset_basis in
      ((update_cache_main s).0.kcache ≡ s.kcache)
      ⊎ ((e : Entry) × (s.kcache (cache_idx hash) ≡ some e)
          × ((update_cache_main s).0.kcache
              ≡ update s.kcache (cache_idx hash) (overwrite s.pkt payload e hash).0))
unfolding update_cache_main
update-kcache s =
    let payload = s.pkt.start + headers_size in
    let hash = hash_reply s.pkt payload max_key_length 6 fnv_offset_basis in
    elim (Option-cases (s.kcache (cache_idx hash))) [
      | inl q ↦ inl (ground arith)
      | inr (e, q) ↦ elim (Bool-cases (up_to_date s.pkt payload e hash)) [
        | inl fresh ↦ inl (ground arith)
        | inr stale ↦ inr (e, q, ground arith)
      ]
    ]

update-IsSound : (s : State) → IsSound s.kcache → IsSound (update_cache_main s).0.kcache
update-IsSound s h i e q =
    let payload = s.pkt.start + headers_size in
    let hash = hash_reply s.pkt payload max_key_length 6 fnv_offset_basis in
    elim (update-kcache s) [
      | inl same ↦ h i e (ap (λ (k : Slots Entry). k i) (sym same) ∙ q)
      | inr (old, slot, new) ↦
          let at_i : update s.kcache (cache_idx hash) (overwrite s.pkt payload old hash).0 i
              ≡ some e =
            ap (λ (k : Slots Entry). k i) (sym new) ∙ q in
          let placed =
            overwrite-IsPlaced s.pkt payload (cache_idx hash) old hash (h (cache_idx hash) old slot)
              refl in
          ground (arith, at_i, placed, h i e)
    ]

module _ (adjust_head adjust_tail : Adjust) where
  hash_keys-kcache : (s : State) → (hash_keys_main adjust_head s).0.kcache ≡ s.kcache
  unfolding hash_keys_main hash_scanned classify advance_from advance restore_head
  hash_keys-kcache s = ground arith

  prepare_packet-kcache : (s : State) → (prepare_packet_main adjust_head s).0.kcache ≡ s.kcache
  unfolding prepare_packet_main
  prepare_packet-kcache s = ground arith

  write_reply-kcache :
      (s : State) → (write_reply_main adjust_head adjust_tail s).0.kcache ≡ s.kcache
  unfolding write_reply_main reply_one finish send_reply give_up next_key
  write_reply-kcache s = ground arith

  program-IsSound :
      (p : Prog) (s : State)
      → IsSound s.kcache
      → IsSound (program adjust_head adjust_tail p s).0.kcache
  unfolding program
  program-IsSound hash_keys s h = subst IsSound (sym (hash_keys-kcache s)) h
  program-IsSound prepare_packet s h = subst IsSound (sym (prepare_packet-kcache s)) h
  program-IsSound write_reply s h = subst IsSound (sym (write_reply-kcache s)) h
  program-IsSound invalidate_cache s h = invalidate-IsSound s h
  program-IsSound update_cache s h = update-IsSound s h

  round-IsSound :
      (p : Packet) (c : Scan) (k : Slots Entry) → IsSound k → IsSound (scan_round p c k).0
  unfolding scan_round
  round-IsSound p c k h i e q =
      clear-IsPlaced i (k i) ((scan_round p c k).0 i) e
        (ground (arith, scan_body-Dropped p (segment_text p) (record c { kcache = k }) i)) (h i) q

  -- However the locked sections of the programs of several CPUs interleave, where a scan of one CPU
  -- is interrupted by others after each of its rounds, a cache that starts sound stays so: no entry
  -- is longer than its array, and every valid entry lies in the slot of its hash.
  pub Reach-IsSound :
      {y z : System} → IsSound y.kcache → Reach adjust_head adjust_tail y z → IsSound z.kcache
  Reach-IsSound h here = h
  Reach-IsSound h (then_step r (runs i p s _ _ from)) =
      program-IsSound p s (subst IsSound (sym from) (Reach-IsSound h r))
  Reach-IsSound h (then_step r (starts i p st _ _)) = Reach-IsSound h r
  Reach-IsSound h (then_step {z} r (scans i p c _)) = round-IsSound p c z.kcache (Reach-IsSound h r)
