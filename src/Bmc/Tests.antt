-- ===== src/Bmc/Tests.antt =====
-- The properties at concrete packets.
use bmc_cache.Base.{
  ℕ, ◌+◌, ◌≤◌, zero, suc, ◌<◌, ◌≡◌, ◌⊎◌, ◌↔◌, inr, refl, true, Option, some, [], Mem, arith, update,
  ℤ, ◌^◌,
}
use bmc_cache.Bmc.Types.{
  State, Packet, Entry, ret, tail_call, xdp_pass, xdp_drop, tc_act_ok, write_reply, hash_keys,
  cache_idx, fnv_step,
}
use bmc_cache.Bmc.Text.{fnv, fnv_from, Saves}
use bmc_cache.Bmc.Kernel.{
  bounded_head, bounded_tail, bounded_head-AdjustsHead, bounded_tail-AdjustsTail,
}
use bmc_cache.Bmc.RxFilter.{rx_filter}
use bmc_cache.Bmc.RxFilter.Get.{
  IsGetRequest, fresh_context, IsVerdict, rx_filter-get, rx_filter-IsVerdict,
}
use bmc_cache.Bmc.HashKeys.{scan_key, start_scan, hash_keys_main, advance}
use bmc_cache.Bmc.HashKeys.Classify.{
  IsNextKey, found, saved, hit_context, after_hit, after_miss, hash_keys_main-hit,
  hash_keys_main-miss,
}
use bmc_cache.Bmc.PreparePacket.{swap_addresses, prepare_packet_main}
use bmc_cache.Bmc.PreparePacket.Swap.{swap_addresses_twice}
use bmc_cache.Bmc.PreparePacket.Headers.{came_from, prepare_packet_main-headers}
use bmc_cache.Bmc.Checksum.{zero_check}
use bmc_cache.Bmc.Checksum.Valid.{fold, header_sum, with_checksum, checksum_accepted_iff}
use bmc_cache.Bmc.WriteReply.{copy_entry, reply_section, reply_one}
use bmc_cache.Bmc.WriteReply.CopyEntry.{copied, copy_entry-copied}
use bmc_cache.Bmc.WriteReply.Section.{
  Matches, SameKey, Replayed, Collided, Lost, reply_section_cases,
}
use bmc_cache.Bmc.WriteReply.Finish.{reply_one-too_big}
use bmc_cache.Bmc.InvalidateCache.{invalidate_cache_main}
use bmc_cache.Bmc.InvalidateCache.Drops.{AllDropped, invalidate_cache_main-Dropped}
use bmc_cache.Bmc.UpdateCache.{hash_reply, update_cache_main, up_to_date}
use bmc_cache.Bmc.UpdateCache.StoreReply.{stored}
use bmc_cache.Bmc.UpdateCache.Fill.{IsReply, reply, text_at, update_cache_main-cut}
use bmc_cache.Bmc.Hashes.{scan_key-eq-hash_reply}
use bmc_cache.Bmc.RoundTrip.{IsReplay, reply_section-update_cache_main}
use bmc_cache.Bmc.Run.{receive}
use bmc_cache.Bmc.Run.Request.{IsCachedRequest}
use bmc_cache.Bmc.Run.Reply.{IsAnswer, receive-reply}
use bmc_cache.Bmc.Samples.{
  codes, no_stats, no_context, blank_key, blank_entry, get_k, set_k, value_k, value_k_cut, entry_k,
  saved_k, state_of, all_slots,
}

abbrev head : Packet → ℤ → Option Packet
head = bounded_head 0

abbrev asked : State
asked = state_of get_k entry_k

asked-IsGetRequest : IsGetRequest head asked []
asked-IsGetRequest = record {
  proto = refl;
  port = refl;
  command = omega arith;
  spaces = tt;
  only_spaces = tt;
  then_other = omega arith;
  fits = omega arith;
  short = omega arith;
}

-- The request when its key is hashed.
abbrev asked_at_key : State
asked_at_key = record asked { pkt = record get_k { start = 254 } }

asked-IsNextKey : IsNextKey asked_at_key no_context (codes "k") b'\r'
asked-IsNextKey = record {
  text = omega arith;
  is_key = omega arith;
  not_empty = omega arith;
  short = omega arith;
  behind = refl;
  ends = inr refl;
  fits = omega arith;
}

slot_of_k : (e : Entry) → all_slots e (cache_idx (fnv (codes "k"))) ≡ some e
unfolding fnv fnv_from fnv_step
slot_of_k e = refl

asked-IsCachedRequest :
    IsCachedRequest 0 head bounded_tail
      (bounded_head-AdjustsHead 0)
      bounded_tail-AdjustsTail
      asked
      no_stats
      no_context
      blank_key
      entry_k
      []
      (codes "k")
      72
asked-IsCachedRequest = record {
  has_stats = refl;
  has_context = refl;
  has_key_slot = refl;
  request = asked-IsGetRequest;
  key_text = record {
    text = omega arith;
    is_key = omega arith;
    not_empty = omega arith;
    short = omega arith;
    behind = refl;
    ends = inr refl;
    fits = omega arith;
  };
  slot = slot_of_k entry_k;
  live = refl;
  own_hash = refl;
  own_key = omega arith;
  some_bytes = omega arith;
  short = omega arith;
  in_front = omega arith;
  in_buffer = omega arith;
  roomy = omega arith;
  tall = omega arith;
}

receive-reply_example : IsAnswer asked entry_k 72 (receive head bounded_tail 3 asked)
receive-reply_example =
    receive-reply 0 head bounded_tail (bounded_head-AdjustsHead 0) bounded_tail-AdjustsTail asked
      no_stats no_context blank_key entry_k [] (codes "k") 72 asked-IsCachedRequest 0

rx_filter-get_test : rx_filter head asked ≡ (
  record asked {
    pkt = record get_k { start = 254 };
    pctx = some (fresh_context head asked 4);
    stats = some (record no_stats { get_recv_count = 1 });
  },
  tail_call hash_keys xdp_pass,
)
rx_filter-get_test =
    rx_filter-get head asked no_stats no_context [] (record get_k { start = 254 }) refl refl
      asked-IsGetRequest refl

rx_filter-IsVerdict_example :
    IsVerdict (state_of set_k entry_k) (rx_filter head (state_of set_k entry_k))
rx_filter-IsVerdict_example = rx_filter-IsVerdict head (state_of set_k entry_k)

hash_keys_main-hit_test :
    Saves (saved asked_at_key no_context (codes "k") b'\r' blank_key) (codes "k")
    × (hash_keys_main head asked_at_key
        ≡ advance head
            (after_hit asked_at_key no_context (codes "k") b'\r' blank_key)
            (hit_context asked_at_key no_context (codes "k") b'\r')
            (found asked_at_key no_context (codes "k") b'\r'))
hash_keys_main-hit_test =
    hash_keys_main-hit asked_at_key no_context (codes "k") b'\r' head blank_key entry_k
      asked-IsNextKey refl refl (slot_of_k entry_k) refl refl

-- The request at its key, with an empty cache.
abbrev cold : State
cold = record asked_at_key { kcache = all_slots blank_entry }

hash_keys_main-miss_test :
    hash_keys_main head cold
    ≡ advance head
        (after_miss cold no_context (codes "k") b'\r' blank_key no_stats)
        no_context
        (found cold no_context (codes "k") b'\r')
hash_keys_main-miss_test =
    hash_keys_main-miss cold no_context (codes "k") b'\r' head blank_key blank_entry
      (record {
        text = omega arith;
        is_key = omega arith;
        not_empty = omega arith;
        short = omega arith;
        behind = refl;
        ends = inr refl;
        fits = omega arith;
      })
      refl refl (slot_of_k blank_entry) no_stats refl (λ h. cc (h.0))

prepare_packet_main-headers_example :
    (m : Mem) × (prepare_packet_main head asked ≡ (
      record asked { pkt = record get_k { mem = m; start = 122 } },
      tail_call write_reply xdp_pass,
    ))
    × ((j : ℕ) → j < 50 → m (72 + j) ≡ get_k.mem (200 + came_from j))
    × ((a : ℕ) → (a < 72) ⊎ (122 ≤ a) → m a ≡ get_k.mem a)
prepare_packet_main-headers_example =
    prepare_packet_main-headers 0 head (bounded_head-AdjustsHead 0) asked 72 refl (omega arith)
      (omega arith)

swap_addresses_twice_test : swap_addresses (swap_addresses get_k.mem 200) 200 ≡ get_k.mem
swap_addresses_twice_test = swap_addresses_twice get_k.mem 200

copy_entry-copied_example :
    copy_entry entry_k 254 400 get_k.mem ≡ copied entry_k 254 400 get_k.mem 16
copy_entry-copied_example = copy_entry-copied entry_k 254 400 get_k.mem

reply_section_cases_example :
    (Matches saved_k entry_k × Replayed get_k saved_k entry_k)
    ⊎ ((entry_k.valid ≡ true)
        × (saved_k.hash ≡ entry_k.hash)
        × (¬ SameKey saved_k entry_k 0)
        × Collided get_k saved_k entry_k)
    ⊎ ((¬ ((entry_k.valid ≡ true) × (saved_k.hash ≡ entry_k.hash))) × Lost get_k saved_k entry_k)
reply_section_cases_example = reply_section_cases get_k saved_k entry_k

-- The packet ends where only "get k\r\n" and 5 bytes have room.
abbrev tight : State
tight = record asked { pkt = record get_k { start = 250; end = 262 } }

saved_k-SameKey : SameKey saved_k entry_k 0
saved_k-SameKey zero lo hi = refl
saved_k-SameKey (suc j) lo hi = absurd (omega arith)

reply_one-too_big_example :
    (reply_one head bounded_tail tight (record no_context { key_count = 1 }) saved_k entry_k).1
    ≡ ret xdp_drop
reply_one-too_big_example =
    reply_one-too_big 0 head bounded_tail tight (record no_context { key_count = 1 }) no_stats
      saved_k entry_k refl (refl, refl, saved_k-SameKey) refl (omega arith) (omega arith)
      (omega arith) (omega arith)

-- A header whose bytes are all 0x45
abbrev plain_header : Mem
plain_header a = 0x45

checksum_accepted_iff_example :
    (fold (fold (header_sum (with_checksum plain_header 14) 14)) ≡ 0xffff)
    ↔ (fold (header_sum (zero_check plain_header 14) 14) < 2 ^ 16)
checksum_accepted_iff_example = checksum_accepted_iff plain_header 14 (λ a. omega arith)

invalidate_cache_main-Dropped_example :
    let r = invalidate_cache_main (state_of set_k entry_k) in
    AllDropped (all_slots entry_k) r.0.kcache
    × (r.0.pkt ≡ set_k)
    × (r.0.keys ≡ (state_of set_k entry_k).keys)
    × (r.0.pctx ≡ some no_context)
    × (r.1 ≡ ret xdp_pass)
invalidate_cache_main-Dropped_example = invalidate_cache_main-Dropped (state_of set_k entry_k)

-- A reply of memcached, and a slot that was never filled.
abbrev told : State
told = state_of value_k blank_entry

told-IsReply : IsReply told blank_entry (codes "k") (codes "0 1\r") (codes "x\r")
told-IsReply = record {
  text = omega arith;
  is_key = omega arith;
  short_key = omega arith;
  is_line = omega arith;
  is_body = omega arith;
  short = omega arith;
  whole = omega arith;
}

-- A reply that is cut off, and a slot with the reply for another key.
abbrev other_entry : Entry
other_entry = record entry_k { hash = 5 }

abbrev told_cut : State
told_cut = state_of value_k_cut other_entry

update_cache_main-cut_example : update_cache_main told_cut ≡ (
  record told_cut {
    kcache =
        update told_cut.kcache
          (cache_idx (fnv (codes "k")))
          (stored told_cut.pkt (text_at told_cut) other_entry 14);
  },
  ret tc_act_ok,
)
unfolding up_to_date fnv fnv_from fnv_step
update_cache_main-cut_example =
    update_cache_main-cut told_cut other_entry (codes "k") (codes "0 1\r") (codes "x") (omega arith)
      (omega arith) (omega arith) (omega arith) (omega arith) (omega arith) refl
      (slot_of_k other_entry) refl

reply_section-update_cache_main_example :
    (e : Entry) × ((update_cache_main told).0.kcache (cache_idx (fnv (codes "k"))) ≡ some e)
    × IsReplay get_k
        (reply told blank_entry (codes "k") (codes "0 1\r") (codes "x\r"))
        (reply_section get_k saved_k e)
unfolding up_to_date
reply_section-update_cache_main_example =
    reply_section-update_cache_main told blank_entry (codes "k") (codes "0 1\r") (codes "x\r")
      told-IsReply saved_k (omega arith, refl, refl) no_stats refl (slot_of_k blank_entry) refl
      get_k (omega arith)

scan_key-eq-hash_reply_example :
    (scan_key 251 asked_at_key.pkt start_scan).hash ≡ hash_reply value_k 250 250 6 2166136261
scan_key-eq-hash_reply_example =
    scan_key-eq-hash_reply asked_at_key.pkt value_k 250 b'\r' (codes "k") (codes "0 1\r")
      (codes "\nx\r\n") (omega arith) (omega arith) (omega arith) refl (inr refl) (omega arith)
      (omega arith) (omega arith)
