-- ===== src/Bmc/WriteReply/Finish.antt =====
-- How `bmc_write_reply_main` ends a request.
use bmc_cache.Base.{
  copy_range, ℕ, ◌+◌, ◌-◌, ◌≤◌, ◌<◌, ◌≡◌, ◌⊎◌, ◌∙◌, ap, false, some, ltb, Mem, sub_ℕ, arith, u32,
  u16, List, [], ◌∷◌, Reads, load_be16,
}
use bmc_cache.Bmc.Types.{
  State, Key, Entry, Stats, ParsingContext, Outcome, ret, xdp_drop, xdp_tx, headers_size, eth_size,
  ip_size, udp_size, max_cache_data_size,
}
use bmc_cache.Bmc.Kernel.{Adjust, AdjustsHead, AdjustsTail}
use bmc_cache.Bmc.WriteReply.CopyEntry.{room}
use bmc_cache.Bmc.WriteReply.Section.{Matches, reply_section-match}
use bmc_cache.Bmc.Checksum.{zero_check}
use bmc_cache.Bmc.WriteReply.{count_lookup, write_end, write_lengths, send_reply, finish, reply_one}

abbrev pub end_text : List ℕ
end_text = b'E' ∷ b'N' ∷ b'D' ∷ b'\r' ∷ b'\n' ∷ []

pub write_end-Reads : (m : Mem) (a : ℕ) → Reads (write_end m a) a end_text
unfolding write_end
write_end-Reads m a =
    (ground arith, (ground arith, (ground arith, (ground arith, (ground arith, tt)))))

pub write_end-outside : (m : Mem) (a b : ℕ) → (b < a) ⊎ (a + 5 ≤ b) → write_end m a b ≡ m b
unfolding write_end
write_end-outside m a b h = ground arith

-- Of the frame only its lengths and checksums change: the bytes 16, 17, 24, 25 and 38 to 41.
pub write_lengths-outside :
    (m : Mem) (eth stop b : ℕ)
    → (b < eth + 16)
      ⊎ (eth + 18 ≤ b) × (b < eth + 24)
      ⊎ (eth + 26 ≤ b) × (b < eth + 38)
      ⊎ (eth + 42 ≤ b)
    → write_lengths m eth stop b ≡ m b
unfolding write_lengths zero_check
write_lengths-outside m eth stop b h = ground arith

-- The length fields of the IP and the UDP header, up to the address `stop`.
pub load-write_lengths :
    (m : Mem) (eth stop : ℕ)
    → (load_be16 (write_lengths m eth stop) (eth + 16) ≡ u16 (stop - (eth + 14)))
      × (load_be16 (write_lengths m eth stop) (eth + 38) ≡ u16 (stop - (eth + 34)))
unfolding write_lengths zero_check
load-write_lengths m eth stop = (ground arith, ground arith)

-- The frame that is sent: at `n`, with the text of `written` bytes and "END\r\n".
abbrev pub sent : Mem → ℕ → ℕ → ℕ → Mem
sent m n text written = write_lengths (write_end m (text + written)) n (text + written + 5)

-- The memory with the slot's data in it, and the state with that and the hit counted.
abbrev pub copied : State → Entry → Mem
copied s e = copy_range s.pkt.mem s.pkt.start e.data_ 0 (room e s.pkt.start s.pkt.end)

abbrev pub counted : State → ParsingContext → Stats → Entry → State
counted s c st e = record s {
  pkt = record (s.pkt) { mem = copied s e };
  stats = some (record st { hit_count = u32 (st.hit_count + 1) });
  pctx = some (record c { current_key = u32 (c.current_key + 1) });
}

module _ (buffer : ℕ) (adjust_head adjust_tail : Adjust) where
  -- The last key of a request: if the text so far begins at `n + headers_size`, the frame at `n`
  -- is sent back, cut off behind "END\r\n".
  pub send_reply-sent :
      AdjustsHead buffer adjust_head
      → AdjustsTail adjust_tail
      → (s : State) (c : ParsingContext) (written n : ℕ)
      → s.pkt.start ≡ n + headers_size + c.write_pkt_offset
      → buffer ≤ n
      → s.pkt.start + written + 5 < s.pkt.end
      → send_reply adjust_head adjust_tail s c written ≡ (
        record s {
          pkt = record {
            mem = sent s.pkt.mem n s.pkt.start written;
            start = n;
            end = s.pkt.start + written + 5;
          };
        },
        ret xdp_tx,
      )
  unfolding send_reply
  send_reply-sent head tail s c written n e lo roomy =
      let m = write_end s.pkt.mem (s.pkt.start + written) in
      let p1 = record (s.pkt) { mem = m } in
      let p2 = record p1 { start = n } in
      let stop = s.pkt.start + written + 5 in
      let popped : adjust_head p1 (sub_ℕ 0 (headers_size + c.write_pkt_offset)) ≡ some p2 =
        head p1 (sub_ℕ 0 (headers_size + c.write_pkt_offset)) n lo (omega arith) (ground arith) in
      let p3 = record p2 { mem = sent s.pkt.mem n s.pkt.start written } in
      let cut : adjust_tail p3 (sub_ℕ stop s.pkt.end) ≡ some (record p3 { end = stop }) =
        tail p3 (sub_ℕ stop s.pkt.end) stop (omega arith) roomy (ground arith) in
      let same : n + headers_size + c.write_pkt_offset + (written + 5) ≡ stop = omega arith in
      let tall : ltb s.pkt.end (n + eth_size + ip_size + udp_size) ≡ false = ground arith in
      ground (arith, popped, same, tall, cut)

  -- The state in which a request ends whose last key was found again.
  module _ (s : State) (c : ParsingContext) (st : Stats) (k : Key) (e : Entry) where
    -- What is left of the program when the slot matches the saved key.
    reply_one-match :
        s.stats ≡ some st
        → Matches k e
        → reply_one adjust_head adjust_tail s c k e
          ≡ finish adjust_head adjust_tail
              (counted s c st e)
              (record c { current_key = u32 (c.current_key + 1) })
              (record st { hit_count = u32 (st.hit_count + 1) })
              (room e s.pkt.start s.pkt.end)
    unfolding reply_one count_lookup
    reply_one-match est h = ground (arith, reply_section-match s.pkt k e h, est)

    -- If the last key's slot matches, and the packet has room for the cached reply and
    -- "END\r\n", the frame is sent back with both.
    pub reply_one-sent :
        AdjustsHead buffer adjust_head
        → AdjustsTail adjust_tail
        → (n : ℕ) → s.stats ≡ some st
        → Matches k e
        → u32 (c.current_key + 1) ≡ c.key_count
        → 0 < e.len
        → e.len ≤ max_cache_data_size
        → s.pkt.start ≡ n + headers_size + c.write_pkt_offset
        → buffer ≤ n
        → s.pkt.start + e.len + 5 < s.pkt.end
        → reply_one adjust_head adjust_tail s c k e ≡ (
          record (counted s c st e) {
            pkt = record {
              mem = sent (copied s e) n s.pkt.start e.len;
              start = n;
              end = s.pkt.start + e.len + 5;
            };
          },
          ret xdp_tx,
        )
    unfolding finish
    reply_one-sent head tail n est h last some_bytes short e0 lo roomy =
        let c' : ParsingContext = record c { current_key = u32 (c.current_key + 1) } in
        let all : room e s.pkt.start s.pkt.end ≡ e.len = omega arith in
        let sends = send_reply-sent head tail (counted s c st e) c' e.len n e0 lo roomy in
        reply_one-match est h ∙ ground (arith, sends, all, last)

    -- If the last key's slot matches and the packet has no room for the cached reply and
    -- "END\r\n", the program drops the request: neither BMC nor memcached answers it.
    pub reply_one-too_big :
        s.stats ≡ some st
        → Matches k e
        → u32 (c.current_key + 1) ≡ c.key_count
        → 0 < e.len
        → e.len ≤ max_cache_data_size
        → s.pkt.start < s.pkt.end
        → s.pkt.end < s.pkt.start + e.len + 5
        → (reply_one adjust_head adjust_tail s c k e).1 ≡ ret xdp_drop
    unfolding finish
    reply_one-too_big est h last some_bytes short below big =
        ap (λ (r : State × Outcome). r.1) (reply_one-match est h) ∙ ground (arith, last)
