-- ===== src/Bmc/Run/Request.antt =====
-- A GET request for one cached key, from the network card to the reply.
use bmc_cache.Base.{
  ℕ, suc, ◌+◌, ◌≤◌, ◌<◌, ◌≡◌, ◌∙◌, refl, ap, sym, true, some, u16, u32, List, Reads, Reads-agree,
  length, pos, sub_ℕ, arith,
}
use bmc_cache.Bmc.Types.{
  State, Key, Entry, Stats, ParsingContext, ret, tail_call, hash_keys, prepare_packet, write_reply,
  xdp_pass, xdp_tx, headers_size, adjust_head_len, cache_idx, max_cache_data_size,
}
use bmc_cache.Bmc.Text.{fnv}
use bmc_cache.Bmc.Kernel.{Adjust, AdjustsHead, AdjustsTail}
use bmc_cache.Bmc.RxFilter.{rx_filter}
use bmc_cache.Bmc.RxFilter.Get.{IsGetRequest, fresh_context, rx_filter-get}
use bmc_cache.Bmc.HashKeys.{hash_keys_main, advance, restore_head}
use bmc_cache.Bmc.HashKeys.Classify.{
  IsNextKey, saved, saved-Saves, hit_context, after_hit, hash_keys_main-hit,
}
use bmc_cache.Bmc.PreparePacket.{prepare_packet_main}
use bmc_cache.Bmc.PreparePacket.Headers.{reply_headers, prepare_packet_main-frame}
use bmc_cache.Bmc.WriteReply.{write_reply_main, reply_one}
use bmc_cache.Bmc.WriteReply.Section.{Matches}
use bmc_cache.Bmc.WriteReply.Finish.{sent, copied, counted, reply_one-sent}
use bmc_cache.Bmc.Run.{program, run, receive}

module _ (buffer : ℕ) (adjust_head adjust_tail : Adjust) (heads : AdjustsHead buffer adjust_head)
    (tails : AdjustsTail adjust_tail) where
  module _ (s : State) (st : Stats) (c : ParsingContext) (old : Key) (e : Entry) (gap key : List ℕ)
      (n : ℕ) where
    abbrev request_key : ℕ
    request_key = s.pkt.start + 54 + length gap

    -- The state in which the key is hashed.
    abbrev pub at_key : State
    at_key = record s {
      pkt = record (s.pkt) { start = request_key };
      pctx = some (fresh_context adjust_head s (4 + length gap));
      stats = some (record st { get_recv_count = u32 (st.get_recv_count + 1) });
    }

    abbrev pub first_context : ParsingContext
    first_context = fresh_context adjust_head s (4 + length gap)

    -- The premises about the request and the cache.
    pub record IsCachedRequest : Type 0 where
      pub has_stats : s.stats ≡ some st
      pub has_context : s.pctx ≡ some c
      pub has_key_slot : s.keys 0 ≡ some old
      pub request : IsGetRequest adjust_head s gap
      pub key_text : IsNextKey at_key first_context key b'\r'
      pub slot : s.kcache (cache_idx (fnv key)) ≡ some e
      pub live : e.valid ≡ true
      pub own_hash : e.hash ≡ fnv key
      pub own_key : Reads e.data_ 6 key
      pub some_bytes : 0 < e.len
      pub short : e.len ≤ max_cache_data_size
      pub in_front : n + adjust_head_len ≡ s.pkt.start
      pub in_buffer : buffer ≤ n
      pub roomy : n + headers_size + e.len + 5 < s.pkt.end
      pub tall : request_key + 14 ≤ s.pkt.end

    module _ (v : IsCachedRequest) where
      received : rx_filter adjust_head s ≡ (at_key, tail_call hash_keys xdp_pass)
      received =
          let moved : adjust_head s.pkt (pos (headers_size + (4 + length gap))) ≡ some at_key.pkt =
            heads s.pkt (pos (headers_size + (4 + length gap))) request_key
              (omega (arith, v.in_front, v.in_buffer)) v.tall (omega arith) in
          rx_filter-get adjust_head s st c gap at_key.pkt v.has_stats v.has_context v.request moved

      matches : Matches (saved at_key first_context key b'\r' old) e
      matches =
          let save = saved-Saves at_key first_context key b'\r' old v.key_text in
          let short = v.key_text.short in
          (
            v.live,
            sym v.own_hash,
            λ j lo hi. ground (
              arith,
              Reads-agree (saved at_key first_context key b'\r' old).data_ e.data_ key 0 6 j save.0
                  v.own_key,
            ),
          )

      -- The state behind the hashing: the key is saved, and the head is back at the frame.
      abbrev at_frame : State
      at_frame = record (after_hit at_key first_context key b'\r' old) { pkt = s.pkt }

      hashed : hash_keys_main adjust_head at_key ≡ (at_frame, tail_call prepare_packet xdp_pass)
      unfolding advance restore_head
      hashed =
          let hit =
            hash_keys_main-hit at_key first_context key b'\r' adjust_head old e v.key_text refl
              v.has_key_slot v.slot v.live v.own_hash in
          let back : ℕ = headers_size + u16 (4 + length gap) in
          let popped : adjust_head at_key.pkt (sub_ℕ 0 back) ≡ some s.pkt =
            heads at_key.pkt (sub_ℕ 0 back) s.pkt.start (omega (arith, v.in_front, v.in_buffer))
              (omega (arith, v.tall)) (ground (arith, v.request.short)) in
          hit.1 ∙ ground (arith, popped)

      -- The state in which the reply is written.
      abbrev at_reply : State
      at_reply = record at_frame {
        pkt = record (s.pkt) {
          mem = reply_headers s.pkt.mem n s.pkt.start;
          start = n + headers_size;
        };
      }

      prepared :
          prepare_packet_main adjust_head at_frame ≡ (at_reply, tail_call write_reply xdp_pass)
      prepared =
          prepare_packet_main-frame buffer adjust_head heads at_frame n v.in_front v.in_buffer
            (omega (arith, v.tall))

      -- The context when the reply is written, and the saved key.
      abbrev reply_context : ParsingContext
      reply_context = hit_context at_key first_context key b'\r'

      abbrev reply_key : Key
      reply_key = saved at_key first_context key b'\r' old

      abbrev reply_stats : Stats
      reply_stats = record st { get_recv_count = u32 (st.get_recv_count + 1) }

      entered :
          write_reply_main adjust_head adjust_tail at_reply
          ≡ reply_one adjust_head adjust_tail at_reply reply_context reply_key e
      unfolding write_reply_main
      entered = ground (arith, v.slot, v.roomy)

      -- The state at the end.
      abbrev pub answered : State
      answered = record (counted at_reply reply_context reply_stats e) {
        pkt = record {
          mem = sent (copied at_reply e) n (n + headers_size) e.len;
          start = n;
          end = n + headers_size + e.len + 5;
        };
      }

      replied : write_reply_main adjust_head adjust_tail at_reply ≡ (answered, ret xdp_tx)
      replied =
          entered
          ∙ reply_one-sent buffer adjust_head adjust_tail at_reply reply_context reply_stats
              reply_key e heads tails n refl matches refl v.some_bytes v.short (omega arith)
              v.in_buffer v.roomy

      -- If a request for one key finds its slot valid and filled with a reply for the key, BMC
      -- answers it from the cache after three tail calls, with no help of memcached.
      pub receive-answered :
          (budget : ℕ)
          → receive adjust_head adjust_tail (suc (suc (suc budget))) s ≡ (answered, xdp_tx)
      unfolding receive run program
      receive-answered budget =
          ap (run adjust_head adjust_tail (suc (suc (suc budget)))) received
          ∙ ap (run adjust_head adjust_tail (suc (suc budget))) hashed
          ∙ ap (run adjust_head adjust_tail (suc budget)) prepared
          ∙ ap (run adjust_head adjust_tail budget) replied
