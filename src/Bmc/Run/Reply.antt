-- ===== src/Bmc/Run/Reply.antt =====
-- The frame that answers a request for one cached key, byte by byte.
use bmc_cache.Base.{
  ℕ, suc, ◌+◌, ◌-◌, ◌≤◌, ◌<◌, ◌≡◌, ◌⊎◌, ◌∙◌, ap, sym, subst, Mem, copy_range, Reads, load_be16, u16,
  List, arith,
}
use bmc_cache.Bmc.Types.{State, Key, Entry, Stats, ParsingContext, Action, xdp_tx, headers_size}
use bmc_cache.Bmc.Kernel.{Adjust, AdjustsHead, AdjustsTail}
use bmc_cache.Bmc.PreparePacket.Swap.{mirror}
use bmc_cache.Bmc.PreparePacket.Headers.{reply_headers}
use bmc_cache.Bmc.WriteReply.CopyEntry.{room}
use bmc_cache.Bmc.WriteReply.Finish.{sent, end_text, load-write_lengths}
use bmc_cache.Bmc.Run.{receive}
use bmc_cache.Bmc.Run.Request.{IsCachedRequest, receive-answered}
use bmc_cache.Bmc.Run.Answer.{answer, with_end, answer-data, answer-end, answer-headers}

-- What comes out of a request for one cached key: the frame at `n`.
abbrev pub IsAnswer : State → Entry → ℕ → State × Action → Type 0
IsAnswer s e n r =
    let m = r.0.pkt.mem in
    (r.1 ≡ xdp_tx)
    × (r.0.pkt.start ≡ n)
    × (r.0.pkt.end ≡ n + headers_size + e.len + 5)
    × ((j : ℕ) → j < e.len → m (n + headers_size + j) ≡ e.data_ j)
    × Reads m (n + headers_size + e.len) end_text
    × ((b : ℕ)
        → n ≤ b
        → b < n + headers_size
        → (b < n + 16) ⊎ (n + 18 ≤ b) × (b < n + 24) ⊎ (n + 26 ≤ b) × (b < n + 38) ⊎ (n + 42 ≤ b)
        → m b ≡ s.pkt.mem (s.pkt.start + (mirror n b - n)))
    × (load_be16 m (n + 16) ≡ u16 (36 + e.len + 5))
    × (load_be16 m (n + 38) ≡ u16 (16 + e.len + 5))
    × (r.0.kcache ≡ s.kcache)

module _ (buffer : ℕ) (adjust_head adjust_tail : Adjust) (heads : AdjustsHead buffer adjust_head)
    (tails : AdjustsTail adjust_tail) (s : State) (st : Stats) (c : ParsingContext) (old : Key)
    (e : Entry) (gap key : List ℕ) (n : ℕ)
    (v : IsCachedRequest buffer adjust_head adjust_tail heads tails s st c old e gap key n)
    (budget : ℕ) where
  abbrev final : State × Action
  final = receive adjust_head adjust_tail (suc (suc (suc budget))) s

  abbrev frame : Mem
  frame = final.0.pkt.mem

  abbrev built : Mem
  built = answer s.pkt.mem n s.pkt.start e.data_ e.len

  frame-built : frame ≡ built
  frame-built =
      let all : room e (n + headers_size) s.pkt.end ≡ e.len = omega (arith, v.short, v.roomy) in
      ap (λ (r : State × Action). r.0.pkt.mem)
        (receive-answered buffer adjust_head adjust_tail heads tails s st c old e gap key n v
          budget)
      ∙ ap
          (λ k.
            sent (copy_range (reply_headers s.pkt.mem n s.pkt.start) (n + headers_size) e.data_ 0 k)
              n (n + headers_size) e.len)
          all

  -- A GET request over UDP for one key of at most 250 bytes and a CR, where the maps of the CPU have
  -- their slots and that of the key is valid under its hash, with 1 to 1303 bytes that have the key
  -- behind the first six, is sent back, if the buffer has 128 bytes in front of the frame, these bytes
  -- and "END\r\n" fit the packet and what is gained there with a byte to spare, the packet reaches 14
  -- bytes behind the start of the key, and three tail calls are allowed. Its text is the slot's data and then "END\r\n", byte by byte; its addresses and ports are
  -- those of the request with source and destination exchanged, and its other header bytes those
  -- of the request, but for the lengths, which are those of the reply, and the checksums.
  pub receive-reply : IsAnswer s e n final
  receive-reply =
      let eq =
        receive-answered buffer adjust_head adjust_tail heads tails s st c old e gap key n v
          budget in
      let lengths =
        load-write_lengths (with_end s.pkt.mem n s.pkt.start e.data_ e.len) n
          (n + headers_size + e.len + 5) in
      let at : (b : ℕ) → frame b ≡ built b = λ b. ap (λ (m : Mem). m b) frame-built in
      let ip : n + headers_size + e.len + 5 - (n + 14) ≡ 36 + e.len + 5 = omega arith in
      let udp : n + headers_size + e.len + 5 - (n + 34) ≡ 16 + e.len + 5 = omega arith in
      (
        ap (λ (r : State × Action). r.1) eq,
        ap (λ (r : State × Action). r.0.pkt.start) eq,
        ap (λ (r : State × Action). r.0.pkt.end) eq,
        λ j h. at _ ∙ answer-data s.pkt.mem n s.pkt.start e.data_ e.len j h,
        subst (λ m. Reads m (n + headers_size + e.len) end_text) (sym frame-built)
            (answer-end s.pkt.mem n s.pkt.start e.data_ e.len),
        λ b lo hi out. at b ∙ answer-headers s.pkt.mem n s.pkt.start e.data_ e.len b lo hi out,
        ap (λ (m : Mem). load_be16 m (n + 16)) frame-built ∙ lengths.0 ∙ ap u16 ip,
        ap (λ (m : Mem). load_be16 m (n + 38)) frame-built ∙ lengths.1 ∙ ap u16 udp,
        ap (λ (r : State × Action). r.0.kcache) eq,
      )
