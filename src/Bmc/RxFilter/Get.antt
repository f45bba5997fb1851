-- ===== src/Bmc/RxFilter/Get.antt =====
-- Which packets `bmc_rx_filter_main` takes over, and what it makes of a GET request.
use bmc_cache.Base.{
  ℕ, zero, suc, ◌+◌, ◌≤◌, ◌<◌, ◌≡◌, ◌≢◌, ◌⊎◌, inl, ◌∙◌, true, Option, some, List, [], ◌∷◌, Reads,
  Reads-at, All, length, arith, load_be16, u32, u16, ℤ, pos, ◌==◌, ◌&&◌, leb, ltb,
}
use bmc_cache.Bmc.Types.{
  State, Packet, ParsingContext, Stats, Outcome, ret, tail_call, xdp_pass, hash_keys,
  invalidate_cache, headers_size, ipproto_udp, ipproto_tcp, memcached_port, max_packet_length,
}
use bmc_cache.Bmc.RxFilter.{transport, is_get, skip_spaces, receive_get, rx_filter}

-- The loop stops behind the spaces.
skip_spaces-gap :
    (gap : List ℕ) (left off : ℕ) (p : Packet) (payload : ℕ)
    → Reads p.mem (payload + off) gap
    → All (λ b. b ≡ b' ') gap
    → payload + off + length gap ≤ p.end
    → (p.mem (payload + off + length gap) ≢ b' ') ⊎ (p.end ≡ payload + off + length gap)
    → length gap ≤ left
    → skip_spaces left p payload off ≡ off + length gap
unfolding skip_spaces
skip_spaces-gap [] zero off p payload r g fits stop more = omega arith
skip_spaces-gap [] (suc left) off p payload r g fits stop more = ground arith
skip_spaces-gap (b ∷ gap) zero off p payload r g fits stop more = absurd (omega arith)
skip_spaces-gap (b ∷ gap) (suc left) off p payload r g fits stop more =
    ground (arith, skip_spaces-gap gap left (off + 1) p payload)

-- The three verdicts of the filter: a packet for the network stack, a TCP segment for memcached,
-- and a GET request for it over UDP.
abbrev pub IsVerdict : State → State × Outcome → Type 0
IsVerdict s r =
    let frame = s.pkt.start in
    (r.1 ≡ ret xdp_pass) × (r.0.kcache ≡ s.kcache) × (r.0.pkt ≡ s.pkt)
    ⊎ (r.1 ≡ tail_call invalidate_cache xdp_pass)
      × (r.0 ≡ s)
      × (s.pkt.mem (frame + 23) ≡ ipproto_tcp)
      × (load_be16 s.pkt.mem (frame + 36) ≡ memcached_port)
    ⊎ (r.1 ≡ tail_call hash_keys xdp_pass)
      × (r.0.kcache ≡ s.kcache)
      × (s.pkt.mem (frame + 23) ≡ ipproto_udp)
      × (load_be16 s.pkt.mem (frame + 36) ≡ memcached_port)
      × (is_get s.pkt.mem (frame + headers_size) ≡ true)

module _ (adjust_head : Packet → ℤ → Option Packet) (s : State) where
  abbrev frame : ℕ
  frame = s.pkt.start

  -- Whatever the packet holds, the filter passes it on unchanged, or hands it to one of two
  -- programs: TCP segments for memcached to the invalidation, unchanged; and GET requests over UDP
  -- to the hashing of keys. It never changes the cache.
  pub rx_filter-IsVerdict : IsVerdict s (rx_filter adjust_head s)
  unfolding rx_filter transport receive_get
  rx_filter-IsVerdict = ground arith

  -- A GET request over UDP: "get ", perhaps more spaces, and a byte that is none.
  pub record IsGetRequest (gap : List ℕ) : Type 0 where
    pub proto : s.pkt.mem (frame + 23) ≡ ipproto_udp
    pub port : load_be16 s.pkt.mem (frame + 36) ≡ memcached_port
    pub command : Reads s.pkt.mem (frame + 50) (b'g' ∷ b'e' ∷ b't' ∷ b' ' ∷ [])
    pub spaces : Reads s.pkt.mem (frame + 54) gap
    pub only_spaces : All (λ b. b ≡ b' ') gap
    pub then_other : s.pkt.mem (frame + 54 + length gap) ≢ b' '
    pub fits : frame + 54 + length gap + 1 ≤ s.pkt.end
    pub short : length gap < 1496

  -- The context of a request whose first key is at the offset `off` of the text.
  abbrev pub fresh_context : ℕ → ParsingContext
  fresh_context off = record {
    key_count = 0;
    current_key = 0;
    read_pkt_offset = u16 off;
    write_pkt_offset = 0;
  }

  transport-udp :
      {gap : List ℕ}
      → IsGetRequest gap
      → transport s.pkt ≡ some (load_be16 s.pkt.mem (frame + 36), frame + 50)
  unfolding transport
  transport-udp g = ground (arith, g.proto, g.fits)

  is_get-get : {gap : List ℕ} → IsGetRequest gap → is_get s.pkt.mem (frame + 50) ≡ true
  unfolding is_get
  is_get-get g = let r = g.command in ground (arith, r.0, r.1.0, r.1.1.0, r.1.1.1.0)

  -- If the helper moves the head, the keys are hashed next: the statistics count the request, the
  -- context is reset, and the packet begins at the first key.
  pub rx_filter-get :
      (st : Stats) (c : ParsingContext) (gap : List ℕ) (p : Packet)
      → s.stats ≡ some st
      → s.pctx ≡ some c
      → IsGetRequest gap
      → adjust_head s.pkt (pos (headers_size + (4 + length gap))) ≡ some p
      → rx_filter adjust_head s ≡ (
        record s {
          pkt = p;
          pctx = some (fresh_context (4 + length gap));
          stats = some (record st { get_recv_count = u32 (st.get_recv_count + 1) });
        },
        tail_call hash_keys xdp_pass,
      )
  unfolding rx_filter receive_get
  rx_filter-get st c gap p est ec g moved =
      let e54 : frame + 54 ≡ frame + 50 + 4 = omega arith in
      let behind : s.pkt.mem (frame + 50 + 4 + length gap) ≢ b' ' = rw (← e54) g.then_other in
      let off : skip_spaces 1496 s.pkt (frame + 50) 4 ≡ 4 + length gap =
        skip_spaces-gap gap 1496 4 s.pkt (frame + 50) (Reads-at s.pkt.mem gap e54 g.spaces)
          g.only_spaces (omega (arith, g.fits)) (inl behind) (omega (arith, g.short)) in
      let port : (load_be16 s.pkt.mem (frame + 36) == memcached_port
            && leb (frame + 50 + 4) s.pkt.end)
          ≡ true =
        ground (arith, g.port, g.fits) in
      let proto : s.pkt.mem (frame + 14 + 9) ≡ 17 = ground (arith, g.proto) in
      let small : ltb (4 + length gap) max_packet_length ≡ true = ground (arith, g.short) in
      let entered : rx_filter adjust_head s ≡ receive_get adjust_head s (frame + 50) =
        ground (arith, transport-udp g, port, proto, is_get-get g) in
      entered ∙ ground (arith, est, ec, off, small, moved)
