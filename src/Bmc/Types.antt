-- ===== src/Bmc/Types.antt =====
-- The constants and structures of bmc/bmc_common.h and bmc/bmc_kern.c.
use bmc_cache.Base.{ℕ, ◌*◌, ◌%◌, Bool, Option}
use bmc_cache.Base.{Mem, Slots, u32, sign_extend, bit_xor}

abbrev pub max_key_length : ℕ
max_key_length = 250

-- BMC_MAX_CACHE_DATA_SIZE: 250 + 1000 + 53
abbrev pub max_cache_data_size : ℕ
max_cache_data_size = 1303

abbrev pub cache_entry_count : ℕ
cache_entry_count = 3250000

abbrev pub max_packet_length : ℕ
max_packet_length = 1500

-- BMC_MAX_KEY_IN_MULTIGET, which is also BMC_MAX_KEY_IN_PACKET
abbrev pub max_key_in_packet : ℕ
max_key_in_packet = 30

abbrev pub fnv_offset_basis : ℕ
fnv_offset_basis = 2166136261

abbrev pub fnv_prime : ℕ
fnv_prime = 16777619

abbrev pub adjust_head_len : ℕ
adjust_head_len = 128

-- The sizes of `struct ethhdr`, `struct iphdr`, `struct udphdr`, `struct tcphdr` and
-- `struct memcached_udp_header`.
abbrev pub eth_size : ℕ
eth_size = 14

abbrev pub ip_size : ℕ
ip_size = 20

abbrev pub udp_size : ℕ
udp_size = 8

abbrev pub tcp_size : ℕ
tcp_size = 20

abbrev pub memcached_udp_size : ℕ
memcached_udp_size = 8

-- All headers before the text of a UDP request.
abbrev pub headers_size : ℕ
headers_size = 50

-- IPPROTO_UDP and IPPROTO_TCP
abbrev pub ipproto_udp : ℕ
ipproto_udp = 17

abbrev pub ipproto_tcp : ℕ
ipproto_tcp = 6

abbrev pub memcached_port : ℕ
memcached_port = 11211

-- `struct bmc_cache_entry`. The lock is held over whole critical sections, each of which is one
-- step here, so it has no field. `data` is an array of `max_cache_data_size` bytes.
pub record Entry : Type 0 where
  pub len : ℕ
  pub valid : Bool
  pub hash : ℕ
  pub data_ : Mem

-- `struct memcached_key`; `data` is an array of `max_key_length` bytes.
pub record Key : Type 0 where
  pub hash : ℕ
  pub data_ : Mem
  pub len : ℕ

-- `struct parsing_context`
pub record ParsingContext : Type 0 where
  pub key_count : ℕ
  pub current_key : ℕ
  pub read_pkt_offset : ℕ
  pub write_pkt_offset : ℕ

-- `struct bmc_stats`
pub record Stats : Type 0 where
  pub get_recv_count : ℕ
  pub set_recv_count : ℕ
  pub get_resp_count : ℕ
  pub hit_misprediction : ℕ
  pub hit_count : ℕ
  pub miss_count : ℕ
  pub update_count : ℕ
  pub invalidation_count : ℕ

-- A packet as a program sees it: memory, and the addresses `data` and `data_end`.
pub record Packet : Type 0 where
  pub mem : Mem
  pub start : ℕ
  pub end : ℕ

-- What a program reads and writes. `map_stats` and `map_parsing_context` have one slot each, and
-- every lookup is at slot zero; `none` stands for the NULL of that lookup.
pub record State : Type 0 where
  pub pkt : Packet
  pub kcache : Slots Entry
  pub keys : Slots Key
  pub pctx : Option ParsingContext
  pub stats : Option Stats

-- The return codes that the programs name.
pub data Action : Type 0 where
  xdp_pass xdp_drop xdp_tx tc_act_ok : Action

-- The entries of `map_progs_xdp` and `map_progs_tc`.
pub data Prog : Type 0 where
  hash_keys prepare_packet write_reply invalidate_cache update_cache : Prog

-- A program returns, or asks for a tail call; a tail call that fails falls through to a return.
pub data Outcome : Type 0 where
  ret : Action → Outcome
  tail_call : Prog → Action → Outcome

abbrev pub set_mem : State → Mem → State
set_mem s m = record s { pkt = record (s.pkt) { mem = m } }

-- One step of the FNV-1a hash of the programs: `hash ^= c; hash *= FNV_PRIME_32;`.
unfoldable pub fnv_step : ℕ → ℕ → ℕ
fnv_step h c = u32 (bit_xor h (sign_extend c) * fnv_prime)

-- `hash % BMC_CACHE_ENTRY_COUNT`
abbrev pub cache_idx : ℕ → ℕ
cache_idx h = h % cache_entry_count
