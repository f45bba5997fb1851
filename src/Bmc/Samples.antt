-- ===== src/Bmc/Samples.antt =====
-- Packets and caches for the tests.
use Prim.Native.Char.{code}
use Prim.Native.String.{String}
use bmc_cache.Base.{
  ℕ, ◌-◌, true, false, none, some, List, [], ◌∷◌, Mem, Slots, ltb, leb, ◌==◌, if◌then◌else◌,
  from_list,
}
use bmc_cache.Bmc.Types.{State, Packet, Key, Entry, Stats, ParsingContext}
use bmc_cache.Bmc.Text.{fnv}

-- The bytes of an ASCII text.
abbrev pub codes : String → List ℕ
codes String.[] = []
codes (String.◌∷◌ c s) = code c ∷ codes s

-- A memory with a text at an address, and zeros elsewhere.
abbrev pub placed : ℕ → List ℕ → Mem
placed a cs b = if leb a b then from_list cs (b - a) else 0

abbrev pub no_stats : Stats
no_stats = record {
  get_recv_count = 0;
  set_recv_count = 0;
  get_resp_count = 0;
  hit_misprediction = 0;
  hit_count = 0;
  miss_count = 0;
  update_count = 0;
  invalidation_count = 0;
}

abbrev pub no_context : ParsingContext
no_context = record { key_count = 0; current_key = 0; read_pkt_offset = 0; write_pkt_offset = 0 }

abbrev pub blank_key : Key
blank_key = record { hash = 0; data_ = λ a. 0; len = 0 }

abbrev pub blank_entry : Entry
blank_entry = record { len = 0; valid = false; hash = 0; data_ = λ a. 0 }

-- Thirty slots for keys, and slots for entries that all hold the same.
abbrev pub key_slots : Slots Key
key_slots i = if ltb i 30 then some blank_key else none

abbrev pub all_slots : Entry → Slots Entry
all_slots e i = if ltb i 3250000 then some e else none

abbrev pub state_of : Packet → Entry → State
state_of p e = record {
  pkt = p;
  kcache = all_slots e;
  keys = key_slots;
  pctx = some no_context;
  stats = some no_stats;
}

-- An Ethernet frame at address 200: zeros but for the protocol and the destination port 11211.
abbrev pub headers : ℕ → ℕ → List ℕ → Mem
headers proto text cs a =
    if a == 223 then proto else if a == 236 then 43 else if a == 237 then 203 else placed text cs a

-- "get k\r\n" over UDP, in a frame with room behind it.
abbrev pub get_k : Packet
get_k = record { mem = headers 17 250 (codes "get k\r\n"); start = 200; end = 400 }

-- "set k 0 0 1\r\nx\r\n" over TCP
abbrev pub set_k : Packet
set_k = record { mem = headers 6 254 (codes "set k 0 0 1\r\nx\r\n"); start = 200; end = 271 }

-- The reply "VALUE k 0 1\r\nx\r\n" over UDP
abbrev pub value_k : Packet
value_k = record { mem = placed 250 (codes "VALUE k 0 1\r\nx\r\n"); start = 200; end = 266 }

-- The same, cut off behind "x".
abbrev pub value_k_cut : Packet
value_k_cut = record { mem = placed 250 (codes "VALUE k 0 1\r\nx\r\n"); start = 200; end = 264 }

abbrev pub entry_k : Entry
entry_k = record {
  len = 16;
  valid = true;
  hash = fnv (codes "k");
  data_ = placed 0 (codes "VALUE k 0 1\r\nx\r\n");
}

abbrev pub saved_k : Key
saved_k = record { hash = fnv (codes "k"); data_ = placed 0 (codes "k"); len = 1 }
