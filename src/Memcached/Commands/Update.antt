-- ===== src/Memcached/Commands/Update.antt =====
-- The line of a storing command of memcached-sr/memcached.c.
use bmc_cache.Base.{
  ℕ, ℤ, pos, negsuc, ◌+◌, ◌-◌, ◌^◌, Bool, true, false, not, ◌&&◌, Option, none, some, List, ltb,
  ◌==◌, if◌then◌else◌, length,
}
use bmc_cache.Memcached.Types.{Cache, set_item}
use bmc_cache.Memcached.Items.{item_set_cas, item_size_ok}
use bmc_cache.Memcached.Alloc.{Round}
use bmc_cache.Memcached.StoreItem.{Command, set}
use bmc_cache.Memcached.Realtime.{realtime, realtime_maxdelta}
use bmc_cache.Memcached.Threads.{item_get, item_remove, item_unlink, item_alloc}
use bmc_cache.Memcached.Util.Numbers.{safe_strtoul, safe_strtol, safe_strtoull}
use bmc_cache.Memcached.Commands.{
  text, conn_nread, conn_swallow, out_string, token, set_noreply_maybe,
}
use bmc_cache.Memcached.Commands.Ascii.{Server, key_max_length, answer, bad_line}

module _ (hash : List ℕ → ℕ) where
  module _ (rounds : ℕ) (env : ℕ → Round) where
    -- The numbers of the line of a storing command: flags, time, size, and CAS id if there is one.
    pub record Line : Type 0 where
      pub flags : Bool × ℕ
      pub exptime_int : Bool × ℤ
      pub vlen : Bool × ℤ
      pub req_cas_id : Bool × ℕ

    unfoldable pub read_line :
        (List ℕ → ℕ × ℕ × Bool)
        → (List ℕ → ℤ × ℕ × Bool)
        → (List ℕ → ℕ × ℕ × Bool)
        → List (List ℕ)
        → Bool
        → Line
    read_line strtoul strtol strtoull words handle_cas = record {
      flags = safe_strtoul strtoul (token words 2);
      exptime_int = safe_strtol strtol (token words 3);
      vlen = safe_strtol strtol (token words 4);
      req_cas_id = if handle_cas then safe_strtoull strtoull (token words 5) else (true, 0);
    }

    -- Negative times expire at once.
    unfoldable pub clamp_exptime : ℤ → ℤ
    clamp_exptime (pos n) = pos n
    clamp_exptime (negsuc n) = pos (realtime_maxdelta + 1)

    -- The size with the line end, if the size is one.
    unfoldable pub value_size : ℤ → Option ℕ
    value_size (pos n) = if ltb (2 ^ 31 - 1 - 2) n then none else some (n + 2)
    value_size (negsuc n) = none

    -- No memory: the line of data is to be swallowed, and an old value under the key goes for `set`.
    unfoldable pub refuse_update : Bool → Server → List ℕ → ℕ → ℕ → Command → Server
    refuse_update grown s key flags vlen comm =
        let big = not (item_size_ok s.cache (length key) flags vlen) in
        let why =
          if big
          then text "SERVER_ERROR object too large for cache"
          else text "SERVER_ERROR out of memory storing object" in
        let k = record (out_string grown s.conn why) {
          write_and_go = conn_swallow;
          sbytes = vlen;
        } in
        record s { conn = k; cache = drop_old s.cache comm key }
      where
        drop_old : Cache → Command → List ℕ → Cache
        drop_old c set key =
            let (c1, it) = item_get hash false c key false in
            if it == 0 then c1 else item_remove hash (item_unlink hash c1 it) it
        drop_old c other key = c

    unfoldable pub start_update : Bool → Server → List ℕ → ℕ → ℕ → ℕ → ℕ → Command → Server
    start_update grown s key flags exptime vlen req_cas_id comm =
        let (c, it) = item_alloc hash rounds env s.cache key flags exptime vlen in
        let s1 = record s { cache = c } in
        let i = item_set_cas (c.items it) req_cas_id in
        let k = record (s.conn) { item = it; rlbytes = i.nbytes; cmd = comm; state = conn_nread } in
        if it == 0
        then refuse_update grown s1 key flags vlen comm
        else record s1 { cache = set_item c it i; conn = k }

    unfoldable pub process_update_command :
        ℕ
        → (List ℕ → ℕ × ℕ × Bool)
        → (List ℕ → ℤ × ℕ × Bool)
        → (List ℕ → ℕ × ℕ × Bool)
        → Bool
        → Server
        → List (List ℕ)
        → Command
        → Bool
        → Server
    process_update_command process_started strtoul strtol strtoull grown s words comm handle_cas =
        let s1 = record s { conn = set_noreply_maybe s.conn words } in
        let key = token words 1 in
        let l = read_line strtoul strtol strtoull words handle_cas in
        let exptime =
          realtime process_started s.cache.current_time (clamp_exptime l.exptime_int.1) in
        if ltb key_max_length (length key)
        then answer grown s1 bad_line
        else if not (l.flags.0 && l.exptime_int.0 && l.vlen.0)
        then answer grown s1 bad_line
        else if not l.req_cas_id.0
        then answer grown s1 bad_line
        else elim (value_size l.vlen.1) [
          | none ↦ answer grown s1 bad_line
          | some vlen ↦ start_update grown s1 key l.flags.1 exptime vlen l.req_cas_id.1 comm
        ]
