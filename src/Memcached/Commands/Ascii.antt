-- ===== src/Memcached/Commands/Ascii.antt =====
-- The commands of the text protocol of memcached-sr/memcached.c that change items. The statistics of
-- prefixes, the log and external storage are not modelled.
use bmc_cache.Base.{
  ℕ, ℤ, ◌+◌, ◌-◌, Bool, true, false, not, ◌&&◌, ◌||◌, Option, List, [], ◌∷◌, ltb, ◌==◌,
  if◌then◌else◌, length,
}
use bmc_cache.Memcached.Types.{StrItem, Cache, set_at, item_clsid}
use bmc_cache.Memcached.Assoc.{same_key}
use bmc_cache.Memcached.Lru.{add64}
use bmc_cache.Memcached.Items.{do_item_remove, do_item_unlink}
use bmc_cache.Memcached.Alloc.{Round}
use bmc_cache.Memcached.StoreItem.{
  StoreItemType, stored, exists, not_found, not_stored, ok, non_numeric, eom, delta_item_not_found,
  delta_item_cas_mismatch,
}
use bmc_cache.Memcached.Realtime.{realtime}
use bmc_cache.Memcached.Threads.{
  item_get, item_get_locked, item_touch, item_remove, add_delta, store_item,
}
use bmc_cache.Memcached.Util.Numbers.{safe_strtol, safe_strtoull}
use bmc_cache.Memcached.Commands.{
  Conn, Answer, text, digits, marked, out_string, out_mstring, token, set_noreply_maybe,
}

-- The statistics of a thread that these commands count.
pub record ThreadStats : Type 0 where
  pub set_cmds : ℕ → ℕ
  pub delete_hits : ℕ → ℕ
  pub touch_hits : ℕ → ℕ
  pub delete_misses : ℕ
  pub touch_cmds : ℕ
  pub touch_misses : ℕ
  pub incr_misses : ℕ
  pub decr_misses : ℕ

-- What a command meets and changes.
pub record Server : Type 0 where
  pub cache : Cache
  pub conn : Conn
  pub stats : ThreadStats

abbrev pub key_max_length : ℕ
key_max_length = 250

abbrev pub it_refcount_limit : ℕ
it_refcount_limit = 60000

abbrev pub count : (ℕ → ℕ) → ℕ → ℕ → ℕ
count m id = set_at m id (add64 (m id) 1)

-- An answer, and nothing else.
abbrev pub answer : Bool → Server → Answer → Server
answer grown s a = record s { conn = out_string grown s.conn a }

abbrev pub bad_line : Answer
bad_line = text "CLIENT_ERROR bad command line format"

module _ (hash : List ℕ → ℕ) where
  -- The server gives no item out more than so often. `queued`: there is room in the queue of bumps.
  unfoldable pub limited_get : Bool → Cache → List ℕ → ℕ → Bool → Bool → Cache × ℕ
  limited_get queued c key exptime should_touch do_update =
      let (c1, it) =
        if should_touch
        then item_touch hash queued c key exptime
        else item_get hash queued c key do_update in
      if not (it == 0) && ltb it_refcount_limit (c1.items it).refcount
      then (item_remove hash c1 it, 0)
      else (c1, it)

  unfoldable pub limited_get_locked : Bool → Cache → List ℕ → Bool → Cache × ℕ × ℕ
  limited_get_locked queued c key do_update =
      let (c1, it, hv) = item_get_locked hash queued c key do_update in
      if not (it == 0) && ltb it_refcount_limit (c1.items it).refcount
      then (do_item_remove c1 it, 0, hv)
      else (c1, it, hv)

  -- Of the words behind the key of a deletion.
  unfoldable pub delete_is_valid : Conn → List (List ℕ) → Bool
  delete_is_valid c words =
      let ntokens = length words + 1 in
      let hold_is_zero = same_key (token words 2) (b'0' ∷ []) in
      let sets_noreply = (set_noreply_maybe c words).noreply in
      (ntokens == 4 && (hold_is_zero || sets_noreply))
      || (ntokens == 5 && hold_is_zero && sets_noreply)

  unfoldable pub process_delete_command : Bool → Server → List (List ℕ) → Server
  process_delete_command grown s words =
      let ntokens = length words + 1 in
      let k = if ltb 3 ntokens then set_noreply_maybe s.conn words else s.conn in
      let s1 = record s { conn = k } in
      let key = token words 1 in
      let (c, it, hv) = item_get_locked hash false s.cache key false in
      let hit = record (s.stats) {
        delete_hits = count s.stats.delete_hits (item_clsid (c.items it));
      } in
      let miss = record (s.stats) { delete_misses = add64 s.stats.delete_misses 1 } in
      if ltb 3 ntokens && not (delete_is_valid s.conn words)
      then answer grown s1
          (text "CLIENT_ERROR bad command line format.  Usage: delete <key> [noreply]")
      else if ltb key_max_length (length key)
      then answer grown s1 bad_line
      else if it == 0
      then answer grown (record s1 { cache = c; stats = miss }) (text "NOT_FOUND")
      else answer grown
          (record s1 { cache = do_item_remove (do_item_unlink c it hv) it; stats = hit })
          (text "DELETED")

  module _ (process_started : ℕ) (strtol : List ℕ → ℤ × ℕ × Bool) where
    unfoldable pub process_touch_command : Bool → Bool → Server → List (List ℕ) → Server
    process_touch_command grown queued s words =
        let s1 = record s { conn = set_noreply_maybe s.conn words } in
        let key = token words 1 in
        let (valid, exptime_int) = safe_strtol strtol (token words 2) in
        let (c, it) =
          item_touch hash queued s.cache key
            (realtime process_started s.cache.current_time exptime_int) in
        let t = record (s.stats) { touch_cmds = add64 s.stats.touch_cmds 1 } in
        let hit = record t { touch_hits = count t.touch_hits (item_clsid (c.items it)) } in
        let miss = record t { touch_misses = add64 t.touch_misses 1 } in
        if ltb key_max_length (length key)
        then answer grown s1 bad_line
        else if not valid
        then answer grown s1 (text "CLIENT_ERROR invalid exptime argument")
        else if it == 0
        then answer grown (record s1 { cache = c; stats = miss }) (text "NOT_FOUND")
        else (let s2 = answer grown (record s1 { cache = c; stats = hit }) (text "TOUCHED") in
            record s2 { cache = item_remove hash s2.cache it })

  module _ (rounds : ℕ) (env : ℕ → Round) where
    unfoldable pub process_arithmetic_command :
        (List ℕ → ℕ × ℕ × Bool)
        → (StrItem → Option ℕ)
        → (ℕ → List ℕ)
        → Bool
        → Server
        → List (List ℕ)
        → Bool
        → Server
    process_arithmetic_command strtoull parse print grown s words incr =
        let s1 = record s { conn = set_noreply_maybe s.conn words } in
        let key = token words 1 in
        let (valid, delta) = safe_strtoull strtoull (token words 2) in
        let (c, result, id) = add_delta hash rounds env parse print s.cache key incr delta 0 in
        let s2 = record s1 { cache = c } in
        let t = s.stats in
        let miss =
          if incr
          then record t { incr_misses = add64 t.incr_misses 1 }
          else record t { decr_misses = add64 t.decr_misses 1 } in
        if ltb key_max_length (length key)
        then answer grown s1 bad_line
        else if not valid
        then answer grown s1 (text "CLIENT_ERROR invalid numeric delta argument")
        else elim result [
          | ok temp ↦ answer grown s2 (digits temp)
          | non_numeric ↦
              answer grown s2 (text "CLIENT_ERROR cannot increment or decrement non-numeric value")
          | eom ↦ answer grown s2 (text "SERVER_ERROR out of memory")
          | delta_item_not_found ↦ answer grown (record s2 { stats = miss }) (text "NOT_FOUND")
          | delta_item_cas_mismatch ↦ s2
        ]

    -- The value is whole when it ends with "\r\n"; `chunks_end` says so of one in chunks.
    unfoldable pub value_is_valid : Bool → StrItem → Bool
    value_is_valid chunks_end i =
        if i.it_flags.chunked
        then chunks_end
        else i.data_ (i.nbytes - 2) == b'\r' && i.data_ (i.nbytes - 1) == b'\n'

    unfoldable pub answer_meta : Bool → Conn → StoreItemType → Conn
    answer_meta grown k stored = out_mstring (record k { wbuf = marked "ST " k.wbuf }) true
    answer_meta grown k exists = out_mstring (record k { wbuf = marked "EX " k.wbuf }) false
    answer_meta grown k not_found = out_mstring (record k { wbuf = marked "NF " k.wbuf }) false
    answer_meta grown k not_stored = out_mstring (record k { wbuf = marked "NS " k.wbuf }) false
    answer_meta grown k other =
        out_string grown (record k { noreply = false })
          (text "SERVER_ERROR Unhandled storage type.")

    unfoldable pub store_answer : StoreItemType → Answer
    store_answer stored = text "STORED"
    store_answer exists = text "EXISTS"
    store_answer not_found = text "NOT_FOUND"
    store_answer not_stored = text "NOT_STORED"
    store_answer other = text "SERVER_ERROR Unhandled storage type."

    -- `store_item` may set the CAS id of the connection, which these answers do not use.
    unfoldable pub complete_nread_ascii : Bool → Bool → Server → Server
    complete_nread_ascii grown chunks_end s =
        let k = s.conn in
        let it = k.item in
        let i = s.cache.items it in
        let t = record (s.stats) { set_cmds = count s.stats.set_cmds (item_clsid i) } in
        let r = store_item hash rounds env s.cache it k.cmd k.set_stale in
        let bad =
          out_string grown (if k.mset_res then record k { noreply = false } else k)
            (text "CLIENT_ERROR bad data chunk") in
        let good =
          if k.mset_res
          then answer_meta grown k r.result
          else out_string grown k (store_answer r.result) in
        let valid = value_is_valid chunks_end i in
        let k1 = if valid then good else bad in
        let c1 = if valid then r.cache else s.cache in
        record {
          cache = item_remove hash c1 it;
          conn = record k1 { set_stale = false; mset_res = false; item = 0 };
          stats = t;
        }
