-- ===== src/Memcached/RefsTests.antt =====
-- A new item for "k" that is stored by a connection, and the properties at it.
use bmc_cache.Base.{
  ℤ, pos, Bool, length, ◌<◌, ◌⊎◌, ℕ, ◌+◌, List, [], ◌∷◌, true, false, none, ◌==◌, if◌then◌else◌,
  ◌≡◌, ◌≢◌, refl, arith, from_list,
}
use bmc_cache.Memcached.Types.{StrItem, Cache, set_item}
use bmc_cache.Memcached.Samples.{empty_cache, sum_bytes}
use bmc_cache.Memcached.Slabs.{zero_item, slabs_clsid, find_class}
use bmc_cache.Memcached.Alloc.{Round}
use bmc_cache.Memcached.Assoc.Refine.{Dict}
use bmc_cache.Memcached.StoreItem.{set, do_store_item}
use bmc_cache.Memcached.Items.{
  item_size_ok, item_make_header, do_item_get, item_free, refcount_decr,
}
use bmc_cache.Memcached.Threads.{item_get, item_remove, store_item}
use bmc_cache.Memcached.Commands.{
  Conn, text, token, conn_new_cmd, conn_nread, conn_swallow, conn_write, noreply_word,
  set_noreply_maybe, out_string,
}
use bmc_cache.Memcached.Commands.Release.{conn_release_items}
use bmc_cache.Memcached.Commands.Ascii.{
  Server, ThreadStats, process_delete_command, complete_nread_ascii,
}
use bmc_cache.Memcached.Commands.Update.{read_line, value_size, process_update_command}
use bmc_cache.Memcached.Commands.TooLarge.{IsUpdateLine, process_update_command-too_large}
use bmc_cache.Memcached.Util.Numbers.{
  byte_at, has_minus, int32, unsigned_checked, signed_checked, safe_strtoul, safe_strtol,
}
use bmc_cache.Memcached.Commands.Outcome.{
  process_delete_command-Counted, complete_nread_ascii-Counted, after_nread, after_refusal,
}
use bmc_cache.Memcached.Refs.{Frame}
use bmc_cache.Memcached.Refs.Counted.{Counted, without_key}
use bmc_cache.Memcached.Refs.Steps.{holders, same-Counted}
use bmc_cache.Memcached.Refs.Store.{map_after, do_store_item-Counted}
use bmc_cache.Memcached.Refs.Reach.{
  Reach, started, allocated, stored, removed, Few, after_store, Reach-Counted,
}
use bmc_cache.Memcached.Refs.Released.{
  item_remove-item_free, releases, releases-item_free, held_by, conn_release_items-Counted,
}

-- "ab" with its line end.
abbrev new_k : StrItem
new_k = record zero_item {
  key = b'k' ∷ [];
  nbytes = 4;
  refcount = 1;
  slabs_clsid = 65;
  data_ = from_list (b'a' ∷ b'b' ∷ b'\r' ∷ b'\n' ∷ []);
}

abbrev quiet : ℕ → Round
quiet i = record { grown = false; fresh = 0; trylock = λ hv. false }

abbrev no_items : Dict
no_items k = none

abbrev nobody : ℕ → ℕ
nobody a = 0

abbrev new_cache : Cache
new_cache = set_item empty_cache 600 new_k

abbrev one_holder : ℕ → ℕ
one_holder = holders nobody 600 1

nobody-Few : Few nobody
nobody-Few a = omega arith

one_holder-Few : Few one_holder
one_holder-Few a = ground arith

not_null : ◌≢◌ {A = ℕ} 600 0
not_null h = absurd (ground arith)

abbrev new_history : Reach sum_bytes 20 quiet new_cache no_items one_holder
new_history =
    allocated 600 new_k (started empty_cache 1 refl (λ a. refl)) not_null refl refl
      (refl, refl, refl)

abbrev stored_map_k : Dict
stored_map_k = after_store sum_bytes 20 quiet new_cache no_items 600 set false

abbrev stored_cache : Cache
stored_cache = (store_item sum_bytes 20 quiet new_cache 600 set false).cache

abbrev stored_history : Reach sum_bytes 20 quiet stored_cache stored_map_k one_holder
stored_history = stored 600 set false new_history (omega arith) refl one_holder-Few refl

abbrev linked_cache : Cache
linked_cache = item_remove sum_bytes stored_cache 600

abbrev linked_history :
    Reach sum_bytes 20 quiet linked_cache stored_map_k (holders one_holder 600 0)
linked_history = removed 600 0 stored_history refl

Reach-Counted_example : Counted sum_bytes linked_cache stored_map_k (holders one_holder 600 0)
Reach-Counted_example = Reach-Counted sum_bytes 20 quiet linked_history

new_cache-Counted : Counted sum_bytes new_cache no_items one_holder
new_cache-Counted = Reach-Counted sum_bytes 20 quiet new_history

linked_cache-Counted : Counted sum_bytes linked_cache stored_map_k (holders one_holder 600 0)
linked_cache-Counted = Reach-Counted sum_bytes 20 quiet linked_history

linked-Few : Few (holders one_holder 600 0)
linked-Few a = ground arith

do_store_item-Counted_example :
    Counted sum_bytes
      (do_store_item sum_bytes 20 quiet set false new_cache 600 107).cache
      (map_after true no_items
        (b'k' ∷ [])
        (do_item_get false false new_cache (b'k' ∷ []) 107).1
        600)
      one_holder
do_store_item-Counted_example =
    do_store_item-Counted sum_bytes 20 quiet new_cache no_items one_holder 600 false
      new_cache-Counted (omega arith) refl one_holder-Few set refl

item_remove-item_free_example :
    item_remove sum_bytes new_cache 600
    ≡ item_free (set_item new_cache 600 (refcount_decr new_k)) 600
item_remove-item_free_example =
    item_remove-item_free sum_bytes new_cache no_items one_holder 600 0 new_cache-Counted refl

releases-item_free_example :
    (d : Cache) × (releases sum_bytes 1 new_cache 600 ≡ item_free d 600)
    × (d.slabs ≡ new_cache.slabs)
    × ((d.items 600).refcount ≡ 0)
    × Frame 600 new_cache d
releases-item_free_example =
    releases-item_free sum_bytes 0 new_cache no_items one_holder 600 new_cache-Counted refl refl

-- A connection that has read the value of the new item.
abbrev reading : Conn
reading = record {
  state = conn_nread;
  write_and_go = conn_new_cmd;
  wbuf = text "";
  wbytes = 0;
  wsize = 2048;
  rlbytes = 0;
  sbytes = 0;
  item = 600;
  cmd = set;
  noreply = false;
  set_stale = false;
  mset_res = false;
  iovused = 0;
  msgsize = 10;
  msgused = 0;
  msgcurr = 0;
  msgbytes = 0;
  ilist = [];
}

conn_release_items-Counted_example :
    Counted sum_bytes (conn_release_items sum_bytes new_cache reading).0 no_items nobody
    × ((a : ℕ) → held_by sum_bytes (conn_release_items sum_bytes new_cache reading).1 a ≡ 0)
conn_release_items-Counted_example =
    conn_release_items-Counted sum_bytes new_cache reading no_items nobody (
      same-Counted sum_bytes new_cache no_items no_items one_holder
        (λ a. nobody a + held_by sum_bytes reading a) (λ k. refl) (λ a. ground arith)
        new_cache-Counted)

abbrev no_counts : ThreadStats
no_counts = record {
  set_cmds = λ a. 0;
  delete_hits = λ a. 0;
  touch_hits = λ a. 0;
  delete_misses = 0;
  touch_cmds = 0;
  touch_misses = 0;
  incr_misses = 0;
  decr_misses = 0;
}

abbrev reading_server : Server
reading_server = record { cache = new_cache; conn = reading; stats = no_counts }

complete_nread_ascii-Counted_example :
    Counted sum_bytes
      (complete_nread_ascii sum_bytes 20 quiet true false reading_server).cache
      (after_nread sum_bytes 20 quiet false reading_server no_items)
      (holders one_holder 600 0)
    × ((complete_nread_ascii sum_bytes 20 quiet true false reading_server).conn.item ≡ 0)
complete_nread_ascii-Counted_example =
    complete_nread_ascii-Counted sum_bytes 20 quiet true false reading_server no_items one_holder 0
      new_cache-Counted one_holder-Few refl refl refl

-- The connection when "k" is stored; "delete k".
abbrev linked_server : Server
linked_server = record {
  cache = linked_cache;
  conn = record reading { item = 0; state = conn_new_cmd };
  stats = no_counts;
}

abbrev delete_k : List (List ℕ)
delete_k = (b'd' ∷ b'e' ∷ b'l' ∷ b'e' ∷ b't' ∷ b'e' ∷ []) ∷ (b'k' ∷ []) ∷ []

process_delete_command-Counted_example :
    Counted sum_bytes
      (process_delete_command sum_bytes true linked_server delete_k).cache
      (without_key stored_map_k (b'k' ∷ []))
      (holders one_holder 600 0)
    × ((process_delete_command sum_bytes true linked_server delete_k).conn
        ≡ out_string true linked_server.conn (
            text (
              if (item_get sum_bytes false linked_cache (b'k' ∷ []) false).1 == 0
              then "NOT_FOUND"
              else "DELETED")))
unfolding token
process_delete_command-Counted_example =
    process_delete_command-Counted sum_bytes true linked_server delete_k stored_map_k
      (holders one_holder 600 0) linked_cache-Counted linked-Few refl refl

-- "set k 0 0 2000000 noreply", and the numbers that the C library reads in it.
abbrev zero_text : List ℕ
zero_text = b'0' ∷ []

abbrev size_text : List ℕ
size_text = b'2' ∷ b'0' ∷ b'0' ∷ b'0' ∷ b'0' ∷ b'0' ∷ b'0' ∷ []

abbrev set_large : List (List ℕ)
set_large =
    (b's' ∷ b'e' ∷ b't' ∷ []) ∷ (b'k' ∷ []) ∷ zero_text ∷ zero_text ∷ size_text ∷ noreply_word ∷ []

abbrev read_unsigned : List ℕ → ℕ × ℕ × Bool
read_unsigned w = (0, 1, false)

abbrev read_signed : List ℕ → ℤ × ℕ × Bool
read_signed w = if length w == 1 then (pos 0, 1, false) else (pos 2000000, 7, false)

set_large-IsUpdateLine :
    IsUpdateLine sum_bytes 20 quiet 2 read_unsigned read_signed read_unsigned true reading_server
      set_large set false 2000002
unfolding token read_line value_size safe_strtoul safe_strtol unsigned_checked signed_checked
    byte_at has_minus int32
set_large-IsUpdateLine = record {
  short_key = omega arith;
  flags = refl;
  exptime = refl;
  size_read = refl;
  cas_id = refl;
  size = refl;
}

set_large-too_large : item_size_ok new_cache 1 0 2000002 ≡ false
unfolding item_size_ok item_make_header slabs_clsid find_class
set_large-too_large = refl

process_update_command-too_large_example :
    let r =
      process_update_command sum_bytes 20 quiet 2 read_unsigned read_signed read_unsigned true
        reading_server set_large set false in
    Counted sum_bytes r.cache (after_refusal sum_bytes 20 quiet set no_items (b'k' ∷ [])) one_holder
    × (r.conn.write_and_go ≡ conn_swallow)
    × (r.conn.sbytes ≡ 2000002)
    × (r.conn.state
        ≡ (if (set_noreply_maybe reading set_large).noreply then conn_new_cmd else conn_write))
    × (((set_noreply_maybe reading set_large).noreply ≡ true)
        ⊎ (reading.wsize < 41)
        ⊎ (r.conn.wbuf ≡ text "SERVER_ERROR object too large for cache"))
unfolding token read_line safe_strtoul unsigned_checked byte_at has_minus
process_update_command-too_large_example =
    process_update_command-too_large sum_bytes 20 quiet 2 read_unsigned read_signed read_unsigned
      true reading_server set_large set false 2000002 no_items one_holder set_large-IsUpdateLine
      set_large-too_large new_cache-Counted one_holder-Few
