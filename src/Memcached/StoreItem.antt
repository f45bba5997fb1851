-- ===== src/Memcached/StoreItem.antt =====
-- `do_store_item` and `do_add_delta` of memcached-sr/memcached.c.
pub mod Join
pub mod Delta
pub mod Replace
pub mod Semantics
use bmc_cache.Base.{
  ℕ, zero, suc, ◌+◌, ◌-◌, ◌*◌, ◌/◌, ◌%◌, ◌^◌, Bool, true, false, not, ◌&&◌, ◌||◌, Option, none,
  some, List, [], ◌∷◌, ◌++◌, ltb, leb, ◌==◌, if◌then◌else◌, Mem, copy_range, write, write_text,
  length,
}
use bmc_cache.Memcached.Types.{StrItem, Flags, Cache, set_item}
use bmc_cache.Memcached.Lru.{add64}
use bmc_cache.Memcached.Items.{
  item_get_cas, item_set_cas, give_cas, do_item_get, do_item_update, do_item_replace, do_item_link,
  do_item_remove,
}
use bmc_cache.Memcached.Alloc.{Round, do_item_alloc}

-- NREAD_ADD to NREAD_CAS
pub data Command : Type 0 where
  add : Command
  set : Command
  replace : Command
  append : Command
  prepend : Command
  cas : Command

-- enum store_item_type
pub data StoreItemType : Type 0 where
  not_stored : StoreItemType
  stored : StoreItemType
  exists : StoreItemType
  not_found : StoreItemType
  too_large : StoreItemType
  no_memory : StoreItemType

-- The results: the state, what happened, the address of the item that was linked (or the one given),
-- and the CAS id that the connection gets, if it gets one.
pub record Stored : Type 0 where
  pub cache : Cache
  pub result : StoreItemType
  pub it : ℕ
  pub cas : Option ℕ

-- `_store_item_copy_data` of an item that is not chunked; both values end with "\r\n".
unfoldable pub store_item_copy_data : Bool → StrItem → StrItem → StrItem → StrItem
store_item_copy_data appends old_it new_it add_it =
    let first = if appends then old_it else add_it in
    let second = if appends then add_it else old_it in
    record new_it {
      data_ =
          copy_range (copy_range new_it.data_ 0 first.data_ 0 first.nbytes) (first.nbytes - 2)
            second.data_ 0 second.nbytes;
    }

-- `FLAGS_CONV`
abbrev pub flags_conv : StrItem → ℕ
flags_conv it = if it.it_flags.has_cflags then it.client_flags else 0

-- A valid CAS command takes the place of the old item.
unfoldable pub store_replaced : Cache → ℕ → ℕ → ℕ → Stored
store_replaced c old_it it hv = record {
  cache = do_item_replace c old_it it hv;
  result = stored;
  it = it;
  cas = none;
}

abbrev pub refused : Cache → ℕ → StoreItemType → Stored
refused c it r = record { cache = c; result = r; it = it; cas = none }

-- NREAD_CAS. `set_stale` lets an older id replace the value, which is marked.
unfoldable pub store_cas : Bool → Cache → ℕ → ℕ → ℕ → Stored
store_cas set_stale c old_it it hv =
    let i = c.items it in
    let o = c.items old_it in
    let stale_it = record i {
      exptime = o.exptime;
      it_flags = record (i.it_flags) {
        stale = true;
        token_sent = i.it_flags.token_sent || o.it_flags.token_sent;
      };
    } in
    if old_it == 0
    then refused c it not_found
    else if item_get_cas i == item_get_cas o
    then store_replaced c old_it it hv
    else if set_stale && ltb (item_get_cas i) (item_get_cas o)
    then store_replaced (set_item c it stale_it) old_it it hv
    else refused c it exists

-- The end of the other commands.
unfoldable pub store_linked : Cache → ℕ → ℕ → ℕ → Stored
store_linked c old_it it hv =
    let c1 = if old_it == 0 then do_item_link c it hv else do_item_replace c old_it it hv in
    record { cache = c1; result = stored; it = it; cas = some (item_get_cas (c1.items it)) }

abbrev pub appends : Command → Bool
appends append = true
appends other = false

abbrev pub is_stored : StoreItemType → Bool
is_stored stored = true
is_stored other = false

module _ (hash : List ℕ → ℕ) (rounds : ℕ) (env : ℕ → Round) where
  -- NREAD_APPEND and NREAD_PREPEND: a new item with both values. The second result is the new item,
  -- whose reference is given up at the end.
  unfoldable pub store_joined : Command → Cache → ℕ → ℕ → ℕ → Stored × ℕ
  store_joined comm c old_it it hv =
      let i = c.items it in
      let o = c.items old_it in
      let (c1, new_it) =
        do_item_alloc hash rounds env c i.key (flags_conv o) o.exptime (i.nbytes + o.nbytes - 2) in
      let joined =
        store_item_copy_data (appends comm) (c1.items old_it) (c1.items new_it) (c1.items it) in
      if not (item_get_cas i == 0) && not (item_get_cas i == item_get_cas o)
      then (refused c it exists, 0)
      else if new_it == 0
      then (refused c1 it not_stored, 0)
      else (store_linked (set_item c1 new_it joined) old_it new_it hv, new_it)

  unfoldable pub store_by : Command → Bool → Cache → ℕ → ℕ → ℕ → Stored × ℕ
  store_by add set_stale c old_it it hv =
      if old_it == 0
      then (store_linked c old_it it hv, 0)
      else (refused (do_item_update c old_it) it not_stored, 0)
  store_by set set_stale c old_it it hv = (store_linked c old_it it hv, 0)
  store_by replace set_stale c old_it it hv =
      if old_it == 0 then (refused c it not_stored, 0) else (store_linked c old_it it hv, 0)
  store_by append set_stale c old_it it hv =
      if old_it == 0 then (refused c it not_stored, 0) else store_joined append c old_it it hv
  store_by prepend set_stale c old_it it hv =
      if old_it == 0 then (refused c it not_stored, 0) else store_joined prepend c old_it it hv
  store_by cas set_stale c old_it it hv = (store_cas set_stale c old_it it hv, 0)

  -- The references of the function are given up.
  unfoldable pub release : Cache → ℕ → Cache
  release c it = if it == 0 then c else do_item_remove c it

  -- Chunked items are not joined here. `hv` is the hash of the item's key.
  unfoldable pub do_store_item : Command → Bool → Cache → ℕ → ℕ → Stored
  do_store_item comm set_stale c0 it hv =
      let (c, old_it) = do_item_get false false c0 (c0.items it).key hv in
      let (s, new_it) = store_by comm set_stale c old_it it hv in
      let c2 = release (release s.cache old_it) new_it in
      record s {
        cache = c2;
        cas = if is_stored s.result then some (item_get_cas (c2.items s.it)) else s.cas;
      }

-- enum delta_result_type, with the value that is answered
pub data DeltaResult : Type 0 where
  ok : List ℕ → DeltaResult
  non_numeric : DeltaResult
  eom : DeltaResult
  delta_item_not_found : DeltaResult
  delta_item_cas_mismatch : DeltaResult

-- The new value: the sum of 64 bits, or the difference, which stops at 0.
unfoldable pub add_delta_value : Bool → ℕ → ℕ → ℕ
add_delta_value incr delta value =
    if incr then (value + delta) % 2 ^ 64 else if ltb value delta then 0 else value - delta

abbrev pub fill_range : Mem → ℕ → ℕ → ℕ → Mem
fill_range m a n v b = if leb a b && ltb b (a + n) then v else m b

-- The digits in place of the old ones, with spaces behind them.
unfoldable pub delta_in_place : Cache → ℕ → List ℕ → Cache
delta_in_place c it digits =
    let c1 = give_cas c it in
    let i = c1.items it in
    let n = length digits in
    do_item_update
      (set_item c1 it
        (record i { data_ = fill_range (write_text i.data_ 0 digits) n (i.nbytes - n - 2) b' ' }))
      it

module _ (hash : List ℕ → ℕ) (rounds : ℕ) (env : ℕ → Round) where
  -- A new item for the digits, which takes the place of the old one.
  unfoldable pub delta_replaced : Cache → ℕ → List ℕ → ℕ → Option Cache
  delta_replaced c it digits hv =
      let i = c.items it in
      let n = length digits in
      let (c1, new_it) = do_item_alloc hash rounds env c i.key (flags_conv i) i.exptime (n + 2) in
      let j = c1.items new_it in
      let c2 =
        set_item c1 new_it
          (record j { data_ = write_text (write_text j.data_ 0 digits) n (b'\r' ∷ b'\n' ∷ []) }) in
      let c3 = do_item_replace c2 it new_it hv in
      let id : ℕ = if c.settings.use_cas then item_get_cas (c3.items new_it) else 0 in
      let c4 = do_item_remove (set_item c3 it (item_set_cas (c3.items it) id)) new_it in
      if new_it == 0 then none else some c4

  -- `parse` is safe_strtoull on the value, `print` is itoa_u64. A given `expected` of 0 asks for no
  -- test of the CAS id. The last result is the id of the item afterwards.
  unfoldable pub do_add_delta :
      (StrItem → Option ℕ)
      → (ℕ → List ℕ)
      → Cache
      → List ℕ
      → Bool
      → ℕ
      → ℕ
      → ℕ
      → Cache × DeltaResult × ℕ
  do_add_delta parse print c0 key incr delta expected hv =
      let (c, it) = do_item_get false false c0 key hv in
      let i = c.items it in
      if it == 0
      then (c, delta_item_not_found, expected)
      else if leb i.nbytes 2 || i.it_flags.chunked
      then (do_item_remove c it, non_numeric, expected)
      else if not (expected == 0) && not (item_get_cas i == expected)
      then (do_item_remove c it, delta_item_cas_mismatch, expected)
      else elim (parse i) [
        | none ↦ (do_item_remove c it, non_numeric, expected)
        | some value ↦
            let digits = print (add_delta_value incr delta value) in
            let placed = delta_in_place c it digits in
            if leb (length digits + 2) i.nbytes && i.refcount == 2
            then (do_item_remove placed it, ok digits, item_get_cas (placed.items it))
            else if ltb 1 i.refcount
            then elim (delta_replaced c it digits hv) [
              | none ↦ (
                do_item_remove
                    (do_item_alloc hash rounds env c i.key (flags_conv i) i.exptime
                      (length digits + 2)).0
                    it,
                eom,
                expected,
              )
              | some c1 ↦ (do_item_remove c1 it, ok digits, item_get_cas (c1.items it))
            ]
            else (
              if i.refcount == 1 then do_item_remove c it else c,
              delta_item_not_found,
              expected,
            )
      ]
