-- ===== src/Memcached/Assoc.antt =====
-- memcached-sr/assoc.c: the hash table with chains, and its expansion bucket by bucket.
pub mod Chain
pub mod Sound
pub mod Update
pub mod Expand
pub mod Refine
use bmc_cache.Base.{
  ℕ, zero, suc, ◌+◌, ◌-◌, ◌*◌, ◌/◌, ◌%◌, ◌^◌, Bool, true, false, not, ◌&&◌, Option, none, some,
  List, [], ◌∷◌, ◌++◌, ltb, leb, ◌==◌, if◌then◌else◌,
}

-- What the table reads of an item: its key, of `nkey` bytes. `addr` tells items with equal keys
-- apart. The link `h_next` is the rest of the list that the item heads.
pub record Item : Type 0 where
  pub key : List ℕ
  pub addr : ℕ

-- `nkey == it->nkey && memcmp(key, ITEM_key(it), nkey) == 0`
unfoldable pub same_key : List ℕ → List ℕ → Bool
same_key [] [] = true
same_key [] (y ∷ ys) = false
same_key (x ∷ xs) [] = false
same_key (x ∷ xs) (y ∷ ys) = if x == y then same_key xs ys else false

abbrev pub Buckets : Type 0
Buckets = ℕ → List Item

-- t[b] = chain
abbrev pub set_bucket : Buckets → ℕ → List Item → Buckets
set_bucket t b chain i = if i == b then chain else t i

pub record Table : Type 0 where
  pub hashpower : ℕ
  pub primary_hashtable : Buckets
  pub old_hashtable : Buckets
  pub expanding : Bool
  pub started_expanding : Bool
  pub expand_bucket : ℕ
  pub hash_bytes : ℕ

-- `(ub4)1 << n`, for `n` below 32; `hv & hashmask(n)` is the remainder by it.
abbrev pub hashsize : ℕ → ℕ
hashsize n = 2 ^ n

abbrev pub pointer_size : ℕ
pointer_size = 8

-- `hashtable_init` is 0 for the default of 16.
unfoldable pub assoc_init : ℕ → Table
assoc_init hashtable_init =
    let hashpower = if hashtable_init == 0 then 16 else hashtable_init in
    record {
      hashpower = hashpower;
      primary_hashtable = λ b. [];
      old_hashtable = λ b. [];
      expanding = false;
      started_expanding = false;
      expand_bucket = 0;
      hash_bytes = hashsize hashpower * pointer_size;
    }

-- Where an item with the hash `hv` is: `true` is the old table.
unfoldable pub in_old : Table → ℕ → Bool
in_old t hv = t.expanding && leb t.expand_bucket (hv % hashsize (t.hashpower - 1))

unfoldable pub chain_of : Table → ℕ → List Item
chain_of t hv =
    if in_old t hv
    then t.old_hashtable (hv % hashsize (t.hashpower - 1))
    else t.primary_hashtable (hv % hashsize t.hashpower)

unfoldable pub set_chain : Table → ℕ → List Item → Table
set_chain t hv chain =
    if in_old t hv
    then record t {
      old_hashtable = set_bucket t.old_hashtable (hv % hashsize (t.hashpower - 1)) chain;
    }
    else record t {
      primary_hashtable = set_bucket t.primary_hashtable (hv % hashsize t.hashpower) chain;
    }

-- The loop of `assoc_find`.
unfoldable pub find_chain : List ℕ → List Item → Option Item
find_chain key [] = none
find_chain key (it ∷ next) =
    let rest = find_chain key next in if same_key key it.key then some it else rest

unfoldable pub assoc_find : Table → List ℕ → ℕ → Option Item
assoc_find t key hv = find_chain key (chain_of t hv)

unfoldable pub assoc_insert : Table → Item → ℕ → Table
assoc_insert t it hv = set_chain t hv (it ∷ chain_of t hv)

-- `_hashitem_before`: the items that the position is behind, and the list that it points to.
unfoldable pub hashitem_before : List ℕ → List Item → List Item × List Item
hashitem_before key [] = ([], [])
hashitem_before key (it ∷ next) =
    let (passed, rest) = hashitem_before key next in
    if same_key key it.key then ([], it ∷ next) else (it ∷ passed, rest)

-- `none`: the assertion that the item is there fails.
unfoldable pub assoc_delete : Table → List ℕ → ℕ → Option Table
assoc_delete t key hv =
    let (passed, rest) = hashitem_before key (chain_of t hv) in
    elim rest [ [] ↦ none | it ∷ nxt ↦ some (set_chain t hv (passed ++ nxt)) ]

-- `allocated`: calloc gave a table.
unfoldable pub assoc_expand : Bool → Table → Table
assoc_expand allocated t =
    if allocated
    then record t {
      old_hashtable = t.primary_hashtable;
      primary_hashtable = λ b. [];
      hashpower = t.hashpower + 1;
      expanding = true;
      expand_bucket = 0;
      hash_bytes = (t.hash_bytes + hashsize (t.hashpower + 1) * pointer_size) % 2 ^ 64;
    }
    else record t { old_hashtable = t.primary_hashtable }

-- `true`: the maintenance thread is woken.
unfoldable pub assoc_start_expand : ℕ → Table → Table × Bool
assoc_start_expand curr_items t =
    if t.started_expanding
    then (t, false)
    else if ltb (hashsize t.hashpower * 3 / 2) curr_items && ltb t.hashpower 32
    then (record t { started_expanding = true }, true)
    else (t, false)

-- The hash function is chosen when memcached starts (hash.c).
module _ (hash : List ℕ → ℕ) where
  -- The loop that moves the items of a bucket.
  unfoldable pub move_chain : ℕ → List Item → Buckets → Buckets
  move_chain hashpower [] primary = primary
  move_chain hashpower (it ∷ next) primary =
      let bucket = hash it.key % hashsize hashpower in
      move_chain hashpower next (set_bucket primary bucket (it ∷ primary bucket))

  -- A round of the maintenance thread that holds the lock of the bucket.
  unfoldable pub move_bucket : Table → Table
  move_bucket t =
      let moved = record t {
        primary_hashtable =
            move_chain t.hashpower (t.old_hashtable t.expand_bucket) t.primary_hashtable;
        old_hashtable = set_bucket t.old_hashtable t.expand_bucket [];
        expand_bucket = t.expand_bucket + 1;
      } in
      if t.expand_bucket + 1 == hashsize (t.hashpower - 1)
      then record moved {
        expanding = false;
        hash_bytes = (t.hash_bytes + 2 ^ 64 - hashsize (t.hashpower - 1) * pointer_size) % 2 ^ 64;
      }
      else moved

  -- The inner loop of the maintenance thread, at the outcomes of `item_trylock`; there are
  -- `hash_bulk_move` of them.
  unfoldable pub bulk_move : List Bool → Table → Table
  bulk_move [] t = t
  bulk_move (locked ∷ later) t =
      let rest = bulk_move later (if locked then move_bucket t else t) in
      if t.expanding then rest else t

  -- What follows the loop: `true` in `woken` is that the thread was signalled and is to go on.
  unfoldable pub maintain : List Bool → Bool → Bool → Table → Table
  maintain locks woken allocated t =
      let t1 = bulk_move locks t in
      let t2 = record t1 { started_expanding = false } in
      if t1.expanding then t1 else if woken then assoc_expand allocated t2 else t2
