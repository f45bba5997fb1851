-- ===== src/Memcached/Refs.antt =====
-- The references to the items of memcached-sr/items.c: who holds an item, and when it is released.
pub mod Effect
pub mod Links
pub mod Counted
pub mod Steps
pub mod Lookup
pub mod Ready
pub mod Store
pub mod Reach
pub mod Released
use bmc_cache.Base.{ℕ, ◌+◌, Bool, true, false, ◌≡◌, ◌≢◌, if◌then◌else◌}
use bmc_cache.Memcached.Types.{StrItem, Cache}

-- What an item is, apart from its places in a queue and its activity.
abbrev pub content : StrItem → StrItem
content i = record i {
  next = 0;
  prev = 0;
  time = 0;
  slabs_clsid = 0;
  it_flags = record (i.it_flags) { active = false; fetched = false };
}

-- The other items are what they were.
abbrev pub Frame : ℕ → Cache → Cache → Type 0
Frame it c c' = (a : ℕ) → a ≢ it → content (c'.items a) ≡ content (c.items a)

-- The same value under the same key, with so many references, linked or not, in one chunk.
pub record Becomes (i i' : StrItem) (is_linked : Bool) (refs : ℕ) : Type 0 where
  pub key : i'.key ≡ i.key
  pub data_ : i'.data_ ≡ i.data_
  pub nbytes : i'.nbytes ≡ i.nbytes
  pub exptime : i'.exptime ≡ i.exptime
  pub linked : i'.it_flags.linked ≡ is_linked
  pub refcount : i'.refcount ≡ refs
  pub chunked : i'.it_flags.chunked ≡ false
