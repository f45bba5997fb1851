-- ===== src/Bmc/HashKeys/Classify.antt =====
-- What `bmc_hash_keys_main` does with a well-formed key.
use bmc_cache.Base.{
  copy_range-write, copy_range-none, ℕ, zero, suc, ◌+◌, ◌≤◌, ◌<◌, ◌≡◌, ◌⊎◌, refl, ◌∙◌, ap, fun_ext,
  sym, subst, true, false, ◌||◌, ◌==◌, Option, some, Mem, copy_range, update, u32, List, Reads,
  Reads-at, Reads-of_agree, length, arith, ℤ, leb, ltb, ◌&&◌,
}
use bmc_cache.Bmc.Types.{
  State, Packet, Entry, Key, Stats, ParsingContext, max_key_length, cache_idx,
}
use bmc_cache.Bmc.Text.{IsKey, fnv, Saves}
use bmc_cache.Bmc.HashKeys.{
  Scan, scan_key, start_scan, copy_key, classify, advance, advance_from, hash_scanned,
  hash_keys_main,
}
use bmc_cache.Bmc.HashKeys.KeyText.{scan_key-Reads}

-- The copy loop saves the key's bytes.
copy_key-copied :
    (left i n : ℕ) (p : Packet) (d : Mem)
    → i + left ≡ n
    → p.start + n ≤ p.end
    → copy_key left p i (copy_range d 0 p.mem p.start i) ≡ copy_range d 0 p.mem p.start n
unfolding copy_key
copy_key-copied zero i n p d e h = ap (copy_range d 0 p.mem p.start) (omega arith)
copy_key-copied (suc left) i n p d e h =
    let fits : leb (p.start + i + 1) p.end ≡ true = ground arith in
    rw (fits, copy_range-write d p.mem p.start i)
      (copy_key-copied left (i + 1) n p d (omega arith) h)

copy_key-Reads :
    (key : List ℕ) (p : Packet) (d : Mem)
    → Reads p.mem p.start key
    → p.start + length key ≤ p.end
    → Reads (copy_key (length key) p 0 d) 0 key
copy_key-Reads key p d r h =
    let n : ℕ = length key in
    let copied : copy_key n p 0 d ≡ copy_range d 0 p.mem p.start n =
      rw (copy_range-none d 0 p.mem p.start) at (copy_key-copied n 0 n p d (omega arith) h) in
    subst (λ m. Reads m 0 key) (sym copied)
      (Reads-of_agree p.mem (copy_range d 0 p.mem p.start n) key p.start 0 r (λ j lt. ground arith))

module _ (s : State) (c : ParsingContext) (key : List ℕ) (t : ℕ) where
  -- The packet begins with a key, and a space or '\r' stands behind it.
  pub record IsNextKey : Type 0 where
    pub text : Reads s.pkt.mem s.pkt.start key
    pub is_key : IsKey key
    pub not_empty : 0 < length key
    pub short : length key ≤ max_key_length
    pub behind : s.pkt.mem (s.pkt.start + length key) ≡ t
    pub ends : (t ≡ b' ') ⊎ (t ≡ b'\r')
    pub fits : s.pkt.start + length key + 1 ≤ s.pkt.end

  -- What the loop finds.
  abbrev pub found : Scan
  found = record {
    hash = fnv key;
    key_len = length key;
    off = length key;
    done_parsing = t == b'\r';
  }

  scan_key-found : IsNextKey → scan_key 251 s.pkt start_scan ≡ found
  unfolding fnv
  scan_key-found n =
      let read =
        scan_key-Reads key 251 t s.pkt start_scan
          (Reads-at s.pkt.mem key {b = s.pkt.start + 0} (omega arith) n.text) n.is_key in
      ground (arith, read, n.behind, n.ends, n.fits, n.short)

  -- The slot of `map_keys` with the key saved in it, after one whose content was `old`.
  abbrev pub saved : Key → Key
  saved old = record {
    hash = fnv key;
    data_ = copy_key (length key) s.pkt 0 old.data_;
    len = length key;
  }

  pub saved-Saves : (old : Key) → IsNextKey → Saves (saved old) key
  saved-Saves old n =
      (copy_key-Reads key s.pkt old.data_ n.text (omega (arith, n.fits)), refl, refl)

  -- A potential hit: the key is saved, and counted.
  abbrev pub hit_context : ParsingContext
  hit_context = record c { key_count = u32 (c.key_count + 1) }

  abbrev pub after_hit : Key → State
  after_hit old = record s { keys = update s.keys c.key_count (saved old); pctx = some hit_context }

  -- A miss: the hash is left in the slot of `map_keys`, and the miss is counted.
  abbrev pub after_miss : Key → Stats → State
  after_miss old st = record s {
    keys = update s.keys c.key_count (record old { hash = fnv key });
    stats = some (record st { miss_count = u32 (st.miss_count + 1) });
  }

  update_twice :
      (old k : Key)
      → update (update s.keys c.key_count old) c.key_count k ≡ update s.keys c.key_count k
  update_twice old k = fun_ext (λ i. ground arith)

  module _ (adjust_head : Packet → ℤ → Option Packet) (old : Key) (entry : Entry) (next : IsNextKey)
      (here : s.pctx ≡ some c) (free : s.keys c.key_count ≡ some old)
      (slot : s.kcache (cache_idx (fnv key)) ≡ some entry) where
    entered :
        hash_keys_main adjust_head s
        ≡ hash_scanned adjust_head s c old (scan_key 251 s.pkt start_scan)
    unfolding hash_keys_main
    entered = ground (arith, next.fits)

    -- The state before the cache test.
    abbrev hashed : State
    hashed = record s { keys = update s.keys c.key_count (record old { hash = fnv key }) }

    advanced :
        {s' : State}
        → classify hashed c old entry found ≡ some s'
        → hash_keys_main adjust_head s ≡ advance_from adjust_head s' found
    unfolding hash_scanned
    advanced e =
        let sized : (length key == 0 || ltb max_key_length (length key)) ≡ false =
          ground (arith, next.short, next.not_empty) in
        entered
        ∙ ap (hash_scanned adjust_head s c old) (scan_key-found next)
        ∙ rw (sized, slot, e) refl

    -- If the slot of the key is valid and has its hash, the program saves the key, counts it, and
    -- goes on: to the reply at the end of the request, to the next key otherwise.
    pub hash_keys_main-hit :
        entry.valid ≡ true
        → entry.hash ≡ fnv key
        → Saves (saved old) key
          × (hash_keys_main adjust_head s ≡ advance adjust_head (after_hit old) hit_context found)
    unfolding classify advance_from
    hash_keys_main-hit v h =
        let live : (entry.valid && entry.hash == fnv key) ≡ true = ground arith in
        let test : classify hashed c old entry found ≡ some (after_hit old) =
          rw (live, update_twice) in
        (saved-Saves old next, advanced test)

    -- Otherwise it counts a miss and goes on, with no key saved.
    pub hash_keys_main-miss :
        (st : Stats)
        → s.stats ≡ some st
        → ¬ ((entry.valid ≡ true) × (entry.hash ≡ fnv key))
        → hash_keys_main adjust_head s ≡ advance adjust_head (after_miss old st) c found
    unfolding classify advance_from
    hash_keys_main-miss st est miss =
        let dead : (entry.valid && entry.hash == fnv key) ≡ false = ground arith in
        let test : classify hashed c old entry found ≡ some (after_miss old st) = rw (dead, est) in
        advanced test ∙ rw here refl
