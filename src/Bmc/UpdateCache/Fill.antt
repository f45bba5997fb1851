-- ===== src/Bmc/UpdateCache/Fill.antt =====
-- What `bmc_update_cache_main` leaves in the slot of a reply's key.
use bmc_cache.Base.{
  Mem, ℕ, ◌+◌, ◌≤◌, ◌≡◌, true, false, some, update, u32, arith, List, [], ◌∷◌, ◌++◌, Reads,
  Reads-append, Reads-at, length, length-append,
}
use bmc_cache.Bmc.Types.{
  Entry, State, Stats, Packet, max_cache_data_size, max_key_length, headers_size, cache_idx,
  tc_act_ok, ret, fnv_offset_basis,
}
use bmc_cache.Bmc.Text.{IsKey, fnv}
use bmc_cache.Bmc.UpdateCache.{hash_reply, up_to_date, update_cache_main}
use bmc_cache.Bmc.UpdateCache.KeyText.{hash_reply-Reads}
use bmc_cache.Bmc.UpdateCache.StoreReply.{
  IsLine, reply_text, stored, overwrite-reply, overwrite-cut,
}

-- "VALUE ", a key, a space, and the rest of the line: flags, length, perhaps a cas number.
abbrev pub value_line : List ℕ → List ℕ → List ℕ
value_line key rest = b'V' ∷ b'A' ∷ b'L' ∷ b'U' ∷ b'E' ∷ b' ' ∷ (key ++ (b' ' ∷ rest))

-- The text of the packet that the program sees.
abbrev pub text_at : State → ℕ
text_at s = s.pkt.start + headers_size

-- The key stands behind the first six bytes.
pub value_line-key :
    (m : Mem) (a : ℕ) (key rest tail : List ℕ)
    → Reads m a (value_line key rest ++ tail)
    → Reads m (a + 6) (key ++ (b' ' ∷ rest))
value_line-key m a key rest tail r =
    let line = (Reads-append m a (value_line key rest) tail r).0 in
    Reads-at m (key ++ (b' ' ∷ rest)) (omega arith) (line.1.1.1.1.1.1)

-- The program hashes the key of the reply.
pub hash_reply-value_line :
    (p : Packet) (payload : ℕ) (key rest tail : List ℕ)
    → Reads p.mem payload (value_line key rest ++ tail)
    → IsKey key
    → length key ≤ max_key_length
    → payload + 6 + length key ≤ p.end
    → hash_reply p payload max_key_length 6 fnv_offset_basis ≡ fnv key
unfolding fnv
hash_reply-value_line p payload key rest tail r k short fits =
    let parts =
      Reads-append p.mem (payload + 6) key (b' ' ∷ rest)
        (value_line-key p.mem payload key rest tail r) in
    hash_reply-Reads key max_key_length 6 fnv_offset_basis p payload parts.0 k (parts.1.0) fits
      short

-- A GET reply for `key`: its value line, its data, each with a '\n'.
module _ (s : State) (entry : Entry) (key rest body : List ℕ) where
  abbrev pub reply : List ℕ
  reply = reply_text (value_line key rest) body

  abbrev pub reply_length : ℕ
  reply_length = length (value_line key rest) + length body + 2

  -- The slot with the reply in it.
  abbrev pub filled : Entry
  filled = record (stored s.pkt (text_at s) entry reply_length) { valid = true; hash = fnv key }

  -- The premises about the packet: it shows the whole reply, and the reply has the form that
  -- memcached gives it, with data that has no '\n' in it, and fits an entry.
  pub record IsReply : Type 0 where
    pub text : Reads s.pkt.mem (text_at s) reply
    pub is_key : IsKey key
    pub short_key : length key ≤ max_key_length
    pub is_line : IsLine (value_line key rest)
    pub is_body : IsLine body
    pub short : reply_length ≤ max_cache_data_size
    pub whole : text_at s + reply_length ≤ s.pkt.end

  module _ (st : Stats) (shown : IsReply) (slot : s.kcache (cache_idx (fnv key)) ≡ some entry) where
    hash_reply-eq : hash_reply s.pkt (text_at s) max_key_length 6 fnv_offset_basis ≡ fnv key
    hash_reply-eq =
        hash_reply-value_line s.pkt (text_at s) key rest (b'\n' ∷ (body ++ (b'\n' ∷ []))) shown.text
          shown.is_key shown.short_key (omega (arith, shown.whole, length-append key (b' ' ∷ rest)))

    pub update_cache_main-reply :
        s.stats ≡ some st
        → up_to_date s.pkt (text_at s) entry (fnv key) ≡ false
        → update_cache_main s ≡ (
          record s {
            kcache = update s.kcache (cache_idx (fnv key)) filled;
            stats = some (record st { update_count = u32 (st.update_count + 1) });
          },
          ret tc_act_ok,
        )
    unfolding update_cache_main
    update_cache_main-reply est old =
        let written =
          overwrite-reply s.pkt (text_at s) entry (fnv key) (value_line key rest) body shown.text
            shown.is_line shown.is_body shown.short shown.whole in
        ground (arith, hash_reply-eq, written)

-- If the slot of a reply's key does not count as up to date, and the second line of a reply of at
-- most 1303 bytes for a key of at most 250 bytes is cut off where the visible part of the packet
-- ends, then the slot keeps its `valid` flag and its hash, but holds the bytes of the cut reply: a valid slot
-- can hold an incomplete reply, for another key than the one it is filed under.
pub update_cache_main-cut :
    (s : State) (entry : Entry) (key rest body : List ℕ)
    → Reads s.pkt.mem (text_at s) (value_line key rest ++ (b'\n' ∷ body))
    → IsKey key
    → length key ≤ max_key_length
    → IsLine (value_line key rest)
    → IsLine body
    → length (value_line key rest) + length body + 1 ≤ max_cache_data_size
    → s.pkt.end ≡ text_at s + (length (value_line key rest) + length body + 1)
    → s.kcache (cache_idx (fnv key)) ≡ some entry
    → up_to_date s.pkt (text_at s) entry (fnv key) ≡ false
    → update_cache_main s ≡ (
      record s {
        kcache =
            update s.kcache
              (cache_idx (fnv key))
              (stored s.pkt (text_at s) entry (length (value_line key rest) + length body + 1));
      },
      ret tc_act_ok,
    )
unfolding update_cache_main
update_cache_main-cut s entry key rest body r k sk l b short whole slot old =
    let hashed =
      hash_reply-value_line s.pkt (text_at s) key rest (b'\n' ∷ body) r k sk
        (omega (arith, length-append key (b' ' ∷ rest))) in
    let written =
      overwrite-cut s.pkt (text_at s) entry (fnv key) (value_line key rest) body r l b short
        whole in
    ground (arith, hashed, written)
