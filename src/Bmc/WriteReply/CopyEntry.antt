-- ===== src/Bmc/WriteReply/CopyEntry.antt =====
-- The two copy loops of `bmc_write_reply_main` copy one block of bytes.
use bmc_cache.Base.{
  ℕ, zero, suc, ◌+◌, ◌-◌, ◌≤◌, ◌≡◌, refl, ◌∙◌, ap, fun_ext, min, inl, inr, Mem, write, copy_range,
  ltb, leb, Bool, ◌&&◌, Bool-cases, arith,
}
use bmc_cache.Bmc.Types.{Entry, max_cache_data_size}
use bmc_cache.Bmc.WriteReply.{Copy, copy_words, copy_tail, copy_entry}

copy_range-write :
    (m : Mem) (dst k : ℕ) (d : Mem)
    → write (copy_range m dst d 0 k) (dst + k) (d k) ≡ copy_range m dst d 0 (k + 1)
copy_range-write m dst k d = fun_ext (λ a. ground arith)

copy_range-copy_range :
    (m : Mem) (dst k n : ℕ) (d : Mem)
    → copy_range (copy_range m dst d 0 k) (dst + k) d k n ≡ copy_range m dst d 0 (k + n)
copy_range-copy_range m dst k n d = fun_ext (λ a. ground arith)

-- How many bytes the entry, its array and the packet have room for.
abbrev pub room : Entry → ℕ → ℕ → ℕ
room entry payload data_end = min (min entry.len max_cache_data_size) (data_end - payload)

module _ (entry : Entry) (payload data_end : ℕ) (m : Mem) where
  abbrev limit : ℕ
  limit = room entry payload data_end

  -- The loops' variables when `k` bytes are copied.
  abbrev pub copied : ℕ → Copy
  copied k = record { mem = copy_range m payload entry.data_ 0 k; off = k; written = k }

  abbrev word_fits : ℕ → Bool
  word_fits k =
      ltb (k + 8) max_cache_data_size && leb (k + 8) entry.len && leb (payload + k + 8) data_end

  abbrev byte_fits : ℕ → Bool
  byte_fits k = ltb k max_cache_data_size && ltb k entry.len && leb (payload + k + 1) data_end

  copy_words-copied :
      (left k : ℕ)
      → k ≤ limit
      → (j : ℕ) × (copy_words entry payload data_end left (copied k) ≡ copied j) × (j ≤ limit)
  unfolding copy_words
  copy_words-copied zero k h = (k, refl, h)
  copy_words-copied (suc left) k h = elim (Bool-cases (word_fits k)) [
    | inl e ↦
        rw (e, copy_range-copy_range m payload k 8 entry.data_)
          (copy_words-copied left (k + 8) (ground arith))
    | inr e ↦ rw e (k, refl, h)
  ]

  copy_tail-copied :
      (left k : ℕ)
      → k ≤ limit
      → limit ≤ k + left
      → copy_tail entry payload data_end left (copied k) ≡ copied limit
  unfolding copy_tail
  copy_tail-copied zero k h e = ap copied (omega arith)
  copy_tail-copied (suc left) k h e = elim (Bool-cases (byte_fits k)) [
    | inl b ↦
        rw (b, copy_range-write m payload k entry.data_)
          (copy_tail-copied left (k + 1) (ground arith) (omega arith))
    | inr b ↦ rw b (ap copied (ground arith))
  ]

  start : Copy
  start = record { mem = m; off = 0; written = 0 }

  start-copied : start ≡ copied 0
  unfolding start
  start-copied = ap (λ (d : Mem). record start { mem = d }) (fun_ext (λ a. ground arith))

  -- The copy writes as many bytes as the entry, its array and the packet have room for, and
  -- nothing else.
  pub copy_entry-copied : copy_entry entry payload data_end m ≡ copied (room entry payload data_end)
  unfolding copy_entry start
  copy_entry-copied =
      let (j, e, h) = copy_words-copied max_cache_data_size 0 (omega arith) in
      ap
        (λ c.
          copy_tail entry payload data_end max_cache_data_size
            (copy_words entry payload data_end max_cache_data_size c))
        start-copied
      ∙ ap (copy_tail entry payload data_end max_cache_data_size) e
      ∙ copy_tail-copied max_cache_data_size j h (omega arith)
