-- ===== src/Bmc/Run/Answer.antt =====
-- What the frame holds that answers a request for one cached key.
use bmc_cache.Base.{
  ℕ, ◌+◌, ◌-◌, ◌≤◌, ◌<◌, ◌≡◌, ◌⊎◌, inl, inr, ◌∙◌, Mem, copy_range, Reads, Reads-of_agree, arith,
}
use bmc_cache.Bmc.Types.{headers_size}
use bmc_cache.Bmc.PreparePacket.Swap.{mirror, mirror-bounds, swap_addresses-mirror}
use bmc_cache.Bmc.PreparePacket.Headers.{reply_headers}
use bmc_cache.Bmc.WriteReply.{write_end}
use bmc_cache.Bmc.WriteReply.Finish.{
  sent, end_text, write_end-Reads, write_end-outside, write_lengths-outside,
}

-- The memory of the reply at `n` to the request whose frame is at `old`, with `len` bytes of a
-- slot's data.
abbrev pub answer : Mem → ℕ → ℕ → Mem → ℕ → Mem
answer m n old d len =
    sent (copy_range (reply_headers m n old) (n + headers_size) d 0 len) n (n + headers_size) len

module _ (m : Mem) (n old : ℕ) (d : Mem) (len : ℕ) where
  abbrev pub text : ℕ
  text = n + headers_size

  -- The memory with the data of the slot, and with "END\r\n".
  abbrev pub with_data : Mem
  with_data = copy_range (reply_headers m n old) text d 0 len

  abbrev pub with_end : Mem
  with_end = write_end with_data (text + len)

  answer-outside :
      (b : ℕ)
      → (b < n + 16) ⊎ (n + 18 ≤ b) × (b < n + 24) ⊎ (n + 26 ≤ b) × (b < n + 38) ⊎ (n + 42 ≤ b)
      → answer m n old d len b ≡ with_end b
  answer-outside b h = write_lengths-outside with_end n (text + len + 5) b h

  pub answer-data : (j : ℕ) → j < len → answer m n old d len (text + j) ≡ d j
  answer-data j h =
      let copied : with_data (text + j) ≡ d j = ground arith in
      answer-outside (text + j) (inr (inr (inr (omega arith))))
      ∙ write_end-outside with_data (text + len) (text + j) (inl (omega arith))
      ∙ copied

  pub answer-end : Reads (answer m n old d len) (text + len) end_text
  answer-end =
      Reads-of_agree with_end (answer m n old d len) end_text (text + len) (text + len)
        (write_end-Reads with_data (text + len))
        (λ j h. answer-outside (text + len + j) (inr (inr (inr (omega arith)))))

  pub answer-headers :
      (b : ℕ)
      → n ≤ b
      → b < text
      → (b < n + 16) ⊎ (n + 18 ≤ b) × (b < n + 24) ⊎ (n + 26 ≤ b) × (b < n + 38) ⊎ (n + 42 ≤ b)
      → answer m n old d len b ≡ m (old + (mirror n b - n))
  answer-headers b lo hi h =
      let kept : with_data b ≡ reply_headers m n old b = ground arith in
      let range = mirror-bounds n b lo hi in
      answer-outside b h
      ∙ write_end-outside with_data (text + len) b (inl (omega arith))
      ∙ kept
      ∙ swap_addresses-mirror (copy_range m n m old headers_size) n b
      ∙ ground (arith, range)
