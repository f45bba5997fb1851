-- ===== src/Bmc/RoundTrip.antt =====
-- What BMC answers is what memcached said: from `bmc_update_cache_main` to `bmc_write_reply_main`.
use bmc_cache.Base.{
  sym, subst, ap, some, false, update, Mem, ◌∙◌, ℕ, ◌+◌, ◌≤◌, ◌<◌, ◌≡◌, refl, true, List, [], ◌∷◌,
  ◌++◌, Reads, Reads-append, Reads-agree, Reads-of_agree, length, length-append, copy_range, arith,
  ◌⊎◌, inl, inr,
}
use bmc_cache.Bmc.Types.{Entry, Key, State, Packet, Stats, Outcome, cache_idx}
use bmc_cache.Bmc.Text.{Saves, fnv}
use bmc_cache.Bmc.UpdateCache.{up_to_date, update_cache_main}
use bmc_cache.Bmc.UpdateCache.Fill.{
  value_line, text_at, reply, reply_length, filled, IsReply, value_line-key,
  update_cache_main-reply,
}
use bmc_cache.Bmc.WriteReply.{reply_section, Lookup}
use bmc_cache.Bmc.WriteReply.CopyEntry.{room}
use bmc_cache.Bmc.WriteReply.Section.{Matches, SameKey, reply_section_cases}

-- The section has written a text at the start of the packet, and nothing else, and counts a hit.
abbrev pub IsReplay : Packet → List ℕ → Lookup → Type 0
IsReplay p text l =
    Reads l.mem p.start text
    × (l.written ≡ length text)
    × (l.cache_hit ≡ true)
    × ((a : ℕ) → (a < p.start) ⊎ (p.start + length text ≤ a) → l.mem a ≡ p.mem a)

module _ (s : State) (entry : Entry) (key rest body : List ℕ)
    (shown : IsReply s entry key rest body) (k : Key) (saved : Saves k key) where
  filled-SameKey : SameKey k (filled s entry key rest body) 0
  filled-SameKey j lo hi =
      let line = value_line-key s.pkt.mem (text_at s) key rest _ shown.text in
      let key_text = (Reads-append s.pkt.mem (text_at s + 6) key (b' ' ∷ rest) line).0 in
      ground (
        arith,
        Reads-agree k.data_ s.pkt.mem key 0 (text_at s + 6) j saved.0 key_text,
        length-append key (b' ' ∷ rest),
      )

  filled-Matches : Matches k (filled s entry key rest body)
  filled-Matches = (refl, saved.2, filled-SameKey)

  length-reply : length (reply s entry key rest body) ≡ reply_length s entry key rest body
  length-reply = omega (
    arith,
    length-append (value_line key rest) (b'\n' ∷ (body ++ (b'\n' ∷ []))),
    length-append body (b'\n' ∷ []),
  )

  room-filled :
      (p : Packet)
      → p.start + reply_length s entry key rest body ≤ p.end
      → room (filled s entry key rest body) p.start p.end ≡ reply_length s entry key rest body
  room-filled p roomy = omega (arith, shown.short)

  -- The bytes that a copy of the slot leaves.
  abbrev replayed : Packet → Mem
  replayed p =
      copy_range p.mem p.start (filled s entry key rest body).data_ 0
        (room (filled s entry key rest body) p.start p.end)

  replayed-inside :
      (p : Packet)
      → p.start + reply_length s entry key rest body ≤ p.end
      → (j : ℕ) → j < length (reply s entry key rest body)
      → replayed p (p.start + j) ≡ s.pkt.mem (text_at s + j)
  replayed-inside p roomy j h = ground (arith, room-filled p roomy, length-reply)

  replayed-outside :
      (p : Packet)
      → p.start + reply_length s entry key rest body ≤ p.end
      → (a : ℕ) → (a < p.start) ⊎ (p.start + reply_length s entry key rest body ≤ a)
      → replayed p a ≡ p.mem a
  replayed-outside p roomy a h = ground (arith, room-filled p roomy)

  -- A slot with the reply in it gives the reply back, if the packet has room.
  reply_section-filled :
      (p : Packet)
      → p.start + reply_length s entry key rest body ≤ p.end
      → IsReplay p (reply s entry key rest body) (reply_section p k (filled s entry key rest body))
  reply_section-filled p roomy = elim (reply_section_cases p k (filled s entry key rest body)) [
    | inl (_, (em, ew, eh)) ↦ (
      subst (λ m. Reads m p.start (reply s entry key rest body)) (sym em)
          (Reads-of_agree s.pkt.mem (replayed p) (reply s entry key rest body) (text_at s) p.start
            shown.text (replayed-inside p roomy)),
      ew ∙ room-filled p roomy ∙ sym length-reply,
      eh,
      λ a out. rw em (replayed-outside p roomy a (ground (arith, length-reply, out))),
    )
    | inr (inl h) ↦ absurd (h.2 filled-SameKey)
    | inr (inr h) ↦ absurd (h.0 (refl, saved.2))
  ]

  -- From the network stack to BMC's answer: `update_cache_main` has statistics and sees a whole GET
  -- reply of two lines and at most 1303 bytes for a key of at most 250 bytes, whose slot is there and
  -- not up to date. Then the section of
  -- `write_reply_main` that gets this slot for the saved key, and a packet with room for the reply,
  -- writes the bytes of the reply at the start of the packet and changes no other byte, and counts a
  -- hit.
  pub reply_section-update_cache_main :
      (st : Stats)
      → s.stats ≡ some st
      → s.kcache (cache_idx (fnv key)) ≡ some entry
      → up_to_date s.pkt (text_at s) entry (fnv key) ≡ false
      → (p : Packet) → p.start + reply_length s entry key rest body ≤ p.end
      → (e : Entry) × ((update_cache_main s).0.kcache (cache_idx k.hash) ≡ some e)
        × IsReplay p (reply s entry key rest body) (reply_section p k e)
  reply_section-update_cache_main st counted slot old p roomy =
      let updated = update_cache_main-reply s entry key rest body st shown slot counted old in
      let e = filled s entry key rest body in
      let at : update s.kcache (cache_idx (fnv key)) e (cache_idx (fnv key)) ≡ some e =
        ground arith in
      (
        e,
        ap (λ i. (update_cache_main s).0.kcache (cache_idx i)) saved.2
            ∙ ap (λ (r : State × Outcome). r.0.kcache (cache_idx (fnv key))) updated
            ∙ at,
        reply_section-filled p roomy,
      )
