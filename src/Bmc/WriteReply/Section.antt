-- ===== src/Bmc/WriteReply/Section.antt =====
-- What the locked section of `bmc_write_reply_main` compares.
use bmc_cache.Base.{
  ℕ, zero, suc, ◌+◌, ◌≤◌, ◌<◌, ◌≡◌, ◌↔◌, ◌⊎◌, refl, min, inl, inr, Bool, true, false, ltb, ◌&&◌,
  ◌==◌, if◌then◌else◌, Bool-cases, arith, copy_range,
}
use bmc_cache.Bmc.Types.{Entry, Key, Packet}
use bmc_cache.Bmc.WriteReply.{compare_key, reply_section, Lookup}
use bmc_cache.Bmc.WriteReply.CopyEntry.{room, copy_entry-copied}

-- The saved key's bytes from `i` on, as far as it and the loop go, are those behind "VALUE ".
abbrev pub SameKey : Key → Entry → ℕ → Type 0
SameKey key entry i = (j : ℕ) → i ≤ j → j < min 250 key.len → key.data_ j ≡ entry.data_ (6 + j)

compare_key-true :
    (left i : ℕ) (hit : Bool) (key : Key) (entry : Entry)
    → i + left ≡ 250
    → compare_key left key entry i hit ≡ true
    → (hit ≡ true) × SameKey key entry i
unfolding compare_key
compare_key-true zero i hit key entry e h = (h, λ j lo hi. absurd (omega arith))
compare_key-true (suc left) i hit key entry e h = elim (Bool-cases (ltb i key.len)) [
  | inl more ↦
      let same : Bool = key.data_ i == entry.data_ (6 + i) in
      let next : Bool = if same then hit else false in
      let h' : compare_key left key entry (i + 1) next ≡ true = rw more at h in
      let ih = compare_key-true left (i + 1) next key entry (omega arith) h' in
      (ground (arith, ih.0), λ j lo hi. ground (arith, ih.0, ih.1 j))
  | inr done ↦ (rw done at h, λ j lo hi. absurd (ground arith))
]

compare_key-of_same :
    (left i : ℕ) (key : Key) (entry : Entry)
    → i + left ≡ 250
    → SameKey key entry i
    → compare_key left key entry i true ≡ true
unfolding compare_key
compare_key-of_same zero i key entry e h = refl
compare_key-of_same (suc left) i key entry e h =
    let ih =
      compare_key-of_same left (i + 1) key entry (omega arith) (λ j lo hi. h j (omega arith) hi) in
    ground (arith, h i, ih)

-- The comparison succeeds exactly when the saved key's bytes are those behind "VALUE ". What
-- follows them in the cached reply is not looked at.
pub compare_key_iff :
    (key : Key) (entry : Entry) → (compare_key 250 key entry 0 true ≡ true) ↔ SameKey key entry 0
compare_key_iff key entry = (
  λ h. (compare_key-true 250 0 true key entry (omega arith) h).1,
  compare_key-of_same 250 0 key entry (omega arith),
)

-- What the slot must hold for a hit: a valid reply for a key with the saved hash and bytes.
abbrev pub Matches : Key → Entry → Type 0
Matches key entry = (entry.valid ≡ true) × (key.hash ≡ entry.hash) × SameKey key entry 0

module _ (p : Packet) (key : Key) (entry : Entry) where
  abbrev section : Lookup
  section = reply_section p key entry

  abbrev pub Replayed : Type 0
  Replayed =
      (section.mem ≡ copy_range p.mem p.start entry.data_ 0 (room entry p.start p.end))
      × (section.written ≡ room entry p.start p.end)
      × (section.cache_hit ≡ true)

  abbrev pub Collided : Type 0
  Collided = (section.mem ≡ p.mem) × (section.written ≡ 0) × (section.cache_hit ≡ false)

  abbrev pub Lost : Type 0
  Lost = (section.mem ≡ p.mem) × (section.written ≡ 0) × (section.cache_hit ≡ true)

  -- The three ways through the section. A matching slot is copied as far as there is room. A slot
  -- with the hash of the key and another key writes nothing and counts as a miss. A slot that
  -- was invalidated or refilled since the key was saved writes nothing, and counts as a hit.
  pub reply_section_cases :
      (Matches key entry × Replayed)
      ⊎ ((entry.valid ≡ true) × (key.hash ≡ entry.hash) × (¬ SameKey key entry 0) × Collided)
      ⊎ ((¬ ((entry.valid ≡ true) × (key.hash ≡ entry.hash))) × Lost)
  unfolding reply_section
  reply_section_cases = elim (Bool-cases (entry.valid && key.hash == entry.hash)) [
    | inl live ↦ elim (Bool-cases (compare_key 250 key entry 0 true)) [
      | inl same ↦ inl (
        (ground arith, ground arith, (compare_key_iff key entry).0 same),
        rw (live, same, copy_entry-copied entry p.start p.end p.mem) (refl, refl, refl),
      )
      | inr other ↦ inr (
          inl (
            ground arith,
            ground arith,
            λ h. cc ((compare_key_iff key entry).1 h),
            rw (live, other) (refl, refl, refl),
          ))
    ]
    | inr lost ↦ inr (inr (λ h. ground arith, rw lost (refl, refl, refl)))
  ]

  pub reply_section-match :
      Matches key entry
      → section ≡ record {
        mem = copy_range p.mem p.start entry.data_ 0 (room entry p.start p.end);
        written = room entry p.start p.end;
        cache_hit = true;
      }
  unfolding reply_section
  reply_section-match h =
      let live : (entry.valid && key.hash == entry.hash) ≡ true = ground (arith, h.0, h.1) in
      rw (live, (compare_key_iff key entry).1 h.2, copy_entry-copied entry p.start p.end p.mem) refl
