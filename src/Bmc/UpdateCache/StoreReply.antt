-- ===== src/Bmc/UpdateCache/StoreReply.antt =====
-- What the loop of `bmc_update_cache_main` stores of a reply.
use native.Mathlib.Nat.{add-zero}
use bmc_cache.Base.{
  copy_range-write, ℕ, zero, suc, ◌+◌, ◌-◌, ◌≤◌, ◌<◌, ◌≡◌, ◌≢◌, refl, ◌∙◌, ap, fun_ext, Mem, true,
  false, copy_range, ◌==◌, if◌then◌else◌, arith, List, [], ◌∷◌, ◌++◌, Reads, Reads-append, Reads-at,
  All, length,
}
use bmc_cache.Bmc.Types.{Entry, Packet, max_cache_data_size}
use bmc_cache.Bmc.UpdateCache.{store_reply, overwrite}

-- A line of a reply, without its '\n'.
abbrev pub IsLine : List ℕ → Type 0
IsLine = All (λ b. b ≢ b'\n')

-- The text of a reply: two lines, each with its '\n'.
abbrev pub reply_text : List ℕ → List ℕ → List ℕ
reply_text head body = head ++ (b'\n' ∷ (body ++ (b'\n' ∷ [])))

module _ (p : Packet) (payload : ℕ) (entry : Entry) where
  -- The entry when `k` bytes are stored.
  abbrev pub stored : ℕ → Entry
  stored k = record entry { data_ = copy_range entry.data_ 0 p.mem payload k; len = k }

  -- One more byte that is there.
  store_reply-suc :
      (left k count : ℕ)
      → payload + k + 1 ≤ p.end
      → count < 2
      → store_reply p payload (suc left) (stored k) k count
        ≡ store_reply p payload left
            (stored (k + 1))
            (k + 1)
            (if p.mem (payload + k) == b'\n' then count + 1 else count)
  unfolding store_reply
  store_reply-suc left k count fits more =
      rw (copy_range-write entry.data_ p.mem payload k) (ground arith)

  -- A line.
  store_reply-line :
      (line : List ℕ) (total left k count : ℕ)
      → total ≡ length line + left
      → Reads p.mem (payload + k) line
      → IsLine line
      → payload + k + length line ≤ p.end
      → count < 2
      → store_reply p payload total (stored k) k count
        ≡ store_reply p payload left (stored (k + length line)) (k + length line) count
  store_reply-line [] total left k count e r l fits more =
      let e' : total ≡ left = omega arith in rw (e', add-zero)
  store_reply-line (b ∷ line) zero left k count e r l fits more = absurd (omega arith)
  store_reply-line (b ∷ line) (suc total) left k count e r l fits more =
      let step = store_reply-suc total k count (omega arith) more in
      let rest =
        store_reply-line line total left (k + 1) count (omega arith)
          (Reads-at p.mem line (omega arith) (r.1)) (l.1) (omega arith) more in
      ground (arith, step, rest)

  -- A line with its '\n', and something behind it.
  store_reply-row :
      (line rest : List ℕ) (total left k count : ℕ)
      → total ≡ length line + suc left
      → Reads p.mem (payload + k) (line ++ (b'\n' ∷ rest))
      → IsLine line
      → payload + k + length line + 1 ≤ p.end
      → count < 2
      → (store_reply p payload total (stored k) k count
          ≡ store_reply p payload left
              (stored (k + length line + 1))
              (k + length line + 1)
              (count + 1))
        × Reads p.mem (payload + (k + length line + 1)) rest
  store_reply-row line rest total left k count e r l fits more =
      let parts = Reads-append p.mem (payload + k) line (b'\n' ∷ rest) r in
      let at-end =
        Reads-at p.mem (b'\n' ∷ rest) {b = payload + (k + length line)} (omega arith) (parts.1) in
      let to_end = store_reply-line line total (suc left) k count e parts.0 l (omega arith) more in
      let step = store_reply-suc left (k + length line) count (omega arith) more in
      (ground (arith, to_end, step, at-end.0), Reads-at p.mem rest (omega arith) (at-end.1))

  -- Two lines are stored: the loop stops.
  store_reply-two : (left k : ℕ) (e : Entry) → store_reply p payload left e k 2 ≡ (e, 2)
  unfolding store_reply
  store_reply-two zero k e = refl
  store_reply-two (suc left) k e = ground arith

  -- The visible part of the packet ends: the loop stops.
  store_reply-out :
      (left k count : ℕ) (e : Entry)
      → p.end ≤ payload + k
      → store_reply p payload left e k count ≡ (e, count)
  unfolding store_reply
  store_reply-out zero k count e h = refl
  store_reply-out (suc left) k count e h = ground arith

  pub store_reply-reply :
      (head body : List ℕ)
      → Reads p.mem payload (reply_text head body)
      → IsLine head
      → IsLine body
      → length head + length body + 2 ≤ max_cache_data_size
      → payload + (length head + length body + 2) ≤ p.end
      → store_reply p payload max_cache_data_size (stored 0) 0 0
        ≡ (stored (length head + length body + 2), 2)
  store_reply-reply head body r h b short fits =
      let n : ℕ = length head + length body + 2 in
      let left : ℕ = max_cache_data_size - (length head + 1) in
      let r0 = Reads-at p.mem (reply_text head body) {b = payload + 0} (omega arith) r in
      let (e1, r1) =
        store_reply-row head (body ++ (b'\n' ∷ [])) max_cache_data_size left 0 0 (omega arith) r0 h
          (omega arith) (omega arith) in
      let (e2, _) =
        store_reply-row body [] left (left - (length body + 1)) (0 + length head + 1) 1
          (omega arith) r1 b (omega arith) (omega arith) in
      let at_n : 0 + length head + 1 + length body + 1 ≡ n = omega arith in
      e1 ∙ e2 ∙ store_reply-two _ _ _ ∙ ap (λ k. (stored k, 2)) at_n

  -- A reply whose second line is cut off by the end of what the program sees: all that is
  -- visible is stored, and `count` says that it is not complete.
  pub store_reply-cut :
      (head body : List ℕ)
      → Reads p.mem payload (head ++ (b'\n' ∷ body))
      → IsLine head
      → IsLine body
      → length head + length body + 1 ≤ max_cache_data_size
      → p.end ≡ payload + (length head + length body + 1)
      → store_reply p payload max_cache_data_size (stored 0) 0 0
        ≡ (stored (length head + length body + 1), 1)
  store_reply-cut head body r h b short fits =
      let n : ℕ = length head + length body + 1 in
      let left : ℕ = max_cache_data_size - (length head + 1) in
      let r0 = Reads-at p.mem (head ++ (b'\n' ∷ body)) {b = payload + 0} (omega arith) r in
      let (e1, r1) =
        store_reply-row head body max_cache_data_size left 0 0 (omega arith) r0 h (omega arith)
          (omega arith) in
      let e2 =
        store_reply-line body left (left - length body) (0 + length head + 1) 1 (omega arith) r1 b
          (omega arith) (omega arith) in
      let at_n : 0 + length head + 1 + length body ≡ n = omega arith in
      e1 ∙ e2 ∙ store_reply-out _ _ 1 _ (omega arith) ∙ ap (λ k. (stored k, 1)) at_n

  -- The first `len = 0` of the locked section.
  stored-zero : record entry { len = 0 } ≡ stored 0
  stored-zero = ap (λ (d : Mem). record entry { len = 0; data_ = d }) (fun_ext (λ a. ground arith))

  pub overwrite-reply :
      (hash : ℕ) (head body : List ℕ)
      → Reads p.mem payload (reply_text head body)
      → IsLine head
      → IsLine body
      → length head + length body + 2 ≤ max_cache_data_size
      → payload + (length head + length body + 2) ≤ p.end
      → overwrite p payload entry hash
        ≡ (record (stored (length head + length body + 2)) { valid = true; hash = hash }, true)
  unfolding overwrite
  overwrite-reply hash head body r h b short fits =
      rw (stored-zero, store_reply-reply head body r h b short fits)

  pub overwrite-cut :
      (hash : ℕ) (head body : List ℕ)
      → Reads p.mem payload (head ++ (b'\n' ∷ body))
      → IsLine head
      → IsLine body
      → length head + length body + 1 ≤ max_cache_data_size
      → p.end ≡ payload + (length head + length body + 1)
      → overwrite p payload entry hash ≡ (stored (length head + length body + 1), false)
  unfolding overwrite
  overwrite-cut hash head body r h b short fits =
      rw (stored-zero, store_reply-cut head body r h b short fits)
