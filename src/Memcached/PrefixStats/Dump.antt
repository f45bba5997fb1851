-- ===== src/Memcached/PrefixStats/Dump.antt =====
-- The text that memcached-sr/stats.c makes of its counters fits its buffer.
use bmc_cache.Base.{
  ℕ, zero, suc, ◌+◌, ◌-◌, ◌*◌, ◌%◌, ◌^◌, ◌<◌, ◌≤◌, some, List, [], ◌∷◌, ◌++◌, length, length-append,
  All, Mem, write_text, write_text-other, write_text-Reads, Reads, Reads-join, Reads-append,
  Reads-of_agree, Reads-at, ◌≡◌, refl, sym, ap, subst, ◌∙◌, arith,
}
use mathlib.Core.List.{append_assoc}
use bmc_cache.Memcached.PrefixStats.{
  PrefixStats, PrefixTable, prefix_hash_size, dump_line, cut, print_line, dump_chain, dump_from,
  dump_size, stats_prefix_dump, end_line, format_length, int, size_of_int,
}
use bmc_cache.Memcached.PrefixStats.Reached.{Reached, Reached-IsSummed}
use bmc_cache.Memcached.PrefixStats.Sums.{sum_from, bytes, Fits, IsSummed}

-- What the C library documents of a int-small of 64 bits: it has at most 20 digits.
abbrev pub PrintsShort : (ℕ → List ℕ) → Type 0
PrintsShort print = (n : ℕ) → n < 2 ^ 64 → length (print n) ≤ 20

same_length : (xs : List ℕ) → length xs ≡ length (xs ++ [])
same_length xs = sym (length-append xs [] ∙ omega arith)

cut-all : (n : ℕ) (xs : List ℕ) → length xs ≤ n → cut n xs ≡ xs
unfolding cut
cut-all zero [] h = refl
cut-all zero (x ∷ xs) h = absurd (omega arith)
cut-all (suc n) [] h = refl
cut-all (suc n) (x ∷ xs) h = ap (λ z. x ∷ z) (cut-all n xs (omega arith))

line_length :
    (p g h s d : List ℕ)
    → length (
        (b'P' ∷ b'R' ∷ b'E' ∷ b'F' ∷ b'I' ∷ b'X' ∷ b' ' ∷ [])
        ++ p
        ++ (b' ' ∷ b'g' ∷ b'e' ∷ b't' ∷ b' ' ∷ [])
        ++ g
        ++ (b' ' ∷ b'h' ∷ b'i' ∷ b't' ∷ b' ' ∷ [])
        ++ h
        ++ (b' ' ∷ b's' ∷ b'e' ∷ b't' ∷ b' ' ∷ [])
        ++ s
        ++ (b' ' ∷ b'd' ∷ b'e' ∷ b'l' ∷ b' ' ∷ [])
        ++ d
        ++ (b'\r' ∷ b'\n' ∷ []))
      ≡ 29 + length p + length g + length h + length s + length d
line_length p g h s d = simp length-append (omega arith)

-- A place in a buffer whose size is an `int`.
size_of_int-place :
    (pos size : ℕ)
    → pos ≤ size
    → size < 2 ^ 31
    → (size_of_int pos ≡ pos) × ((size + 2 ^ 64 - size_of_int pos) % 2 ^ 64 ≡ size - pos)
size_of_int-place pos size le lt = ground arith

module _ (print : ℕ → List ℕ) (short : PrintsShort print) where
  length-dump_line :
      (pfs : PrefixStats) → Fits pfs → length (dump_line print pfs) ≤ length pfs.prefix + 109
  unfolding dump_line
  length-dump_line pfs (g, s, d, h) =
      let lg = short pfs.num_gets g in
      let ls = short pfs.num_sets s in
      let ld = short pfs.num_deletes d in
      let lh = short pfs.num_hits h in
      let e =
        line_length pfs.prefix (print pfs.num_gets) (print pfs.num_hits) (print pfs.num_sets)
          (print pfs.num_deletes) in
      omega arith

  -- The lines of a chain, and of the chains from `i` on.
  abbrev pub lines : List PrefixStats → List ℕ
  lines [] = []
  lines (pfs ∷ next) = dump_line print pfs ++ lines next

  abbrev pub lines_from : ℕ → ℕ → (ℕ → List PrefixStats) → List ℕ
  lines_from zero i chains = []
  lines_from (suc left) i chains = lines (chains i) ++ lines_from left (i + 1) chains

  -- A text is there up to `pos`, and room is left.
  record Printed (text : List ℕ) (s : Mem × ℕ) : Type 0 where
    reads : Reads s.0 0 text
    long : s.1 ≡ length text

  print_line-Reads :
      (buf : Mem) (text line : List ℕ) (size : ℕ)
      → Reads buf 0 text
      → length text + length line < size
      → Reads (print_line buf (length text) (size - length text) line) 0 (text ++ line)
  unfolding print_line
  print_line-Reads buf text line size r lt =
      let pos = length text in
      let n = size - pos in
      let whole = cut-all (n - 1) line (omega arith) in
      let out = write_text buf pos (line ++ (0 ∷ [])) in
      let same : out ≡ print_line buf pos n line =
        ap (λ z. write_text buf pos (z ++ (0 ∷ []))) (sym whole) ∙ ground arith in
      let before =
        Reads-of_agree buf out text 0 0 r
          (λ j h. write_text-other buf pos (0 + j) (line ++ (0 ∷ [])) (omega arith)) in
      let (behind, end) =
        Reads-append out pos line (0 ∷ []) (write_text-Reads buf pos (line ++ (0 ∷ []))) in
      subst (λ z. Reads z 0 (text ++ line)) same
        (Reads-join out 0 text line before
          (Reads-at out line {b = 0 + length text} (omega arith) behind))

  -- What is there with the text so far and a chain's lines, if there is room for them.
  dump_chain-Printed :
      (chain : List PrefixStats) (size : ℕ) (text : List ℕ) (s : Mem × ℕ)
      → All Fits chain
      → Printed text s
      → length text + (bytes chain + 109 * length chain) < size
      → size < 2 ^ 31
      → Printed (text ++ lines chain) (dump_chain print size chain s)
        × (length (lines chain) ≤ bytes chain + 109 * length chain)
  unfolding dump_chain
  dump_chain-Printed [] size text (buf, pos) a p lt small = (
    record { reads = Reads-join buf 0 text [] p.reads tt; long = p.long ∙ same_length text },
    omega arith,
  )
  dump_chain-Printed (pfs ∷ next) size text (buf, pos) a p lt small =
      let line = dump_line print pfs in
      let l = length-dump_line pfs a.0 in
      let long = p.long in
      let whole = length-append text line in
      let r = print_line-Reads buf text line size p.reads (omega arith) in
      let at = size_of_int pos in
      let (same, left) = size_of_int-place pos size (omega arith) small in
      let buf' = print_line buf at ((size + 2 ^ 64 - at) % 2 ^ 64) line in
      let to_text : at ≡ length text = same ∙ long in
      let to_left : (size + 2 ^ 64 - at) % 2 ^ 64 ≡ size - length text = omega arith in
      let pos' = int (at + length line) in
      let p' : Printed (text ++ line) (buf', pos') = record {
        reads =
            subst
              (λ z. Reads (print_line buf z ((size + 2 ^ 64 - at) % 2 ^ 64) line) 0 (text ++ line))
              (sym to_text)
              (subst (λ z. Reads (print_line buf (length text) z line) 0 (text ++ line))
                (sym to_left) r);
        long = omega arith;
      } in
      let (q, u) =
        dump_chain-Printed next size (text ++ line) (buf', pos') a.1 p' (omega arith) small in
      let both = length-append line (lines next) in
      (
        subst (λ z. Printed z (dump_chain print size (pfs ∷ next) (buf, pos)))
            (append_assoc text line (lines next)) q,
        omega arith,
      )

  dump_from-Printed :
      (left i : ℕ) (chains : ℕ → List PrefixStats) (size : ℕ) (text : List ℕ) (s : Mem × ℕ)
      → ((k : ℕ) → All Fits (chains k))
      → Printed text s
      → length text + (sum_from bytes left i chains + 109 * sum_from length left i chains) < size
      → size < 2 ^ 31
      → Printed (text ++ lines_from left i chains) (dump_from print size left i chains s)
        × (length (lines_from left i chains)
            ≤ sum_from bytes left i chains + 109 * sum_from length left i chains)
  unfolding dump_from
  dump_from-Printed zero i chains size text s a p lt small = (
    record { reads = Reads-join s.0 0 text [] p.reads tt; long = p.long ∙ same_length text },
    omega arith,
  )
  dump_from-Printed (suc left) i chains size text s a p lt small =
      let chain = chains i in
      let ls = lines chain in
      let rest = lines_from left (i + 1) chains in
      let (q, u) = dump_chain-Printed chain size text s (a i) p (omega arith) small in
      let whole = length-append text ls in
      let (r, w) =
        dump_from-Printed left (i + 1) chains size (text ++ ls) (dump_chain print size chain s) a q
          (omega arith) small in
      let both = length-append ls rest in
      (
        subst
            (λ z.
              Printed z (dump_from print size left (i + 1) chains (dump_chain print size chain s)))
            (append_assoc text ls rest) r,
        omega arith,
      )

  -- The last line and the zero.
  with_end :
      (buf : Mem) (pos : ℕ) (all : List ℕ)
      → Reads buf 0 all
      → pos ≡ length all
      → Reads (write_text buf pos (end_line ++ (0 ∷ []))) 0 ((all ++ end_line) ++ (0 ∷ []))
  with_end buf pos all r long =
      let out = write_text buf pos (end_line ++ (0 ∷ [])) in
      let before =
        Reads-of_agree buf out all 0 0 r
          (λ j h. write_text-other buf pos (0 + j) (end_line ++ (0 ∷ [])) (omega arith)) in
      let end =
        Reads-at out (end_line ++ (0 ∷ [])) {b = 0 + length all} (omega arith)
          (write_text-Reads buf pos (end_line ++ (0 ∷ []))) in
      subst (Reads out 0) (sym (append_assoc all end_line (0 ∷ [])))
        (Reads-join out 0 all (end_line ++ (0 ∷ [])) before end)

  -- The bytes that the structures need, with all numbers of 20 digits.
  abbrev pub needed : PrefixTable → ℕ
  needed t =
      sum_from bytes prefix_hash_size 0 t.prefix_stats
      + 109 * sum_from length prefix_hash_size 0 t.prefix_stats
      + 53

  size_enough : (t : PrefixTable) → IsSummed t → needed t < 2 ^ 31 → needed t ≡ dump_size t
  unfolding dump_size
  size_enough t s small =
      let n = sum_from length prefix_hash_size 0 t.prefix_stats in
      let b = sum_from bytes prefix_hash_size 0 t.prefix_stats in
      let en : t.num_prefixes ≡ n = s.num ∙ int-small n (small_number n b small) in
      let eb : t.total_prefix_size ≡ b = s.total ∙ int-small b (small_bytes n b small) in
      sizes n b small
      ∙ ap
          (λ z.
            (format_length + size_of_int b + size_of_int z * (format_length - 2 + 4 * (20 - 4)) + 6)
            % 2 ^ 64)
          (sym en)
      ∙ ap
          (λ z.
            (format_length
              + size_of_int z
              + size_of_int t.num_prefixes * (format_length - 2 + 4 * (20 - 4))
              + 6)
            % 2 ^ 64)
          (sym eb)
    where
      int-small : (n : ℕ) → n < 2 ^ 31 → int n ≡ n
      int-small n lt = omega arith

      small_number : (n b : ℕ) → b + 109 * n + 53 < 2 ^ 31 → n < 2 ^ 31
      small_number n b lt = omega arith

      small_bytes : (n b : ℕ) → b + 109 * n + 53 < 2 ^ 31 → b < 2 ^ 31
      small_bytes n b lt = omega arith

      sizes :
          (n b : ℕ)
          → b + 109 * n + 53 < 2 ^ 31
          → b + 109 * n + 53
            ≡ (format_length
                + size_of_int b
                + size_of_int n * (format_length - 2 + 4 * (20 - 4))
                + 6)
              % 2 ^ 64
      sizes n b lt = ground arith

  room_of : (b n size : ℕ) → b + 109 * n + 53 ≡ size → 0 + (b + 109 * n) < size
  room_of b n size e = omega arith

  fits_size :
      (b n size l e : ℕ) → b + 109 * n + 53 ≡ size → l ≤ b + 109 * n → e ≡ l + 5 → e + 1 ≤ size
  fits_size b n size l e h u w = omega arith

  -- The place behind the lines and the length with the last one, as the `int`s that they are.
  at_end :
      (b n pos l e : ℕ)
      → b + 109 * n + 53 < 2 ^ 31
      → l ≤ b + 109 * n
      → pos ≡ l
      → e ≡ l + 5
      → (size_of_int pos ≡ pos) × (int (pos + 5) ≡ e)
  at_end b n pos l e lt h p w = ground arith

  -- In every state of the counters that the operations reach, if the bytes of all prefixes with 109
  -- for each structure and 53 make less than 2 ^ 31, the C library prints a int-small of 64 bits in at
  -- most 20 digits and malloc has memory: then no `int` overflows, the size that is asked for is that
  -- number, and the dump is the lines of all structures, chain by chain, with "END" behind them and a
  -- zero; the length is theirs without the zero, and all of it fits the size.
  pub stats_prefix_dump-Reads :
      (hash : List ℕ → ℕ) (delimiter : ℕ) (t : PrefixTable) (given : Mem)
      → Reached hash delimiter t
      → needed t < 2 ^ 31
      → let text = lines_from prefix_hash_size 0 t.prefix_stats ++ end_line in
        (buf : Mem) × (stats_prefix_dump print (some given) t ≡ some (buf, length text))
        × Reads buf 0 (text ++ (0 ∷ []))
        × (length text + 1 ≤ dump_size t)
        × (dump_size t ≡ needed t)
  unfolding stats_prefix_dump dump_size
  stats_prefix_dump-Reads hash delimiter t given reached small =
      let s = Reached-IsSummed hash delimiter reached in
      let all = lines_from prefix_hash_size 0 t.prefix_stats in
      let b = sum_from bytes prefix_hash_size 0 t.prefix_stats in
      let n = sum_from length prefix_hash_size 0 t.prefix_stats in
      let size = dump_size t in
      let enough = size_enough t s small in
      let (p, u) =
        dump_from-Printed prefix_hash_size 0 t.prefix_stats size [] (given, 0) s.fits
          (record { reads = tt; long = refl }) (room_of b n size enough)
          (subst (λ z. z < 2 ^ 31) enough small) in
      let (buf, pos) = dump_from print size prefix_hash_size 0 t.prefix_stats (given, 0) in
      let whole = length-append all end_line in
      let long = p.long in
      let fits = fits_size b n size (length all) (length (all ++ end_line)) enough u whole in
      let (same, ending) =
        at_end b n pos (length all) (length (all ++ end_line)) small u long whole in
      (
        write_text buf pos (end_line ++ (0 ∷ [])),
        ap (λ a. some (write_text buf a (end_line ++ (0 ∷ [])), int (pos + 5))) same
            ∙ ap (λ z. some (write_text buf pos (end_line ++ (0 ∷ [])), z)) ending,
        with_end buf pos all p.reads p.long,
        fits,
        sym enough,
      )
