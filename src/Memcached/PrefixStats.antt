-- ===== src/Memcached/PrefixStats.antt =====
-- memcached-sr/stats.c: counters for the prefixes of keys, in 256 chains.
pub mod Found
pub mod Sums
pub mod Reached
pub mod Dump
use bmc_cache.Base.{
  ℕ, zero, suc, ◌+◌, ◌-◌, ◌*◌, ◌%◌, ◌^◌, Bool, true, false, not, ◌&&◌, ◌||◌, Option, none, some,
  List, [], ◌∷◌, ◌++◌, ltb, ◌==◌, if◌then◌else◌, Mem, write_text, length,
}
use bmc_cache.Memcached.Types.{set_at}
use bmc_cache.Memcached.Lru.{add64}

-- PREFIX_STATS; a chain is a list.
pub record PrefixStats : Type 0 where
  pub prefix : List ℕ
  pub prefix_len : ℕ
  pub num_gets : ℕ
  pub num_sets : ℕ
  pub num_deletes : ℕ
  pub num_hits : ℕ

abbrev pub prefix_hash_size : ℕ
prefix_hash_size = 256

-- An `int` is kept as its 32 bits. Where the source increments one past INT_MAX, which C leaves
-- undefined, and where it stores a `size_t` in one, it wraps.
abbrev pub int : ℕ → ℕ
int n = n % 2 ^ 32

-- An `int` as a `size_t`: the sign goes on.
abbrev pub size_of_int : ℕ → ℕ
size_of_int n = if ltb n (2 ^ 31) then n else n + (2 ^ 64 - 2 ^ 32)

-- The variables of the file.
pub record PrefixTable : Type 0 where
  pub prefix_stats : ℕ → List PrefixStats
  pub num_prefixes : ℕ
  pub total_prefix_size : ℕ

-- When the server starts, the numbers are 0.
unfoldable pub stats_prefix_init : PrefixTable
stats_prefix_init = record { prefix_stats = λ i. []; num_prefixes = 0; total_prefix_size = 0 }

unfoldable pub stats_prefix_clear : PrefixTable → PrefixTable
stats_prefix_clear t = record {
  prefix_stats = λ i. if ltb i prefix_hash_size then [] else t.prefix_stats i;
  num_prefixes = 0;
  total_prefix_size = 0;
}

-- The bytes in front of the delimiter; none where the key has none.
unfoldable pub prefix_of : ℕ → List ℕ → Option (List ℕ)
prefix_of delimiter [] = none
prefix_of delimiter (x ∷ xs) =
    let rest = prefix_of delimiter xs in
    if x == 0
    then none
    else if x == delimiter
    then some []
    else elim rest [ none ↦ none | some w ↦ some (x ∷ w) ]

-- `strncmp(pfs->prefix, key, length) == 0`, for the first bytes of a key, which are not 0.
unfoldable pub starts_with : List ℕ → List ℕ → Bool
starts_with prefix [] = true
starts_with [] (y ∷ ys) = false
starts_with (x ∷ xs) (y ∷ ys) = x == y && starts_with xs ys

-- The place of the structure in its chain.
unfoldable pub find_prefix : List ℕ → List PrefixStats → Option ℕ
find_prefix w [] = none
find_prefix w (pfs ∷ next) =
    let rest = find_prefix w next in
    if starts_with pfs.prefix w then some 0 else elim rest [ none ↦ none | some n ↦ some (suc n) ]

abbrev pub new_prefix : List ℕ → PrefixStats
new_prefix w = record {
  prefix = w;
  prefix_len = length w;
  num_gets = 0;
  num_sets = 0;
  num_deletes = 0;
  num_hits = 0;
}

-- The new structure goes to the front of its chain.
abbrev pub add_prefix : PrefixTable → ℕ → List ℕ → PrefixTable
add_prefix t hashval w = record {
  prefix_stats = set_at t.prefix_stats hashval (new_prefix w ∷ t.prefix_stats hashval);
  num_prefixes = int (t.num_prefixes + 1);
  total_prefix_size = int (size_of_int t.total_prefix_size + length w);
}

-- `allocated`: calloc and malloc have memory. A structure is given by its chain and its place there.
unfoldable pub stats_prefix_find :
    (List ℕ → ℕ) → ℕ → Bool → PrefixTable → List ℕ → PrefixTable × Option (ℕ × ℕ)
stats_prefix_find hash delimiter allocated t key = elim (prefix_of delimiter key) [
  | none ↦ (t, none)
  | some w ↦
      let hashval = hash w % prefix_hash_size in
      elim (find_prefix w (t.prefix_stats hashval)) [
        | some n ↦ (t, some (hashval, n))
        | none ↦ if allocated then (add_prefix t hashval w, some (hashval, 0)) else (t, none)
      ]
]

-- A write through the pointer.
unfoldable pub at_place : ℕ → (PrefixStats → PrefixStats) → List PrefixStats → List PrefixStats
at_place n f [] = []
at_place zero f (pfs ∷ next) = f pfs ∷ next
at_place (suc n) f (pfs ∷ next) = pfs ∷ at_place n f next

unfoldable pub record_found :
    (PrefixStats → PrefixStats) → PrefixTable × Option (ℕ × ℕ) → PrefixTable
record_found f (t, none) = t
record_found f (t, some (hashval, n)) = record t {
  prefix_stats = set_at t.prefix_stats hashval (at_place n f (t.prefix_stats hashval));
}

abbrev pub count_get : Bool → PrefixStats → PrefixStats
count_get is_hit pfs = record pfs {
  num_gets = add64 pfs.num_gets 1;
  num_hits = if is_hit then add64 pfs.num_hits 1 else pfs.num_hits;
}

abbrev pub count_delete : PrefixStats → PrefixStats
count_delete pfs = record pfs { num_deletes = add64 pfs.num_deletes 1 }

abbrev pub count_set : PrefixStats → PrefixStats
count_set pfs = record pfs { num_sets = add64 pfs.num_sets 1 }

module _ (hash : List ℕ → ℕ) (delimiter : ℕ) (allocated : Bool) where
  unfoldable pub stats_prefix_record_get : PrefixTable → List ℕ → Bool → PrefixTable
  stats_prefix_record_get t key is_hit =
      record_found (count_get is_hit) (stats_prefix_find hash delimiter allocated t key)

  unfoldable pub stats_prefix_record_delete : PrefixTable → List ℕ → PrefixTable
  stats_prefix_record_delete t key =
      record_found count_delete (stats_prefix_find hash delimiter allocated t key)

  unfoldable pub stats_prefix_record_set : PrefixTable → List ℕ → PrefixTable
  stats_prefix_record_set t key =
      record_found count_set (stats_prefix_find hash delimiter allocated t key)

-- strlen(format)
abbrev pub format_length : ℕ
format_length = 47

abbrev pub end_line : List ℕ
end_line = b'E' ∷ b'N' ∷ b'D' ∷ b'\r' ∷ b'\n' ∷ []

unfoldable pub dump_size : PrefixTable → ℕ
dump_size t =
    (format_length
      + size_of_int t.total_prefix_size
      + size_of_int t.num_prefixes * (format_length - 2 + 4 * (20 - 4))
      + 6)
    % 2 ^ 64

-- A line of the format; `print` is the C library's for %llu.
unfoldable pub dump_line : (ℕ → List ℕ) → PrefixStats → List ℕ
dump_line print pfs =
    (b'P' ∷ b'R' ∷ b'E' ∷ b'F' ∷ b'I' ∷ b'X' ∷ b' ' ∷ [])
    ++ pfs.prefix
    ++ (b' ' ∷ b'g' ∷ b'e' ∷ b't' ∷ b' ' ∷ [])
    ++ print pfs.num_gets
    ++ (b' ' ∷ b'h' ∷ b'i' ∷ b't' ∷ b' ' ∷ [])
    ++ print pfs.num_hits
    ++ (b' ' ∷ b's' ∷ b'e' ∷ b't' ∷ b' ' ∷ [])
    ++ print pfs.num_sets
    ++ (b' ' ∷ b'd' ∷ b'e' ∷ b'l' ∷ b' ' ∷ [])
    ++ print pfs.num_deletes
    ++ (b'\r' ∷ b'\n' ∷ [])

-- At most so many bytes.
unfoldable pub cut : ℕ → List ℕ → List ℕ
cut zero xs = []
cut (suc n) [] = []
cut (suc n) (x ∷ xs) = x ∷ cut n xs

-- snprintf into `n` bytes from `pos`: what fits, with a zero behind it.
unfoldable pub print_line : Mem → ℕ → ℕ → List ℕ → Mem
print_line buf pos n line =
    if n == 0 then buf else write_text buf pos (cut (n - 1) line ++ (0 ∷ []))

module _ (print : ℕ → List ℕ) (size : ℕ) where
  unfoldable pub dump_chain : List PrefixStats → Mem × ℕ → Mem × ℕ
  dump_chain [] (buf, pos) = (buf, pos)
  dump_chain (pfs ∷ next) (buf, pos) =
      let line = dump_line print pfs in
      let at = size_of_int pos in
      dump_chain next
        (print_line buf at ((size + 2 ^ 64 - at) % 2 ^ 64) line, int (at + length line))

  -- The chains from `i` on; the first argument is their number.
  unfoldable pub dump_from : ℕ → ℕ → (ℕ → List PrefixStats) → Mem × ℕ → Mem × ℕ
  dump_from zero i chains s = s
  dump_from (suc left) i chains s = dump_from left (i + 1) chains (dump_chain (chains i) s)

-- `given` is what malloc gives. The second result is `*length`.
unfoldable pub stats_prefix_dump : (ℕ → List ℕ) → Option Mem → PrefixTable → Option (Mem × ℕ)
stats_prefix_dump print none t = none
stats_prefix_dump print (some given) t =
    let (buf, pos) = dump_from print (dump_size t) prefix_hash_size 0 t.prefix_stats (given, 0) in
    some (write_text buf (size_of_int pos) (end_line ++ (0 ∷ [])), int (pos + 5))
