-- ===== src/Memcached/StatsTests.antt =====
-- Counters of one prefix, and the properties of memcached-sr/stats.c at them.
use bmc_cache.Base.{
  ◌<◌, ◌^◌, ℕ, ◌+◌, ◌%◌, ◌≤◌, List, [], ◌∷◌, ◌++◌, true, some, Mem, Reads, length, ◌≡◌, refl, arith,
}
use bmc_cache.Memcached.Samples.{sum_bytes}
use bmc_cache.Memcached.PrefixStats.{
  PrefixTable, prefix_hash_size, prefix_of, stats_prefix_init, stats_prefix_record_get,
  stats_prefix_dump, dump_size, end_line, stats_prefix_find, record_found, at_place, find_prefix,
  starts_with,
}
use bmc_cache.Memcached.PrefixStats.Reached.{initial, got}
use bmc_cache.Memcached.PrefixStats.Dump.{PrintsShort, lines_from, needed, stats_prefix_dump-Reads}

-- "a:1"
abbrev key_a1 : List ℕ
key_a1 = b'a' ∷ b':' ∷ b'1' ∷ []

abbrev one_get : PrefixTable
one_get = stats_prefix_record_get sum_bytes b':' true stats_prefix_init key_a1 true

-- The last digit alone.
abbrev print_digit : ℕ → List ℕ
print_digit n = (b'0' + n % 10) ∷ []

print_digit-PrintsShort : PrintsShort print_digit
print_digit-PrintsShort n lt = omega arith

abbrev blank : Mem
blank a = 0

-- One structure with a prefix of one byte.
needed-one_get : needed print_digit print_digit-PrintsShort one_get ≡ 163
unfolding stats_prefix_record_get record_found at_place find_prefix prefix_of starts_with
    stats_prefix_find stats_prefix_init
needed-one_get = refl

needed-small : needed print_digit print_digit-PrintsShort one_get < 2 ^ 31
needed-small = rw needed-one_get (omega arith)

stats_prefix_dump-Reads_example :
    let text =
      lines_from print_digit print_digit-PrintsShort prefix_hash_size 0 one_get.prefix_stats
      ++ end_line in
    (buf : Mem) × (stats_prefix_dump print_digit (some blank) one_get ≡ some (buf, length text))
    × Reads buf 0 (text ++ (0 ∷ []))
    × (length text + 1 ≤ dump_size one_get)
    × (dump_size one_get ≡ needed print_digit print_digit-PrintsShort one_get)
stats_prefix_dump-Reads_example =
    stats_prefix_dump-Reads print_digit print_digit-PrintsShort sum_bytes b':' one_get blank
      (got true key_a1 true initial) needed-small
