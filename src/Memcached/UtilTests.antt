-- ===== src/Memcached/UtilTests.antt =====
-- Keys of memcached-sr and their encodings, object caches, and times, and the properties at them.
use bmc_cache.Base.{
  inl, ◌+◌, ◌↔◌, pos, negsuc, none, ℕ, ◌<◌, ◌≤◌, true, false, List, [], ◌∷◌, ◌++◌, ◌≡◌, ◌≢◌, ◌⊎◌,
  ap, refl, arith, length, Reads, Mem,
}
use bmc_cache.Memcached.Util.{uriencode, uriencode_map, text_of}
use bmc_cache.Memcached.Util.Encoded.{encoded, uriencode-Reads, uriencode-bounds}
use bmc_cache.Memcached.Util.Injective.{encoded_distinct}
use bmc_cache.Memcached.ObjectCache.{cache_create, do_cache_alloc, do_cache_free}
use bmc_cache.Memcached.ObjectCache.Stack.{
  IsStack, cache_create-IsStack, do_cache_free-IsStack, do_cache_alloc-do_cache_free,
}
use bmc_cache.Memcached.Realtime.{realtime, realtime_maxdelta}
use bmc_cache.Memcached.Realtime.Expires.{IsExpired, realtime-IsExpired, realtime-negative}

-- "a b"
abbrev key_ab : List ℕ
key_ab = b'a' ∷ b' ' ∷ b'b' ∷ []

key_ab-encoded : encoded key_ab ≡ b'a' ∷ b'%' ∷ b'2' ∷ b'0' ∷ b'b' ∷ []
unfolding encoded text_of uriencode_map
key_ab-encoded = refl

abbrev blank : Mem
blank = λ a. 7

uriencode-Reads_test :
    ((uriencode key_ab blank 10).1 ≡ true)
    × Reads (uriencode key_ab blank 10).0 0 (encoded key_ab ++ (0 ∷ []))
    × ((a : ℕ) → 10 ≤ a → (uriencode key_ab blank 10).0 a ≡ 7)
uriencode-Reads_test = uriencode-Reads key_ab blank 10 (omega arith)

uriencode-bounds_test :
    ((a : ℕ) → 6 ≤ a → (uriencode key_ab blank 6).0 a ≡ 7)
    × (((uriencode key_ab blank 6).1 ≡ false)
        ⊎ (Reads (uriencode key_ab blank 6).0 0 (encoded key_ab ++ (0 ∷ []))
            × (length (encoded key_ab) < 6)))
uriencode-bounds_test = uriencode-bounds key_ab blank 6 (omega arith)

-- "a_b"
abbrev key_a_b : List ℕ
key_a_b = b'a' ∷ b'_' ∷ b'b' ∷ []

abbrev second : List ℕ → ℕ
second [] = 0
second (x ∷ []) = 0
second (x ∷ y ∷ ys) = y

keys_differ : key_ab ≢ key_a_b
keys_differ h = absurd (let e = ap second h in ground arith)

encoded_distinct_example : encoded key_ab ≢ encoded key_a_b
encoded_distinct_example =
    encoded_distinct key_ab key_a_b (omega arith, (omega arith, (omega arith, tt)))
      (omega arith, (omega arith, (omega arith, tt))) keys_differ

do_cache_free-IsStack_test : IsStack (do_cache_free false cache_create 500) (500 ∷ [])
unfolding cache_create
do_cache_free-IsStack_test = do_cache_free-IsStack false cache_create 500 [] cache_create-IsStack

do_cache_alloc-do_cache_free_test :
    ((do_cache_alloc 900 none (do_cache_free false cache_create 500)).1 ≡ 500)
    × IsStack (do_cache_alloc 900 none (do_cache_free false cache_create 500)).0 []
unfolding cache_create
do_cache_alloc-do_cache_free_test =
    do_cache_alloc-do_cache_free false 900 none cache_create 500 [] cache_create-IsStack
      (inl (omega arith))

-- A minute, in a server of 500 seconds.
abbrev minute : ℕ
minute = 60

realtime-IsExpired_example :
    ((minute ≡ 0) × (realtime 1000000000 500 (pos minute) ≡ 0))
    ⊎ (((minute ≢ 0)
          × (minute ≤ realtime_maxdelta)
          × (IsExpired (realtime 1000000000 500 (pos minute)) 560 ↔ (500 + minute ≤ 560)))
        ⊎ ((realtime_maxdelta < minute)
            × (IsExpired (realtime 1000000000 500 (pos minute)) 560
                ↔ ((minute ≤ 1000000000 + 560) × (1 ≤ 560)))))
realtime-IsExpired_example = realtime-IsExpired 1000000000 500 minute (omega arith) 560

-- -100000, in a server of one day, and twelve days later.
realtime-negative_example : ¬ IsExpired (realtime 1000000000 86400 (negsuc 99999)) 1123200
realtime-negative_example =
    realtime-negative 1000000000 86400 99999 1123200 (omega arith) (omega arith) (omega arith)
