-- ===== src/Lib.antt =====
-- A verification library for BMC, an in-kernel cache in front of memcached.
--
-- BMC is a set of eBPF programs (bmc/bmc_kern.c, bmc/bmc_common.h) that bmc/bmc_user.c loads and
-- joins by tail calls. Received packets go through `bmc_rx_filter_main`: a GET request over UDP
-- goes on to `bmc_hash_keys_main` (once for each key), `bmc_prepare_packet_main` and
-- `bmc_write_reply_main`, which answers it from the cache; a TCP segment for memcached goes on to
-- `bmc_invalidate_cache_main`. Sent packets go through `bmc_tx_filter_main`, and replies on to
-- `bmc_update_cache_main`, which fills the cache. memcached-sr is the memcached behind it.
--
-- Files:
--   Base               numbers, bytes in memory, texts, words of 16 and 32 bits
--   Bmc/Types          the constants and structures of bmc_common.h and bmc_kern.c; `State` holds
--                      the packet and the maps; a program returns an `Outcome`
--   Bmc/Kernel         bpf_xdp_adjust_head and bpf_xdp_adjust_tail: parameters, with what the
--                      code relies on (`AdjustsHead`, `AdjustsTail`)
--   Bmc/RxFilter       bmc_rx_filter_main
--   Bmc/HashKeys       bmc_hash_keys_main
--   Bmc/PreparePacket  bmc_prepare_packet_main
--   Bmc/WriteReply     bmc_write_reply_main
--   Bmc/Checksum       compute_ip_checksum
--   Bmc/InvalidateCache  bmc_invalidate_cache_main
--   Bmc/UpdateCache    bmc_tx_filter_main and bmc_update_cache_main
--   Bmc/Run            the programs joined by tail calls; the number of tail calls that the kernel
--                      allows is the argument `budget`
--   Bmc/Interleave     the locked sections of several CPUs as a step relation
--   Bmc/Text, Bmc/Hashes, Bmc/RoundTrip, Bmc/Invariant
--                      the text of keys and replies, and what relates several programs
--   Bmc/Samples, Bmc/Tests, Bmc/InterleaveTests
--                      packets, and the properties at them
--   Memcached/Assoc    memcached-sr/assoc.c: chains (Chain), the invariant (Sound), insertion and
--                      deletion (Update), the expansion (Expand), and the finite map (Refine)
--   Memcached/Automove memcached-sr/slab_automove.c, and what it may decide (Decision)
--   Memcached/AutomoveExtstore  memcached-sr/slab_automove_extstore.c, and that its moves go through the
--                      pool of pages (ThroughPool)
--   Memcached/Tokens   tokenize_command of memcached-sr/memcached.c; its tokens in order
--                      (Covered), its loop (Words) and its result (Split)
--   Memcached/Types    the structures of memcached.h, items.c and slabs.c; `Cache` is the state of the
--                      last two, with the hash table
--   Memcached/Lru      do_item_link_q and do_item_unlink_q of memcached-sr/items.c on linked lists
--                      (Segment, Queue, Sound, Link, Unlink)
--   Memcached/Lru/Crawl  the walk of the crawler over a queue, do_item_crawl_q of
--                      memcached-sr/items.c: its assignments (Links), a step (Step), and
--                      the steps to the head (Walk)
--   Memcached/Slabs    memcached-sr/slabs.c: size classes (Classes), free chunks (Free), pages (Page)
--   Memcached/Items    memcached-sr/items.c from do_item_link to do_item_touch: what the operations
--                      keep (Kept), what they do to the table (Table), lookups (Lookup)
--   Memcached/Pull     lru_pull_tail of memcached-sr/items.c
--   Memcached/Alloc    do_item_alloc_pull and do_item_alloc of memcached-sr/items.c; sizes (Size)
--   Memcached/StoreItem  do_store_item and do_add_delta of memcached-sr/memcached.c: values (Join,
--                      Delta), the table (Replace), and what each command stores (Semantics)
--   Memcached/Util     the encoding of keys of memcached-sr/util.c: its text (Encoded), and that
--                      the texts of two keys differ (Injective)
--   Memcached/Realtime  realtime of memcached-sr/memcached.c, and when such times expire (Expires)
--   Memcached/ObjectCache  memcached-sr/cache.c; the free objects are a stack (Stack)
--   Memcached/Util/Numbers  the safe conversions and the safe copy of memcached-sr/util.c
--   Memcached/Threads  the operations of memcached-sr/thread.c on items
--   Memcached/Refs     who holds an item: what the operations do to it (Effect, Links), counted
--                      references (Counted), each operation (Steps, Lookup, Ready, Store), the states that
--                      they reach (Reach), and when an item is freed (Released)
--   Memcached/Commands a connection and its answers, of memcached-sr/memcached.c; the commands of the
--                      text protocol that change items (Ascii, Update), the items of a connection
--                      (Release), and what the commands do to the map (Outcome, TooLarge)
--   Memcached/PrefixStats  memcached-sr/stats.c: which structure counts a key (Found), the numbers of
--                      the structures (Sums, Reached), and their text (Dump)
--   Memcached/Maintainer  the work of the maintainer's thread of memcached-sr/items.c: the queue of bumps
--                      (Bumps), and how long the crawler waits (Waits)
--   Memcached/Slabs/Rebalance  the request, the start and the end of a page move of
--                      memcached-sr/slabs.c: the source that is picked (Source), and the pages
--                      of the classes (Pages)
--   Memcached/Samples, Memcached/Tests, Memcached/LruTests, Memcached/StoreTests,
--   Memcached/UtilTests, Memcached/RefsTests, Memcached/StatsTests, Memcached/SlabTests
--                      small tables, caches and statistics, and the properties at them
--
-- State and operations. A program is a function from a `State` to the new state and its outcome.
-- Memory is a function from addresses to bytes, and `data` and `data_end` are addresses in it, so
-- that bytes which the head has moved over are there when it moves back, as the programs expect.
-- A map is a function from slots to an optional value; `none` is the NULL of a lookup. A section
-- under a spin lock is one step. `Bmc/Interleave` lets those of all CPUs interleave: a program with at
-- most one such section is a step, and of the scan for set commands, which has one for each command,
-- each round of its loop is a step. A `char` is signed where it is hashed.
--
-- A chain of the hash table is the list that its `h_next` links make, and an array of buckets is a
-- function. The hash function, the outcomes of the bucket locks and of calloc are arguments, and
-- so are the statistics that the slab automover reads and its comparison of floating numbers.
--
-- The items and chunks of memcached are in a function from addresses to headers, and 0 is NULL. The
-- operations are as in a build without external storage and without assertions. A lock is held for
-- the whole of an operation, so that locks have no state; what a trial of an item's lock gives,
-- and what malloc and realloc give, are arguments.
--
-- An `int` of memcached-sr/stats.c is its 32 bits, and becomes a `size_t` with its sign.
--
-- A call of memcached-sr/thread.c is one step on the whole state: it holds the lock of its key, and
-- `Memcached/Refs/Reach` takes the calls of all threads in any order. The holders of an item,
-- connections and queues, are a function from items to their numbers, which the code does not have
-- and which the references are compared with. A new item is there a header in a chunk that nobody
-- holds; that the allocation gives such chunks only is not shown.
--
-- Bounds. Every loop of the kernel programs has a constant bound, and the model recurs on the rounds
-- that are left of it: 1496 for the spaces, 251 for a key, 250 for a comparison, 1303 for a copy and
-- 1500 for a segment. The loop over eight-byte words moves by eight in a round, so 1303 rounds
-- are more than it takes. The loops of memcached-sr run over a chain, over the 63 slab classes, over
-- a window, over the chunks of a page or an item, and over the bytes of a line. The walk of
-- lru_pull_tail has an argument for its rounds, and gives no result when they are too few; no theorem
-- here depends on it.
--
-- Not modelled: reads outside of a packet as faults (memory is total here), the bodies of the
-- kernel's helpers, the options, the statistics and the signals of bmc_user.c, and of
-- memcached-sr the statistics of item sizes, of threads those that a lookup counts, the prefixes that
-- the commands count, its log, the moves of items at a page move, the request for a page move at an
-- eviction, values in chunks where they are joined, and the files and functions that are not named
-- above.
pub mod Base
pub mod Bmc
pub mod Memcached
