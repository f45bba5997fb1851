-- ===== src/Memcached/Commands/TooLarge.antt =====
-- A storing command of memcached-sr/memcached.c whose value is too large for the cache.
use bmc_cache.Base.{
  ℕ, ℤ, ◌≤◌, Bool, true, false, some, List, ltb, if◌then◌else◌, length, ◌≡◌, ◌<◌, ◌⊎◌, inl, inr,
  Bool-cases, refl, sym, ap, subst, ◌∙◌, arith,
}
use bmc_cache.Memcached.Types.{Cache}
use bmc_cache.Memcached.Assoc.Refine.{Dict}
use bmc_cache.Memcached.Items.{item_size_ok}
use bmc_cache.Memcached.Alloc.{Round, do_item_alloc}
use bmc_cache.Memcached.StoreItem.{Command}
use bmc_cache.Memcached.Realtime.{realtime}
use bmc_cache.Memcached.Threads.{item_alloc}
use bmc_cache.Memcached.Commands.{
  Conn, text, conn_new_cmd, conn_write, conn_swallow, out_string, token, set_noreply_maybe,
}
use bmc_cache.Memcached.Commands.Ascii.{Server, key_max_length}
use bmc_cache.Memcached.Commands.Update.{
  Line, read_line, value_size, clamp_exptime, refuse_update, start_update, process_update_command,
}
use bmc_cache.Memcached.Commands.Outcome.{after_refusal, refuse_update-Counted}
use bmc_cache.Memcached.Refs.Counted.{Counted}
use bmc_cache.Memcached.Refs.Reach.{Few}

wsize-set_noreply_maybe :
    (k : Conn) (words : List (List ℕ)) → (set_noreply_maybe k words).wsize ≡ k.wsize
unfolding set_noreply_maybe
wsize-set_noreply_maybe k words = ground arith

module _ (hash : List ℕ → ℕ) (rounds : ℕ) (env : ℕ → Round) where
  -- No chunk is asked for.
  do_item_alloc-too_large :
      (c : Cache) (key : List ℕ) (flags exptime nbytes : ℕ)
      → item_size_ok c (length key) flags nbytes ≡ false
      → do_item_alloc hash rounds env c key flags exptime nbytes ≡ (c, 0)
  unfolding do_item_alloc item_size_ok
  do_item_alloc-too_large c key flags exptime nbytes big = ground arith

  start_update-too_large :
      (grown : Bool) (s : Server) (key : List ℕ) (flags exptime vlen req_cas_id : ℕ)
      (comm : Command)
      → item_size_ok s.cache (length key) flags vlen ≡ false
      → start_update hash rounds env grown s key flags exptime vlen req_cas_id comm
        ≡ refuse_update hash rounds env grown s key flags vlen comm
  unfolding start_update item_alloc
  start_update-too_large grown s key flags exptime vlen req_cas_id comm big =
      let none_given = do_item_alloc-too_large s.cache key flags exptime vlen big in
      rw none_given refl

  refuse_update-answer :
      (grown : Bool) (s : Server) (key : List ℕ) (flags vlen : ℕ) (comm : Command)
      → item_size_ok s.cache (length key) flags vlen ≡ false
      → s.conn.noreply ≡ false
      → 41 ≤ s.conn.wsize
      → (refuse_update hash rounds env grown s key flags vlen comm).conn.wbuf
        ≡ text "SERVER_ERROR object too large for cache"
  unfolding refuse_update out_string
  refuse_update-answer grown s key flags vlen comm big loud room =
      let fits : ltb s.conn.wsize 41 ≡ false = ground arith in rw (big, loud, fits) refl

  module _ (process_started : ℕ) (strtoul : List ℕ → ℕ × ℕ × Bool) (strtol : List ℕ → ℤ × ℕ × Bool)
      (strtoull : List ℕ → ℕ × ℕ × Bool) (grown : Bool) (s : Server) (words : List (List ℕ))
      (comm : Command) (handle_cas : Bool) where
    abbrev pub line : Line hash rounds env
    line = read_line hash rounds env strtoul strtol strtoull words handle_cas

    -- The line is one that the command takes, with a size of `vlen` bytes with the line end.
    pub record IsUpdateLine (vlen : ℕ) : Type 0 where
      pub short_key : length (token words 1) ≤ key_max_length
      pub flags : line.flags.0 ≡ true
      pub exptime : line.exptime_int.0 ≡ true
      pub size_read : line.vlen.0 ≡ true
      pub cas_id : line.req_cas_id.0 ≡ true
      pub size : value_size hash rounds env line.vlen.1 ≡ some vlen

    update-started :
        (vlen : ℕ)
        → IsUpdateLine vlen
        → process_update_command hash rounds env process_started strtoul strtol strtoull grown s
            words comm handle_cas
          ≡ start_update hash rounds env grown
              (record s { conn = set_noreply_maybe s.conn words })
              (token words 1)
              line.flags.1
              (realtime process_started s.cache.current_time
                (clamp_exptime hash rounds env line.exptime_int.1))
              vlen
              line.req_cas_id.1
              comm
    unfolding process_update_command
    update-started vlen ok =
        ground (arith, ok.short_key, ok.flags, ok.exptime, ok.size_read, ok.cas_id, ok.size)

    -- Where the references are counted and no item has 65,533 holders, a storing command with a line
    -- as it should be, but a size that no slab class has chunks for, leaves the references counted,
    -- and the map without the key if it is `set` or as it was if it is another one. The size becomes
    -- the number of bytes to swallow after the answer "SERVER_ERROR object too large for cache"; but
    -- where no reply is wanted, by an earlier command or by the last word of this one, there is no
    -- answer, and the connection reads its next command at once.
    pub process_update_command-too_large :
        (vlen : ℕ) (m : Dict) (refs : ℕ → ℕ)
        → IsUpdateLine vlen
        → item_size_ok s.cache (length (token words 1)) line.flags.1 vlen ≡ false
        → Counted hash s.cache m refs
        → Few refs
        → let quiet = (set_noreply_maybe s.conn words).noreply in
          let r =
            process_update_command hash rounds env process_started strtoul strtol strtoull grown s
              words comm handle_cas in
          Counted hash r.cache (after_refusal hash rounds env comm m (token words 1)) refs
          × (r.conn.write_and_go ≡ conn_swallow)
          × (r.conn.sbytes ≡ vlen)
          × (r.conn.state ≡ (if quiet then conn_new_cmd else conn_write))
          × ((quiet ≡ true)
              ⊎ (s.conn.wsize < 41)
              ⊎ (r.conn.wbuf ≡ text "SERVER_ERROR object too large for cache"))
    process_update_command-too_large vlen m refs ok big v few =
        let key = token words 1 in
        let s1 = record s { conn = set_noreply_maybe s.conn words } in
        let refused = refuse_update hash rounds env grown s1 key line.flags.1 vlen comm in
        let to_refused : process_update_command hash rounds env process_started strtoul strtol
              strtoull grown s words comm handle_cas
            ≡ refused =
          update-started vlen ok
          ∙ start_update-too_large grown s1 key line.flags.1
              (realtime process_started s.cache.current_time
                (clamp_exptime hash rounds env line.exptime_int.1))
              vlen line.req_cas_id.1 comm big in
        let (counted, go, bytes, state) =
          refuse_update-Counted hash rounds env grown s1 key line.flags.1 vlen comm m refs v few in
        (
          subst (λ z. Counted hash z.cache (after_refusal hash rounds env comm m key) refs)
              (sym to_refused) counted,
          ap (λ z. z.conn.write_and_go) to_refused ∙ go,
          ap (λ z. z.conn.sbytes) to_refused ∙ bytes,
          ap (λ z. z.conn.state) to_refused ∙ state,
          elim (Bool-cases s1.conn.noreply) [
            | inl quiet ↦ inl quiet
            | inr loud ↦ inr (elim (Bool-cases (ltb s.conn.wsize 41)) [
              | inl small ↦ inl (ground arith)
              | inr room ↦
                  let e = wsize-set_noreply_maybe s.conn words in
                  inr (
                    ap (λ z. z.conn.wbuf) to_refused
                    ∙ refuse_update-answer grown s1 key line.flags.1 vlen comm big loud
                        (subst (λ z. 41 ≤ z) (sym e) (ground arith)))
            ])
          ],
        )
