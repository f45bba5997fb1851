-- ===== src/Memcached/Refs/Reach.antt =====
-- The states that the operations of memcached-sr/thread.c reach, each with its map and its holders.
use bmc_cache.Base.{
  ℕ, suc, ◌+◌, ◌^◌, ◌<◌, List, Bool, true, false, ◌&&◌, ◌==◌, ◌≡◌, ◌≢◌, ◌⊎◌, inl, inr, refl, sym,
  ap, subst, ◌∙◌, arith, none, some, Bool-cases,
}
use bmc_cache.Memcached.Types.{StrItem, Cache, set_item}
use bmc_cache.Memcached.Assoc.{Table, assoc_init, assoc_start_expand, maintain}
use bmc_cache.Memcached.Assoc.Refine.{
  Dict, Refines, started-Refines, maintain-Refines, signalled-Refines,
}
use bmc_cache.Memcached.Alloc.{Round}
use bmc_cache.Memcached.StoreItem.{Command}
use bmc_cache.Memcached.StoreItem.Semantics.{joins, accepts}
use bmc_cache.Memcached.Threads.{item_get, item_link, item_unlink, item_remove, store_item}
use bmc_cache.Memcached.Refs.Links.{bump_queued}
use bmc_cache.Memcached.Refs.Counted.{one_if, Counted, with_item, without_key}
use bmc_cache.Memcached.Refs.Steps.{
  holders, holders-other, do_item_remove-Counted, do_item_link-Counted, do_item_unlink-Counted,
}
use bmc_cache.Memcached.Refs.Lookup.{do_item_get-Held}
use bmc_cache.Memcached.Refs.Store.{map_after, do_store_item-Counted}

-- A new header that one client holds.
abbrev pub IsNew : StrItem → Type 0
IsNew i = (i.it_flags.linked ≡ false) × (i.it_flags.chunked ≡ false) × (i.refcount ≡ 1)

-- Where many could hold an item, `limited_get` gives it out no more.
abbrev pub Few : (ℕ → ℕ) → Type 0
Few refs = (a : ℕ) → refs a + 3 < 2 ^ 16

module _ (hash : List ℕ → ℕ) (rounds : ℕ) (env : ℕ → Round) where
  -- The map after a store: what the lookup found under the key decides.
  abbrev pub after_store : Cache → Dict → ℕ → Command → Bool → Dict
  after_store c m it comm set_stale =
      let key = (c.items it).key in
      let (c1, old) = item_get hash false c key false in
      map_after (accepts hash comm set_stale c1 old it) m key old it

  -- A chunk that nobody holds becomes an item, lookups miss or give an item, an item is released by a
  -- holder, linked, unlinked or stored, and the table is maintained.
  pub data Reach : Cache → Dict → (ℕ → ℕ) → Type 0 where
    started :
        (c : Cache) (n : ℕ)
        → c.table ≡ assoc_init n
        → ((a : ℕ) → (c.items a).it_flags.linked ≡ false)
        → Reach c (λ k. none) (λ a. 0)
    allocated :
        {c : Cache} {m : Dict} {refs : ℕ → ℕ} (it : ℕ) (i : StrItem)
        → Reach c m refs
        → it ≢ 0
        → refs it ≡ 0
        → (c.items it).it_flags.linked ≡ false
        → IsNew i
        → Reach (set_item c it i) m (holders refs it 1)
    missed :
        {c : Cache} {m : Dict} {refs : ℕ → ℕ} (queued update : Bool) (key : List ℕ)
        → Reach c m refs
        → Few refs
        → (item_get hash queued c key update).1 ≡ 0
        → Reach (item_get hash queued c key update).0 (without_key m key) refs
    given :
        {c : Cache} {m : Dict} {refs : ℕ → ℕ} (queued update : Bool) (key : List ℕ) (it : ℕ)
        → Reach c m refs
        → Few refs
        → it ≢ 0
        → (item_get hash queued c key update).1 ≡ it
        → Reach
            (item_get hash queued c key update).0
            m
            (holders refs it (refs it + (1 + one_if (update && bump_queued queued c it))))
    removed :
        {c : Cache} {m : Dict} {refs : ℕ → ℕ} (it n : ℕ)
        → Reach c m refs
        → refs it ≡ suc n
        → Reach (item_remove hash c it) m (holders refs it n)
    linked :
        {c : Cache} {m : Dict} {refs : ℕ → ℕ} (it : ℕ)
        → Reach c m refs
        → 0 < refs it
        → (c.items it).it_flags.linked ≡ false
        → m (c.items it).key ≡ none
        → Reach (item_link hash c it) (with_item m (c.items it).key it) refs
    unlinked :
        {c : Cache} {m : Dict} {refs : ℕ → ℕ} (it : ℕ)
        → Reach c m refs
        → (c.items it).it_flags.linked ≡ true
        → Reach (item_unlink hash c it) (without_key m (c.items it).key) refs
    stored :
        {c : Cache} {m : Dict} {refs : ℕ → ℕ} (it : ℕ) (comm : Command) (set_stale : Bool)
        → Reach c m refs
        → 0 < refs it
        → (c.items it).it_flags.linked ≡ false
        → Few refs
        → joins comm ≡ false
        → Reach
            (store_item hash rounds env c it comm set_stale).cache
            (after_store c m it comm set_stale)
            refs
    maintained :
        {c : Cache} {m : Dict} {refs : ℕ → ℕ} (locks : List Bool) (woken memory : Bool)
        → Reach c m refs
        → Reach (record c { table = maintain hash locks woken memory c.table }) m refs
    signalled :
        {c : Cache} {m : Dict} {refs : ℕ → ℕ}
        → Reach c m refs
        → Reach (record c { table = (assoc_start_expand c.curr_items c.table).0 }) m refs

  started-Counted :
      (c : Cache) (n : ℕ)
      → c.table ≡ assoc_init n
      → ((a : ℕ) → (c.items a).it_flags.linked ≡ false)
      → Counted hash c (λ k. none) (λ a. 0)
  started-Counted c n t un =
      let (s, f) = subst (λ z. Refines hash z (λ k. none)) (sym t) (started-Refines hash n) in
      record {
        sound = s;
        found = f;
        entries = λ k x e. absurd (ground arith);
        listed = λ a l. absurd (let u = un a in ground arith);
        counted = λ a h. elim h [
          | inl z ↦ absurd (omega arith)
          | inr z ↦ absurd (let u = un a in ground arith)
        ];
        small = λ a. omega arith;
        null = refl;
      }

  tabled-Counted :
      (c : Cache) (m : Dict) (refs : ℕ → ℕ) (t : Table)
      → Refines hash t m
      → Counted hash c m refs
      → Counted hash (record c { table = t }) m refs
  tabled-Counted c m refs t (s, f) v = record {
    sound = s;
    found = f;
    entries = v.entries;
    listed = v.listed;
    counted = v.counted;
    small = v.small;
    null = v.null;
  }

  allocated-Counted :
      (c : Cache) (m : Dict) (refs : ℕ → ℕ) (it : ℕ) (i : StrItem)
      → Counted hash c m refs
      → it ≢ 0
      → (c.items it).it_flags.linked ≡ false
      → IsNew i
      → Counted hash (set_item c it i) m (holders refs it 1)
  allocated-Counted c m refs it i v nz un (il, ip, ir) =
      let here : (a : ℕ) → a ≡ it → (set_item c it i).items a ≡ i = λ a e. ground arith in
      let other : (a : ℕ) → a ≢ it → (set_item c it i).items a ≡ c.items a = λ a ne. ground arith in
      record {
        sound = v.sound;
        found = v.found;
        entries = λ k x e.
            let (ek, el, en) = v.entries k x e in
            let ne : x.addr ≢ it =
              λ z. absurd (let b = ap (λ a. (c.items a).it_flags.linked) z in ground arith) in
            subst (λ j. (j.key ≡ k) × (j.it_flags.linked ≡ true) × (x.addr ≢ 0))
              (sym (other x.addr ne)) (ek, el, en);
        listed = λ a l. elim (Bool-cases (a == it)) [
          | inl e ↦ absurd (
              let h = ap (λ (j : StrItem). j.it_flags.linked) (here a (ground arith)) in
              ground arith)
          | inr e ↦
              let o = other a (λ h. absurd (ground arith)) in
              subst (λ (j : StrItem). m j.key ≡ some (record { key = j.key; addr = a })) (sym o)
                (v.listed a (ap (λ (j : StrItem). j.it_flags.linked) (sym o) ∙ l))
        ];
        counted = λ a h. elim (Bool-cases (a == it)) [
          | inl e ↦
              let n : holders refs it 1 a ≡ 1 = ground arith in
              subst
                (λ (j : StrItem).
                  (j.refcount ≡ holders refs it 1 a + one_if j.it_flags.linked)
                  × (j.it_flags.chunked ≡ false))
                (sym (here a (ground arith)))
                (ir ∙ sym n ∙ plus_none (holders refs it 1 a) i.it_flags.linked il, ip)
          | inr e ↦
              let ne : a ≢ it = λ h. absurd (ground arith) in
              let o = other a ne in
              let n = holders-other refs it 1 a ne in
              let h' : (0 < refs a) ⊎ ((c.items a).it_flags.linked ≡ true) = elim h [
                | inl z ↦ inl (subst (λ w. 0 < w) n z)
                | inr z ↦ inr (ap (λ (j : StrItem). j.it_flags.linked) (sym o) ∙ z)
              ] in
              let (r, p) = v.counted a h' in
              subst
                (λ (j : StrItem).
                  (j.refcount ≡ holders refs it 1 a + one_if j.it_flags.linked)
                  × (j.it_flags.chunked ≡ false))
                (sym o) (r ∙ ap (λ w. w + one_if (c.items a).it_flags.linked) (sym n), p)
        ];
        small = λ a. elim (Bool-cases (a == it)) [
          | inl e ↦ let n : holders refs it 1 a ≡ 1 = ground arith in omega arith
          | inr e ↦
              let n = holders-other refs it 1 a (λ h. absurd (ground arith)) in
              let s = v.small a in omega arith
        ];
        null = holders-other refs it 1 0 (λ h. nz (sym h)) ∙ v.null;
      }
    where
      plus_none : (n : ℕ) (b : Bool) → b ≡ false → n ≡ n + one_if b
      plus_none n b e = (omega arith) ∙ ap (λ z. n + one_if z) (sym e)

  -- In every state that the operations reach, from a start without items, the table is the map, the
  -- items of the map are those that are linked, and each item that is linked or held counts
  -- one reference for the table, if it is linked, and one for each of its holders.
  pub Reach-Counted : {c : Cache} {m : Dict} {refs : ℕ → ℕ} → Reach c m refs → Counted hash c m refs
  unfolding item_get item_link item_unlink item_remove store_item
  Reach-Counted (started c n t un) = started-Counted c n t un
  Reach-Counted (allocated {c} {m} {refs} it i r nz z un new) =
      allocated-Counted c m refs it i (Reach-Counted r) nz un new
  Reach-Counted (missed {c} {m} {refs} queued update key r f e) =
      elim (do_item_get-Held hash m refs queued update key c (Reach-Counted r) f) [
        | inl (z, v) ↦ v
        | inr (nz, there, live, v) ↦ absurd (nz e)
      ]
  Reach-Counted (given {c} {m} {refs} queued update key it r f nz e) =
      elim (do_item_get-Held hash m refs queued update key c (Reach-Counted r) f) [
        | inl (z, v) ↦ absurd (nz (sym e ∙ z))
        | inr (n, there, live, v) ↦
            subst
              (λ a.
                Counted hash (item_get hash queued c key update).0 m
                  (holders refs a (refs a + (1 + one_if (update && bump_queued queued c a)))))
              e v
      ]
  Reach-Counted (removed {c} {m} {refs} it n r e) =
      do_item_remove-Counted hash c m refs it (Reach-Counted r) n e
  Reach-Counted (linked {c} {m} {refs} it r h un absent) =
      do_item_link-Counted hash c m refs it (Reach-Counted r) h un absent
  Reach-Counted (unlinked {c} {m} {refs} it r l) =
      do_item_unlink-Counted hash c m refs it (Reach-Counted r) l
  Reach-Counted (stored {c} {m} {refs} it comm set_stale r h u f j) =
      do_store_item-Counted hash rounds env c m refs it set_stale (Reach-Counted r) h u f comm j
  Reach-Counted (maintained {c} {m} {refs} locks woken memory r) =
      let v = Reach-Counted r in
      tabled-Counted c m refs (maintain hash locks woken memory c.table)
        (maintain-Refines hash locks woken memory c.table m (v.sound, v.found)) v
  Reach-Counted (signalled {c} {m} {refs} r) =
      let v = Reach-Counted r in
      tabled-Counted c m refs (assoc_start_expand c.curr_items c.table).0
        (signalled-Refines hash c.curr_items c.table m (v.sound, v.found)) v
