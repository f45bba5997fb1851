-- ===== src/Memcached/Refs/Ready.antt =====
-- The commands of `do_store_item` of memcached-sr/memcached.c behind their lookup keep the references counted.
use bmc_cache.Base.{
  ℕ, ◌<◌, List, Bool, true, false, not, ltb, ◌&&◌, ◌||◌, ◌==◌, if◌then◌else◌, ◌≡◌, ◌≢◌, inl, inr,
  refl, sym, ap, subst, ◌∙◌, arith, if_either, none, some, Bool-cases,
}
use bmc_cache.Memcached.Types.{StrItem, Cache, set_item}
use bmc_cache.Memcached.Assoc.{Item}
use bmc_cache.Memcached.Assoc.Chain.{same_key_eq}
use bmc_cache.Memcached.Assoc.Refine.{Dict}
use bmc_cache.Memcached.Items.{
  item_get_cas, do_item_link, do_item_unlink, do_item_replace, do_item_update,
}
use bmc_cache.Memcached.Items.Table.{do_item_unlink-Rekeyed}
use bmc_cache.Memcached.Alloc.{Round}
use bmc_cache.Memcached.StoreItem.{
  Command, add, set, replace, append, prepend, cas, not_stored, exists, not_found, Stored, refused,
  store_replaced, store_cas, store_linked, store_by,
}
use bmc_cache.Memcached.StoreItem.Semantics.{joins, accepts}
use bmc_cache.Memcached.Refs.Counted.{Counted, with_item, without_key}
use bmc_cache.Memcached.Refs.Steps.{
  Alike, Alike-Counted, same-Counted, do_item_link-Counted, do_item_unlink-Counted,
  do_item_update-Counted,
}

-- The map after a command: the item, if it was accepted.
abbrev pub stored_map : Bool → Dict → List ℕ → ℕ → Dict
stored_map b m key it = if b then with_item m key it else m

with_item-without_key :
    (m : Dict) (key : List ℕ) (it : ℕ) (k : List ℕ)
    → with_item m key it k ≡ with_item (without_key m key) key it k
with_item-without_key m key it k = ground arith

-- The item under the key is not linked.
pub still_unlinked :
    (hash : List ℕ → ℕ) (c : Cache) (m : Dict) (refs : ℕ → ℕ) (it : ℕ)
    → Counted hash c m refs
    → m (c.items it).key ≢ some (record { key = (c.items it).key; addr = it })
    → (c.items it).it_flags.linked ≡ false
still_unlinked hash c m refs it v h = elim (Bool-cases (c.items it).it_flags.linked) [
  | inl e ↦ absurd (h (v.listed it e))
  | inr e ↦ e
]

pub absent_absurd : (x : Item) → none ≢ some x
absent_absurd x e = absurd (ground arith)

module _ (hash : List ℕ → ℕ) (rounds : ℕ) (env : ℕ → Round) where
  -- What the lookup of a command left: the new item is held and not linked, and the old one is the
  -- item that the map has under its key.
  pub record Ready (c : Cache) (m : Dict) (refs : ℕ → ℕ) (key : List ℕ) (old_it it : ℕ)
      : Type 0 where
    pub valid : Counted hash c m refs
    pub named : (c.items it).key ≡ key
    pub held : 0 < refs it
    pub unlinked : (c.items it).it_flags.linked ≡ false
    pub absent : old_it ≡ 0 → m key ≡ none
    pub present : old_it ≢ 0 → m key ≡ some (record { key = key; addr = old_it })

  module _ (c : Cache) (m : Dict) (refs : ℕ → ℕ) (key : List ℕ) (old_it it : ℕ)
      (r : Ready c m refs key old_it it) where
    linked-Counted :
        old_it ≡ 0 → Counted hash (do_item_link c it (hash key)) (with_item m key it) refs
    linked-Counted z =
        subst (λ k. Counted hash (do_item_link c it (hash k)) (with_item m k it) refs) r.named
          (do_item_link-Counted hash c m refs it r.valid r.held r.unlinked
            (ap m r.named ∙ r.absent z))

    replaced-Counted :
        old_it ≢ 0 → Counted hash (do_item_replace c old_it it (hash key)) (with_item m key it) refs
    unfolding do_item_replace
    replaced-Counted nz =
        let there = r.present nz in
        let (ek, el, en) = r.valid.entries key (record { key = key; addr = old_it }) there in
        let d = do_item_unlink c old_it (hash key) in
        let u =
          subst (λ k. Counted hash (do_item_unlink c old_it (hash k)) (without_key m k) refs) ek
            (do_item_unlink-Counted hash c m refs old_it r.valid el) in
        let k = do_item_unlink-Rekeyed c old_it (hash key) el in
        let named : (d.items it).key ≡ key = k.key it ∙ r.named in
        let q = same_key_eq key key refl in
        let gone : without_key m key key ≡ none = ground arith in
        let gone' : without_key m key (d.items it).key ≡ none =
          ap (without_key m key) named ∙ gone in
        let un =
          still_unlinked hash d (without_key m key) refs it u
            (λ e. absent_absurd (record { key = (d.items it).key; addr = it }) (sym gone' ∙ e)) in
        let l =
          subst
            (λ z.
              Counted hash (do_item_link d it (hash z)) (with_item (without_key m key) z it) refs)
            named (do_item_link-Counted hash d (without_key m key) refs it u r.held un gone') in
        same-Counted hash (do_item_link d it (hash key)) (with_item (without_key m key) key it)
          (with_item m key it) refs refs (with_item-without_key m key it) (λ a. refl) l

    -- The command stored, or not.
    accepted-Counted :
        (b : Bool) (d : Cache)
        → b ≡ true
        → Counted hash d (with_item m key it) refs
        → Counted hash d (stored_map b m key it) refs
    accepted-Counted b d e v = subst (λ z. Counted hash d (stored_map z m key it) refs) (sym e) v

    refused-Counted :
        (b : Bool) (d : Cache)
        → b ≡ false
        → Counted hash d m refs
        → Counted hash d (stored_map b m key it) refs
    refused-Counted b d e v = subst (λ z. Counted hash d (stored_map z m key it) refs) (sym e) v

    store_linked-Counted :
        (b : Bool)
        → b ≡ true
        → Counted hash (store_linked c old_it it (hash key)).cache (stored_map b m key it) refs
    unfolding store_linked
    store_linked-Counted b e = accepted-Counted b (store_linked c old_it it (hash key)).cache e (
        if_either (λ (z : Cache). Counted hash z (with_item m key it) refs) (old_it == 0)
          (do_item_link c it (hash key)) (do_item_replace c old_it it (hash key))
          (λ h. linked-Counted (ground arith)) (λ h. replaced-Counted (λ z. absurd (ground arith))))

    relabelled-Ready :
        (i : StrItem)
        → i.key ≡ (c.items it).key
        → i.it_flags.linked ≡ (c.items it).it_flags.linked
        → i.refcount ≡ (c.items it).refcount
        → i.it_flags.chunked ≡ (c.items it).it_flags.chunked
        → Ready (set_item c it i) m refs key old_it it
    relabelled-Ready i ek el er ec =
        let s : Alike c (set_item c it i) = record {
          table = refl;
          key = λ a. ground arith;
          linked = λ a. ground arith;
          refcount = λ a. ground arith;
          chunked = λ a. ground arith;
        } in
        record {
          valid = Alike-Counted hash c (set_item c it i) m refs s r.valid;
          named = s.key it ∙ r.named;
          held = r.held;
          unlinked = s.linked it ∙ r.unlinked;
          absent = r.absent;
          present = r.present;
        }

  store_replaced-Counted :
      (c : Cache) (m : Dict) (refs : ℕ → ℕ) (key : List ℕ) (old_it it : ℕ)
      → Ready c m refs key old_it it
      → (b : Bool) → b ≡ true
      → old_it ≢ 0
      → Counted hash (store_replaced c old_it it (hash key)).cache (stored_map b m key it) refs
  unfolding store_replaced
  store_replaced-Counted c m refs key old_it it r b e nz =
      accepted-Counted c m refs key old_it it r b (store_replaced c old_it it (hash key)).cache e
        (replaced-Counted c m refs key old_it it r nz)

  module _ (c : Cache) (m : Dict) (refs : ℕ → ℕ) (key : List ℕ) (old_it it : ℕ)
      (r : Ready c m refs key old_it it) where
    abbrev same_id : Bool
    same_id = item_get_cas (c.items it) == item_get_cas (c.items old_it)

    abbrev earlier : Bool → Bool
    earlier b = b && ltb (item_get_cas (c.items it)) (item_get_cas (c.items old_it))

    store_cas-Counted :
        (b : Bool)
        → Counted hash
            (store_cas b c old_it it (hash key)).cache
            (stored_map (not (old_it == 0) && (same_id || earlier b)) m key it)
            refs
    unfolding store_cas
    store_cas-Counted b =
        let i = c.items it in
        let o = c.items old_it in
        let stale_it : StrItem = record i {
          exptime = o.exptime;
          it_flags = record (i.it_flags) {
            stale = true;
            token_sent = i.it_flags.token_sent || o.it_flags.token_sent;
          };
        } in
        let d = set_item c it stale_it in
        let marked = store_replaced d old_it it (hash key) in
        let late : Stored = if earlier b then marked else refused c it exists in
        let there : Stored = if same_id then store_replaced c old_it it (hash key) else late in
        let ok = not (old_it == 0) && (same_id || earlier b) in
        if_either (λ (z : Stored). Counted hash z.cache (stored_map ok m key it) refs) (old_it == 0)
          (refused c it not_found) there
          (λ e. refused-Counted c m refs key old_it it r ok c (ground arith) r.valid)
          (λ z.
            if_either (λ (z : Stored). Counted hash z.cache (stored_map ok m key it) refs) same_id
              (store_replaced c old_it it (hash key)) late
              (λ e.
                store_replaced-Counted c m refs key old_it it r ok (ground arith)
                  (λ n. absurd (ground arith)))
              (λ n.
                if_either (λ (z : Stored). Counted hash z.cache (stored_map ok m key it) refs)
                  (earlier b) marked (refused c it exists)
                  (λ e.
                    store_replaced-Counted d m refs key old_it it
                      (relabelled-Ready c m refs key old_it it r stale_it refl refl refl refl) ok
                      (ground arith) (λ n. absurd (ground arith)))
                  (λ e. refused-Counted c m refs key old_it it r ok c (ground arith) r.valid)))

    abbrev pub IsBy : Bool → Stored × ℕ → Type 0
    IsBy b (s, n) = Counted hash s.cache (stored_map b m key it) refs × (n ≡ 0)

    pub store_by-IsBy :
        (comm : Command) (b : Bool)
        → joins comm ≡ false
        → IsBy
            (accepts hash comm b c old_it it)
            (store_by hash rounds env comm b c old_it it (hash key))
    unfolding store_by
    store_by-IsBy add b h =
        if_either (IsBy (old_it == 0)) (old_it == 0) (store_linked c old_it it (hash key), 0)
          (refused (do_item_update c old_it) it not_stored, 0)
          (λ e. (store_linked-Counted c m refs key old_it it r (old_it == 0) e, refl))
          (λ e. (
            refused-Counted c m refs key old_it it r (old_it == 0) (do_item_update c old_it) e
                (do_item_update-Counted hash c m refs old_it r.valid),
            refl,
          ))
    store_by-IsBy set b h = (store_linked-Counted c m refs key old_it it r true refl, refl)
    store_by-IsBy replace b h =
        if_either (IsBy (not (old_it == 0))) (old_it == 0) (refused c it not_stored, 0)
          (store_linked c old_it it (hash key), 0)
          (λ e. (
            refused-Counted c m refs key old_it it r (not (old_it == 0)) c (ap not e) r.valid,
            refl,
          ))
          (λ e.
            (store_linked-Counted c m refs key old_it it r (not (old_it == 0)) (ap not e), refl))
    store_by-IsBy append b h = absurd (ground arith)
    store_by-IsBy prepend b h = absurd (ground arith)
    store_by-IsBy cas b h = (store_cas-Counted b, refl)
