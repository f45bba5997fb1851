-- ===== src/Memcached/Refs/Steps.antt =====
-- The operations of memcached-sr/items.c keep the references counted.
use bmc_cache.Base.{
  ℕ, suc, ◌+◌, ◌^◌, ◌<◌, List, Bool, true, false, ◌==◌, if◌then◌else◌, ◌≡◌, ◌≢◌, ◌⊎◌, inl, inr,
  refl, sym, ap, subst, ◌∙◌, arith, none, some, Bool-cases,
}
use bmc_cache.Memcached.Types.{Cache, set_item}
use bmc_cache.Memcached.Assoc.{Item, same_key, assoc_find}
use bmc_cache.Memcached.Assoc.Sound.{Sound}
use bmc_cache.Memcached.Assoc.Update.{assoc_insert-Sound, assoc_find-assoc_insert}
use bmc_cache.Memcached.Assoc.Refine.{Dict}
use bmc_cache.Memcached.Items.{
  refcount_incr, do_item_remove, do_item_link, do_item_unlink, do_item_update, do_item_bump,
}
use bmc_cache.Memcached.Items.Kept.{do_item_update-Kept}
use bmc_cache.Memcached.Items.Table.{
  do_item_remove-Keyed, do_item_link-Rekeyed, do_item_unlink-Rekeyed, do_item_bump-Keyed,
}
use bmc_cache.Memcached.Items.Lookup.{table_without-lem}
use bmc_cache.Memcached.Refs.{content, Becomes}
use bmc_cache.Memcached.Refs.Effect.{set_item-Frame, do_item_remove-Frame, do_item_remove-Becomes}
use bmc_cache.Memcached.Refs.Links.{
  do_item_link-Frame, do_item_link-Becomes, do_item_unlink-Frame, do_item_unlink-Becomes,
  do_item_update-content, do_item_bump-content, bump_queued,
}
use bmc_cache.Memcached.Refs.Counted.{
  one_if, one_if-small, Counted, Frame-Change, with_item, without_key, recounted, recounted_linked,
  recounted_unlinked,
}

-- The numbers of holders, with those of one item changed.
abbrev pub holders : (ℕ → ℕ) → ℕ → ℕ → ℕ → ℕ
holders refs it n a = if a == it then n else refs a

pub holders-here : (refs : ℕ → ℕ) (it n : ℕ) → holders refs it n it ≡ n
holders-here refs it n = ground arith

pub holders-other : (refs : ℕ → ℕ) (it n a : ℕ) → a ≢ it → holders refs it n a ≡ refs a
holders-other refs it n a ne = ground arith

holders-same : (refs : ℕ → ℕ) (it a : ℕ) → holders refs it (refs it + 0) a ≡ refs a
holders-same refs it a = elim (Bool-cases (a == it)) [
  | inl e ↦ let h : it ≡ a = ground arith in ground arith ∙ ap refs h
  | inr e ↦ ground arith
]

last_unlinked : (n : ℕ) (l : Bool) → n + one_if l ≡ 0 → l ≡ false
last_unlinked n true z = absurd (omega arith)
last_unlinked n false z = refl

-- Tables, keys, links and references agree.
pub record Alike (c c' : Cache) : Type 0 where
  pub table : c'.table ≡ c.table
  pub key : (a : ℕ) → (c'.items a).key ≡ (c.items a).key
  pub linked : (a : ℕ) → (c'.items a).it_flags.linked ≡ (c.items a).it_flags.linked
  pub refcount : (a : ℕ) → (c'.items a).refcount ≡ (c.items a).refcount
  pub chunked : (a : ℕ) → (c'.items a).it_flags.chunked ≡ (c.items a).it_flags.chunked

pub content-Alike :
    (c c' : Cache)
    → c'.table ≡ c.table
    → ((a : ℕ) → content (c'.items a) ≡ content (c.items a))
    → Alike c c'
content-Alike c c' t e = record {
  table = t;
  key = λ a. ap (λ i. i.key) (e a);
  linked = λ a. ap (λ i. i.it_flags.linked) (e a);
  refcount = λ a. ap (λ i. i.refcount) (e a);
  chunked = λ a. ap (λ i. i.it_flags.chunked) (e a);
}

module _ (hash : List ℕ → ℕ) where
  pub Alike-Counted :
      (c c' : Cache) (m : Dict) (refs : ℕ → ℕ)
      → Alike c c'
      → Counted hash c m refs
      → Counted hash c' m refs
  Alike-Counted c c' m refs s v = record {
    sound = subst (Sound hash) (sym s.table) v.sound;
    found = λ k. ap (λ t. assoc_find t k (hash k)) s.table ∙ v.found k;
    entries = λ k x e.
        let (ek, el, en) = v.entries k x e in (s.key x.addr ∙ ek, s.linked x.addr ∙ el, en);
    listed = λ a l.
        subst (λ z. m z ≡ some (record { key = z; addr = a })) (sym (s.key a))
          (v.listed a (sym (s.linked a) ∙ l));
    counted = λ a h.
        let held : (0 < refs a) ⊎ ((c.items a).it_flags.linked ≡ true) = elim h [
          | inl z ↦ inl z
          | inr z ↦ inr (sym (s.linked a) ∙ z)
        ] in
        let (r, p) = v.counted a held in
        (s.refcount a ∙ r ∙ ap (λ b. refs a + one_if b) (sym (s.linked a)), s.chunked a ∙ p);
    small = v.small;
    null = v.null;
  }

  -- The map and the numbers matter at their values only.
  pub same-Counted :
      (c : Cache) (m m' : Dict) (refs refs' : ℕ → ℕ)
      → ((k : List ℕ) → m' k ≡ m k)
      → ((a : ℕ) → refs' a ≡ refs a)
      → Counted hash c m refs
      → Counted hash c m' refs'
  same-Counted c m m' refs refs' em er v = record {
    sound = v.sound;
    found = λ k. v.found k ∙ sym (em k);
    entries = λ k x e. v.entries k x (sym (em k) ∙ e);
    listed = λ a l. em (c.items a).key ∙ v.listed a l;
    counted = λ a h.
        let n = er a in
        let (r, p) = v.counted a (elim h [ inl z ↦ inl (omega arith) | inr z ↦ inr z ]) in
        (r ∙ ap (λ z. z + one_if (c.items a).it_flags.linked) (sym n), p);
    small = λ a. let n = er a in let s = v.small a in omega arith;
    null = er 0 ∙ v.null;
  }

  module _ (c : Cache) (m : Dict) (refs : ℕ → ℕ) (it : ℕ) (v : Counted hash c m refs) where
    held_nz : 0 < refs it → it ≢ 0
    held_nz h e = absurd (let n = v.null in let z = ap refs e in ground arith)

    -- A holder more.
    pub refcount_incr-Counted :
        it ≢ 0
        → (0 < refs it) ⊎ ((c.items it).it_flags.linked ≡ true)
        → refs it + 2 < 2 ^ 16
        → Counted hash
            (set_item c it (refcount_incr (c.items it)))
            m
            (holders refs it (refs it + 1))
    refcount_incr-Counted nz h less =
        let (r, p) = v.counted it h in
        let c' = set_item c it (refcount_incr (c.items it)) in
        let n = holders-here refs it (refs it + 1) in
        let l = (c.items it).it_flags.linked in
        let one = one_if-small l in
        let b : Becomes (c.items it) (c'.items it) l (holders refs it (refs it + 1) it + one_if l) =
          record {
            key = ground arith;
            data_ = ground arith;
            nbytes = ground arith;
            exptime = ground arith;
            linked = ground arith;
            refcount = ground arith;
            chunked = ground arith;
          } in
        recounted hash c c' m refs (holders refs it (refs it + 1)) it v nz (ground arith)
          (holders-other refs it (refs it + 1)) refl
          (Frame-Change c c' it l (holders refs it (refs it + 1) it + one_if l)
            (set_item-Frame c it (refcount_incr (c.items it))) b)

    -- A holder less: the item stays, or it is freed with the last reference.
    pub do_item_remove-Counted :
        (n : ℕ) → refs it ≡ suc n → Counted hash (do_item_remove c it) m (holders refs it n)
    do_item_remove-Counted n e =
        let (r, p) = v.counted it (inl (omega arith)) in
        let c' = do_item_remove c it in
        let l = (c.items it).it_flags.linked in
        let f = do_item_remove-Frame c it p in
        let one = one_if-small l in
        let small = v.small it in
        let counted : (c.items it).refcount ≡ suc (n + one_if l) = r ∙ omega arith in
        let last : n + one_if l ≡ 0 → l ≡ false = λ z. last_unlinked n l z in
        let less : suc (n + one_if l) < 2 ^ 16 = omega arith in
        let b = do_item_remove-Becomes c it (n + one_if l) p counted less last in
        let here = holders-here refs it n in
        let b' = subst (λ z. Becomes (c.items it) (c'.items it) l (z + one_if l)) (sym here) b in
        recounted hash c c' m refs (holders refs it n) it v (held_nz (omega arith)) (ground arith)
          (holders-other refs it n) (do_item_remove-Keyed c it).table
          (Frame-Change c c' it l (holders refs it n it + one_if l) f b')

    -- The table has a reference of its own.
    pub do_item_link-Counted :
        0 < refs it
        → (c.items it).it_flags.linked ≡ false
        → m (c.items it).key ≡ none
        → Counted hash
            (do_item_link c it (hash (c.items it).key))
            (with_item m (c.items it).key it)
            refs
    do_item_link-Counted h un absent =
        let key = (c.items it).key in
        let entry : Item = record { key = key; addr = it } in
        let (r, p) = v.counted it (inl h) in
        let c' = do_item_link c it (hash key) in
        let small = v.small it in
        let k = do_item_link-Rekeyed c it (hash key) in
        let fresh = v.found key ∙ absent in
        let counted : (c.items it).refcount ≡ refs it =
          r ∙ ap (λ b. refs it + one_if b) un ∙ omega arith in
        let b = do_item_link-Becomes c it (hash key) p (omega arith) in
        let b' = subst (λ z. Becomes (c.items it) (c'.items it) true (z + 1)) counted b in
        recounted_linked hash c c' m refs refs it v (held_nz h) (v.small it) (λ a ne. refl) un
          absent
          (subst (Sound hash) (sym k.table) (assoc_insert-Sound hash c.table v.sound entry fresh))
          (λ q.
            ap (λ t. assoc_find t q (hash q)) k.table
            ∙ assoc_find-assoc_insert hash c.table v.sound entry fresh q
            ∙ ap (λ z. if same_key q key then some entry else z) (v.found q))
          (Frame-Change c c' it true (refs it + 1) (do_item_link-Frame c it (hash key)) b')

    -- The table gives up its reference.
    pub do_item_unlink-Counted :
        (c.items it).it_flags.linked ≡ true
        → Counted hash
            (do_item_unlink c it (hash (c.items it).key))
            (without_key m (c.items it).key)
            refs
    do_item_unlink-Counted linked =
        let key = (c.items it).key in
        let (r, p) = v.counted it (inr linked) in
        let (ek, el, nz) = v.entries key (record { key = key; addr = it }) (v.listed it linked) in
        let c' = do_item_unlink c it (hash key) in
        let small = v.small it in
        let k = do_item_unlink-Rekeyed c it (hash key) linked in
        let (sound, found) = table_without-lem hash c.table key v.sound in
        let counted : (c.items it).refcount ≡ suc (refs it) =
          r ∙ ap (λ b. refs it + one_if b) linked ∙ omega arith in
        let b = do_item_unlink-Becomes c it (hash key) p linked (refs it) counted (omega arith) in
        recounted_unlinked hash c c' m refs refs it v nz (v.small it) (λ a ne. refl) linked
          (subst (Sound hash) (sym k.table) sound)
          (λ q.
            ap (λ t. assoc_find t q (hash q)) k.table
            ∙ found q
            ∙ ap (λ z. if same_key q key then none else z) (v.found q))
          (Frame-Change c c' it false (refs it) (do_item_unlink-Frame c it (hash key) p linked) b)

    pub do_item_update-Counted : Counted hash (do_item_update c it) m refs
    do_item_update-Counted =
        Alike-Counted c (do_item_update c it) m refs
          (content-Alike c (do_item_update c it) (do_item_update-Kept c it).table
            (do_item_update-content c it))
          v

    -- A bump may take a reference for its queue.
    pub do_item_bump-Counted :
        (queued : Bool)
        → it ≢ 0
        → (0 < refs it) ⊎ ((c.items it).it_flags.linked ≡ true)
        → refs it + 2 < 2 ^ 16
        → Counted hash
            (do_item_bump queued c it)
            m
            (holders refs it (refs it + one_if (bump_queued queued c it)))
    do_item_bump-Counted queued nz h less =
        let d = do_item_bump queued c it in
        let held = set_item c it (refcount_incr (c.items it)) in
        let t = (do_item_bump-Keyed queued c it).table in
        elim (do_item_bump-content queued c it) [
          | inl (q, e) ↦
              same-Counted d m m refs (holders refs it (refs it + one_if (bump_queued queued c it)))
                (λ k. refl)
                (λ a. ap (λ b. holders refs it (refs it + one_if b) a) q ∙ holders-same refs it a)
                (Alike-Counted c d m refs (content-Alike c d t e) v)
          | inr (q, e) ↦
              subst (λ b. Counted hash d m (holders refs it (refs it + one_if b))) (sym q)
                (Alike-Counted held d m (holders refs it (refs it + 1)) (content-Alike held d t e)
                  (refcount_incr-Counted nz h less))
        ]
