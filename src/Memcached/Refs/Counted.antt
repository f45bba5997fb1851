-- ===== src/Memcached/Refs/Counted.antt =====
-- The references of the items are counted: what holds in every state of memcached-sr/items.c.
use bmc_cache.Base.{
  ℕ, ◌+◌, ◌^◌, ◌<◌, List, Bool, true, false, ◌==◌, if◌then◌else◌, ◌≡◌, ◌≢◌, ◌⊎◌, inl, inr, refl,
  sym, ap, subst, ◌∙◌, arith, Option, none, some, Bool-cases,
}
use bmc_cache.Memcached.Types.{Cache}
use bmc_cache.Memcached.Assoc.{Item, same_key, assoc_find}
use bmc_cache.Memcached.Assoc.Chain.{same_key-cases, same_key_eq}
use bmc_cache.Memcached.Assoc.Sound.{Sound}
use bmc_cache.Memcached.Assoc.Refine.{Dict}
use bmc_cache.Memcached.Refs.{Frame, Becomes}

abbrev pub one_if : Bool → ℕ
one_if b = if b then 1 else 0

pub one_if-small : (b : Bool) → one_if b < 2
one_if-small true = omega arith
one_if-small false = omega arith

-- The table is the map, the items of the map are those that are linked, under their own keys, and an
-- item that is linked or held has one reference for the table and one for each holder; `refs` has
-- the numbers of these. No such item is chunked.
pub record Counted (hash : List ℕ → ℕ) (c : Cache) (m : Dict) (refs : ℕ → ℕ) : Type 0 where
  pub sound : Sound hash c.table
  pub found : (k : List ℕ) → assoc_find c.table k (hash k) ≡ m k
  pub entries :
      (k : List ℕ) (x : Item)
      → m k ≡ some x
      → ((c.items x.addr).key ≡ k) × ((c.items x.addr).it_flags.linked ≡ true) × (x.addr ≢ 0)
  pub listed :
      (a : ℕ)
      → (c.items a).it_flags.linked ≡ true
      → m (c.items a).key ≡ some (record { key = (c.items a).key; addr = a })
  pub counted :
      (a : ℕ)
      → (0 < refs a) ⊎ ((c.items a).it_flags.linked ≡ true)
      → ((c.items a).refcount ≡ refs a + one_if (c.items a).it_flags.linked)
        × ((c.items a).it_flags.chunked ≡ false)
  pub small : (a : ℕ) → refs a + 1 < 2 ^ 16
  pub null : refs 0 ≡ 0

-- What an operation on one item does to all items.
pub record Change (c c' : Cache) (it : ℕ) (l : Bool) (r : ℕ) : Type 0 where
  pub key : (a : ℕ) → (c'.items a).key ≡ (c.items a).key
  pub linked :
      (a : ℕ) → (c'.items a).it_flags.linked ≡ (if a == it then l else (c.items a).it_flags.linked)
  pub refcount : (a : ℕ) → (c'.items a).refcount ≡ (if a == it then r else (c.items a).refcount)
  pub chunked :
      (a : ℕ)
      → (c'.items a).it_flags.chunked ≡ (if a == it then false else (c.items a).it_flags.chunked)

pub Frame-Change :
    (c c' : Cache) (it : ℕ) (l : Bool) (r : ℕ)
    → Frame it c c'
    → Becomes (c.items it) (c'.items it) l r
    → Change c c' it l r
Frame-Change c c' it l r f b = record {
  key = λ a. elim (Bool-cases (a == it)) [
    | inl e ↦
        let h : it ≡ a = ground arith in subst (λ z. (c'.items z).key ≡ (c.items z).key) h b.key
    | inr e ↦ ap (λ z. z.key) (f a (λ h. absurd (ground arith)))
  ];
  linked = λ a. elim (Bool-cases (a == it)) [
    | inl e ↦
        let h : a ≡ it = ground arith in
        ap (λ z. (c'.items z).it_flags.linked) h ∙ b.linked ∙ ground arith
    | inr e ↦ ap (λ z. z.it_flags.linked) (f a (λ h. absurd (ground arith))) ∙ ground arith
  ];
  refcount = λ a. elim (Bool-cases (a == it)) [
    | inl e ↦
        let h : a ≡ it = ground arith in
        ap (λ z. (c'.items z).refcount) h ∙ b.refcount ∙ ground arith
    | inr e ↦ ap (λ z. z.refcount) (f a (λ h. absurd (ground arith))) ∙ ground arith
  ];
  chunked = λ a. elim (Bool-cases (a == it)) [
    | inl e ↦
        let h : a ≡ it = ground arith in
        ap (λ z. (c'.items z).it_flags.chunked) h ∙ b.chunked ∙ ground arith
    | inr e ↦ ap (λ z. z.it_flags.chunked) (f a (λ h. absurd (ground arith))) ∙ ground arith
  ];
}

-- The map with an item, and without a key.
abbrev pub with_item : Dict → List ℕ → ℕ → Dict
with_item m key it k = if same_key k key then some (record { key = key; addr = it }) else m k

abbrev pub without_key : Dict → List ℕ → Dict
without_key m key k = if same_key k key then none else m k

with_item-here :
    (m : Dict) (key : List ℕ) (it : ℕ) (k : List ℕ)
    → k ≡ key
    → with_item m key it k ≡ some (record { key = key; addr = it })
with_item-here m key it k h = let q = same_key_eq k key h in ground arith

with_item-other :
    (m : Dict) (key : List ℕ) (it : ℕ) (k : List ℕ)
    → same_key k key ≡ false
    → with_item m key it k ≡ m k
with_item-other m key it k h = ground arith

without_key-here : (m : Dict) (key k : List ℕ) → k ≡ key → without_key m key k ≡ none
without_key-here m key k h = let q = same_key_eq k key h in ground arith

without_key-other : (m : Dict) (key k : List ℕ) → same_key k key ≡ false → without_key m key k ≡ m k
without_key-other m key k h = ground arith

if_true : (b c : Bool) → c ≡ true → (if b then true else c) ≡ true
if_true true c h = refl
if_true false c h = h

present_absurd : (x : Item) → some x ≢ none
present_absurd x h = absurd (ground arith)

contradiction : true ≢ false
contradiction h = absurd (ground arith)

add_0 : (n : ℕ) → n + 0 ≡ n
add_0 n = omega arith

-- The address of an item that is there.
abbrev addr_or : ℕ → Option Item → ℕ
addr_or d none = d
addr_or d (some x) = x.addr

module _ (hash : List ℕ → ℕ) (c c' : Cache) (m : Dict) (refs refs' : ℕ → ℕ) (it : ℕ)
    (v : Counted hash c m refs) (nz : it ≢ 0) (less : refs' it + 1 < 2 ^ 16)
    (others : (a : ℕ) → a ≢ it → refs' a ≡ refs a) where
  -- The other items are counted as before, and the item as it says.
  recount :
      (l : Bool)
      → Change c c' it l (refs' it + one_if l)
      → (a : ℕ) → (0 < refs' a) ⊎ ((c'.items a).it_flags.linked ≡ true)
      → ((c'.items a).refcount ≡ refs' a + one_if (c'.items a).it_flags.linked)
        × ((c'.items a).it_flags.chunked ≡ false)
  recount l ch a h =
      let el = ch.linked a in
      let er = ch.refcount a in
      let ec = ch.chunked a in
      elim (Bool-cases (a == it)) [
        | inl e ↦
            let same : a ≡ it = ground arith in
            let n : refs' a ≡ refs' it = ap refs' same in (ground arith, ground arith)
        | inr e ↦
            let n = others a (λ z. absurd (ground arith)) in
            let l' : (c'.items a).it_flags.linked ≡ (c.items a).it_flags.linked =
              el ∙ ground arith in
            let held : (0 < refs a) ⊎ ((c.items a).it_flags.linked ≡ true) = elim h [
              | inl z ↦ inl (omega arith)
              | inr z ↦ inr (sym l' ∙ z)
            ] in
            let (r, p) = v.counted a held in (ground arith, ground arith)
      ]

  less-small : (a : ℕ) → refs' a + 1 < 2 ^ 16
  less-small a = elim (Bool-cases (a == it)) [
    | inl e ↦ let n : refs' a ≡ refs' it = ap refs' (ground arith) in omega arith
    | inr e ↦ let n = others a (λ z. absurd (ground arith)) in let s = v.small a in omega arith
  ]

  still_null : refs' 0 ≡ 0
  still_null = others 0 (λ z. nz (sym z)) ∙ v.null

  same_address : (a : ℕ) → (a == it) ≡ true → a ≡ it
  same_address a e = ground arith

  other_address : (a : ℕ) → (a == it) ≡ false → a ≢ it
  other_address a e h = absurd (ground arith)

  if_same :
      (a : ℕ)
      → (if a == it then (c.items it).it_flags.linked else (c.items a).it_flags.linked)
        ≡ (c.items a).it_flags.linked
  if_same a = elim (Bool-cases (a == it)) [
    | inl e ↦
        ap (λ b. if b then (c.items it).it_flags.linked else (c.items a).it_flags.linked) e
        ∙ ap (λ z. (c.items z).it_flags.linked) (sym (same_address a e))
    | inr e ↦ ap (λ b. if b then (c.items it).it_flags.linked else (c.items a).it_flags.linked) e
  ]

  -- The number of holders changes, and nothing else.
  pub recounted :
      c'.table ≡ c.table
      → Change c c' it (c.items it).it_flags.linked (refs' it + one_if (c.items it).it_flags.linked)
      → Counted hash c' m refs'
  recounted same ch = record {
    sound = subst (Sound hash) (sym same) v.sound;
    found = λ k. ap (λ t. assoc_find t k (hash k)) same ∙ v.found k;
    entries = λ k x e.
        let (ek, el, en) = v.entries k x e in
        (ch.key x.addr ∙ ek, ch.linked x.addr ∙ if_same x.addr ∙ el, en);
    listed = λ a l.
        let was : (c.items a).it_flags.linked ≡ true = sym (ch.linked a ∙ (if_same a)) ∙ l in
        ap m (ch.key a)
        ∙ v.listed a was
        ∙ ap (λ z. some (record { key = z; addr = a })) (sym (ch.key a));
    counted = recount (c.items it).it_flags.linked ch;
    small = less-small;
    null = still_null;
  }

  -- An item that was not linked comes under its key, which the map did not have.
  pub recounted_linked :
      (c.items it).it_flags.linked ≡ false
      → m (c.items it).key ≡ none
      → Sound hash c'.table
      → ((k : List ℕ) → assoc_find c'.table k (hash k) ≡ with_item m (c.items it).key it k)
      → Change c c' it true (refs' it + 1)
      → Counted hash c' (with_item m (c.items it).key it) refs'
  recounted_linked un absent sound found ch = record {
    sound = sound;
    found = found;
    entries = λ k x e. elim (same_key-cases k (c.items it).key) [
      | inl h ↦
          let q = with_item-here m (c.items it).key it k h in
          let eq = sym q ∙ e in
          let at : it ≡ x.addr = cc in
          (
            ap (λ z. (c'.items z).key) (sym at) ∙ ch.key it ∙ sym h,
            ap (λ z. (c'.items z).it_flags.linked) (sym at) ∙ ch.linked it ∙ ground arith,
            λ z. nz (at ∙ z),
          )
      | inr h ↦
          let (ek, el, en) = v.entries k x (sym (with_item-other m (c.items it).key it k h) ∙ e) in
          (
            ch.key x.addr ∙ ek,
            ch.linked x.addr ∙ if_true (x.addr == it) (c.items x.addr).it_flags.linked el,
            en,
          )
    ];
    listed = λ a l.
        subst (λ z. with_item m (c.items it).key it z ≡ some (record { key = z; addr = a }))
          (sym (ch.key a))
          (elim (Bool-cases (a == it)) [
            | inl e ↦
                let same = same_address a e in
                subst
                  (λ b.
                    with_item m (c.items it).key it (c.items b).key
                    ≡ some (record { key = (c.items b).key; addr = b }))
                  (sym same) (with_item-here m (c.items it).key it (c.items it).key refl)
            | inr e ↦
                let was =
                  sym (ap (λ b. if b then true else (c.items a).it_flags.linked) e)
                  ∙ sym (ch.linked a)
                  ∙ l in
                let old = v.listed a was in
                elim (same_key-cases (c.items a).key (c.items it).key) [
                  | inl h ↦ let gone = ap m h ∙ absent in absurd cc
                  | inr h ↦ with_item-other m (c.items it).key it (c.items a).key h ∙ old
                ]
          ]);
    counted = recount true ch;
    small = less-small;
    null = still_null;
  }

  -- The item that the map has under a key goes.
  pub recounted_unlinked :
      (c.items it).it_flags.linked ≡ true
      → Sound hash c'.table
      → ((k : List ℕ) → assoc_find c'.table k (hash k) ≡ without_key m (c.items it).key k)
      → Change c c' it false (refs' it)
      → Counted hash c' (without_key m (c.items it).key) refs'
  recounted_unlinked was sound found ch =
      let ch_plus = subst (Change c c' it false) (sym (add_0 (refs' it))) ch in
      record {
        sound = sound;
        found = found;
        entries = λ k x e. elim (same_key-cases k (c.items it).key) [
          | inl h ↦ absurd (present_absurd x (sym e ∙ without_key-here m (c.items it).key k h))
          | inr h ↦
              let (ek, el, en) =
                v.entries k x (sym (without_key-other m (c.items it).key k h) ∙ e) in
              let ne : (x.addr == it) ≡ false = elim (Bool-cases (x.addr == it)) [
                | inl z ↦
                    let key_of = sym ek ∙ ap (λ a. (c.items a).key) (same_address x.addr z) in
                    absurd (contradiction (sym (same_key_eq k (c.items it).key key_of) ∙ h))
                | inr z ↦ z
              ] in
              (
                ch.key x.addr ∙ ek,
                ch.linked x.addr
                    ∙ ap (λ b. if b then false else (c.items x.addr).it_flags.linked) ne
                    ∙ el,
                en,
              )
        ];
        listed = λ a l.
            subst (λ z. without_key m (c.items it).key z ≡ some (record { key = z; addr = a }))
              (sym (ch.key a))
              (elim (Bool-cases (a == it)) [
                | inl e ↦ absurd (
                    contradiction (
                      sym l
                      ∙ ch.linked a
                      ∙ ap (λ b. if b then false else (c.items a).it_flags.linked) e))
                | inr e ↦
                    let is_linked =
                      sym (ap (λ b. if b then false else (c.items a).it_flags.linked) e)
                      ∙ sym (ch.linked a)
                      ∙ l in
                    let old = v.listed a is_linked in
                    elim (same_key-cases (c.items a).key (c.items it).key) [
                      | inl h ↦
                          let its = sym (v.listed it was) in
                          let here = ap m (sym h) in
                          let eq = its ∙ here ∙ old in
                          let at : it ≡ a = ap (addr_or it) eq in
                          absurd (other_address a e (sym at))
                      | inr h ↦ without_key-other m (c.items it).key (c.items a).key h ∙ old
                    ]
              ]);
        counted = λ a h. let (r, p) = recount false ch_plus a h in (r, p);
        small = less-small;
        null = still_null;
      }
