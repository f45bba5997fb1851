-- ===== src/Memcached/Tokens/Words.antt =====
-- The loop of memcached-sr/memcached.c's `tokenize_command` finds the words of the line.
use bmc_cache.Base.{
  ℕ, zero, suc, ◌+◌, ◌-◌, ◌≤◌, ◌<◌, List, [], ◌∷◌, ◌++◌, ◌==◌, if◌then◌else◌, Mem, write, length,
  ltb, ap, All, ◌≡◌, ◌≢◌, ◌⊎◌, inl, inr, refl, sym, subst, ◌∙◌, if_either, Bool-cases,
  length-append, arith,
}
use bmc_cache.Memcached.Tokens.Covered.{
  Covered, Increasing, Before, Before-le, Covered-append, Covered-last, Increasing-append,
}
use bmc_cache.Memcached.Tokens.{Token, Scan, add_token, scan_line}

pub All-append {ℓ κ} :
    {A : Type ℓ} (P : A → Type κ) (xs : List A) (x : A) → All P xs → P x → All P (xs ++ (x ∷ []))
All-append P [] x h p = (p, tt)
All-append P (y ∷ ys) x h p = (h.0, All-append P ys x h.1 p)

All-map {ℓ κ} :
    {A : Type ℓ} (P Q : A → Type κ) (xs : List A) → ((x : A) → P x → Q x) → All P xs → All Q xs
All-map P Q [] f h = tt
All-map P Q (x ∷ xs) f h = (f x h.0, All-map P Q xs f h.1)

module _ (m : Mem) (command stop : ℕ) where
  -- A word of the line between `command` and `stop`: bytes without a space, between the start of
  -- the line or a space and the end of the line or a space. In the new text a zero follows it.
  pub record IsWord (mem : Mem) (t : Token) : Type 0 where
    pub starts : command ≤ t.value
    pub ends : t.value + t.length ≤ stop
    pub not_empty : 0 < t.length
    pub no_space : (i : ℕ) → t.value ≤ i → i < t.value + t.length → m i ≢ b' '
    pub opens : (t.value ≡ command) ⊎ (m (t.value - 1) ≡ b' ')
    pub shuts : (t.value + t.length ≡ stop) ⊎ (m (t.value + t.length) ≡ b' ')
    pub closed : mem (t.value + t.length) ≡ 0

  pub record Scanned (max_tokens : ℕ) (c : Scan) : Type 0 where
    pub first : command ≤ c.s
    pub ordered : c.s ≤ c.e
    pub last : c.e ≤ stop
    pub few : length c.tokens < max_tokens
    pub ahead : (a : ℕ) → c.e ≤ a → c.mem a ≡ m a
    pub word : (i : ℕ) → c.s ≤ i → i < c.e → m i ≢ b' '
    pub cuts : (a : ℕ) → (c.mem a ≡ m a) ⊎ ((m a ≡ b' ') × (c.mem a ≡ 0))
    pub words : All (IsWord c.mem) c.tokens
    pub opened : (c.s ≡ command) ⊎ (m (c.s - 1) ≡ b' ')
    pub covers : (a : ℕ) → command ≤ a → a < c.s → m a ≢ b' ' → Covered c.tokens a
    pub before : Before c.s c.tokens
    pub increasing : Increasing command c.tokens

  -- The bytes from `s` to `e`, if they are closed.
  pub token :
      {max_tokens : ℕ} (c : Scan)
      → Scanned max_tokens c
      → (mem : Mem) → c.s ≢ c.e
      → mem c.e ≡ 0
      → (c.e ≡ stop) ⊎ (m c.e ≡ b' ')
      → IsWord mem (record { value = c.s; length = c.e - c.s })
  token c h mem ne z after =
      let o = h.ordered in
      let e : c.s + (c.e - c.s) ≡ c.e = omega arith in
      record {
        starts = h.first;
        ends = rw e h.last;
        not_empty = omega arith;
        no_space = λ i le l. h.word i le (rw e at l);
        opens = h.opened;
        shuts = rw e after;
        closed = rw e z;
      }

  -- With the token from `s` to `e` behind the others.
  module _ (max_tokens : ℕ) (c : Scan) (h : Scanned max_tokens c) where
    pub add_token-Covered : (a : ℕ) → command ≤ a → a < c.e → m a ≢ b' ' → Covered (add_token c) a
    unfolding add_token
    add_token-Covered a lo hi ns = elim (Bool-cases (ltb a c.s)) [
      | inl old ↦
          Covered-append c.tokens (record { value = c.s; length = c.e - c.s }) a
            (h.covers a lo (ground arith) ns)
      | inr new ↦
          Covered-last c.tokens (record { value = c.s; length = c.e - c.s }) a (ground arith)
            (ground arith)
    ]

    add_token-Before : (s : ℕ) → c.e < s → Before s (add_token c)
    unfolding add_token
    add_token-Before s lt =
        let o = h.ordered in
        All-append (λ (t : Token). t.value + t.length < s) c.tokens
          (record { value = c.s; length = c.e - c.s })
          (Before-le c.s s c.tokens (omega arith) h.before) (omega arith)

    pub add_token-Increasing : Increasing command (add_token c)
    unfolding add_token
    add_token-Increasing =
        Increasing-append command c.tokens (record { value = c.s; length = c.e - c.s }) h.increasing
          h.first h.before

  module _ (max_tokens : ℕ) (c : Scan) (h : Scanned max_tokens c) (lt : c.e < stop) where
    still : (t : Token) → IsWord c.mem t → IsWord (write c.mem c.e 0) t
    still t w = record {
      starts = w.starts;
      ends = w.ends;
      not_empty = w.not_empty;
      no_space = w.no_space;
      opens = w.opens;
      shuts = w.shuts;
      closed = let z = w.closed in ground arith;
    }

    after_byte : c.mem c.e ≢ b' ' → Scanned max_tokens (record c { e = c.e + 1 })
    after_byte ne = record {
      first = h.first;
      ordered = let o = h.ordered in omega arith;
      last = omega arith;
      few = h.few;
      ahead = λ a le. h.ahead a (omega arith);
      word = λ i le l.
          let q = h.ahead c.e (omega arith) in
          elim (Bool-cases (i == c.e)) [
            | inl eq ↦
                λ sp. ne (let same : i ≡ c.e = ground arith in q ∙ subst (λ z. m z ≡ b' ') same sp)
            | inr eq ↦ h.word i le (ground arith)
          ];
      cuts = h.cuts;
      words = h.words;
      opened = h.opened;
      covers = h.covers;
      before = h.before;
      increasing = h.increasing;
    }

    after_space :
        c.mem c.e ≡ b' ' → c.s ≡ c.e → Scanned max_tokens (record c { s = c.e + 1; e = c.e + 1 })
    after_space sp none_yet = record {
      first = let f = h.first in let o = h.ordered in omega arith;
      ordered = omega arith;
      last = omega arith;
      few = h.few;
      ahead = λ a le. h.ahead a (omega arith);
      word = λ i le l. absurd (omega arith);
      cuts = h.cuts;
      words = h.words;
      opened = inr (let q = h.ahead c.e (omega arith) in ground arith);
      covers = λ a lo hi ns. elim (Bool-cases (a == c.e)) [
        | inl eq ↦
            let same : a ≡ c.e = ground arith in
            let q = h.ahead c.e (omega arith) in absurd (ns (ap m same ∙ sym q ∙ sp))
        | inr eq ↦ h.covers a lo (ground arith) ns
      ];
      before = Before-le c.s (c.e + 1) c.tokens (omega arith) h.before;
      increasing = h.increasing;
    }

    after_cut :
        c.mem c.e ≡ b' '
        → c.s ≢ c.e
        → length (add_token c) < max_tokens
        → Scanned max_tokens
            (record { mem = write c.mem c.e 0; s = c.e + 1; e = c.e + 1; tokens = add_token c })
    unfolding add_token
    after_cut sp ne l = record {
      first = let f = h.first in let o = h.ordered in omega arith;
      ordered = omega arith;
      last = omega arith;
      few = l;
      ahead = λ a le. let q = h.ahead a (omega arith) in ground arith;
      word = λ i le l. absurd (omega arith);
      cuts = λ a.
          let q = h.ahead c.e (omega arith) in
          elim (Bool-cases (a == c.e)) [
            | inl eq ↦
                let same : c.e ≡ a = ground arith in
                inr (subst (λ z. m z ≡ b' ') same (sym q ∙ sp), ground arith)
            | inr eq ↦ elim (h.cuts a) [
              | inl f ↦ inl (ground arith)
              | inr f ↦ inr (f.0, ground (arith, f.1))
            ]
          ];
      words =
          All-append (IsWord (write c.mem c.e 0)) c.tokens
            (record { value = c.s; length = c.e - c.s })
            (All-map (IsWord c.mem) (IsWord (write c.mem c.e 0)) c.tokens still h.words)
            (token c h (write c.mem c.e 0) ne (ground arith)
              (inr (sym (h.ahead c.e (omega arith)) ∙ sp)));
      opened = inr (let q = h.ahead c.e (omega arith) in ground arith);
      covers = λ a lo hi ns. elim (Bool-cases (a == c.e)) [
        | inl eq ↦
            let same : a ≡ c.e = ground arith in
            let q = h.ahead c.e (omega arith) in absurd (ns (ap m same ∙ sym q ∙ sp))
        | inr eq ↦ add_token-Covered max_tokens c h a lo (ground arith) ns
      ];
      before = let o = h.ordered in add_token-Before max_tokens c h (c.e + 1) (omega arith);
      increasing = add_token-Increasing max_tokens c h;
    }

  -- What the loop leaves: it stands at the end of the line with room for one token more, or behind
  -- the last token that there is room for.
  abbrev pub Done : ℕ → Scan → Type 0
  Done max_tokens c =
      Scanned max_tokens c
      × (((c.e ≡ stop) × (length c.tokens + 1 < max_tokens))
          ⊎ ((c.s ≡ c.e) × (length c.tokens + 1 ≡ max_tokens)))

  length-add_token : (c : Scan) → length (add_token c) ≡ length c.tokens + 1
  unfolding add_token
  length-add_token c = length-append c.tokens (record { value = c.s; length = c.e - c.s } ∷ [])

  pub scan_line-Done :
      (left max_tokens : ℕ) (c : Scan)
      → Scanned max_tokens c
      → length c.tokens + 1 < max_tokens
      → c.e + left ≡ stop
      → Done max_tokens (scan_line left max_tokens c)
  unfolding scan_line
  scan_line-Done zero max_tokens c h few e = (h, inl (omega arith, few))
  scan_line-Done (suc left) max_tokens c h few e =
      let lt : c.e < stop = omega arith in
      let n = length-add_token c in
      let spaced : Scan = record c { s = c.e + 1; e = c.e + 1 } in
      let longer : Scan = record c { e = c.e + 1 } in
      let cut : Scan = record {
        mem = write c.mem c.e 0;
        s = c.e + 1;
        e = c.e + 1;
        tokens = add_token c;
      } in
      let r_cut = scan_line left max_tokens cut in
      let r_spaced = scan_line left max_tokens spaced in
      let r_longer = scan_line left max_tokens longer in
      let cuts = if length (add_token c) == max_tokens - 1 then cut else r_cut in
      if_either (Done max_tokens) (c.mem c.e == b' ') (if c.s == c.e then r_spaced else cuts)
        r_longer
        (λ sp.
          if_either (Done max_tokens) (c.s == c.e) r_spaced cuts
            (λ q.
              scan_line-Done left max_tokens spaced
                (after_space max_tokens c h lt (ground arith) (ground arith)) few (omega arith))
            (λ q.
              let h' =
                after_cut max_tokens c h lt (ground arith) (λ z. absurd (ground arith))
                  (omega arith) in
              if_either (Done max_tokens) (length (add_token c) == max_tokens - 1) cut r_cut
                (λ z. (h', inr (refl, ground arith)))
                (λ z. scan_line-Done left max_tokens cut h' (ground arith) (omega arith))))
        (λ nsp.
          scan_line-Done left max_tokens longer
            (after_byte max_tokens c h lt (λ z. absurd (ground arith))) few (omega arith))
