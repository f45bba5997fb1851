-- ===== src/Memcached/Util/Injective.antt =====
-- The texts that `uriencode` of memcached-sr/util.c writes for two keys differ.
use bmc_cache.Base.{
  ℕ, ◌/◌, ◌%◌, ◌<◌, true, false, List, [], ◌∷◌, ◌++◌, All, ◌≡◌, ◌≢◌, inl, inr, refl, sym, ap, ◌∙◌,
  arith, Bool-cases,
}
use bmc_cache.Memcached.Util.{is_plain, hex_digit, text_of, uriencode_map}
use bmc_cache.Memcached.Util.Encoded.{encoded}

text_of-plain : (x : ℕ) → is_plain x ≡ true → text_of x ≡ x ∷ []
unfolding text_of uriencode_map
text_of-plain x e = ground arith

text_of-other :
    (x : ℕ) → is_plain x ≡ false → text_of x ≡ b'%' ∷ hex_digit (x / 16) ∷ hex_digit (x % 16) ∷ []
unfolding text_of uriencode_map
text_of-other x e = ground arith

hex_digit-injective : (d e : ℕ) → d < 16 → e < 16 → hex_digit d ≡ hex_digit e → d ≡ e
hex_digit-injective d e l m h = ground arith

-- No text begins another one.
text_of-prefix :
    (x y : ℕ) (r s : List ℕ)
    → x < 256
    → y < 256
    → text_of x ++ r ≡ text_of y ++ s
    → (x ≡ y) × (r ≡ s)
text_of-prefix x y r s l m h = elim (Bool-cases (is_plain x)) [
  | inl p ↦ elim (Bool-cases (is_plain y)) [
    | inl q ↦
        let e : x ∷ r ≡ y ∷ s =
          sym (ap (λ z. z ++ r) (text_of-plain x p)) ∙ h ∙ ap (λ z. z ++ s) (text_of-plain y q) in
        (cc, cc)
    | inr q ↦
        let e : x ∷ r ≡ b'%' ∷ hex_digit (y / 16) ∷ hex_digit (y % 16) ∷ s =
          sym (ap (λ z. z ++ r) (text_of-plain x p)) ∙ h ∙ ap (λ z. z ++ s) (text_of-other y q) in
        let first : x ≡ b'%' = cc in absurd (ground arith)
  ]
  | inr p ↦ elim (Bool-cases (is_plain y)) [
    | inl q ↦
        let e : b'%' ∷ hex_digit (x / 16) ∷ hex_digit (x % 16) ∷ r ≡ y ∷ s =
          sym (ap (λ z. z ++ r) (text_of-other x p)) ∙ h ∙ ap (λ z. z ++ s) (text_of-plain y q) in
        let first : y ≡ b'%' = cc in absurd (ground arith)
    | inr q ↦
        let e : b'%' ∷ hex_digit (x / 16) ∷ hex_digit (x % 16) ∷ r
            ≡ b'%' ∷ hex_digit (y / 16) ∷ hex_digit (y % 16) ∷ s =
          sym (ap (λ z. z ++ r) (text_of-other x p)) ∙ h ∙ ap (λ z. z ++ s) (text_of-other y q) in
        let high : hex_digit (x / 16) ≡ hex_digit (y / 16) = cc in
        let low : hex_digit (x % 16) ≡ hex_digit (y % 16) = cc in
        let a = hex_digit-injective (x / 16) (y / 16) (omega arith) (omega arith) high in
        let b = hex_digit-injective (x % 16) (y % 16) (omega arith) (omega arith) low in
        (omega arith, cc)
  ]
]

text_of-cons : (x : ℕ) (r : List ℕ) → [] ≢ text_of x ++ r
text_of-cons x r h = elim (Bool-cases (is_plain x)) [
  | inl p ↦ let e : [] ≡ x ∷ r = h ∙ ap (λ z. z ++ r) (text_of-plain x p) in absurd cc
  | inr p ↦
      let e : [] ≡ b'%' ∷ hex_digit (x / 16) ∷ hex_digit (x % 16) ∷ r =
        h ∙ ap (λ z. z ++ r) (text_of-other x p) in
      absurd cc
]

encoded-injective :
    (xs ys : List ℕ)
    → All (λ x. x < 256) xs
    → All (λ x. x < 256) ys
    → encoded xs ≡ encoded ys
    → xs ≡ ys
unfolding encoded
encoded-injective [] [] p q h = refl
encoded-injective [] (y ∷ ys) p q h = absurd (text_of-cons y (encoded ys) h)
encoded-injective (x ∷ xs) [] p q h = absurd (text_of-cons x (encoded xs) (sym h))
encoded-injective (x ∷ xs) (y ∷ ys) p q h =
    let (e, f) = text_of-prefix x y (encoded xs) (encoded ys) p.0 q.0 h in
    let ih = encoded-injective xs ys p.1 q.1 f in cc

-- Two different keys of bytes have different encodings.
pub encoded_distinct :
    (xs ys : List ℕ)
    → All (λ x. x < 256) xs
    → All (λ x. x < 256) ys
    → xs ≢ ys
    → encoded xs ≢ encoded ys
encoded_distinct xs ys p q ne h = ne (encoded-injective xs ys p q h)
