-- ===== src/Memcached/Util/Encoded.antt =====
-- The text that `uriencode` of memcached-sr/util.c writes.
use bmc_cache.Base.{
  ℕ, ◌+◌, ◌*◌, ◌≤◌, ◌<◌, Bool, true, false, List, [], ◌∷◌, ◌++◌, ltb, Mem, write_text,
  write_text-other, write_text-behind, write_text-Reads, Reads, Reads-join, Reads-of_agree, length,
  length-append, ◌≡◌, ◌⊎◌, inl, inr, refl, ◌∙◌, arith, Bool-cases, if_either,
}
use mathlib.Core.List.{append_assoc}
use bmc_cache.Memcached.Util.{is_plain, text_of, uriencode_map, encode_from, uriencode}

unfoldable pub encoded : List ℕ → List ℕ
encoded [] = []
encoded (x ∷ xs) = text_of x ++ encoded xs

length-text_of : (x : ℕ) → (1 ≤ length (text_of x)) × (length (text_of x) ≤ 3)
unfolding text_of uriencode_map
length-text_of x = elim (Bool-cases (is_plain x)) [
  | inl e ↦ (ground arith, ground arith)
  | inr e ↦ (ground arith, ground arith)
]

-- Room for three bytes for each byte, and for the zero, is enough.
encode_from-room :
    (xs : List ℕ) (dst : Mem) (d dstlen : ℕ)
    → d + 3 * length xs < dstlen
    → (encode_from xs dst d dstlen).1 ≡ true
unfolding encode_from
encode_from-room [] dst d dstlen h = refl
encode_from-room (x ∷ xs) dst d dstlen h =
    let (l, u) = length-text_of x in
    let t = text_of x in
    let ih = encode_from-room xs (write_text dst d t) (d + length t) dstlen (omega arith) in
    ground arith

-- The outcome: bytes in front of `d` and behind the buffer stay, and if there was room, the text and
-- a zero stand at `d`, within the buffer unless nothing was to be encoded.
record Written (text : List ℕ) (dst : Mem) (d dstlen : ℕ) (r : Mem × Bool) : Type 0 where
  before : (a : ℕ) → a < d → r.0 a ≡ dst a
  behind : (a : ℕ) → dstlen ≤ a → d < dstlen → r.0 a ≡ dst a
  reads : r.1 ≡ true → Reads r.0 d (text ++ (0 ∷ []))
  room : r.1 ≡ true → d < dstlen → d + length text < dstlen

encode_from-Written :
    (xs : List ℕ) (dst : Mem) (d dstlen : ℕ)
    → Written (encoded xs) dst d dstlen (encode_from xs dst d dstlen)
unfolding encode_from encoded
encode_from-Written [] dst d dstlen = record {
  before = λ a lt. ground arith;
  behind = λ a le lt. ground arith;
  reads = λ h. (ground arith, tt);
  room = λ h lt. omega arith;
}
encode_from-Written (x ∷ xs) dst d dstlen =
    let (l, u) = length-text_of x in
    let t = text_of x in
    let m = write_text dst d t in
    let r = encode_from xs m (d + length t) dstlen in
    let ih = encode_from-Written xs m (d + length t) dstlen in
    if_either (Written (t ++ encoded xs) dst d dstlen) (ltb dstlen (d + 4)) (dst, false) r
      (λ e. record {
        before = λ a lt. refl;
        behind = λ a le lt. refl;
        reads = λ h. absurd (ground arith);
        room = λ h. absurd (ground arith);
      })
      (λ e.
        let far : d + 4 ≤ dstlen = ground arith in
        record {
          before = λ a lt. ih.before a (omega arith) ∙ write_text-other dst d a t lt;
          behind =
              λ a le lt. ih.behind a le (omega arith) ∙ write_text-behind dst d a t (omega arith);
          reads = λ h.
              let here =
                Reads-of_agree m r.0 t d d (write_text-Reads dst d t)
                  (λ j lt. ih.before (d + j) (omega arith)) in
              rw (append_assoc t (encoded xs) (0 ∷ []))
                (Reads-join r.0 d t (encoded xs ++ (0 ∷ [])) here (ih.reads h));
          room = λ h lt.
              let le = length-append t (encoded xs) in
              let u = ih.room h (omega arith) in omega arith;
        })

-- With three bytes of room for each byte of the key, and one for the zero, the encoding succeeds,
-- the buffer has the text of every byte in order and a zero behind it, and no byte behind the buffer
-- changes.
pub uriencode-Reads :
    (src : List ℕ) (dst : Mem) (dstlen : ℕ)
    → 3 * length src < dstlen
    → ((uriencode src dst dstlen).1 ≡ true)
      × Reads (uriencode src dst dstlen).0 0 (encoded src ++ (0 ∷ []))
      × ((a : ℕ) → dstlen ≤ a → (uriencode src dst dstlen).0 a ≡ dst a)
unfolding uriencode
uriencode-Reads src dst dstlen h =
    let ok = encode_from-room src dst 0 dstlen (omega arith) in
    let w = encode_from-Written src dst 0 dstlen in
    (ok, w.reads ok, λ a le. w.behind a le (omega arith))

-- In a buffer that is not empty, whatever its size, the encoding changes no byte behind the buffer,
-- and if it succeeds, its text and the zero behind it fit the buffer.
pub uriencode-bounds :
    (src : List ℕ) (dst : Mem) (dstlen : ℕ)
    → 0 < dstlen
    → ((a : ℕ) → dstlen ≤ a → (uriencode src dst dstlen).0 a ≡ dst a)
      × (((uriencode src dst dstlen).1 ≡ false)
          ⊎ (Reads (uriencode src dst dstlen).0 0 (encoded src ++ (0 ∷ []))
              × (length (encoded src) < dstlen)))
unfolding uriencode
uriencode-bounds src dst dstlen h =
    let w = encode_from-Written src dst 0 dstlen in
    (
      λ a le. w.behind a le h,
      elim (Bool-cases (encode_from src dst 0 dstlen).1) [
        | inl ok ↦ let r = w.room ok h in inr (w.reads ok, omega arith)
        | inr failed ↦ inl failed
      ],
    )
