-- ===== src/Memcached/Util.antt =====
-- The encoding of keys for the log, of memcached-sr/util.c.
pub mod Encoded
pub mod Injective
pub mod Numbers
use bmc_cache.Base.{
  ℕ, ◌+◌, ◌-◌, ◌/◌, ◌%◌, Bool, true, false, ◌||◌, ◌&&◌, Option, none, some, List, [], ◌∷◌, ltb, leb,
  ◌==◌, if◌then◌else◌, Mem, write, write_text, length,
}

-- isalnum, in the C locale
abbrev pub isalnum : ℕ → Bool
isalnum c = leb b'0' c && leb c b'9' || (leb b'A' c && leb c b'Z') || (leb b'a' c && leb c b'z')

-- A digit of "%02hhX".
abbrev pub hex_digit : ℕ → ℕ
hex_digit d = if ltb d 10 then b'0' + d else b'A' + d - 10

abbrev pub is_plain : ℕ → Bool
is_plain x = isalnum x || x == b'-' || x == b'.' || x == b'_' || x == b'~'

-- The table that `uriencode_init` fills; `none` is NULL.
unfoldable pub uriencode_map : ℕ → Option (List ℕ)
uriencode_map x =
    if is_plain x then none else some (b'%' ∷ hex_digit (x / 16) ∷ hex_digit (x % 16) ∷ [])

-- What stands for a byte.
unfoldable pub text_of : ℕ → List ℕ
text_of x = elim (uriencode_map x) [ none ↦ x ∷ [] | some text ↦ text ]

-- The loop, over the bytes of `src` that are left.
unfoldable pub encode_from : List ℕ → Mem → ℕ → ℕ → Mem × Bool
encode_from [] dst d dstlen = (write dst d 0, true)
encode_from (x ∷ xs) dst d dstlen =
    let rest = encode_from xs (write_text dst d (text_of x)) (d + length (text_of x)) dstlen in
    if ltb dstlen (d + 4) then (dst, false) else rest

unfoldable pub uriencode : List ℕ → Mem → ℕ → Mem × Bool
uriencode src dst dstlen = encode_from src dst 0 dstlen
