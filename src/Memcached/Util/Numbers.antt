-- ===== src/Memcached/Util/Numbers.antt =====
-- The conversions of memcached-sr/util.c over those of the C library, which are parameters: for a
-- text they give the value, the place where the number ends, and whether it was out of range.
use bmc_cache.Base.{
  ℕ, zero, suc, ℤ, pos, negsuc, ◌-◌, ◌^◌, Bool, true, false, not, ◌&&◌, ◌||◌, List, [], ◌∷◌, ltb,
  leb, ◌==◌, if◌then◌else◌, u32,
}

-- isspace, in the C locale
abbrev pub xisspace : ℕ → Bool
xisspace c = c == b' ' || (leb 9 c && leb c 13)

-- The byte at a place of a text that ends with a zero.
unfoldable pub byte_at : List ℕ → ℕ → ℕ
byte_at [] n = 0
byte_at (x ∷ xs) zero = x
byte_at (x ∷ xs) (suc n) = byte_at xs n

-- `strchr(str, '-') != NULL`
unfoldable pub has_minus : List ℕ → Bool
has_minus [] = false
has_minus (x ∷ xs) = x == b'-' || has_minus xs

-- Whether the number ends with the text or at a space.
abbrev pub ends_well : List ℕ → ℕ → Bool
ends_well str endptr =
    xisspace (byte_at str endptr) || (byte_at str endptr == 0 && not (endptr == 0))

-- A value of 64 bits, with a sign only where it is small. The results are whether it is one, and `*out`.
unfoldable pub unsigned_checked : List ℕ → ℕ × ℕ × Bool → Bool × ℕ
unsigned_checked str (v, endptr, erange) =
    if erange || endptr == 0
    then (false, 0)
    else if ends_well str endptr
    then (if leb (2 ^ 63) v && has_minus str then (false, 0) else (true, v))
    else (false, 0)

-- `*out` is what `convert` makes of the value.
unfoldable pub signed_checked : (ℤ → ℤ) → List ℕ → ℤ × ℕ × Bool → Bool × ℤ
signed_checked convert str (v, endptr, erange) =
    if erange || endptr == 0
    then (false, pos 0)
    else if ends_well str endptr
    then (true, convert v)
    else (false, pos 0)

unfoldable pub safe_strtoull : (List ℕ → ℕ × ℕ × Bool) → List ℕ → Bool × ℕ
safe_strtoull strtoull str = unsigned_checked str (strtoull str)

-- With the conversion in base 16.
unfoldable pub safe_strtoull_hex : (List ℕ → ℕ × ℕ × Bool) → List ℕ → Bool × ℕ
safe_strtoull_hex strtoull str = unsigned_checked str (strtoull str)

unfoldable pub safe_strtoll : (List ℕ → ℤ × ℕ × Bool) → List ℕ → Bool × ℤ
safe_strtoll strtoll str = signed_checked (λ v. v) str (strtoll str)

-- The value of 64 bits is cut to 32.
unfoldable pub safe_strtoul : (List ℕ → ℕ × ℕ × Bool) → List ℕ → Bool × ℕ
safe_strtoul strtoul str = let (b, v) = unsigned_checked str (strtoul str) in (b, u32 v)

-- The 32 bits of a number, as a signed one.
unfoldable pub int32 : ℤ → ℤ
int32 (pos n) = if ltb (u32 n) (2 ^ 31) then pos (u32 n) else negsuc (2 ^ 32 - 1 - u32 n)
int32 (negsuc n) = if ltb (u32 n) (2 ^ 31) then negsuc (u32 n) else pos (2 ^ 32 - 1 - u32 n)

unfoldable pub safe_strtol : (List ℕ → ℤ × ℕ × Bool) → List ℕ → Bool × ℤ
safe_strtol strtol str = signed_checked int32 str (strtol str)

-- The loop, over the bytes of `src` and the room that is left. The result has the copy and whether
-- it is whole.
unfoldable pub safe_strcpy : List ℕ → ℕ → List ℕ × Bool
safe_strcpy [] room = ([], true)
safe_strcpy (x ∷ xs) zero = ([], x == 0)
safe_strcpy (x ∷ xs) (suc room) =
    let (rest, whole) = safe_strcpy xs room in if x == 0 then ([], true) else (x ∷ rest, whole)
