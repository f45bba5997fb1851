-- ===== src/Memcached/Tokens.antt =====
-- memcached-sr/memcached.c: `tokenize_command`, which cuts a command line at its spaces.
pub mod Covered
pub mod Words
pub mod Split
use bmc_cache.Base.{
  ℕ, zero, suc, ◌+◌, ◌-◌, Option, none, some, List, [], ◌∷◌, ◌++◌, ◌==◌, if◌then◌else◌, Mem, write,
  length,
}

-- token_t: the address and the length of a token.
pub record Token : Type 0 where
  pub value : ℕ
  pub length : ℕ

-- The variables of the loop: the text, `s`, `e` and the tokens before the terminal one.
pub record Scan : Type 0 where
  pub mem : Mem
  pub s : ℕ
  pub e : ℕ
  pub tokens : List Token

-- A token from `s` to `e`.
unfoldable pub add_token : Scan → List Token
add_token c = c.tokens ++ (record { value = c.s; length = c.e - c.s } ∷ [])

-- The loop; its first argument is `len - i`.
unfoldable pub scan_line : ℕ → ℕ → Scan → Scan
scan_line zero max_tokens c = c
scan_line (suc left) max_tokens c =
    let cut : Scan = record {
      mem = write c.mem c.e 0;
      s = c.e + 1;
      e = c.e + 1;
      tokens = add_token c;
    } in
    let after_cut = scan_line left max_tokens cut in
    let after_space = scan_line left max_tokens (record c { s = c.e + 1; e = c.e + 1 }) in
    let after_byte = scan_line left max_tokens (record c { e = c.e + 1 }) in
    if c.mem c.e == b' '
    then (if c.s == c.e
        then after_space
        else if length (add_token c) == max_tokens - 1
        then cut
        else after_cut)
    else after_byte

-- The results are the text with its cuts, the tokens before the terminal one, and the value of
-- that one, where `none` is NULL.
unfoldable pub tokenize_command : Mem → ℕ → ℕ → ℕ → Mem × List Token × Option ℕ
tokenize_command m command len max_tokens =
    let c = scan_line len max_tokens (record { mem = m; s = command; e = command; tokens = [] }) in
    (c.mem, if c.s == c.e then c.tokens else add_token c, if c.mem c.e == 0 then none else some c.e)
