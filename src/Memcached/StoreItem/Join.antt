-- ===== src/Memcached/StoreItem/Join.antt =====
-- The value that APPEND and PREPEND of memcached-sr/memcached.c make of two.
use bmc_cache.Base.{
  ℕ, ◌+◌, ◌-◌, ◌<◌, Bool, true, false, List, [], ◌∷◌, ◌++◌, if◌then◌else◌, Mem, copy_range, Reads,
  Reads-join, Reads-append, Reads-of_agree, Reads-at, length, length-append, ◌≡◌, ap, arith,
}
use mathlib.Core.List.{append_assoc}
use bmc_cache.Memcached.Types.{StrItem}
use bmc_cache.Memcached.StoreItem.{store_item_copy_data}

abbrev pub crlf : List ℕ
crlf = b'\r' ∷ b'\n' ∷ []

-- The item's value is the text, with "\r\n" behind it.
pub record HasValue (it : StrItem) (xs : List ℕ) : Type 0 where
  pub bytes : Reads it.data_ 0 (xs ++ crlf)
  pub counted : it.nbytes ≡ length xs + 2

module _ (d first second : Mem) (n1 n2 : ℕ) where
  abbrev joined : Mem
  joined = copy_range (copy_range d 0 first 0 n1) (n1 - 2) second 0 n2

  joined-first : (j : ℕ) → j < n1 - 2 → joined (0 + j) ≡ first (0 + j)
  joined-first j lt = let e : 0 + (0 + j - 0) ≡ 0 + j = omega arith in ground (arith, ap first e)

  joined-second : (j : ℕ) → j < n2 → joined (n1 - 2 + j) ≡ second (0 + j)
  joined-second j lt =
      let e : 0 + (n1 - 2 + j - (n1 - 2)) ≡ 0 + j = omega arith in ground (arith, ap second e)

  joined-Reads :
      (xs ys : List ℕ)
      → n1 ≡ length xs + 2
      → n2 ≡ length ys + 2
      → Reads first 0 (xs ++ crlf)
      → Reads second 0 (ys ++ crlf)
      → Reads joined 0 (xs ++ (ys ++ crlf))
  joined-Reads xs ys e1 e2 r1 r2 =
      let (rx, rc) = Reads-append first 0 xs crlf r1 in
      let l = length-append ys crlf in
      let behind =
        Reads-of_agree second joined (ys ++ crlf) 0 (n1 - 2) r2
          (λ j lt. joined-second j (omega arith)) in
      Reads-join joined 0 xs (ys ++ crlf)
        (Reads-of_agree first joined xs 0 0 rx (λ j lt. joined-first j (omega arith)))
        (Reads-at joined (ys ++ crlf) {b = 0 + length xs} (omega arith) behind)

-- APPEND puts the given text behind the old one, PREPEND in front of it, with one "\r\n" at the end.
pub store_item_copy_data-HasValue :
    (appends : Bool) (old_it new_it add_it : StrItem) (old_text new_text : List ℕ)
    → HasValue old_it old_text
    → HasValue add_it new_text
    → new_it.nbytes ≡ add_it.nbytes + old_it.nbytes - 2
    → HasValue
        (store_item_copy_data appends old_it new_it add_it)
        (if appends then old_text ++ new_text else new_text ++ old_text)
unfolding store_item_copy_data
store_item_copy_data-HasValue true old_it new_it add_it xs ys h g n =
    let r =
      joined-Reads new_it.data_ old_it.data_ add_it.data_ old_it.nbytes add_it.nbytes xs ys
        h.counted g.counted h.bytes g.bytes in
    record {
      bytes = rw (append_assoc xs ys crlf) r;
      counted =
          let a = h.counted in let b = g.counted in let l = length-append xs ys in omega arith;
    }
store_item_copy_data-HasValue false old_it new_it add_it xs ys h g n =
    let r =
      joined-Reads new_it.data_ add_it.data_ old_it.data_ add_it.nbytes old_it.nbytes ys xs
        g.counted h.counted g.bytes h.bytes in
    record {
      bytes = rw (append_assoc ys xs crlf) r;
      counted =
          let a = h.counted in let b = g.counted in let l = length-append ys xs in omega arith;
    }
