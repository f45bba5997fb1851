-- ===== src/Memcached/StoreItem/Delta.antt =====
-- The value that `do_add_delta` of memcached-sr/memcached.c leaves in place.
use bmc_cache.Base.{
  ℕ, zero, suc, ◌+◌, ◌-◌, ◌≤◌, ◌<◌, List, [], ◌∷◌, ◌++◌, Mem, write_text, write_text-behind,
  write_text-Reads, Reads-join, Reads, Reads-at, Reads-append, Reads-of_agree, length-append, subst,
  length, ◌≡◌, sym, ap, ◌∙◌, refl, arith,
}
use bmc_cache.Memcached.Types.{Cache, set_item}
use bmc_cache.Memcached.Items.{give_cas, get_cas_id}
use bmc_cache.Memcached.Items.Kept.{do_item_update-Kept}
use bmc_cache.Memcached.StoreItem.Join.{crlf, HasValue}
use bmc_cache.Memcached.StoreItem.{fill_range, delta_in_place}

pub spaces : ℕ → List ℕ
spaces zero = []
spaces (suc n) = b' ' ∷ spaces n

length-spaces : (n : ℕ) → length (spaces n) ≡ n
unfolding spaces
length-spaces zero = refl
length-spaces (suc n) = ap suc (length-spaces n)

Reads-spaces :
    (m : Mem) (a n : ℕ) → ((j : ℕ) → a ≤ j → j < a + n → m j ≡ b' ') → Reads m a (spaces n)
unfolding spaces
Reads-spaces m a zero h = tt
Reads-spaces m a (suc n) h = (
  h a (omega arith) (omega arith),
  Reads-spaces m (a + 1) n (λ j l u. h j (omega arith) (omega arith)),
)

-- The digits, spaces, and what was behind them.
module _ (d : Mem) (digits old : List ℕ) (le : length digits ≤ length old) where
  abbrev n : ℕ
  n = length digits

  abbrev k : ℕ
  k = length old - length digits

  abbrev placed : Mem
  placed = fill_range (write_text d 0 digits) n k b' '

  placed-Reads : Reads d 0 (old ++ crlf) → Reads placed 0 ((digits ++ spaces k) ++ crlf)
  placed-Reads r =
      let (ro, rc) = Reads-append d 0 old crlf r in
      let front =
        Reads-of_agree (write_text d 0 digits) placed digits 0 0 (write_text-Reads d 0 digits)
          (λ j lt. ground arith) in
      let middle = Reads-spaces placed n k (λ j l u. ground arith) in
      let behind = Reads-of_agree d placed crlf (0 + length old) (length old) rc (λ j lt.
        let b = write_text-behind d 0 (length old + j) digits (omega arith) in ground arith) in
      let l = length-append digits (spaces k) in
      let ls = length-spaces k in
      Reads-join placed 0 (digits ++ spaces k) crlf
        (Reads-join placed 0 digits (spaces k) front
          (Reads-at placed (spaces k) {b = 0 + n} (omega arith) middle))
        (Reads-at placed crlf {b = 0 + length (digits ++ spaces k)} (omega arith) behind)

module _ (c : Cache) (it : ℕ) where
  give_cas-value :
      (((give_cas c it).items it).data_ ≡ (c.items it).data_)
      × (((give_cas c it).items it).nbytes ≡ (c.items it).nbytes)
  unfolding give_cas get_cas_id
  give_cas-value = (ground arith, ground arith)

  -- In place of a value that is at least as long, the digits stand with spaces behind them up to the
  -- old length.
  pub delta_in_place-HasValue :
      (digits old : List ℕ)
      → HasValue (c.items it) old
      → length digits ≤ length old
      → HasValue
          ((delta_in_place c it digits).items it)
          (digits ++ spaces (length old - length digits))
  unfolding delta_in_place
  delta_in_place-HasValue digits old h le =
      let (gd, gn) = give_cas-value in
      let c1 = give_cas c it in
      let i = c1.items it in
      let n = length digits in
      let new_data = fill_range (write_text i.data_ 0 digits) n (i.nbytes - n - 2) b' ' in
      let c2 = set_item c1 it (record i { data_ = new_data }) in
      let kept = do_item_update-Kept c2 it in
      let e : (c2.items it).data_ ≡ new_data = ground arith in
      let e' : (c2.items it).nbytes ≡ i.nbytes = ground arith in
      let counted = h.counted in
      let l = length-append digits (spaces (length old - n)) in
      let ls = length-spaces (length old - n) in
      let size : i.nbytes - n - 2 ≡ length old - n = omega arith in
      record {
        bytes =
            subst (λ m. Reads m 0 ((digits ++ spaces (length old - n)) ++ crlf))
              (ap (λ m. fill_range (write_text m 0 digits) n (length old - n) b' ') (sym gd)
                ∙ ap (λ z. fill_range (write_text i.data_ 0 digits) n z b' ') (sym size)
                ∙ sym e
                ∙ sym (kept.data_ it))
              (placed-Reads (c.items it).data_ digits old le h.bytes);
        counted = omega (arith, kept.nbytes it, e', gn);
      }
