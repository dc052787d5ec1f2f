-- ===== src/TextUtil/Sets/Complement.antt =====
-- What `ComplementSet` holds.
use go_busybox.Prelude.{ℕ, zero, suc, ◌+◌, ◌≡◌, ap, Bool, not, ◌&&◌, arith, ltb, leb}
use go_busybox.TextUtil.Chars.Distinct.{elem}
use go_busybox.TextUtil.Sets.{complement_from, complement_set}

elem-complement_from :
    (n i x : ℕ) (inside : ℕ → Bool)
    → elem x (complement_from n i inside) ≡ (leb i x && ltb x (i + n) && not (inside x))
unfolding complement_from
elem-complement_from zero i x inside = ground arith
elem-complement_from (suc n) i x inside =
    ground (arith, elem-complement_from n (i + 1) x inside, λ (e : x ≡ i). ap inside e)

-- The complement of a set holds a number exactly if it is a byte outside the set.
pub elem-complement_set :
    (x : ℕ) (inside : ℕ → Bool) → elem x (complement_set inside) ≡ (ltb x 256 && not (inside x))
unfolding complement_set
elem-complement_set x inside = ground (arith, elem-complement_from 256 0 x inside)
