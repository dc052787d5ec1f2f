-- ===== src/Applets/Sort/Order.antt =====
-- The order of strings.
use go_busybox.Prelude.{◌≡◌, refl, true, false, [], ◌∷◌, arith, Bytes}
use go_busybox.Applets.Sort.{str_lt}

pub str_lt_irrefl : (s : Bytes) → str_lt s s ≡ false
unfolding str_lt
str_lt_irrefl [] = refl
str_lt_irrefl (c ∷ s) = ground (arith, str_lt_irrefl s)

pub str_lt_asym : (s t : Bytes) → str_lt s t ≡ true → str_lt t s ≡ false
unfolding str_lt
str_lt_asym s [] h = cc
str_lt_asym [] (d ∷ t) h = refl
str_lt_asym (c ∷ s) (d ∷ t) h = ground (arith, str_lt_asym s t)
