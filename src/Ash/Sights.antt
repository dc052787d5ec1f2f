-- ===== src/Ash/Sights.antt =====
-- The tests of `parseArithExpr` (applets/ash/ash.go) tell no digit from another.
use go_busybox.Prelude.{ℕ, ◌<◌, refl, ◌⊎◌, inl, inr, [], ◌∷◌, arith, All}
use go_busybox.Go.Strings.{has_prefix}
use go_busybox.Ash.Arith.{symbol}
use go_busybox.Ash.Blind.{Blind}
use go_busybox.Ash.Levels.{
  word_test, bit_test, xor_test, angle_test, shift_test, sum_test, product_test, power_test, levels,
}

-- A byte that no digit is.
abbrev IsMark : ℕ → Type 0
IsMark w = (w < b'0') ⊎ (b'9' < w)

word_test-Blind : (v w : ℕ) → IsMark v → IsMark w → Blind (word_test (v ∷ w ∷ []))
unfolding word_test
word_test-Blind v w hv hw = record {
  silent = λ prev c s h. ground arith;
  behind = λ c s h. ground arith;
  ahead = λ prev x c h. ground arith;
  near = λ prev x y s. ground arith;
}

bit_test-Blind : (w : ℕ) → IsMark w → Blind (bit_test w)
unfolding bit_test
bit_test-Blind w hw = record {
  silent = λ prev c s h. ground arith;
  behind = λ c s h. ground arith;
  ahead = λ prev x c h. refl;
  near = λ prev x y s. refl;
}

xor_test-Blind : Blind xor_test
unfolding xor_test
xor_test-Blind = record {
  silent = λ prev c s h. ground arith;
  behind = λ c s h. refl;
  ahead = λ prev x c h. refl;
  near = λ prev x y s. refl;
}

angle_test-Blind : (w : ℕ) → IsMark w → Blind (angle_test w)
unfolding angle_test
angle_test-Blind w hw = record {
  silent = λ prev c s h. ground arith;
  behind = λ c s h. ground arith;
  ahead = λ prev x c h. ground arith;
  near = λ prev x y s. ground arith;
}

shift_test-Blind : Blind shift_test
unfolding shift_test has_prefix
shift_test-Blind = record {
  silent = λ prev c s h. ground arith;
  behind = λ c s h. refl;
  ahead = λ prev x c h. ground arith;
  near = λ prev x y s. ground arith;
}

sum_test-Blind : Blind sum_test
unfolding sum_test
sum_test-Blind = record {
  silent = λ prev c s h. ground arith;
  behind = λ c s h. ground arith;
  ahead = λ prev x c h. refl;
  near = λ prev x y s. refl;
}

product_test-Blind : Blind product_test
unfolding product_test
product_test-Blind = record {
  silent = λ prev c s h. ground arith;
  behind = λ c s h. ground arith;
  ahead = λ prev x c h. ground arith;
  near = λ prev x y s. ground arith;
}

power_test-Blind : Blind power_test
unfolding power_test has_prefix
power_test-Blind = record {
  silent = λ prev c s h. ground arith;
  behind = λ c s h. refl;
  ahead = λ prev x c h. ground arith;
  near = λ prev x y s. ground arith;
}

pub levels-Blind : All (λ v. Blind v.test) levels
unfolding levels symbol
levels-Blind = (
  word_test-Blind b'|' b'|' (inr (omega arith)) (inr (omega arith)),
  (
    word_test-Blind b'&' b'&' (inl (omega arith)) (inl (omega arith)),
    (
      bit_test-Blind b'|' (inr (omega arith)),
      (
        xor_test-Blind,
        (
          bit_test-Blind b'&' (inl (omega arith)),
          (
            word_test-Blind b'=' b'=' (inr (omega arith)) (inr (omega arith)),
            (
              word_test-Blind b'!' b'=' (inl (omega arith)) (inr (omega arith)),
              (
                word_test-Blind b'<' b'=' (inr (omega arith)) (inr (omega arith)),
                (
                  word_test-Blind b'>' b'=' (inr (omega arith)) (inr (omega arith)),
                  (
                    angle_test-Blind b'<' (inr (omega arith)),
                    (
                      angle_test-Blind b'>' (inr (omega arith)),
                      (
                        shift_test-Blind,
                        (sum_test-Blind, (product_test-Blind, (power_test-Blind, tt))),
                      ),
                    ),
                  ),
                ),
              ),
            ),
          ),
        ),
      ),
    ),
  ),
)
