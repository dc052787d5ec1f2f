-- ===== src/Ash/Bounds.antt =====
-- The operations and numbers of the shell's arithmetic (applets/ash/ash.go) stay in an int64.
use go_busybox.Prelude.{
  ℕ, zero, suc, ◌*◌, ◌/◌, ◌%◌, ◌^◌, ◌≤◌, ◌<◌, ◌≡◌, refl, inl, inr, Bool, true, false, not, ◌&&◌,
  ◌||◌, Option, none, some, List, [], ◌∷◌, arith, Bytes, ltb, leb, ◌==◌, Bool-cases, Option-cases,
}
use native.Mathlib.Nat.{pow-suc, mod-lt, div-le_self}
use go_busybox.Go.Int.{ℤ, pos, negsuc}
use go_busybox.Go.Int64.{
  modulus, half, is_negative, magnitude, with_sign, shift_down, add, mul, sub, quotient, remainder,
  less, shift_left, shift_right, and_bits, or_bits, xor_bits,
}
use go_busybox.Go.Int64.Parse.{parse_int}
use go_busybox.Go.Utf8.{runes}
use go_busybox.Go.Strings.{split_2}
use go_busybox.Ash.Arith.{
  ArithError, Outcome, value, panic, out_of_fuel, and_then, BinOp, apply, truth, divided, shifted,
  powered, pow_loop, pow_int, base_digits, based, base_parts, base_number, parse_base_number,
  digit_value,
}
use go_busybox.Ash.Eval.{number, number_or}

-- It ends, and what it returns is a word.
abbrev pub IsSound : Outcome → Type 0
IsSound (value v e) = v < modulus
IsSound panic = Unit
IsSound out_of_fuel = ⊥

pub and_then-IsSound :
    (o : Outcome) (k : ℕ → Option ArithError → Outcome)
    → IsSound o
    → ((v : ℕ) (e : Option ArithError) → v < modulus → IsSound (k v e))
    → IsSound (and_then o k)
unfolding and_then
and_then-IsSound (value v e) k h hk = hk v e h
and_then-IsSound panic k h hk = tt
and_then-IsSound out_of_fuel k h hk = elim h [ ]

-- A loop of `powInt` with enough rounds gives a word.
pow_loop-word :
    (k base exp result : ℕ)
    → exp < 2 ^ k
    → result < modulus
    → (v : ℕ) × (pow_loop (suc k) base exp result ≡ some v) × (v < modulus)
unfolding pow_loop mul
pow_loop-word zero base exp result h r = (result, ground arith, r)
pow_loop-word (suc k) base exp result h r = elim (Bool-cases (exp == 0)) [
  | inl e ↦ (result, rw e refl, r)
  | inr e ↦ rw e (
      pow_loop-word k (base * base % modulus) (exp / 2) _ (omega (arith, pow-suc 2 k))
        (ground arith))
]

pow_int-word : (base exp : ℕ) → (v : ℕ) × (pow_int base exp ≡ some v) × (v < modulus)
unfolding pow_int
pow_int-word base exp = elim (Bool-cases (is_negative exp)) [
  | inl e ↦ (0, rw e refl, omega arith)
  | inr e ↦ rw e (pow_loop-word 63 base exp 1 (ground arith) (omega arith))
]

powered-IsSound :
    (o : Option ℕ) (e : Option ArithError)
    → (v : ℕ) × (o ≡ some v) × (v < modulus)
    → IsSound (powered o e)
unfolding powered
powered-IsSound o e (v, p, h) = rw p h

divided-IsSound :
    (f : ℕ → ℕ → ℕ) (a b : ℕ) (e : Option ArithError)
    → (0 < b → f a b < modulus)
    → IsSound (divided f a b e)
unfolding divided
divided-IsSound f a b e h = elim (Bool-cases (b == 0)) [
  | inl p ↦ rw p (omega arith)
  | inr p ↦ rw p (h (ground arith))
]

shifted-IsSound :
    (f : ℕ → ℕ → ℕ) (a b : ℕ) (e : Option ArithError) → f a b < modulus → IsSound (shifted f a b e)
unfolding shifted
shifted-IsSound f a b e h = elim (Bool-cases (is_negative b)) [ inl p ↦ rw p tt | inr p ↦ rw p h ]

pub truth-word : (b : Bool) → truth b < modulus
truth-word true = omega arith
truth-word false = omega arith

with_sign-word : (n : Bool) (r : ℕ) → r < modulus → with_sign n r < modulus
unfolding with_sign
with_sign-word true r h = omega arith
with_sign-word false r h = h

remainder-word : (a b : ℕ) → b < modulus → 0 < b → remainder a b < modulus
unfolding remainder
remainder-word a b h p =
    let m : (0 < magnitude b) × (magnitude b ≤ half) = ground arith in
    with_sign-word (is_negative a) (magnitude a % magnitude b)
      (omega (arith, m, mod-lt (magnitude a) m.0))

shift_left-word : (a n : ℕ) → shift_left a n < modulus
unfolding shift_left
shift_left-word a n = ground arith

shift_down-le : (a n : ℕ) → shift_down a n ≤ a
unfolding shift_down
shift_down-le a n = elim (Bool-cases (leb 64 n)) [
  | inl e ↦ rw e (omega arith)
  | inr e ↦ rw e (div-le_self a (2 ^ n))
]

shift_right-word : (a n : ℕ) → a < modulus → shift_right a n < modulus
unfolding shift_right
shift_right-word a n h = elim (Bool-cases (is_negative a)) [
  | inl e ↦ rw e (omega arith)
  | inr e ↦ rw e (omega (arith, h, shift_down-le a n))
]

pub apply-IsSound :
    (op : BinOp) (a b : ℕ) (e : Option ArithError)
    → a < modulus
    → b < modulus
    → IsSound (apply op a b e)
unfolding apply
apply-IsSound BinOp.log_or a b e ha hb = truth-word (not (a == 0) || not (b == 0))
apply-IsSound BinOp.log_and a b e ha hb = truth-word (not (a == 0) && not (b == 0))
apply-IsSound BinOp.bit_or a b e ha hb = unfold or_bits in omega arith
apply-IsSound BinOp.bit_xor a b e ha hb = unfold xor_bits in omega arith
apply-IsSound BinOp.bit_and a b e ha hb = unfold and_bits in omega arith
apply-IsSound BinOp.eq a b e ha hb = truth-word (a == b)
apply-IsSound BinOp.ne a b e ha hb = truth-word (not (a == b))
apply-IsSound BinOp.le a b e ha hb = truth-word (not (less b a))
apply-IsSound BinOp.ge a b e ha hb = truth-word (not (less a b))
apply-IsSound BinOp.lt a b e ha hb = truth-word (less a b)
apply-IsSound BinOp.gt a b e ha hb = truth-word (less b a)
apply-IsSound BinOp.shl a b e ha hb = shifted-IsSound shift_left a b e (shift_left-word a b)
apply-IsSound BinOp.shr a b e ha hb = shifted-IsSound shift_right a b e (shift_right-word a b ha)
apply-IsSound BinOp.plus a b e ha hb = unfold add in omega arith
apply-IsSound BinOp.less_by a b e ha hb = unfold sub in omega arith
apply-IsSound BinOp.times a b e ha hb = unfold mul in omega arith
apply-IsSound BinOp.over a b e ha hb =
    divided-IsSound quotient a b e (λ p. unfold quotient in omega arith)
apply-IsSound BinOp.modulo a b e ha hb = divided-IsSound remainder a b e (remainder-word a b hb)
apply-IsSound BinOp.power a b e ha hb = powered-IsSound (pow_int a b) e (pow_int-word a b)

base_digits-word : (base : ℕ) (s : List ℕ) (v : ℕ) → v < modulus → base_digits base s v < modulus
unfolding base_digits
base_digits-word base [] v h = h
base_digits-word base (c ∷ s) v h = elim (Option-cases (digit_value c base)) [
  | inl e ↦ rw (e, base_digits) (omega arith)
  | inr (d, e) ↦
      rw (e, base_digits)
        (elim (Bool-cases (ltb d base)) [
          | inl p ↦ rw p (base_digits-word base s (add (mul v base) d) (unfold add in omega arith))
          | inr p ↦ rw p (omega arith)
        ])
]

based-word : (o : Option ℕ) (s : Bytes) → based o s < modulus
unfolding based
based-word none s = omega arith
based-word (some base) s = elim (Bool-cases (leb 2 base && leb base 64)) [
  | inl e ↦ rw e (base_digits-word base (runes s) 0 (omega arith))
  | inr e ↦ rw e (omega arith)
]

number_or-word : (p : Bytes × Option Bytes) (z : Option ℤ) → number_or (base_parts p) z < modulus
unfolding number_or base_parts
number_or-word (s, none) none = omega arith
number_or-word (s, none) (some (pos n)) = omega arith
number_or-word (s, none) (some (negsuc n)) = omega arith
number_or-word (s, some digits) z = based-word (base_number s) digits

-- A number in the text is a word, however long it is.
pub number-word : (s : Bytes) → number s < modulus
unfolding number parse_base_number
number-word s = number_or-word (split_2 s b'#') (parse_int s)
