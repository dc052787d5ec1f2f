-- ===== src/Ash/Power.antt =====
-- `powInt` of applets/ash/ash.go is the power of the words.
use go_busybox.Prelude.{
  ℕ, zero, suc, ◌+◌, ◌*◌, ◌/◌, ◌%◌, ◌^◌, ◌<◌, ◌≡◌, refl, sym, ap, ◌∙◌, inl, inr, true, false, some,
  arith, ltb, ◌==◌, if◌then◌else◌, Bool-cases,
}
use native.Mathlib.Nat.{
  pow-suc, pow-zero, mod-add-div, add-mul-mod_self_left, mul_comm, mul_assoc, add-mul, mod-eq_of_lt,
  mul-one, one-mul,
}
use go_busybox.Go.Int64.{modulus, half, is_negative, mul}
use go_busybox.Ash.Arith.{pow_loop, pow_int}

module _ (m : ℕ) where
  mul-mod : (a b : ℕ) → a % m * b % m ≡ a * b % m
  mul-mod a b =
      let e : a * b ≡ a % m * b + m * (a / m * b) =
        ap (λ k. k * b) (sym (mod-add-div a m))
        ∙ add-mul (a % m) (m * (a / m)) b
        ∙ ap (λ k. a % m * b + k) (mul_assoc m (a / m) b) in
      sym (ap (λ k. k % m) e ∙ add-mul-mod_self_left (a % m * b) m (a / m * b))

  mul-mod_right : (a b : ℕ) → a * (b % m) % m ≡ a * b % m
  mul-mod_right a b =
      ap (λ k. k % m) (mul_comm a (b % m)) ∙ mul-mod b a ∙ ap (λ k. k % m) (mul_comm b a)

  pow-mod : (b h : ℕ) → (b % m) ^ h % m ≡ b ^ h % m
  pow-mod b zero = ap (λ k. k % m) (pow-zero (b % m) ∙ sym (pow-zero b))
  pow-mod b (suc h) =
      ap (λ k. k % m) (pow-suc (b % m) h)
      ∙ mul-mod_right ((b % m) ^ h) b
      ∙ sym (mul-mod ((b % m) ^ h) b)
      ∙ ap (λ k. k * b % m) (pow-mod b h)
      ∙ mul-mod (b ^ h) b
      ∙ ap (λ k. k % m) (sym (pow-suc b h))

square-pow : (b h : ℕ) → (b * b) ^ h ≡ b ^ (h + h)
square-pow b zero = pow-zero (b * b) ∙ sym (pow-zero b)
square-pow b (suc h) =
    let e : suc h + suc h ≡ suc (suc (h + h)) = omega arith in
    pow-suc (b * b) h
    ∙ ap (λ k. k * (b * b)) (square-pow b h)
    ∙ sym (mul_assoc (b ^ (h + h)) b b)
    ∙ sym (ap (λ k. b ^ k) e ∙ pow-suc b (suc (h + h)) ∙ ap (λ k. k * b) (pow-suc b (h + h)))

-- One round: the exponent is halved, its last bit goes into the result.
round-even :
    (m base exp result : ℕ)
    → exp % 2 ≡ 0
    → result * (base * base % m) ^ (exp / 2) % m ≡ result * base ^ exp % m
round-even m base exp result p =
    let e : exp / 2 + exp / 2 ≡ exp = omega arith in
    sym (mul-mod_right m result ((base * base % m) ^ (exp / 2)))
    ∙ ap (λ k. result * k % m) (pow-mod m (base * base) (exp / 2))
    ∙ mul-mod_right m result ((base * base) ^ (exp / 2))
    ∙ ap (λ k. result * k % m) (square-pow base (exp / 2) ∙ ap (λ k. base ^ k) e)

round-odd :
    (m base exp result : ℕ)
    → exp % 2 ≡ 1
    → result * base % m * (base * base % m) ^ (exp / 2) % m ≡ result * base ^ exp % m
round-odd m base exp result p =
    let e : suc (exp / 2 + exp / 2) ≡ exp = omega arith in
    sym (mul-mod_right m (result * base % m) ((base * base % m) ^ (exp / 2)))
    ∙ ap (λ k. result * base % m * k % m) (pow-mod m (base * base) (exp / 2))
    ∙ mul-mod_right m (result * base % m) ((base * base) ^ (exp / 2))
    ∙ mul-mod m (result * base) ((base * base) ^ (exp / 2))
    ∙ ap (λ k. result * base * k % m) (square-pow base (exp / 2))
    ∙ ap (λ k. k % m)
        (mul_assoc result base (base ^ (exp / 2 + exp / 2))
          ∙ ap (λ k. result * k)
              (mul_comm base (base ^ (exp / 2 + exp / 2))
                ∙ sym (pow-suc base (exp / 2 + exp / 2))
                ∙ ap (λ k. base ^ k) e))

no_round :
    (base exp result : ℕ) → exp ≡ 0 → result < modulus → result ≡ result * base ^ exp % modulus
no_round base exp result p r = sym (
    ap (λ k. result * base ^ k % modulus) p
    ∙ ap (λ k. result * k % modulus) (pow-zero base)
    ∙ ap (λ k. k % modulus) (mul-one result)
    ∙ mod-eq_of_lt r)

pow_loop-power :
    (k base exp result : ℕ)
    → exp < 2 ^ k
    → result < modulus
    → pow_loop (suc k) base exp result ≡ some (result * base ^ exp % modulus)
unfolding pow_loop mul
pow_loop-power zero base exp result h r =
    let e : (exp == 0) ≡ true = ground arith in
    rw e (ap some (no_round base exp result (ground arith) r))
pow_loop-power (suc k) base exp result h r = elim (Bool-cases (exp == 0)) [
  | inl e ↦ rw e (ap some (no_round base exp result (ground arith) r))
  | inr e ↦ rw e (elim (Bool-cases (exp % 2 == 1)) [
    | inl odd ↦ rw odd (
        pow_loop-power k (base * base % modulus) (exp / 2) (result * base % modulus)
          (omega (arith, pow-suc 2 k)) (omega arith)
        ∙ ap some (round-odd modulus base exp result (ground arith)))
    | inr even ↦ rw even (
        pow_loop-power k (base * base % modulus) (exp / 2) result (omega (arith, pow-suc 2 k)) r
        ∙ ap some (round-even modulus base exp result (ground arith)))
  ])
]

-- powInt, by repeated squaring in 64 bits, gives base ** exp modulo 2 ^ 64 for every exponent that
-- is not negative, and 0 for a negative one.
pub pow_int-power :
    (base exp : ℕ)
    → exp < modulus
    → pow_int base exp ≡ some (if ltb exp half then base ^ exp % modulus else 0)
unfolding pow_int
pow_int-power base exp h = elim (Bool-cases (ltb exp half)) [
  | inl e ↦
      let n : is_negative exp ≡ false = ground arith in
      rw e (
        rw n (
          pow_loop-power 63 base exp 1 (ground arith) (omega arith)
          ∙ ap (λ k. some (k % modulus)) (one-mul (base ^ exp))))
  | inr e ↦ let n : is_negative exp ≡ true = ground arith in rw e (rw n refl)
]
