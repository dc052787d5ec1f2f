-- ===== src/Sandbox/Flags.antt =====
-- The flags of `OpenFile` (pkg/sandbox/sandbox.go): a test by a mask is a test of its digits.
use Prim.Native.Nat.{bit_and, digits, bit_and-bitwise}
use go_busybox.Prelude.{
  ℕ, zero, suc, ◌+◌, ◌/◌, ◌%◌, ◌≤◌, min, ◌≡◌, refl, sym, ap, ◌∙◌, Bool, true, false, not, ◌&&◌,
  ◌||◌, ◌==◌, if◌then◌else◌, arith,
}
use go_busybox.Sandbox.{perm_read, perm_write}
use go_busybox.Sandbox.Files.{write_flags, open_file_permission}

-- A one among the first `k` binary digits of both numbers.
shared : ℕ → ℕ → ℕ → Bool
shared zero a b = false
shared (suc k) a b = (b % 2 == 1 && a % 2 == 1) || shared k (a / 2) (b / 2)

halved : ℕ → ℕ → ℕ
halved zero b = b
halved (suc k) b = halved k (b / 2)

abbrev common : ℕ → ℕ → ℕ → ℕ
common n a b = digits (λ b. 0) min n a b

common-zero : (n a : ℕ) → common n a 0 ≡ 0
common-zero zero a = refl
common-zero (suc n) zero = refl
common-zero (suc n) (suc a) = omega (arith, common-zero n (suc a / 2))

shared-zero : (k b : ℕ) → shared k 0 b ≡ false
unfolding shared
shared-zero zero b = refl
shared-zero (suc k) b = ground (arith, shared-zero k (b / 2))

common-shared : (k n a b : ℕ) → a ≤ n → halved k b ≡ 0 → (common n a b == 0) ≡ not (shared k a b)
unfolding shared halved
common-shared zero n a b l h = rw h (rw (common-zero n a) refl)
common-shared (suc k) zero zero b l h = ap not (sym (shared-zero (suc k) b))
common-shared (suc k) zero (suc a) b l h = absurd (omega arith)
common-shared (suc k) (suc n) zero b l h = ap not (sym (shared-zero (suc k) b))
common-shared (suc k) (suc n) (suc a) b l h =
    ground (arith, common-shared k n (suc a / 2) (b / 2) (omega arith) h)

-- O_WRONLY, O_RDWR, O_CREATE, O_TRUNC or O_APPEND, by their digits on Linux.
abbrev pub is_set : ℕ → Bool
is_set n = n % 2 == 1

abbrev pub writes : ℕ → Bool
writes flag =
    is_set flag
    || is_set (flag / 2)
    || is_set (flag / 64)
    || is_set (flag / 512)
    || is_set (flag / 1024)

twice_not :
    (a b c d e : Bool)
    → not (not (a || (b || (c || (d || (e || false)))))) ≡ (a || b || c || d || e)
twice_not true b c d e = refl
twice_not false true c d e = refl
twice_not false false true d e = refl
twice_not false false false true e = refl
twice_not false false false false true = refl
twice_not false false false false false = refl

digit_by_digit : (flag : ℕ) → not (not (shared 11 flag write_flags)) ≡ writes flag
unfolding shared
digit_by_digit flag =
    let e : flag / 64 ≡ flag / 2 / 2 / 2 / 2 / 2 / 2 = omega arith in
    let f : flag / 512 ≡ flag / 2 / 2 / 2 / 2 / 2 / 2 / 2 / 2 / 2 = omega arith in
    let g : flag / 1024 ≡ flag / 2 / 2 / 2 / 2 / 2 / 2 / 2 / 2 / 2 / 2 = omega arith in
    rw e (rw f (rw g (twice_not (is_set flag) _ _ _ _)))

write_flags-writes : (flag : ℕ) → not (bit_and flag write_flags == 0) ≡ writes flag
unfolding halved
write_flags-writes flag =
    ap (λ n. not (n == 0)) (bit_and-bitwise flag write_flags)
    ∙ (ap not (common-shared 11 flag flag write_flags (omega arith) refl) ∙ digit_by_digit flag)

pub open_file_permission-writes :
    (flag : ℕ)
    → open_file_permission flag ≡ (if writes flag then perm_read + perm_write else perm_read)
unfolding open_file_permission
open_file_permission-writes flag = ap (λ b. if b then 6 else perm_read) (write_flags-writes flag)
