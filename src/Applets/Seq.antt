-- ===== src/Applets/Seq.antt =====
-- pkg/applets/seq/seq.go. The loop is over ints of 64 bits in offset form: i stands as i + 2 ^ 63, so
-- that the order is that of the natural numbers and a sum wraps modulo 2 ^ 64.
pub mod Count
mod Samples
use go_busybox.Prelude.{
  ℕ, zero, suc, ◌+◌, ◌-◌, ◌%◌, ◌^◌, Option, none, some, List, [], ◌∷◌, map, Bytes, codes, ltb, leb,
  if◌then◌else◌,
}
use go_busybox.Core.{Stdio, usage_error, exit_success}
use go_busybox.Core.Lines.{print_lines}
use go_busybox.Go.Int.{ℤ, pos, negsuc, atoi, itoa}

abbrev pub to_offset : ℤ → ℕ
to_offset (pos n) = n + 2 ^ 63
to_offset (negsuc n) = 2 ^ 63 - 1 - n

abbrev pub of_offset : ℕ → ℤ
of_offset u = if leb (2 ^ 63) u then pos (u - 2 ^ 63) else negsuc (2 ^ 63 - 1 - u)

-- `i += step`, both in offset form.
abbrev pub add : ℕ → ℕ → ℕ
add u step = (u + step + 2 ^ 63) % 2 ^ 64

abbrev prepend : ℕ → Option (List ℕ) → Option (List ℕ)
prepend u none = none
prepend u (some us) = some (u ∷ us)

-- The first loop, for a step above 0. `none`: the fuel is spent, and the loop still goes on.
unfoldable pub rising : ℕ → ℕ → ℕ → ℕ → Option (List ℕ)
rising zero step last u = none
rising (suc fuel) step last u =
    let rest = prepend u (rising fuel step last (add u step)) in
    if leb u last then rest else some []

-- The second loop.
unfoldable pub falling : ℕ → ℕ → ℕ → ℕ → Option (List ℕ)
falling zero step last u = none
falling (suc fuel) step last u =
    let rest = prepend u (falling fuel step last (add u step)) in
    if leb last u then rest else some []

-- Both loops, with `step > 0` tested in offset form.
unfoldable pub numbers : ℕ → ℕ → ℕ → ℕ → Option (List ℕ)
numbers fuel first step last =
    if ltb (2 ^ 63) step then rising fuel step last first else falling fuel step last first

abbrev pub seq : Bytes
seq = codes "seq"

unfoldable pub print_numbers : Option (List ℕ) → Stdio → Option (Stdio × ℕ)
print_numbers none s = none
print_numbers (some us) s = some (print_lines (map (λ u. itoa (of_offset u)) us) s, exit_success)

unfoldable pub run_numbers : ℕ → ℤ → ℤ → ℤ → Stdio → Option (Stdio × ℕ)
run_numbers fuel first step last s =
    print_numbers (numbers fuel (to_offset first) (to_offset step) (to_offset last)) s

abbrev pub usage : Bytes → Stdio → Option (Stdio × ℕ)
usage message s = some (usage_error seq message s)

unfoldable pub run_1 : ℕ → Option ℤ → Stdio → Option (Stdio × ℕ)
run_1 fuel none s = usage (codes "argument must be an integer") s
run_1 fuel (some last) s = run_numbers fuel (pos 1) (pos 1) last s

unfoldable pub run_2 : ℕ → Option ℤ → Option ℤ → Stdio → Option (Stdio × ℕ)
run_2 fuel (some first) (some last) s = run_numbers fuel first (pos 1) last s
run_2 fuel none last s = usage (codes "arguments must be integers") s
run_2 fuel (some first) none s = usage (codes "arguments must be integers") s

unfoldable pub run_3 : ℕ → Option ℤ → Option ℤ → Option ℤ → Stdio → Option (Stdio × ℕ)
run_3 fuel (some first) (some (pos zero)) (some last) s =
    usage (codes "increment must be non-zero") s
run_3 fuel (some first) (some (pos (suc n))) (some last) s =
    run_numbers fuel first (pos (suc n)) last s
run_3 fuel (some first) (some (negsuc n)) (some last) s = run_numbers fuel first (negsuc n) last s
run_3 fuel none step last s = usage (codes "arguments must be integers") s
run_3 fuel (some first) none last s = usage (codes "arguments must be integers") s
run_3 fuel (some first) (some step) none s = usage (codes "arguments must be integers") s

-- `Run`; `none`: the fuel is spent, and the loop still goes on.
unfoldable pub run : ℕ → List Bytes → Stdio → Option (Stdio × ℕ)
run fuel (a ∷ []) s = run_1 fuel (atoi a) s
run fuel (a ∷ b ∷ []) s = run_2 fuel (atoi a) (atoi b) s
run fuel (a ∷ b ∷ c ∷ []) s = run_3 fuel (atoi a) (atoi b) (atoi c) s
run fuel _ s = usage (codes "expected 1, 2, or 3 arguments") s
