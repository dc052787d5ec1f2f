-- ===== src/Applets/Seq/Samples.antt =====
-- The theorems of `seq` at examples.
use go_busybox.Prelude.{ℕ, ◌-◌, ◌^◌, ◌≡◌, refl, none, some, List, [], ◌∷◌, arith, codes}
use go_busybox.Core.{Stdio, print, exit_success}
use go_busybox.Go.Int.{pos, negsuc, atoi}
use go_busybox.Applets.Seq.{run, to_offset}
use go_busybox.Applets.Seq.Count.{Upward, run-Upward, run-endless, numbers_text}

abbrev streams : Stdio
streams = record { input = record { content = []; failure = none }; out = []; errors = [] }

atoi_ok :
    (atoi (codes "-1") ≡ some (negsuc 0))
    × (atoi (codes "2") ≡ some (pos 2))
    × (atoi (codes "9223372036854775807") ≡ some (pos (2 ^ 63 - 1)))
unfolding atoi
atoi_ok = (refl, refl, refl)

run-Upward_example :
    (us : List ℕ) × (run 9 (codes "-1" ∷ codes "2" ∷ []) streams
      ≡ some (print (numbers_text us) streams, exit_success))
    × Upward 1 (to_offset (pos 2)) (to_offset (negsuc 0)) us
run-Upward_example =
    run-Upward 9 (codes "-1") (codes "2") (negsuc 0) (pos 2) streams atoi_ok.0 atoi_ok.1
      (omega arith) (omega arith)

run-endless_example : run 9 (codes "2" ∷ codes "9223372036854775807" ∷ []) streams ≡ none
run-endless_example =
    run-endless 9 (codes "2") (codes "9223372036854775807") (pos 2) streams atoi_ok.1 atoi_ok.2
