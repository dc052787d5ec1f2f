-- ===== src/Applets/Printf/Samples.antt =====
-- The theorems of `printf` at examples.
use go_busybox.Prelude.{
  ◌<◌, ◌≡◌, refl, ◌≢◌, inl, inr, false, none, some, [], ◌∷◌, arith, Bytes, codes,
}
use go_busybox.Core.{Stdio, print, errorf, exit_success, exit_failure}
use go_busybox.Applets.Printf.Values.{Floats}
use go_busybox.Applets.Printf.Passes.{run}
use go_busybox.Applets.Printf.Shapes.{shape}
use go_busybox.Applets.Printf.Ends.{run-ends, run-never_ends}
use go_busybox.Applets.Printf.Reused.{one_line, lines_of, run-lines}
use go_busybox.Applets.Printf.Quoted.{quoted, run-quoted}

-- Numbers that stand for themselves.
abbrev texts : Floats
texts = record {
  F = Bytes;
  parse = λ s. some s;
  inf = codes "+Inf";
  minus_inf = codes "-Inf";
  zero_value = codes "0";
  formatted = λ format x. x;
}

abbrev streams : Stdio
streams = record { input = record { content = []; failure = none }; out = []; errors = [] }

printf_runs :
    (run texts 2 (codes "%5.1f|%-4s|%+d\n" ∷ codes "2.5" ∷ codes "ab" ∷ codes "7" ∷ []) streams
      ≡ some (print (codes "2.5|ab  |+7\n") streams, exit_success))
    × (run texts 1 (codes "%d%%" ∷ codes "x" ∷ []) streams
        ≡ some (
          errorf (codes "printf: invalid number 'x'\n") (print (codes "0%") streams),
          exit_failure,
        ))
    × (run texts 1 (codes "a\\cb" ∷ []) streams ≡ some (print (codes "a") streams, exit_success))
    × (run texts 1 (codes "\\xff" ∷ []) streams
        ≡ some (print (0xC3 ∷ 0xBF ∷ []) streams, exit_success))
unfolding run
printf_runs = (refl, refl, refl, refl)

two_taken : 0 < (shape (codes "%*d") 0).1
unfolding shape
two_taken = omega arith

run-ends_example : run texts 4 (codes "%*d" ∷ codes "5" ∷ codes "1" ∷ codes "2" ∷ []) streams ≢ none
run-ends_example =
    run-ends texts (codes "%*d") (codes "5" ∷ codes "1" ∷ codes "2" ∷ []) streams
      (inr (inl two_taken))

none_taken : shape (codes "hello\\n") 0 ≡ (false, 0)
unfolding shape
none_taken = refl

run-never_ends_example : run texts 1000 (codes "hello\\n" ∷ codes "x" ∷ []) streams ≡ none
run-never_ends_example =
    run-never_ends texts (codes "hello\\n") (codes "x" ∷ []) streams 1000 none_taken (omega arith)

run-quoted_example :
    run texts 1 (quoted (codes "50% \\n") ∷ []) streams
    ≡ some (print (codes "50% \\n") streams, exit_success)
run-quoted_example =
    run-quoted texts (codes "50% \\n") 0 streams
      (omega arith, (omega arith, (omega arith, (omega arith, (omega arith, (omega arith, tt))))))

run-lines_example :
    run texts 2 (one_line ∷ codes "%d" ∷ codes "b" ∷ []) streams
    ≡ some (print (lines_of (codes "%d" ∷ codes "b" ∷ [])) streams, exit_success)
run-lines_example = run-lines texts (codes "%d") (codes "b" ∷ []) streams
