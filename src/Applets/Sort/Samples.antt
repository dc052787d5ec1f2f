-- ===== src/Applets/Sort/Samples.antt =====
-- The theorem on sorted lines at an example.
use go_busybox.Prelude.{ℕ, true, none, some, List, [], ◌∷◌, Bytes, codes, ltb, ◌==◌}
use go_busybox.Applets.Sort.{Options, no_options, Floats}
use go_busybox.Applets.Sort.Stable.{compared}

abbrev no_floats : Floats
no_floats = record { F = ℕ; parse = λ s. none; eq = λ m n. m == n; lt = ltb }

abbrev backward : Options
backward = record no_options { reverse = true; unique = true; key = some (2, 0) }

abbrev some_lines : List Bytes
some_lines = codes "x 1" ∷ codes "y 2" ∷ codes "z 1" ∷ []

abbrev some_key : Bytes → Bytes
some_key = compared (λ r. r) no_floats backward
