-- ===== src/Applets/Echo/Samples.antt =====
-- The theorems of `echo` at examples.
use go_busybox.Prelude.{◌≡◌, refl, false, none, List, [], ◌∷◌, map, arith, codes, All}
use go_busybox.Core.{Stdio, print, println, exit_success}
use go_busybox.Applets.Echo.{letter, is_flags, run}
use go_busybox.Applets.Echo.Spelled.{
  Piece, literal, named, octal, short_octal, hex, meaning, spelled, IsPiece, run-spelled,
}

abbrev some_pieces : List Piece
some_pieces = literal b'a' ∷ named b't' 9 ∷ octal 0xE9 ∷ short_octal 65 ∷ hex 0xAB ∷ []

some_pieces-IsPiece : All IsPiece some_pieces
unfolding letter
some_pieces-IsPiece =
    (omega arith, (refl, (omega arith, ((omega arith, omega arith), (omega arith, tt)))))

not_flags :
    (is_flags (spelled some_pieces []) ≡ false)
    × (is_flags (spelled some_pieces (92 ∷ b'c' ∷ codes "x")) ≡ false)
unfolding is_flags
not_flags = (refl, refl)

abbrev streams : Stdio
streams = record { input = record { content = []; failure = none }; out = []; errors = [] }

run-spelled_example :
    (run (codes "-e" ∷ spelled some_pieces [] ∷ []) streams
      ≡ (println (map meaning some_pieces) streams, exit_success))
    × (run (codes "-e" ∷ spelled some_pieces (92 ∷ b'c' ∷ codes "x") ∷ []) streams
        ≡ (print (map meaning some_pieces) streams, exit_success))
run-spelled_example =
    run-spelled some_pieces (codes "x") streams some_pieces-IsPiece not_flags.0 not_flags.1
