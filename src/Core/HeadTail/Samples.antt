-- ===== src/Core/HeadTail/Samples.antt =====
-- The theorems on the arguments and the files of `head` and `tail`, at examples.
use go_busybox.Prelude.{◌≡◌, false, [], ◌∷◌, arith, codes}
use go_busybox.Core.HeadTail.{parse_loop, default_options}
use go_busybox.Core.HeadTail.Spellings.{parse_loop-spellings, parse_loop-minus_plus}
use go_busybox.Go.Int.{pos, decimal}

parse_loop-spellings_example :
    let done =
      parse_loop
        (codes "tail")
        false
        (codes "f" ∷ [])
        (record default_options { lines = pos 12 }) in
    (parse_loop (codes "tail") false (codes "-n" ∷ decimal 12 ∷ codes "f" ∷ []) default_options
      ≡ done)
    × (parse_loop (codes "tail") false ((b'-' ∷ b'n' ∷ decimal 12) ∷ codes "f" ∷ []) default_options
        ≡ done)
    × (parse_loop (codes "tail") false ((b'-' ∷ decimal 12) ∷ codes "f" ∷ []) default_options
        ≡ done)
parse_loop-spellings_example =
    parse_loop-spellings (codes "tail") 12 (codes "f" ∷ []) default_options (omega arith)

parse_loop-minus_plus_example :
    parse_loop (codes "tail") false (codes "-n" ∷ (b'-' ∷ decimal 5) ∷ []) default_options
    ≡ parse_loop (codes "tail") false (codes "-n" ∷ (b'+' ∷ decimal 5) ∷ []) default_options
parse_loop-minus_plus_example =
    parse_loop-minus_plus (codes "tail") 5 [] default_options (omega arith)
