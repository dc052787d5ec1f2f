-- ===== src/Applets/Tr/Samples.antt =====
-- The theorems of `tr` at examples.
use go_busybox.Prelude.{
  ℕ, ◌≡◌, refl, ◌≢◌, inl, true, false, none, some, List, [], ◌∷◌, Bytes, codes, str_eq,
}
use go_busybox.Core.{Stdio}
use go_busybox.Go.Utf8.{runes, encode}
use go_busybox.Go.Strings.{has_prefix}
use go_busybox.TextUtil.Sets
use go_busybox.TextUtil.Sets.{parse_set, posix_class, class_name, item_at}
use go_busybox.Applets.Tr.{Args, no_args, parse_args, flags, flag, from_set, to_set, run}
use go_busybox.Applets.Tr.Translate.{rendered, NoRuns}
use go_busybox.Applets.Tr.Run.{done, run-ne-none, run-rendered, run-NoRuns, SetsGiven}

abbrev hello : Stdio
hello = record {
  input = record { content = codes "hello"; failure = none };
  out = codes ">";
  errors = [];
}

abbrev some_args : List Bytes
some_args = codes "-s" ∷ codes "a-l" ∷ codes "x" ∷ []

abbrev parsed_args : Args
parsed_args = record no_args { squeeze = true; files = codes "a-l" ∷ codes "x" ∷ [] }

abbrev from_runes : List ℕ
from_runes = codes "abcdefghijkl"

parse_ok : parse_args some_args no_args ≡ some parsed_args
unfolding parse_args flags flag runes has_prefix str_eq
parse_ok = refl

from_ok : parse_set (codes "a-l") ≡ some from_runes
unfolding parse_set runes item_at class_name Sets.run
from_ok = refl

to_ok : to_set false (codes "x") ≡ some (codes "x")
unfolding to_set parse_set runes item_at class_name
to_ok = refl

given : SetsGiven parsed_args (codes "a-l") (codes "x")
given = inl ([], refl)

run-rendered_example :
    run some_args hello
    ≡ some (
        done hello (
          encode
            (rendered false true (from_set false from_runes) (codes "x") (runes (codes "hello")))))
run-rendered_example =
    run-rendered some_args hello parsed_args (codes "a-l") (codes "x") from_runes (codes "x")
      parse_ok given from_ok to_ok refl

run-NoRuns_example :
    (text : List ℕ) × NoRuns text × (run some_args hello ≡ some (done hello (encode text)))
run-NoRuns_example =
    run-NoRuns some_args hello parsed_args (codes "a-l") (codes "x") from_runes (codes "x") parse_ok
      refl given from_ok to_ok refl

run-ne-none_example : run some_args hello ≢ none
run-ne-none_example = run-ne-none some_args hello
