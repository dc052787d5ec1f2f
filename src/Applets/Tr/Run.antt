-- ===== src/Applets/Tr/Run.antt =====
-- `tr` as a whole.
use go_busybox.Prelude.{
  ℕ, ◌≡◌, refl, sym, ap, subst, ap₂, ◌∙◌, ◌≢◌, ◌⊎◌, inl, inr, Bool, true, false, Option, none, some,
  List, [], ◌∷◌, ◌++◌, arith, Bytes, leb, if◌then◌else◌, length, set, ◌>>=◌,
}
use go_busybox.Go.Utf8.{runes, encode}
use go_busybox.Core.{Stdio, exit_success, spent}
use go_busybox.TextUtil.Sets.{parse_set}
use go_busybox.Applets.Tr.{
  Args, from_set, to_set, translate_input, run_sets, run_files, run, run_args, after_sets,
  parse_args, no_args, consume, missing_args,
}
use go_busybox.Applets.Tr.Translate.{rendered, loop-rendered, NoRuns, rendered-NoRuns}

-- What SET2 is where it is accepted.
abbrev SetFits : Bool → Option (List ℕ) → Type 0
SetFits d none = Unit {0}
SetFits d (some ts) = if d then ts ≡ [] else ts ≢ []

to_set-SetFits : (d : Bool) (spec : Bytes) → SetFits d (to_set d spec)
unfolding to_set
to_set-SetFits true spec = refl
to_set-SetFits false spec = go (parse_set spec)
  where
    fits : (rs : List ℕ) → SetFits false (if leb (length rs) 0 then none else some rs)
    fits [] = tt
    fits (r ∷ rs) = let e : leb (length (r ∷ rs)) 0 ≡ false = ground arith in rw e (cc)

    go :
        (o : Option (List ℕ))
        → SetFits false (o >>= λ rs. if leb (length rs) 0 then none else some rs)
    go none = tt
    go (some rs) = fits rs

-- The streams behind a run that prints `text`.
abbrev pub done : Stdio → Bytes → Stdio × ℕ
done s text = (record s { input = spent s.input; out = s.out ++ text }, exit_success)

translate_input-rendered :
    (a : Args) (set ts : List ℕ) (s : Stdio)
    → SetFits a.delete_set (some ts)
    → consume (translate_input none a set ts s)
      ≡ some (done s (encode (rendered a.delete_set a.squeeze set ts (runes s.input.content))))
unfolding translate_input consume
translate_input-rendered a set ts s h =
    let (prev, e) = loop-rendered a.delete_set a.squeeze set ts (runes s.input.content) h in rw e

translate_input-ne-none :
    (o : Option Bytes) (a : Args) (set ts : List ℕ) (s : Stdio)
    → SetFits a.delete_set (some ts)
    → consume (translate_input o a set ts s) ≢ none
translate_input-ne-none none a set ts s h =
    λ e. cc (sym (translate_input-rendered a set ts s h) ∙ e)
translate_input-ne-none (some m) a set ts s h = unfold translate_input consume in cc

after_sets-ne-none :
    (a : Args) (m n : Option (List ℕ)) (s : Stdio)
    → SetFits a.delete_set n
    → after_sets a m n s ≢ none
unfolding after_sets
after_sets-ne-none a none n s h = cc
after_sets-ne-none a (some rs) none s h = cc
after_sets-ne-none a (some rs) (some ts) s h =
    translate_input-ne-none s.input.failure a (from_set a.complement rs) ts s h

run_sets-ne-none : (a : Args) (p q : Bytes) (s : Stdio) → run_sets a p q s ≢ none
unfolding run_sets
run_sets-ne-none a p q s =
    after_sets-ne-none a (parse_set p) (to_set a.delete_set q) s (to_set-SetFits a.delete_set q)

run_files-ne-none : (a : Args) (files : List Bytes) (s : Stdio) → run_files a files s ≢ none
unfolding run_files missing_args
run_files-ne-none a [] s = cc
run_files-ne-none a (p ∷ []) s = ground (arith, run_sets-ne-none a p [] s)
run_files-ne-none a (p ∷ q ∷ files) s = run_sets-ne-none a p q s

-- `tr` never panics, whatever its arguments and its input are: the index into SET2 is in range.
pub run-ne-none : (args : List Bytes) (s : Stdio) → run args s ≢ none
unfolding run run_args
run-ne-none args s = go (parse_args args no_args)
  where
    go : (o : Option Args) → run_args o s ≢ none
    go none = cc
    go (some a) = run_files-ne-none a a.files s

-- The texts of SET1 and SET2 among the arguments; SET2 may be missing under -d.
abbrev pub SetsGiven : Args → Bytes → Bytes → Type 0
SetsGiven a p q =
    ((files : List Bytes) × (a.files ≡ p ∷ q ∷ files))
    ⊎ ((a.delete_set ≡ true) × (a.files ≡ p ∷ []) × (q ≡ []))

run_files-sets :
    (a : Args) (p q : Bytes) (s : Stdio)
    → SetsGiven a p q
    → run_files a a.files s ≡ run_sets a p q s
unfolding run_files
run_files-sets a p q s (inl (files, e)) = ap (λ f. run_files a f s) e
run_files-sets a p q s (inr (d, e, n)) =
    ap (λ f. run_files a f s) e
    ∙ single (run_sets a p [] s) (run_sets a p q s) a.delete_set d
        (ap (λ t. run_sets a p t s) (sym n))
  where
    single :
        (x y : Option (Stdio × ℕ)) (b : Bool)
        → b ≡ true
        → x ≡ y
        → (if b then x else missing_args s) ≡ y
    single x y true h k = k
    single x y false h k = cc

-- With accepted flags and sets and a readable input, `tr` reads the whole input, prints what the
-- sets make of its runes behind what is printed already, and succeeds.
pub run-rendered :
    (args : List Bytes) (s : Stdio) (a : Args) (p q : Bytes) (rs ts : List ℕ)
    → parse_args args no_args ≡ some a
    → SetsGiven a p q
    → parse_set p ≡ some rs
    → to_set a.delete_set q ≡ some ts
    → s.input.failure ≡ none
    → run args s
      ≡ some (
          done s (
            encode (
              rendered a.delete_set a.squeeze
                (from_set a.complement rs)
                ts
                (runes s.input.content))))
unfolding run run_args
run-rendered args s a p q rs ts ea given ep eq ef =
    ap (λ o. run_args o s) ea
    ∙ run_files-sets a p q s given
    ∙ unfold run_sets in
      ap₂ (λ m n. after_sets a m n s) ep eq
      ∙ ap (λ f. consume (translate_input f a (from_set a.complement rs) ts s)) ef
      ∙ translate_input-rendered a (from_set a.complement rs) ts s
          (subst (SetFits a.delete_set) eq (to_set-SetFits a.delete_set q))

-- With -s, what `tr` prints of a readable input is a text in which no rune stands twice in a row,
-- also a rune that is in neither set.
pub run-NoRuns :
    (args : List Bytes) (s : Stdio) (a : Args) (p q : Bytes) (rs ts : List ℕ)
    → parse_args args no_args ≡ some a
    → a.squeeze ≡ true
    → SetsGiven a p q
    → parse_set p ≡ some rs
    → to_set a.delete_set q ≡ some ts
    → s.input.failure ≡ none
    → (text : List ℕ) × NoRuns text × (run args s ≡ some (done s (encode text)))
run-NoRuns args s a p q rs ts ea es given ep eq ef =
    let set = from_set a.complement rs in
    (
      rendered a.delete_set true set ts (runes s.input.content),
      rendered-NoRuns a.delete_set set ts (runes s.input.content),
      run-rendered args s a p q rs ts ea given ep eq ef
          ∙ ap
              (λ b. some (done s (encode (rendered a.delete_set b set ts (runes s.input.content)))))
              es,
    )
