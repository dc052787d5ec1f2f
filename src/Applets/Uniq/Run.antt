-- ===== src/Applets/Uniq/Run.antt =====
-- `uniq` as a whole, and `uniq` twice.
use go_busybox.Prelude.{
  ℕ, ◌≡◌, refl, sym, ap, subst, ◌∙◌, inl, inr, Bool, true, false, Option, none, some, List, [], ◌∷◌,
  Bytes, codes, if◌then◌else◌, str_eq, str_eq_iff, Bool-cases, get_or,
}
use go_busybox.Core.{Reader, Stdio, opened, print, exit_success}
use go_busybox.Core.Lines.{scan, lines_text}
use go_busybox.Core.Inputs.{World}
use go_busybox.Core.HeadTail.{parsed}
use go_busybox.Applets.Uniq.{
  Options, parse_loop, no_options, filtered, normalize, run, run_options, run_files, run_created,
  run_input, run_opened, finish,
}
use go_busybox.Applets.Uniq.Groups.{Group, join_group, groups, selected, filtered-selected}

-- The lines that `uniq` makes of an input.
abbrev pub made : (ℕ → ℕ) → Options → Reader → Bytes
made lower o r = lines_text (selected o (groups (normalize lower o) (scan r).0))

finish-made :
    (lower : ℕ → ℕ) (o : Options) (to_file : Bool) (r : Reader) (s : Stdio)
    → (scan r).1 ≡ none
    → finish to_file (filtered lower o (scan r).0 (scan r).1) (scan r).1 s ≡ (
      if to_file then s else print (made lower o r) s,
      if to_file then some (made lower o r) else none,
      exit_success,
    )
unfolding finish
finish-made lower o to_file r s h = rw h (rw (filtered-selected lower o (scan r).0) refl)

run_input-made :
    (lower : ℕ → ℕ) (w : World) (o : Options) (to_file : Bool) (file : Bytes) (r : Reader)
    (s : Stdio)
    → str_eq file (codes "-") ≡ false
    → w.open_file file ≡ opened r
    → (scan r).1 ≡ none
    → run_input lower w o to_file file s ≡ (
      if to_file then s else print (made lower o r) s,
      if to_file then some (made lower o r) else none,
      exit_success,
    )
unfolding run_input run_opened
run_input-made lower w o to_file file r s named e h =
    rw named (rw e (finish-made lower o to_file r s h))

-- `uniq FILE`, on a file that can be read to its end: it prints one line for each group of adjacent
-- lines whose keys agree, as far as -d and -u let it through, and succeeds.
pub run-prints :
    (lower : ℕ → ℕ) (w : World) (create : Bytes → Option Bytes) (args : List Bytes) (o : Options)
    (file : Bytes) (r : Reader) (s : Stdio)
    → parse_loop false args no_options ≡ parsed o
    → o.files ≡ file ∷ []
    → str_eq file (codes "-") ≡ false
    → w.open_file file ≡ opened r
    → (scan r).1 ≡ none
    → run lower w create args s ≡ (print (made lower o r) s, none, exit_success)
unfolding run run_options
run-prints lower w create args o file r s parse files named e h = rw parse (
    ap (λ fs. run_files lower w create o fs s) files
    ∙ unfold run_files in run_input-made lower w o false file r s named e h)

-- `uniq FILE OUTPUT` puts the same lines into the output file, prints nothing, and succeeds.
pub run-writes :
    (lower : ℕ → ℕ) (w : World) (create : Bytes → Option Bytes) (args : List Bytes) (o : Options)
    (file out_file : Bytes) (r : Reader) (s : Stdio)
    → parse_loop false args no_options ≡ parsed o
    → o.files ≡ file ∷ out_file ∷ []
    → str_eq file (codes "-") ≡ false
    → str_eq out_file (codes "-") ≡ false
    → create out_file ≡ none
    → w.open_file file ≡ opened r
    → (scan r).1 ≡ none
    → run lower w create args s ≡ (s, some (made lower o r), exit_success)
unfolding run run_options
run-writes lower w create args o file out_file r s parse files named named' c e h = rw parse (
    ap (λ fs. run_files lower w create o fs s) files
    ∙ unfold run_files run_created in
      rw named' (rw c (run_input-made lower w o true file r s named e h)))

firsts : List Group → List Bytes
firsts [] = []
firsts ((l, c) ∷ gs) = l ∷ firsts gs

-- Without -c, -d and -u.
abbrev pub Plain : Options → Type 0
Plain o = (o.count ≡ false) × (o.dup ≡ false) × (o.uniq ≡ false)

selected-firsts : (o : Options) (gs : List Group) → Plain o → selected o gs ≡ firsts gs
unfolding firsts
selected-firsts o [] h = refl
selected-firsts o ((l, c) ∷ gs) (hc, hd, hu) =
    rw hd (rw hu (rw hc (ap (λ t. l ∷ t) (selected-firsts o gs (hc, hd, hu)))))

module _ (key : Bytes → Bytes) where
  -- Two lines that stand beside one another have different keys.
  abbrev pub Apart : List Bytes → Type 0
  Apart [] = Unit
  Apart (l ∷ []) = Unit
  Apart (l ∷ m ∷ ls) = (str_eq (key m) (key l) ≡ false) × Apart (m ∷ ls)

same_key :
    (key : Bytes → Bytes) (l m : Bytes) (gs : List Group)
    → key m ≡ key l
    → Apart key (firsts ((m, 1) ∷ gs))
    → Apart key (firsts ((l, 1) ∷ gs))
unfolding firsts
same_key key l m [] h a = tt
same_key key l m ((n, c) ∷ gs) h (a, b) = (ap (str_eq (key n)) (sym h) ∙ a, b)

join_group-Apart :
    (key : Bytes → Bytes) (l : Bytes) (gs : List Group)
    → Apart key (firsts gs)
    → Apart key (firsts (join_group key l gs))
unfolding firsts
join_group-Apart key l [] h = tt
join_group-Apart key l ((m, c) ∷ gs) h = elim (Bool-cases (str_eq (key m) (key l))) [
  | inl e ↦ rw e (same_key key l m gs ((str_eq_iff (key m) (key l)).0 e) h)
  | inr e ↦ rw e ((e, h))
]

groups-Apart : (key : Bytes → Bytes) (ls : List Bytes) → Apart key (firsts (groups key ls))
groups-Apart key [] = unfold firsts in tt
groups-Apart key (l ∷ ls) = join_group-Apart key l (groups key ls) (groups-Apart key ls)

join_group-firsts :
    (key : Bytes → Bytes) (l : Bytes) (ls : List Bytes) (gs : List Group)
    → Apart key (l ∷ ls)
    → firsts gs ≡ ls
    → firsts (join_group key l gs) ≡ l ∷ ls
unfolding firsts
join_group-firsts key l ls [] h e = ap (λ t. l ∷ t) e
join_group-firsts key l [] ((m, c) ∷ gs) h e = cc
join_group-firsts key l (n ∷ ls) ((m, c) ∷ gs) (a, h) e =
    let p : m ≡ n = ap (λ t. get_or t 0 m) e in
    let a' : str_eq (key m) (key l) ≡ false = ap (λ t. str_eq (key t) (key l)) p ∙ a in
    rw a' (ap (λ t. l ∷ t) e)

Apart-firsts : (key : Bytes → Bytes) (ls : List Bytes) → Apart key ls → firsts (groups key ls) ≡ ls
unfolding firsts
Apart-firsts key [] h = refl
Apart-firsts key (l ∷ []) h = refl
Apart-firsts key (l ∷ m ∷ ls) (a, h) =
    join_group-firsts key l (m ∷ ls) (groups key (m ∷ ls)) (a, h) (Apart-firsts key (m ∷ ls) h)

-- Without -c, -d and -u, no two lines beside one another in what `uniq` makes have equal keys, and
-- a second `uniq` with the same options changes nothing.
pub filtered-filtered :
    (lower : ℕ → ℕ) (o : Options) (lines : List Bytes)
    → Plain o
    → let once = filtered lower o lines none in
      Apart (normalize lower o) once × (filtered lower o once none ≡ once)
filtered-filtered lower o lines h =
    let key = normalize lower o in
    let plain : (ls : List Bytes) → filtered lower o ls none ≡ firsts (groups key ls) =
      λ ls. filtered-selected lower o ls ∙ selected-firsts o (groups key ls) h in
    let apart : Apart key (filtered lower o lines none) =
      subst (Apart key) (sym (plain lines)) (groups-Apart key lines) in
    (
      apart,
      plain (filtered lower o lines none) ∙ Apart-firsts key (filtered lower o lines none) apart,
    )
