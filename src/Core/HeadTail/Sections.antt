-- ===== src/Core/HeadTail/Sections.antt =====
-- What the loop over the files prints, and its exit code.
use go_busybox.Prelude.{
  ℕ, ◌≡◌, refl, sym, ap, ap₂, ◌∙◌, Bool, true, false, ◌&&◌, Option, some, List, [], ◌∷◌, ◌++◌, map,
  append-nil, append_assoc, Bytes, if◌then◌else◌, All,
}
use go_busybox.Core.{Stdio, newline, exit_failure}
use go_busybox.Core.HeadTail.{
  FileFunc, Options, run_file, run_files, show_headers, header, announce,
}

-- What one file adds to the streams, and whether it succeeds.
pub record Outcome : Type 0 where
  pub text : Bytes
  pub message : Bytes
  pub ok : Bool

abbrev pub apply : Outcome → Stdio → Stdio × Bool
apply o s = (record s { out = s.out ++ o.text; errors = s.errors ++ o.message }, o.ok)

-- The sections of some files: with headers, a blank line stands before each but the first.
abbrev pub sections : Bool → Bool → List (Bytes × Outcome) → Bytes
sections headers later [] = []
sections headers later ((file, o) ∷ rest) =
    (if headers then (if later then newline else []) ++ header file else [])
    ++ (o.text ++ sections headers true rest)

abbrev pub messages : List (Bytes × Outcome) → Bytes
messages [] = []
messages ((file, o) ∷ rest) = o.message ++ messages rest

abbrev pub all_ok : List (Bytes × Outcome) → Bool
all_ok [] = true
all_ok ((file, o) ∷ rest) = o.ok && all_ok rest

abbrev pub outcomes : (Bytes → Outcome) → List Bytes → List (Bytes × Outcome)
outcomes f = map (λ file. (file, f file))

announce-out :
    (headers later : Bool) (file : Bytes) (s : Stdio)
    → announce headers later file s ≡ record s {
      out = s.out ++ (if headers then (if later then newline else []) ++ header file else []);
    }
unfolding announce
announce-out false later file s = ap (λ o. record s { out = o }) (sym (append-nil s.out))
announce-out true false file s = refl
announce-out true true file s =
    ap (λ o. record s { out = o }) (append_assoc s.out newline (header file))

pub both :
    (x y : Bool) (code : ℕ)
    → (if y then (if x then code else exit_failure) else exit_failure)
      ≡ (if x && y then code else exit_failure)
both true y code = refl
both false true code = refl
both false false code = refl

pub same_result :
    (s : Stdio) {a b c d : Bytes} {m n : ℕ}
    → a ≡ b
    → c ≡ d
    → m ≡ n
    → let r : Option (Stdio × ℕ) = some (record s { out = a; errors = c }, m) in
      let r' : Option (Stdio × ℕ) = some (record s { out = b; errors = d }, n) in r ≡ r'
same_result s p q r i = some (record s { out = p i; errors = q i }, r i)

module _ (applet : Bytes) (fn : FileFunc) (o : Options) (f : Bytes → Outcome) where
  -- Every file has the outcome that `f` tells, whatever the streams hold.
  abbrev pub Settles : List Bytes → Type 0
  Settles = All (λ file. (s : Stdio) → run_file applet fn o file s ≡ some (apply (f file) s))

  -- With such files, the loop prints the sections one behind the other; the exit code tells
  -- whether every file succeeds.
  pub run_files-sections :
      (later : Bool) (files : List Bytes) (s : Stdio) (code : ℕ)
      → Settles files
      → run_files applet fn o later files s code
        ≡ some (
          record s {
            out = s.out ++ sections (show_headers o) later (outcomes f files);
            errors = s.errors ++ messages (outcomes f files);
          },
          if all_ok (outcomes f files) then code else exit_failure,
        )
  unfolding run_files
  run_files-sections later [] s code h =
      ap₂ (λ a b. some (record s { out = a; errors = b }, code)) (sym (append-nil s.out))
        (sym (append-nil s.errors))
  run_files-sections later (file ∷ files) s code (h, hs) =
      let top = if show_headers o then (if later then newline else []) ++ header file else [] in
      let rest = outcomes f files in
      rw (h (announce (show_headers o) later file s)) (
        rw (announce-out (show_headers o) later file s) (
          run_files-sections true files (apply (f file) (record s { out = s.out ++ top })).0
            (if (f file).ok then code else exit_failure) hs
          ∙ same_result s
              (append_assoc (s.out ++ top) (f file).text (sections (show_headers o) true rest)
                ∙ append_assoc s.out top ((f file).text ++ sections (show_headers o) true rest))
              (append_assoc s.errors (f file).message (messages rest))
              (both (f file).ok (all_ok rest) code)))
