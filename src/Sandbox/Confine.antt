-- ===== src/Sandbox/Confine.antt =====
-- The file operations of the sandbox, all of them: what each asks for, and
-- what it does then.
use go_busybox.Prelude.{
  ℕ, ◌+◌, ◌≡◌, refl, ap, ◌∙◌, Option, none, some, List, [], ◌∷◌, Bytes, arith, if◌then◌else◌,
}
use go_busybox.Sandbox.Flags.{writes, open_file_permission-writes}
use go_busybox.Sandbox.{Error, Sandbox, check_access, perm_read, perm_write}
use go_busybox.Sandbox.Files.{
  Result, ok, err, Os, guarded, and_then, closing, copy_flags, check, open_path, create, open_file,
  open_file_permission, read_file, write_file, stat, lstat, read_dir, mkdir, mkdir_all, remove,
  remove_all, rename, copy_opened, copy, chdir,
}

-- A call of one of the operations.
pub data Call : Type 0 where
  call_open call_create : Bytes → Call
  call_open_file : Bytes → ℕ → ℕ → Call
  call_read_file : Bytes → Call
  call_write_file : Bytes → Bytes → ℕ → Call
  call_stat call_lstat call_read_dir : Bytes → Call
  call_mkdir call_mkdir_all : Bytes → ℕ → Call
  call_remove call_remove_all : Bytes → Call
  call_rename call_copy : Bytes → Bytes → Call
  call_chdir : Bytes → Call

-- The permissions that a call needs, in the order in which they are asked for.
abbrev pub needs : Call → List (Bytes × ℕ)
needs (call_open p) = (p, perm_read) ∷ []
needs (call_create p) = (p, perm_write) ∷ []
needs (call_open_file p flag m) =
    (p, if writes flag then perm_read + perm_write else perm_read) ∷ []
needs (call_read_file p) = (p, perm_read) ∷ []
needs (call_write_file p t m) = (p, perm_write) ∷ []
needs (call_stat p) = (p, perm_read) ∷ []
needs (call_lstat p) = (p, perm_read) ∷ []
needs (call_read_dir p) = (p, perm_read) ∷ []
needs (call_mkdir p m) = (p, perm_write) ∷ []
needs (call_mkdir_all p m) = (p, perm_write) ∷ []
needs (call_remove p) = (p, perm_write) ∷ []
needs (call_remove_all p) = (p, perm_write) ∷ []
needs (call_rename p q) = (p, perm_write) ∷ (q, perm_write) ∷ []
needs (call_copy p q) = (p, perm_read) ∷ (q, perm_write) ∷ []
needs (call_chdir p) = (p, perm_read) ∷ []

-- The first need that the sandbox refuses, with its error.
abbrev pub refusal : Sandbox → Option Bytes → List (Bytes × ℕ) → Option Error
refusal s wd [] = none
refusal s wd ((p, perm) ∷ rest) = elim (check_access s wd p perm) [
  | none ↦ refusal s wd rest
  | some e ↦ some e
]

-- A refused call leaves the state and returns the error; any other does what it does.
abbrev pub settle : {W A : Type 0} → Option Error → W → W × Result A → W × Result A
settle none w done = done
settle (some e) w done = (w, err e)

-- Linux: O_WRONLY, O_CREATE and O_TRUNC.
abbrev for_copy : ℕ
for_copy = 1 + 64 + 512

module _ {World Handle Info Entry : Type 0} (o : Os World Handle Info Entry) (s : Sandbox) where
  -- What a call returns, if it succeeds.
  abbrev pub Answer : Call → Type 0
  Answer (call_open p) = Handle
  Answer (call_create p) = Handle
  Answer (call_open_file p flag m) = Handle
  Answer (call_read_file p) = Bytes
  Answer (call_stat p) = Info
  Answer (call_lstat p) = Info
  Answer (call_read_dir p) = List Entry
  Answer _ = Unit {0}

  -- The call as the program makes it.
  pub perform : (c : Call) → World → World × Result (Answer c)
  perform (call_open p) w = open_path o s p w
  perform (call_create p) w = create o s p w
  perform (call_open_file p flag m) w = open_file o s p flag m w
  perform (call_read_file p) w = read_file o s p w
  perform (call_write_file p t m) w = write_file o s p t m w
  perform (call_stat p) w = stat o s p w
  perform (call_lstat p) w = lstat o s p w
  perform (call_read_dir p) w = read_dir o s p w
  perform (call_mkdir p m) w = mkdir o s p m w
  perform (call_mkdir_all p m) w = mkdir_all o s p m w
  perform (call_remove p) w = remove o s p w
  perform (call_remove_all p) w = remove_all o s p w
  perform (call_rename p q) w = rename o s p q w
  perform (call_copy p q) w = copy o s p q w
  perform (call_chdir p) w = chdir o s p w

  -- A copy by bare calls: where one fails, its error is the result, and the files that are open by then
  -- are closed, the last one first.
  pub into : Handle → World × Result Handle → World × Result (Unit {0})
  into source (w, err e) = (o.file_close source w, err e)
  into source (w, ok target) =
      let (after, answer) = o.io_copy target source w in
      (o.file_close source (o.file_close target after), answer)

  pub onto : Bytes → Handle → World × Result Info → World × Result (Unit {0})
  onto q source (w, err e) = (o.file_close source w, err e)
  onto q source (w, ok info) = into source (o.os_open_file q for_copy (o.info_mode info) w)

  pub copied : Bytes → World × Result Handle → World × Result (Unit {0})
  copied q (w, err e) = (w, err e)
  copied q (w, ok source) = onto q source (o.file_stat source w)

  -- The bare call of package os.
  pub bare : (c : Call) → World → World × Result (Answer c)
  bare (call_open p) w = o.os_open p w
  bare (call_create p) w = o.os_create p w
  bare (call_open_file p flag m) w = o.os_open_file p flag m w
  bare (call_read_file p) w = o.os_read_file p w
  bare (call_write_file p t m) w = o.os_write_file p t m w
  bare (call_stat p) w = o.os_stat p w
  bare (call_lstat p) w = o.os_lstat p w
  bare (call_read_dir p) w = o.os_read_dir p w
  bare (call_mkdir p m) w = o.os_mkdir p m w
  bare (call_mkdir_all p m) w = o.os_mkdir_all p m w
  bare (call_remove p) w = o.os_remove p w
  bare (call_remove_all p) w = o.os_remove_all p w
  bare (call_rename p q) w = o.os_rename p q w
  bare (call_copy p q) w = copied q (o.os_open p w)
  bare (call_chdir p) w = o.os_chdir p w

  guarded_1 :
      {A : Type 0} (p : Bytes) (perm : ℕ) (w : World) (run : World → World × Result A)
      → guarded (check o s w p perm) w run
        ≡ settle (refusal s (o.os_getwd w) ((p, perm) ∷ [])) w (run w)
  unfolding check
  guarded_1 p perm w run = ground arith

  guarded_2 :
      {A : Type 0} (p q : Bytes) (f g : ℕ) (w : World) (run : World → World × Result A)
      → guarded (check o s w p f) w (λ w. guarded (check o s w q g) w run)
        ≡ settle (refusal s (o.os_getwd w) ((p, f) ∷ (q, g) ∷ [])) w (run w)
  unfolding check
  guarded_2 p q f g w run = ground arith

  into-closing :
      (source : Handle) (r : World × Result Handle)
      → closing
          (o.file_close source)
          (and_then r λ target w. closing (o.file_close target) (o.io_copy target source w))
        ≡ into source r
  unfolding into
  into-closing source (w, err e) = refl
  into-closing source (w, ok target) = refl

  onto-closing :
      (q : Bytes) (source : Handle) (r : World × Result Info)
      → closing (o.file_close source) (
          and_then r λ info w.
            and_then
              (o.os_open_file q copy_flags (o.info_mode info) w)
              λ target w. closing (o.file_close target) (o.io_copy target source w))
        ≡ onto q source r
  unfolding onto
  onto-closing q source (w, err e) = refl
  onto-closing q source (w, ok info) =
      into-closing source (o.os_open_file q copy_flags (o.info_mode info) w)

  copy_opened-copied : (p q : Bytes) (w : World) → copy_opened o s p q w ≡ copied q (o.os_open p w)
  unfolding copy_opened copied
  copy_opened-copied p q w = go (o.os_open p w)
    where
      go :
          (r : World × Result Handle)
          → and_then r (λ source w. closing (o.file_close source) (
              and_then (o.file_stat source w) λ info w.
                and_then
                  (o.os_open_file q copy_flags (o.info_mode info) w)
                  λ target w. closing (o.file_close target) (o.io_copy target source w)))
            ≡ copied q r
      go (w, err e) = refl
      go (w, ok source) = onto-closing q source (o.file_stat source w)

  -- Every file operation asks for its permissions, in order: those for reading, writing or both, as the
  -- operation and the flags of OpenFile tell. Where one is refused, it returns that error and leaves the
  -- system as it was; otherwise it does and returns what the bare call of package os does and returns, and
  -- Copy what its bare calls do, from the source to the target, with every opened file closed again.
  pub perform-settle :
      (c : Call) (w : World)
      → perform c w ≡ settle (refusal s (o.os_getwd w) (needs c)) w (bare c w)
  unfolding perform bare open_path create open_file read_file write_file stat lstat read_dir mkdir
      mkdir_all remove remove_all rename copy chdir
  perform-settle (call_open p) w = guarded_1 p perm_read w (o.os_open p)
  perform-settle (call_create p) w = guarded_1 p perm_write w (o.os_create p)
  perform-settle (call_open_file p flag m) w =
      guarded_1 p (open_file_permission flag) w (o.os_open_file p flag m)
      ∙ ap
          (λ perm. settle (refusal s (o.os_getwd w) ((p, perm) ∷ [])) w (o.os_open_file p flag m w))
          (open_file_permission-writes flag)
  perform-settle (call_read_file p) w = guarded_1 p perm_read w (o.os_read_file p)
  perform-settle (call_write_file p t m) w = guarded_1 p perm_write w (o.os_write_file p t m)
  perform-settle (call_stat p) w = guarded_1 p perm_read w (o.os_stat p)
  perform-settle (call_lstat p) w = guarded_1 p perm_read w (o.os_lstat p)
  perform-settle (call_read_dir p) w = guarded_1 p perm_read w (o.os_read_dir p)
  perform-settle (call_mkdir p m) w = guarded_1 p perm_write w (o.os_mkdir p m)
  perform-settle (call_mkdir_all p m) w = guarded_1 p perm_write w (o.os_mkdir_all p m)
  perform-settle (call_remove p) w = guarded_1 p perm_write w (o.os_remove p)
  perform-settle (call_remove_all p) w = guarded_1 p perm_write w (o.os_remove_all p)
  perform-settle (call_rename p q) w = guarded_2 p q perm_write perm_write w (o.os_rename p q)
  perform-settle (call_copy p q) w =
      guarded_2 p q perm_read perm_write w (copy_opened o s p q)
      ∙ ap (settle (refusal s (o.os_getwd w) ((p, perm_read) ∷ (q, perm_write) ∷ [])) w)
          (copy_opened-copied p q w)
  perform-settle (call_chdir p) w = guarded_1 p perm_read w (o.os_chdir p)
