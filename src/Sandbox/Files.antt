-- ===== src/Sandbox/Files.antt =====
-- pkg/sandbox/sandbox.go: the file operations, each behind its checks. Package os is a parameter:
-- a call takes the state of the system and returns the new one with a result.
use Prim.Native.Nat.{bit_and}
use go_busybox.Prelude.{ℕ, not, Option, none, some, List, Bytes, ◌==◌, if◌then◌else◌}
use go_busybox.Sandbox.{Error, Sandbox, check_access, perm_read, perm_write}

pub data Result (A : Type 0) : Type 0 where
  ok : A → Result A
  err : Error → Result A

-- Linux: O_WRONLY|O_CREATE|O_TRUNC.
abbrev pub copy_flags : ℕ
copy_flags = 577

-- O_WRONLY|O_RDWR|O_CREATE|O_TRUNC|O_APPEND.
abbrev pub write_flags : ℕ
write_flags = 1603

-- Package os, and `io.Copy`.
pub record Os (World Handle Info Entry : Type 0) : Type 0 where
  pub os_getwd : World → Option Bytes
  pub os_open : Bytes → World → World × Result Handle
  pub os_create : Bytes → World → World × Result Handle
  pub os_open_file : Bytes → ℕ → ℕ → World → World × Result Handle
  pub os_read_file : Bytes → World → World × Result Bytes
  pub os_write_file : Bytes → Bytes → ℕ → World → World × Result (Unit {0})
  pub os_stat : Bytes → World → World × Result Info
  pub os_lstat : Bytes → World → World × Result Info
  pub os_read_dir : Bytes → World → World × Result (List Entry)
  pub os_mkdir : Bytes → ℕ → World → World × Result (Unit {0})
  pub os_mkdir_all : Bytes → ℕ → World → World × Result (Unit {0})
  pub os_remove : Bytes → World → World × Result (Unit {0})
  pub os_remove_all : Bytes → World → World × Result (Unit {0})
  pub os_rename : Bytes → Bytes → World → World × Result (Unit {0})
  pub os_chdir : Bytes → World → World × Result (Unit {0})
  pub file_stat : Handle → World → World × Result Info
  pub file_close : Handle → World → World
  pub info_mode : Info → ℕ
  pub io_copy : Handle → Handle → World → World × Result (Unit {0})

-- `if err := …; err != nil { return nil, err }`, then the rest.
abbrev pub guarded : {W A : Type 0} → Option Error → W → (W → W × Result A) → W × Result A
guarded none w rest = rest w
guarded (some e) w rest = (w, err e)

abbrev pub and_then : {W A B : Type 0} → W × Result A → (A → W → W × Result B) → W × Result B
and_then (w, ok a) rest = rest a w
and_then (w, err e) rest = (w, err e)

-- `defer f.Close()`.
abbrev pub closing : {W A : Type 0} → (W → W) → W × Result A → W × Result A
closing close r = (close r.0, r.1)

-- The permission that `OpenFile` asks for.
unfoldable pub open_file_permission : ℕ → ℕ
open_file_permission flag = if not (bit_and flag write_flags == 0) then 6 else perm_read

module _ {World Handle Info Entry : Type 0} (o : Os World Handle Info Entry) (s : Sandbox) where
  open o use {
    os_getwd, os_open, os_create, os_open_file, os_read_file, os_write_file, os_stat, os_lstat,
    os_read_dir, os_mkdir, os_mkdir_all, os_remove, os_remove_all, os_rename, os_chdir, file_stat,
    file_close, info_mode, io_copy,
  }

  unfoldable pub check : World → Bytes → ℕ → Option Error
  check w path perm = check_access s (os_getwd w) path perm

  unfoldable pub open_path : Bytes → World → World × Result Handle
  open_path path w = guarded (check w path perm_read) w (os_open path)

  unfoldable pub create : Bytes → World → World × Result Handle
  create path w = guarded (check w path perm_write) w (os_create path)

  unfoldable pub open_file : Bytes → ℕ → ℕ → World → World × Result Handle
  open_file path flag perm w =
      guarded (check w path (open_file_permission flag)) w (os_open_file path flag perm)

  unfoldable pub read_file : Bytes → World → World × Result Bytes
  read_file path w = guarded (check w path perm_read) w (os_read_file path)

  unfoldable pub write_file : Bytes → Bytes → ℕ → World → World × Result (Unit {0})
  write_file path text perm w = guarded (check w path perm_write) w (os_write_file path text perm)

  unfoldable pub stat : Bytes → World → World × Result Info
  stat path w = guarded (check w path perm_read) w (os_stat path)

  unfoldable pub lstat : Bytes → World → World × Result Info
  lstat path w = guarded (check w path perm_read) w (os_lstat path)

  unfoldable pub read_dir : Bytes → World → World × Result (List Entry)
  read_dir path w = guarded (check w path perm_read) w (os_read_dir path)

  unfoldable pub mkdir : Bytes → ℕ → World → World × Result (Unit {0})
  mkdir path perm w = guarded (check w path perm_write) w (os_mkdir path perm)

  unfoldable pub mkdir_all : Bytes → ℕ → World → World × Result (Unit {0})
  mkdir_all path perm w = guarded (check w path perm_write) w (os_mkdir_all path perm)

  unfoldable pub remove : Bytes → World → World × Result (Unit {0})
  remove path w = guarded (check w path perm_write) w (os_remove path)

  unfoldable pub remove_all : Bytes → World → World × Result (Unit {0})
  remove_all path w = guarded (check w path perm_write) w (os_remove_all path)

  unfoldable pub rename : Bytes → Bytes → World → World × Result (Unit {0})
  rename oldpath newpath w =
      guarded (check w oldpath perm_write) w
        λ w. guarded (check w newpath perm_write) w (os_rename oldpath newpath)

  -- The part of `Copy` behind the two checks.
  unfoldable pub copy_opened : Bytes → Bytes → World → World × Result (Unit {0})
  copy_opened src dst w = and_then (os_open src w) λ src_file w. closing (file_close src_file) (
      and_then (file_stat src_file w) λ src_info w.
        and_then (os_open_file dst copy_flags (info_mode src_info) w)
          λ dst_file w. closing (file_close dst_file) (io_copy dst_file src_file w))

  unfoldable pub copy : Bytes → Bytes → World → World × Result (Unit {0})
  copy src dst w =
      guarded (check w src perm_read) w
        λ w. guarded (check w dst perm_write) w (copy_opened src dst)

  unfoldable pub chdir : Bytes → World → World × Result (Unit {0})
  chdir path w = guarded (check w path perm_read) w (os_chdir path)
