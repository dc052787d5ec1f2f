-- ===== src/Core/Inputs.antt =====
-- How the applets open their inputs. Behind the file system are two parameters: what `fs.Open` gives
-- for a path, and what a `bufio.Scanner` leaves in a stream it stops reading early.
use go_busybox.Prelude.{ℕ, ◌++◌, Bytes, codes}
use go_busybox.Core.{Reader, Opened}

pub record World : Type 0 where
  -- `fs.Open`.
  pub open_file : Bytes → Opened
  -- What is left of a reader whose scanner has delivered some lines and is then dropped: how far
  -- it has read ahead is not in the code.
  pub left : ℕ → Reader → Reader

-- `stdio.Errorf("applet: path: err\n")`.
abbrev pub file_message : Bytes → Bytes → Bytes → Bytes
file_message applet path message =
    applet ++ (codes ": " ++ (path ++ (codes ": " ++ (message ++ codes "\n"))))
