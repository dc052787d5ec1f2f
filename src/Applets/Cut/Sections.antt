-- ===== src/Applets/Cut/Sections.antt =====
-- `cut` as a whole, on files.
use go_busybox.Prelude.{true, false, Option, none, some, List, [], ◌++◌, Bytes, codes}
use go_busybox.Core.{Opened, opened, refused, newline}
use go_busybox.Core.Lines.{scan}
use go_busybox.Core.Inputs.{World, file_message}
use go_busybox.Core.HeadTail.Sections.{Outcome}
use go_busybox.TextUtil.Ranges.{Range}
use go_busybox.Applets.Cut.Lines.{cut_text}
use go_busybox.Applets.Cut.{Mode, Args, cut}

-- What one file gives: the selected parts of its lines up to a read error, and a message of that.
abbrev scan_outcome : Mode → List Range → Args → List Bytes → Option Bytes → Outcome
scan_outcome m ranges a lines none = record {
  text = cut_text m ranges a lines;
  message = [];
  ok = true;
}
scan_outcome m ranges a lines (some message) = record {
  text = cut_text m ranges a lines;
  message = codes "cut: " ++ (message ++ newline);
  ok = false;
}

abbrev open_outcome : Mode → List Range → Args → Bytes → Opened → Outcome
open_outcome m ranges a file (refused message) = record {
  text = [];
  message = file_message cut file message;
  ok = false;
}
open_outcome m ranges a file (opened r) = scan_outcome m ranges a (scan r).0 (scan r).1

abbrev pub outcome : World → Mode → List Range → Args → Bytes → Outcome
outcome w m ranges a file = open_outcome m ranges a file (w.open_file file)
