-- ===== src/Tools/Diff/Tests.antt =====
-- `diff` on small files, and `patch` on its hunks.
use Prim.Native.String.{String}
use go_posix.Base.{
  ◌≡◌, ◌≤◌, ◌↔◌, refl, true, false, none, List, [], ◌∷◌, ◌++◌, map, Bytes, codes, beq,
}
use go_posix.Base.FilePath.{has_prefix}
use go_posix.Base.Text.{fields_of}
use go_posix.Tools.Diff.{
  OpType, op_eq, op_del, op_ins, DiffItem, diff, backtrack, outer, round, goes_down, snake, store,
  equals,
}
use go_posix.Tools.Diff.Script.{old_side, new_side, edits}
use go_posix.Tools.Diff.Shortest.{diff-sides, diff-fewest}
use go_posix.Tools.Patch.Scanner.{scan_lines, tokens, pieces, drop_cr, unlines}
use go_posix.Tools.Patch.Parse.{
  ParsedHunk, parse_patch, scan, scan_line, collect, open_hunk, open_patch, close_hunk,
  parse_hunk_header, range_of, at_comma, trim_prefix, before, atoi_value,
}
use go_posix.Base.Int64.{pos, parse_int}
use go_posix.Tools.Diff.Hunks.{Hunk, build_hunks, is_change}
use go_posix.Tools.Diff.Generate.{content_lines, compared, generate_diff}
use go_posix.Tools.Diff.Applied.{patch_hunk}
use go_posix.Tools.Diff.BlankLines.{solid}
use go_posix.Tools.Diff.Report.{generate_diff-differs, generate_diff-blank}
use go_posix.Tools.Patch.{
  apply_hunks, apply_hunk, already_applied, mark, differs, apply_at, verify_hunk,
}

abbrev old_file : List Bytes
old_file = codes "a" ∷ codes "b" ∷ codes "c" ∷ codes "d" ∷ []

abbrev new_file : List Bytes
new_file = codes "a" ∷ codes "x" ∷ codes "c" ∷ []

abbrev item : OpType → String → DiffItem
item op text = record { op = op; text = codes text }

diff_run :
    diff old_file new_file
    ≡ item op_eq "a" ∷ item op_del "b" ∷ item op_ins "x" ∷ item op_eq "c" ∷ item op_del "d" ∷ []
unfolding diff backtrack outer round goes_down snake beq store equals
diff_run = refl

diff-sides_example :
    (old_side (diff old_file new_file) ≡ old_file) × (new_side (diff old_file new_file) ≡ new_file)
diff-sides_example = diff-sides old_file new_file

-- All lines taken out and put in.
abbrev rewritten : List DiffItem
rewritten =
    map (item op_del) ("a" ∷ "b" ∷ "c" ∷ "d" ∷ []) ++ map (item op_ins) ("a" ∷ "x" ∷ "c" ∷ [])

diff-fewest_example : edits (diff old_file new_file) ≤ edits rewritten
unfolding old_side new_side
diff-fewest_example = diff-fewest old_file new_file rewritten refl refl

abbrev spaced : Bytes
spaced = codes "a b\nc\n"

abbrev wide : Bytes
wide = codes "a  b\nd\n"

generate_diff-differs_example : ((generate_diff spaced wide 3 true false false).0 ≡ false) ↔ (
    map (compared true false) (content_lines spaced)
    ≡ map (compared true false) (content_lines wide))
generate_diff-differs_example = generate_diff-differs spaced wide 3 true false

abbrev with_blank : Bytes
with_blank = codes "a\n \nb\n"

abbrev without_blank : Bytes
without_blank = codes "a\nb\n"

generate_diff-blank_example : solid (content_lines with_blank) ≡ solid (content_lines without_blank)
unfolding generate_diff diff backtrack outer round goes_down snake beq store equals has_prefix
generate_diff-blank_example = generate_diff-blank with_blank without_blank 3 refl

-- Two changes in a file of repeated lines.
abbrev from_lines : List Bytes
from_lines = map codes ("a" ∷ "m" ∷ "r" ∷ "r" ∷ "r" ∷ "r" ∷ "r" ∷ [])

abbrev to_lines : List Bytes
to_lines = map codes ("a" ∷ "n" ∷ "m" ∷ "r" ∷ "r" ∷ "r" ∷ "s" ∷ "r" ∷ [])

-- `patch` applies the second hunk at the line of its header, which the first one has moved: the text is
-- not the second file.
patch_moved :
    apply_hunks false false 0 from_lines (map patch_hunk (build_hunks (diff from_lines to_lines) 1))
    ≡ record {
      lines = map codes ("a" ∷ "n" ∷ "m" ∷ "r" ∷ "r" ∷ "s" ∷ "r" ∷ "r" ∷ []);
      applied = 2;
      rejected = 0;
      failed = none;
    }
unfolding apply_hunks apply_hunk build_hunks patch_hunk diff backtrack outer round goes_down snake
    beq store equals is_change already_applied has_prefix verify_hunk mark differs apply_at
patch_moved = refl

abbrev one_line : List Bytes → ParsedHunk
one_line lines = record {
  header = record { old_start = pos 1; old_count = pos 1; new_start = pos 1; new_count = pos 1 };
  lines = lines;
}

-- The first line of a signature is taken for a deletion.
parse_patch_signature :
    parse_patch
      (unlines (map codes ("--- a" ∷ "+++ b" ∷ "@@ -1 +1 @@" ∷ "-x" ∷ "+y" ∷ "-- " ∷ "2.39" ∷ [])))
    ≡ (
      record {
        old_file = codes "a";
        new_file = codes "b";
        hunks = one_line (map codes ("-x" ∷ "+y" ∷ "-- " ∷ [])) ∷ [];
      }
          ∷ [],
      false,
    )
unfolding parse_patch scan_lines tokens pieces drop_cr unlines scan scan_line collect open_hunk
    open_patch close_hunk parse_hunk_header range_of at_comma trim_prefix before atoi_value
    parse_int has_prefix beq fields_of
parse_patch_signature = refl

-- A deleted line that begins with two dashes and a space is taken for another patch.
parse_patch_dashes :
    parse_patch (unlines (map codes ("--- a" ∷ "+++ b" ∷ "@@ -1 +1 @@" ∷ "--- x" ∷ "+y" ∷ []))) ≡ (
      record { old_file = codes "a"; new_file = codes "b"; hunks = one_line [] ∷ [] }
          ∷ record { old_file = codes "x"; new_file = []; hunks = [] }
          ∷ [],
      false,
    )
unfolding parse_patch scan_lines tokens pieces drop_cr unlines scan scan_line collect open_hunk
    open_patch close_hunk parse_hunk_header range_of at_comma trim_prefix before atoi_value
    parse_int has_prefix beq fields_of
parse_patch_dashes = refl

-- The hunk before a header that is no header is there twice.
parse_patch_twice :
    parse_patch
      (unlines (map codes ("--- a" ∷ "+++ b" ∷ "@@ -1 +1 @@" ∷ "-x" ∷ "+y" ∷ "@@ -2" ∷ [])))
    ≡ (
      record {
        old_file = codes "a";
        new_file = codes "b";
        hunks =
            one_line (map codes ("-x" ∷ "+y" ∷ [])) ∷ one_line (map codes ("-x" ∷ "+y" ∷ [])) ∷ [];
      }
          ∷ [],
      false,
    )
unfolding parse_patch scan_lines tokens pieces drop_cr unlines scan scan_line collect open_hunk
    open_patch close_hunk parse_hunk_header range_of at_comma trim_prefix before atoi_value
    parse_int has_prefix beq fields_of
parse_patch_twice = refl

-- The carriage returns of a file with CRLF lines are lost.
parse_patch_crlf : parse_patch (codes "--- a\r\n+++ b\r\n@@ -1 +1 @@\r\n-x\r\n+y\r\n") ≡ (
  record {
    old_file = codes "a";
    new_file = codes "b";
    hunks = one_line (map codes ("-x" ∷ "+y" ∷ [])) ∷ [];
  }
      ∷ [],
  false,
)
unfolding parse_patch scan_lines tokens pieces drop_cr unlines scan scan_line collect open_hunk
    open_patch close_hunk parse_hunk_header range_of at_comma trim_prefix before atoi_value
    parse_int has_prefix beq fields_of
parse_patch_crlf = refl

abbrev spaced_hunks : List Hunk
spaced_hunks = (generate_diff spaced wide 3 false false false).1
