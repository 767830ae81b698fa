-- ===== src/Tools/Diff/Print.antt =====
-- pkg/diff/diff.go: the unified text that `run` prints for two files that differ.
use go_posix.Base.{ℕ, ◌-◌, Bool, not, ◌&&◌, List, [], ◌∷◌, ◌++◌, Bytes, codes, ◌==◌, if◌then◌else◌}
use go_posix.Base.FilePath.{has_prefix}
use go_posix.Base.Int64.{pos, format_int}
use go_posix.Tools.Patch.Parse.{no_newline}
use go_posix.Tools.Patch.Scanner.{unlines}
use go_posix.Tools.Diff.Hunks.{Hunk}

-- `oldStr` and `newStr`
unfoldable pub range_text : ℕ → ℕ → Bytes
range_text start count =
    if count == 1
    then format_int (pos start)
    else if count == 0
    then format_int (pos (start - 1)) ++ codes ",0"
    else format_int (pos start) ++ codes "," ++ format_int (pos count)

unfoldable pub header_text : Hunk → Bytes
header_text h =
    codes "@@ -"
    ++ range_text h.old_start h.old_lines
    ++ codes " +"
    ++ range_text h.new_start h.new_lines
    ++ codes " @@"

-- The lines of a hunk, with the mark behind the last one; `newline1` and `newline2` tell whether the
-- files end in a newline.
unfoldable pub body_text : Bool → Bool → List Bytes → List Bytes
body_text newline1 newline2 [] = []
body_text newline1 newline2 (l ∷ []) =
    l
    ∷ (if has_prefix l (codes "-") && not newline1
        then no_newline ∷ []
        else if has_prefix l (codes "+") && not newline2
        then no_newline ∷ []
        else [])
body_text newline1 newline2 (l ∷ m ∷ ls) = l ∷ body_text newline1 newline2 (m ∷ ls)

unfoldable pub hunks_text : Bool → Bool → List Hunk → List Bytes
hunks_text newline1 newline2 [] = []
hunks_text newline1 newline2 (h ∷ hs) =
    header_text h ∷ body_text newline1 newline2 h.lines ++ hunks_text newline1 newline2 hs

unfoldable pub unified_lines : Bytes → Bytes → Bool → Bool → List Hunk → List Bytes
unified_lines file1 file2 newline1 newline2 hunks =
    (codes "--- " ++ file1) ∷ (codes "+++ " ++ file2) ∷ hunks_text newline1 newline2 hunks

-- Each line is printed with a newline behind it.
unfoldable pub unified_text : Bytes → Bytes → Bool → Bool → List Hunk → Bytes
unified_text file1 file2 newline1 newline2 hunks =
    unlines (unified_lines file1 file2 newline1 newline2 hunks)
