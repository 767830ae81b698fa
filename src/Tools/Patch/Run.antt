-- ===== src/Tools/Patch/Run.antt =====
-- pkg/patch/patch.go: `stripPath`, and `Run` behind the parser. What `os.ReadFile` gives is an argument,
-- `none` where it fails; the strip level is a natural number, as one below 0 strips nothing either.
use mathlib.Core.List.{reverse}
use go_posix.Base.{
  ℕ, ◌-◌, Bool, true, false, ◌||◌, Option, none, some, List, [], ◌∷◌, ◌++◌, Bytes, beq, codes, ltb,
  ◌==◌, if◌then◌else◌, length,
}
use go_posix.Base.FilePath.{cut_last, trim_slashes}
use go_posix.Base.Text.{split, join}
use go_posix.Tools.Patch.{Hunk, Outcome, apply_hunks}

pub record Patch : Type 0 where
  pub old_file : Bytes
  pub new_file : Bytes
  pub hunks : List Hunk

-- Up to the first tab.
unfoldable pub until_tab : Bytes → Bytes
until_tab [] = []
until_tab (c ∷ s) = let rest = until_tab s in if c == b'\t' then [] else c ∷ rest

-- The loop over the bytes of the path, with `left` components to go; `none` where there are too few.
unfoldable pub strip_from : ℕ → Bool → Bytes → Option Bytes
unfolding trim_slashes
strip_from left in_component [] = none
strip_from left in_component (c ∷ s) =
    let component = strip_from (left - 1) false s in
    let slash = strip_from left false s in
    let inside = strip_from left true s in
    if c == b'/'
    then (if in_component then (if left == 1 then some (trim_slashes s) else component) else slash)
    else inside

-- What follows the last slash but for slashes at the end.
unfoldable last_component : Bytes → Bytes
unfolding cut_last trim_slashes
last_component path = (cut_last (reverse (trim_slashes (reverse path))) [] []).1

unfoldable pub strip_path : Bytes → ℕ → Bytes
unfolding until_tab strip_from last_component
strip_path path n =
    let path' = until_tab path in
    if n == 0
    then path'
    else elim (strip_from n false path') [ some rest ↦ rest | none ↦ last_component path' ]

-- `original[len(original)-1] == '\n'`, of a text that is not empty
unfoldable pub ends_newline : Bytes → Bool
ends_newline [] = false
ends_newline (c ∷ []) = c == b'\n'
ends_newline (c ∷ d ∷ s) = ends_newline (d ∷ s)

-- `lines[:len(lines)-1]`
unfoldable pub drop_last : List Bytes → List Bytes
drop_last [] = []
drop_last (l ∷ []) = []
drop_last (l ∷ m ∷ ls) = l ∷ drop_last (m ∷ ls)

unfoldable pub file_lines : Bytes → List Bytes
unfolding split ends_newline drop_last
file_lines original =
    let lines = split original (codes "\n") in
    if ends_newline original then drop_last lines else lines

-- What is written for the lines.
unfoldable pub output : Bool → Bytes → List Bytes → Bytes
unfolding join ends_newline
output is_new original lines =
    join lines (codes "\n") ++ (if is_new || ends_newline original then codes "\n" else [])

-- The target, and what becomes of it: it cannot be opened, or the hunks have this outcome and this text is
-- written, if any.
pub data Report : Type 0 where
  cannot_open : Bytes → ℕ → Report
  patched : Bytes → Bool → Outcome → Option Bytes → Report

-- `Run` on the first patch of its input.
unfoldable pub run : (Bytes → Option Bytes) → Patch → Bytes → ℕ → Bool → Bool → Report
unfolding strip_path file_lines output
run read_file p target_path strip_level reverse ignore_applied =
    let old_file = strip_path p.old_file strip_level in
    let new_file = strip_path p.new_file strip_level in
    let target = if beq target_path [] then new_file else target_path in
    let is_new = beq old_file (codes "/dev/null") || beq p.old_file (codes "/dev/null") in
    let on_text = λ (original : Bytes) (lines : List Bytes).
      let o = apply_hunks reverse ignore_applied 0 lines p.hunks in
      patched target is_new o
        (if ltb 0 o.applied then some (output is_new original o.lines) else none) in
    if is_new then on_text [] [] else elim (read_file target) [
      | none ↦ cannot_open target (length p.hunks)
      | some original ↦ on_text original (file_lines original)
    ]

-- Whether `Run` returns an error.
unfoldable pub fails : Report → Bool
fails (cannot_open target rejected) = true
fails (patched target is_new o written) = ltb 0 o.rejected
