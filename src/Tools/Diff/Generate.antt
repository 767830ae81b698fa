-- ===== src/Tools/Diff/Generate.antt =====
-- pkg/diff/diff.go: `normalizeSpace`, `stripAllSpace`, `filterBlankLineChanges` and `GenerateDiff`, on
-- text of runes.
use go_posix.Base.{
  ℕ, zero, suc, Bool, true, false, ◌&&◌, ◌||◌, List, [], ◌∷◌, ◌++◌, map, Bytes, beq, codes, ◌==◌,
  if◌then◌else◌, length, get_or, take, drop,
}
use go_posix.Base.Text.{split, is_space}
use go_posix.Tools.Patch.Run.{drop_last}
use go_posix.Tools.Diff.{op_eq, op_del, op_ins, op_ignored_del, op_ignored_ins, DiffItem, diff}
use go_posix.Tools.Diff.Hunks.{Hunk, is_change, change_run, build_hunks}

-- The four bytes that are space for `-b` and `-w`.
unfoldable pub is_blank : ℕ → Bool
is_blank c = c == b' ' || c == b'\t' || c == b'\r' || c == b'\n'

-- `strings.TrimRight(l, " \t\r\n")`
unfoldable trim_right : Bytes → Bytes
unfolding is_blank
trim_right [] = []
trim_right (c ∷ l) = let rest = trim_right l in if is_blank c && beq rest [] then [] else c ∷ rest

-- The loop of `normalizeSpace` over a line.
unfoldable squeeze : Bool → Bytes → Bytes
unfolding is_blank
squeeze in_space [] = []
squeeze in_space (c ∷ l) =
    let rest = squeeze (is_blank c) l in
    if is_blank c then (if in_space then rest else b' ' ∷ rest) else c ∷ rest

unfoldable normalize_space : Bytes → Bytes
unfolding trim_right squeeze
normalize_space l = squeeze false (trim_right l)

unfoldable strip_all_space : Bytes → Bytes
unfolding is_blank
strip_all_space [] = []
strip_all_space (c ∷ l) = let rest = strip_all_space l in if is_blank c then rest else c ∷ rest

-- `strings.TrimSpace(text) == ""`
unfoldable pub is_blank_line : Bytes → Bool
unfolding is_space
is_blank_line [] = true
is_blank_line (c ∷ l) = is_space c && is_blank_line l

-- The item with its change ignored.
unfoldable pub ignore_change : DiffItem → DiffItem
ignore_change item = elim item.op [
  | op_del ↦ record { op = op_ignored_del; text = item.text }
  | _ ↦ record { op = op_ignored_ins; text = item.text }
]

-- `allBlank`
unfoldable pub all_blank : List DiffItem → Bool
unfolding is_blank_line
all_blank [] = true
all_blank (item ∷ items) = is_blank_line item.text && all_blank items

-- `filterBlankLineChanges`, with as many rounds left.
unfoldable pub filter_blank_line_changes : ℕ → List DiffItem → List DiffItem
unfolding is_change change_run ignore_change all_blank
filter_blank_line_changes zero script = script
filter_blank_line_changes (suc rounds) [] = []
filter_blank_line_changes (suc rounds) (item ∷ items) =
    let script = item ∷ items in
    let n = if is_change item.op then change_run script else 1 in
    let block = take n script in
    let rest = filter_blank_line_changes rounds (drop n script) in
    (if is_change item.op && all_blank block then map ignore_change block else block) ++ rest

-- The loop that puts the lines back, at the lines of the two files from `x` and `y` on.
unfoldable pub put_back : List DiffItem → List Bytes → List Bytes → List DiffItem
put_back [] xs ys = []
put_back (item ∷ items) xs ys = elim item.op [
  | op_eq ↦ record { op = op_eq; text = get_or xs 0 [] } ∷ put_back items (drop 1 xs) (drop 1 ys)
  | op_del ↦ record { op = op_del; text = get_or xs 0 [] } ∷ put_back items (drop 1 xs) ys
  | op_ins ↦ record { op = op_ins; text = get_or ys 0 [] } ∷ put_back items xs (drop 1 ys)
  | op_ignored_del ↦ item ∷ put_back items xs ys
  | op_ignored_ins ↦ item ∷ put_back items xs ys
]

-- `lines[len(lines)-1] == ""`
unfoldable pub ends_empty : List Bytes → Bool
ends_empty [] = false
ends_empty (l ∷ []) = beq l []
ends_empty (l ∷ m ∷ ls) = ends_empty (m ∷ ls)

unfoldable pub content_lines : Bytes → List Bytes
unfolding split ends_empty drop_last
content_lines content =
    let lines = split content (codes "\n") in
    let kept = if ends_empty lines then drop_last lines else lines in
    if beq content [] then [] else kept

-- How a line is compared.
unfoldable pub compared : Bool → Bool → Bytes → Bytes
unfolding normalize_space strip_all_space
compared ignore_space ignore_all_space l =
    if ignore_all_space then strip_all_space l else if ignore_space then normalize_space l else l

-- The script of `GenerateDiff` with the lines put back, before `-B`.
unfoldable pub line_script : List Bytes → List Bytes → Bool → Bool → List DiffItem
unfolding compared put_back
line_script lines1 lines2 ignore_space ignore_all_space =
    let comp = compared ignore_space ignore_all_space in
    put_back (diff (map comp lines1) (map comp lines2)) lines1 lines2

-- Whether an item is a change that is not ignored.
unfoldable pub differs : List DiffItem → Bool
unfolding is_change
differs [] = false
differs (item ∷ items) = is_change item.op || differs items

-- `GenerateDiff`
unfoldable pub generate_diff : Bytes → Bytes → ℕ → Bool → Bool → Bool → Bool × List Hunk
unfolding content_lines line_script filter_blank_line_changes differs build_hunks
generate_diff content1 content2 context ignore_space ignore_all_space ignore_blank_lines =
    let found =
      line_script (content_lines content1) (content_lines content2) ignore_space ignore_all_space in
    let script =
      if ignore_blank_lines then filter_blank_line_changes (length found) found else found in
    (differs script, build_hunks script context)
