-- ===== src/Tools/Diff/Hunks.antt =====
-- pkg/diff/diff.go: `BuildHunks`, by the indices of the script as in the source. (`newline1` and
-- `newline2` are not used by it, nor are the counters `oldLine` and `newLine`.)
use go_posix.Base.{
  ℕ, zero, suc, ◌+◌, ◌-◌, ◌*◌, Bool, true, false, List, [], ◌∷◌, ◌++◌, map, Bytes, codes, ltb, leb,
  if◌then◌else◌, length, take, drop,
}
use go_posix.Tools.Diff.{OpType, op_eq, op_del, op_ins, op_ignored_del, op_ignored_ins, DiffItem}

pub record Hunk : Type 0 where
  pub old_start : ℕ
  pub old_lines : ℕ
  pub new_start : ℕ
  pub new_lines : ℕ
  pub lines : List Bytes

-- `op == opDel || op == opIns`
unfoldable pub is_change : OpType → Bool
is_change op_eq = false
is_change op_del = true
is_change op_ins = true
is_change op_ignored_del = false
is_change op_ignored_ins = false

-- How far a loop over equal and ignored items goes, and one over the others.
unfoldable pub kept_run : List DiffItem → ℕ
kept_run [] = 0
kept_run (item ∷ items) = let rest = kept_run items in if is_change item.op then 0 else suc rest

unfoldable pub change_run : List DiffItem → ℕ
change_run [] = 0
change_run (item ∷ items) = let rest = change_run items in if is_change item.op then suc rest else 0

-- How far the items count in the first file, and in the second.
unfoldable pub count_old : List DiffItem → ℕ
count_old [] = 0
count_old (item ∷ items) = elim item.op [
  | op_eq ↦ suc (count_old items)
  | op_del ↦ suc (count_old items)
  | op_ins ↦ count_old items
  | op_ignored_del ↦ suc (count_old items)
  | op_ignored_ins ↦ count_old items
]

unfoldable pub count_new : List DiffItem → ℕ
count_new [] = 0
count_new (item ∷ items) = elim item.op [
  | op_eq ↦ suc (count_new items)
  | op_del ↦ count_new items
  | op_ins ↦ suc (count_new items)
  | op_ignored_del ↦ count_new items
  | op_ignored_ins ↦ suc (count_new items)
]

-- The line of an item in a hunk.
unfoldable pub hunk_line : DiffItem → Bytes
hunk_line item = elim item.op [
  | op_eq ↦ codes " " ++ item.text
  | op_del ↦ codes "-" ++ item.text
  | op_ins ↦ codes "+" ++ item.text
  | op_ignored_del ↦ codes "-" ++ item.text
  | op_ignored_ins ↦ codes "+" ++ item.text
]

-- The hunk of the items from `start` to `end`.
unfoldable pub make_hunk : List DiffItem → ℕ → ℕ → Hunk
unfolding count_old count_new hunk_line
make_hunk script start end =
    let items = take (end - start) (drop start script) in
    record {
      old_start = 1 + count_old (take start script);
      old_lines = count_old items;
      new_start = 1 + count_new (take start script);
      new_lines = count_new items;
      lines = map hunk_line items;
    }

-- The loop that looks for the end of the hunk, from `end` on and with as many rounds left.
unfoldable pub find_end : ℕ → List DiffItem → ℕ → ℕ → ℕ
unfolding kept_run change_run
find_end zero script context end = end
find_end (suc rounds) script context end =
    let after = end + change_run (drop end script) in
    let equal = kept_run (drop after script) in
    let next = after + equal in
    let further = find_end rounds script context next in
    if leb (length script) end
    then end
    else if leb (length script) next
    then (if ltb context equal then next - equal + context else length script)
    else if ltb (2 * context) equal
    then (if ltb (length script) (next - equal + context)
        then length script
        else next - equal + context)
    else further

-- The loop of `BuildHunks` from `i` on, with as many rounds left.
unfoldable pub hunks_from : ℕ → List DiffItem → ℕ → ℕ → List Hunk
unfolding kept_run find_end make_hunk
hunks_from zero script context i = []
hunks_from (suc rounds) script context i =
    let first = i + kept_run (drop i script) in
    let found = find_end (length script) script context first in
    let end = if ltb (length script) found then length script else found in
    let rest = hunks_from rounds script context end in
    if leb (length script) first then [] else make_hunk script (first - context) end ∷ rest

-- `BuildHunks`
unfoldable pub build_hunks : List DiffItem → ℕ → List Hunk
unfolding hunks_from
build_hunks script context = hunks_from (length script) script context 0
