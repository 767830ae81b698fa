-- ===== src/Tools/Diff/Plain.antt =====
-- Scripts without ignored items, and the two sides of the parts of a script.
use go_posix.Base.{
  ℕ, zero, suc, ◌≤◌, ◌≡◌, refl, Bool, true, false, List, [], ◌∷◌, ◌++◌, map, arith, length, take,
  drop, All,
}
use go_posix.Base.FilePath.{has_prefix}
use go_posix.Tools.Patch.{new_lines, mark}
use go_posix.Tools.Patch.Texts.{old_lines}
use go_posix.Tools.Diff.{DiffItem, OpType, op_eq, op_del, op_ins, op_ignored_del, op_ignored_ins}
use go_posix.Tools.Diff.Hunks.{is_change, kept_run, count_old, hunk_line}
use go_posix.Tools.Diff.Script.{old_side, new_side}

-- Nothing is ignored: the item is an equal line, a deletion or an insertion.
unfoldable pub is_plain : OpType → Bool
is_plain op_eq = true
is_plain op_del = true
is_plain op_ins = true
is_plain op_ignored_del = false
is_plain op_ignored_ins = false

unfoldable pub Plain : List DiffItem → Type 0
Plain = All (λ item. is_plain item.op ≡ true)

pub Plain-drop : (n : ℕ) (script : List DiffItem) → Plain script → Plain (drop n script)
unfolding Plain
Plain-drop zero script h = h
Plain-drop (suc n) [] h = h
Plain-drop (suc n) (item ∷ script) (_, h) = Plain-drop n script h

pub old_side-append : (xs ys : List DiffItem) → old_side (xs ++ ys) ≡ old_side xs ++ old_side ys
unfolding old_side
old_side-append [] ys = refl
old_side-append (item ∷ xs) ys = ground (arith, old_side-append xs ys)

pub new_side-append : (xs ys : List DiffItem) → new_side (xs ++ ys) ≡ new_side xs ++ new_side ys
unfolding new_side
new_side-append [] ys = refl
new_side-append (item ∷ xs) ys = ground (arith, new_side-append xs ys)

pub count_old-length : (xs : List DiffItem) → count_old xs ≡ length (old_side xs)
unfolding old_side count_old
count_old-length [] = refl
count_old-length (item ∷ xs) = ground (arith, count_old-length xs)

pub new_lines-map : (xs : List DiffItem) → new_lines (map hunk_line xs) ≡ new_side xs
unfolding new_lines mark has_prefix hunk_line new_side
new_lines-map [] = refl
new_lines-map (item ∷ xs) = ground (arith, new_lines-map xs)

pub old_lines-map : (xs : List DiffItem) → old_lines (map hunk_line xs) ≡ old_side xs
unfolding old_lines mark has_prefix hunk_line old_side
old_lines-map [] = refl
old_lines-map (item ∷ xs) = ground (arith, old_lines-map xs)

-- The two files agree on a kept run.
pub kept-sides :
    (n : ℕ) (xs : List DiffItem)
    → Plain xs
    → n ≤ kept_run xs
    → old_side (take n xs) ≡ new_side (take n xs)
unfolding old_side new_side kept_run is_change is_plain Plain
kept-sides zero xs h le = refl
kept-sides (suc n) [] h le = refl
kept-sides (suc n) (item ∷ xs) (p, h) le = ground (arith, p, le, kept-sides n xs h)
