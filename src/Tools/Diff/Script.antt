-- ===== src/Tools/Diff/Script.antt =====
-- What a script says of the two files: their lines, and the number of lines that change.
use go_posix.Base.{ℕ, suc, List, [], ◌∷◌, Bytes}
use go_posix.Tools.Diff.{op_eq, op_del, op_ins, op_ignored_del, op_ignored_ins, DiffItem}

-- The lines of the first file.
unfoldable pub old_side : List DiffItem → List Bytes
old_side [] = []
old_side (item ∷ script) = elim item.op [
  | op_eq ↦ item.text ∷ old_side script
  | op_del ↦ item.text ∷ old_side script
  | op_ins ↦ old_side script
  | op_ignored_del ↦ item.text ∷ old_side script
  | op_ignored_ins ↦ old_side script
]

-- The lines of the second file.
unfoldable pub new_side : List DiffItem → List Bytes
new_side [] = []
new_side (item ∷ script) = elim item.op [
  | op_eq ↦ item.text ∷ new_side script
  | op_del ↦ new_side script
  | op_ins ↦ item.text ∷ new_side script
  | op_ignored_del ↦ new_side script
  | op_ignored_ins ↦ item.text ∷ new_side script
]

-- The deletions and insertions.
unfoldable pub edits : List DiffItem → ℕ
edits [] = 0
edits (item ∷ script) = elim item.op [ op_eq ↦ edits script | _ ↦ suc (edits script) ]
