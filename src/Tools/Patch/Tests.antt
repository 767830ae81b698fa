-- ===== src/Tools/Patch/Tests.antt =====
-- `patch` on a small text.
use go_posix.Base.{
  ◌≡◌, ◌+◌, refl, true, false, some, none, List, [], ◌∷◌, Bytes, beq, codes, arith, take, ◌==◌,
  if◌then◌else◌,
}
use go_posix.Base.FilePath.{has_prefix, trim_slashes}
use go_posix.Base.Text.{split, split_go, join, join_tail}
use go_posix.Tools.Patch.Texts.{old_lines}
use go_posix.Tools.Patch.Undo.{Fits, apply_at-reverse}
use go_posix.Tools.Patch.Places.{Found, apply_hunk-Found}
use go_posix.Tools.Patch.Refused.{apply_hunk-deletion}
use go_posix.Tools.Patch.Counts.{Applies, failed_number, apply_hunks-Applies}
use go_posix.Tools.Patch.Run.{
  patched, until_tab, strip_from, strip_path, ends_newline, drop_last, file_lines, output, run,
}
use go_posix.Tools.Patch.{
  Hunk, mark, reverse_hunk, differs, verify_from, verify_hunk, new_lines, apply_at, expected,
  begins, search, already_applied, fuzzy, apply_hunk, apply_hunks,
}

abbrev text : List Bytes
text = codes "a" ∷ codes "b" ∷ codes "c" ∷ []

-- Line 2 becomes two lines.
abbrev change : Hunk
change = record {
  old_start = 1;
  old_count = 3;
  new_start = 1;
  new_count = 4;
  lines = codes " a" ∷ codes "-b" ∷ codes "+x" ∷ codes "+y" ∷ codes " c" ∷ [];
}

-- The last two lines are taken out.
abbrev deletion : Hunk
deletion = record {
  old_start = 1;
  old_count = 3;
  new_start = 1;
  new_count = 1;
  lines = codes " a" ∷ codes "-b" ∷ codes "-c" ∷ [];
}

fits : Fits text change 0
unfolding old_lines new_lines mark has_prefix beq
fits = record { old_count = refl; new_count = refl; inside = omega arith }

apply_at-reverse_example :
    (verify_hunk (apply_at text change 0) (reverse_hunk change) 0 ≡ true)
    × (apply_at (apply_at text change 0) (reverse_hunk change) 0 ≡ text)
unfolding verify_hunk verify_from differs mark has_prefix beq
apply_at-reverse_example = apply_at-reverse text change 0 fits refl

-- Below another line, the change is found one line further down.
apply_hunk-Found_example :
    Found (codes "z" ∷ text) change (apply_hunk (codes "z" ∷ text) change false)
unfolding already_applied expected search begins verify_hunk verify_from differs mark has_prefix beq
apply_hunk-Found_example =
    apply_hunk-Found (codes "z" ∷ text) change false 1 (omega arith) (omega arith) refl
      (omega arith) refl

apply_hunk-deletion_example : apply_hunk text deletion false ≡ (text, false)
unfolding expected old_lines verify_hunk verify_from differs mark has_prefix beq
apply_hunk-deletion_example =
    apply_hunk-deletion text (codes "b" ∷ codes "c" ∷ []) deletion false (omega arith) (omega arith)
      refl (omega arith) refl

apply_hunks-Applies_example :
    (Applies false false text
      (take
        (apply_hunks false false 0 text (change ∷ deletion ∷ [])).applied
        (change ∷ deletion ∷ []))
      (apply_hunks false false 0 text (change ∷ deletion ∷ [])).lines)
    × ((apply_hunks false false 0 text (change ∷ deletion ∷ [])).rejected
        ≡ (if (apply_hunks false false 0 text (change ∷ deletion ∷ [])).applied == 2 then 0 else 1))
    × (failed_number (apply_hunks false false 0 text (change ∷ deletion ∷ [])).failed ≡ (
        if (apply_hunks false false 0 text (change ∷ deletion ∷ [])).applied == 2
        then none
        else some ((apply_hunks false false 0 text (change ∷ deletion ∷ [])).applied + 1)))
apply_hunks-Applies_example = apply_hunks-Applies false false text (change ∷ deletion ∷ [])

-- The first hunk is applied and written although the second fails.
run_two :
    run
      (λ f. some (codes "a\nb\nc\n"))
      (record { old_file = codes "a/f"; new_file = codes "b/f"; hunks = change ∷ change ∷ [] })
      []
      1
      false
      false
    ≡ patched
        (codes "f")
        false
        (record {
          lines = codes "a" ∷ codes "x" ∷ codes "y" ∷ codes "c" ∷ [];
          applied = 1;
          rejected = 1;
          failed = some (2, true);
        })
        (some (codes "a\nx\ny\nc\n"))
unfolding run strip_path until_tab strip_from trim_slashes file_lines output ends_newline drop_last
    split split_go join join_tail apply_hunks apply_hunk already_applied expected search begins
    fuzzy apply_at new_lines verify_hunk verify_from differs mark reverse_hunk has_prefix beq
run_two = refl
