-- ===== src/Tools/Fold/Tests.antt =====
-- `fold` on small lines.
use go_posix.Base.{◌≡◌, refl, true, false, codes, arith}
use go_posix.Tools.Fold.{fold_line, fold_from, scan, advance, cut_at_space, has_space, skip_space}
use go_posix.Tools.Fold.Widths.{fold_line_lem, fits, letters}

-- With -s, the space that stands at a break is lost.
space_lost : fold_line (codes "abc def") 3 false true ≡ codes "abc\ndef"
unfolding fold_line fold_from scan advance cut_at_space has_space skip_space
space_lost = refl

last_space : fold_line (codes "ab c d\te") 5 false true ≡ codes "ab c \nd\n\t\ne"
unfolding fold_line fold_from scan advance cut_at_space has_space skip_space
last_space = refl

fold_line_lem_example :
    (fits false 3 0 (fold_line (codes "ab cde") 3 false true) ≡ true)
    × (letters true (fold_line (codes "ab cde") 3 false true) ≡ letters true (codes "ab cde"))
fold_line_lem_example = fold_line_lem (codes "ab cde") 3 false true (omega arith) (ground arith)
