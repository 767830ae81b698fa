-- ===== src/Tools/Comm/Tests.antt =====
-- Two sorted files with a line in common.
use go_posix.Base.{◌≡◌, refl, List, [], ◌∷◌, Bytes, codes}
use go_posix.Base.Order.{compare_bytes, IsSorted}
use go_posix.Tools.Comm.{compare, format, counts}
use go_posix.Tools.Comm.Columns.{show_all, texts, from_file1, from_file2, texts-compare}

abbrev left : List Bytes
left = codes "a" ∷ codes "b" ∷ codes "b" ∷ []

abbrev right : List Bytes
right = codes "b" ∷ codes "c" ∷ []

three_columns : format (compare left right show_all) ≡ codes "a\n\t\tb\nb\n\tc\n"
unfolding format compare compare_bytes
three_columns = refl

totals : counts (compare left right show_all) ≡ (2, 1, 1)
unfolding counts compare compare_bytes
totals = refl

texts-compare_example :
    (texts from_file1 (compare left right show_all) ≡ left)
    × (texts from_file2 (compare left right show_all) ≡ right)
texts-compare_example = texts-compare left right

left-IsSorted : IsSorted left
unfolding compare_bytes
left-IsSorted = (((λ e. cc), ((λ e. cc), tt)), (((λ e. cc), tt), (tt, tt)))

right-IsSorted : IsSorted right
unfolding compare_bytes
right-IsSorted = (((λ e. cc), tt), (tt, tt))
