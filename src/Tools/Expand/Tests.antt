-- ===== src/Tools/Expand/Tests.antt =====
-- `expand` on small lines.
use go_posix.Base.{◌≡◌, refl, false, true, codes}
use go_posix.Base.FilePath.{has_prefix}
use go_posix.Base.Text.{split, split_go, join, join_tail}
use go_posix.Tools.Expand.{expand_line, expand_from, expand_text, expand_lines, chop}

two_lines : expand_text (codes "a\tb\n\tc\n") 4 false ≡ codes "a   b\n    c\n"
unfolding expand_text expand_lines expand_line expand_from chop split split_go join join_tail
    has_prefix
two_lines = refl

initial_tabs : expand_line (codes "\ta\tb") 4 true ≡ codes "    a\tb"
unfolding expand_line expand_from
initial_tabs = refl
