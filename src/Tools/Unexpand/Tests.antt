-- ===== src/Tools/Unexpand/Tests.antt =====
-- `unexpand` on small lines.
use go_posix.Base.{◌≡◌, refl, true, false, codes, arith}
use go_posix.Tools.Expand.{expand_line}
use go_posix.Tools.Unexpand.{
  unexpand_line, unexpand_from, has_multi_byte, blank_run, blank_run_contains_tab, blanks_to_tabs,
  advance_col, is_blank,
}
use go_posix.Tools.Unexpand.Expanded.{expand_line-unexpand_line}

-- Only the leading blanks, and blanks with a tab among them, are converted.
leading_blanks : unexpand_line (codes "      a    b \tc") 4 false ≡ codes "\t  a    b\tc"
unfolding unexpand_line unexpand_from has_multi_byte blank_run blank_run_contains_tab blanks_to_tabs
    advance_col is_blank
leading_blanks = refl

-- In a line with a rune that is not ASCII, all blanks are converted.
multi_byte : unexpand_line (codes "é    b") 4 false ≡ codes "é\t b"
unfolding unexpand_line unexpand_from has_multi_byte blank_run blank_run_contains_tab blanks_to_tabs
    advance_col is_blank
multi_byte = refl

expand_line-unexpand_line_example :
    expand_line (unexpand_line (codes "     a    b") 4 true) 4 false
    ≡ expand_line (codes "     a    b") 4 false
expand_line-unexpand_line_example =
    expand_line-unexpand_line (codes "     a    b") 4 true (omega arith)
