-- ===== src/Tools/Unexpand.antt =====
-- pkg/unexpand/unexpand.go: `Transform` and what it calls. A line is a list of runes (the text is valid
-- UTF-8).
mod Expanded
mod Tests
use go_posix.Base.{
  ℕ, zero, suc, ◌+◌, ◌-◌, ◌%◌, Bool, true, false, ◌&&◌, ◌||◌, List, [], ◌∷◌, ◌++◌, map, Bytes,
  codes, ltb, leb, ◌==◌, if◌then◌else◌, length,
}
use go_posix.Base.Text.{split, join}
use go_posix.Tools.Expand.{chop}

pub is_blank : ℕ → Bool
is_blank r = r == b' ' || r == b'\t'

pub advance_col : ℕ → ℕ → ℕ → ℕ
advance_col col r tab_width = if r == b'\t' then col + tab_width - col % tab_width else col + 1

pub blank_run_contains_tab : Bytes → Bool
blank_run_contains_tab [] = false
blank_run_contains_tab (r ∷ s) =
    let rest = blank_run_contains_tab s in
    if is_blank r then (if r == b'\t' then true else rest) else false

-- The loop over a run of blanks: the column behind it, and what is left.
pub blank_run : ℕ → ℕ → Bytes → ℕ × Bytes
blank_run tab_width col [] = (col, [])
blank_run tab_width col (r ∷ s) =
    let rest = blank_run tab_width (advance_col col r tab_width) s in
    if is_blank r then rest else (col, r ∷ s)

-- The loop of `blanksToTabs` from `col` on, with as many rounds left.
pub blanks_to_tabs : ℕ → ℕ → ℕ → ℕ → Bytes
blanks_to_tabs zero col end_col tab_width = []
blanks_to_tabs (suc rounds) col end_col tab_width =
    let next = col + tab_width - col % tab_width in
    let fits = leb next end_col in
    let rest = blanks_to_tabs rounds (if fits then next else col + 1) end_col tab_width in
    if ltb col end_col then (if fits then b'\t' else b' ') ∷ rest else []

-- The loop of `unexpandLine` from the column `col` on, with as many rounds left.
pub unexpand_from : ℕ → ℕ → Bool → ℕ → Bytes → Bytes
unexpand_from zero tab_width all_blanks col line = []
unexpand_from (suc rounds) tab_width all_blanks col [] = []
unexpand_from (suc rounds) tab_width all_blanks col (r ∷ s) =
    let (end_col, left) = blank_run tab_width col (r ∷ s) in
    let convert = is_blank r && (all_blanks || col == 0 || blank_run_contains_tab (r ∷ s)) in
    let rest =
      unexpand_from rounds tab_width all_blanks
        (if convert then end_col else advance_col col r tab_width) (if convert then left else s) in
    if convert then blanks_to_tabs (end_col - col) col end_col tab_width ++ rest else r ∷ rest

-- Whether a byte of the line is 0x80 or more.
pub has_multi_byte : Bytes → Bool
has_multi_byte [] = false
has_multi_byte (r ∷ s) = leb 0x80 r || has_multi_byte s

pub unexpand_line : Bytes → ℕ → Bool → Bytes
unexpand_line line tab_width all_blanks =
    unexpand_from (length line) tab_width (all_blanks || has_multi_byte line) 0 line

pub transform : Bytes → ℕ → Bool → Bytes
transform [] tab_width all_blanks = []
transform (c ∷ input) tab_width all_blanks =
    let (text, newline) = chop (c ∷ input) in
    join (map (λ line. unexpand_line line tab_width all_blanks) (split text (codes "\n")))
      (codes "\n")
    ++ (if newline then codes "\n" else [])
