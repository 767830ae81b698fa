-- ===== src/Tools/Expand.antt =====
-- pkg/expand/expand.go: `expandLine`, `Transform`, and what `expandRun` does to its input. A line is
-- a list of runes (the text is valid UTF-8).
mod TabStops
mod Tests
use go_posix.Base.{
  ℕ, zero, suc, ◌+◌, ◌-◌, ◌%◌, Bool, true, false, not, ◌&&◌, List, [], ◌∷◌, ◌++◌, map, Bytes, codes,
  ltb, ◌==◌, if◌then◌else◌, replicate,
}
use go_posix.Base.Text.{split, join}

-- The loop over the line from the column `col` on.
unfoldable pub expand_from : ℕ → Bool → ℕ → Bytes → Bytes
expand_from tab_width initial_only col [] = []
expand_from tab_width initial_only col (r ∷ line) =
    let spaces = tab_width - col % tab_width in
    let behind_tab = expand_from tab_width initial_only (col + spaces) line in
    let behind = expand_from tab_width initial_only (col + 1) line in
    if r == b'\t'
    then replicate spaces b' ' ++ behind_tab
    else r ∷ (if initial_only && not (r == b' ') then line else behind)

unfoldable pub expand_line : Bytes → ℕ → Bool → Bytes
unfolding expand_from
expand_line line tab_width initial_only = expand_from tab_width initial_only 0 line

pub expand_lines : List Bytes → ℕ → Bool → List Bytes
unfolding expand_line
expand_lines [] tab_width initial_only = []
expand_lines (l ∷ ls) tab_width initial_only =
    expand_line l tab_width initial_only ∷ expand_lines ls tab_width initial_only

pub transform : Bytes → ℕ → Bool → Bytes
unfolding expand_lines
transform [] tab_width initial_only = []
transform (c ∷ input) tab_width initial_only =
    join (expand_lines (split (c ∷ input) (codes "\n")) tab_width initial_only) (codes "\n")

-- The text without a newline at its end, and whether it had one.
pub chop : Bytes → Bytes × Bool
chop [] = ([], false)
chop (c ∷ []) = if c == b'\n' then ([], true) else (c ∷ [], false)
chop (c ∷ d ∷ s) = let rest = chop (d ∷ s) in (c ∷ rest.0, rest.1)

-- What `expandRun` prints for its input, without `--json`.
pub expand_text : Bytes → ℕ → Bool → Bytes
unfolding expand_lines chop
expand_text input tab_width initial_only =
    let (text, newline) = chop input in
    join (expand_lines (split text (codes "\n")) tab_width initial_only) (codes "\n")
    ++ (if newline then codes "\n" else [])
