-- ===== src/Tools/Fold.antt =====
-- pkg/fold/fold.go: `Fold` and what it calls. A line is a list of bytes with `byteMode`, and of runes
-- without it (the text is valid UTF-8); `start` and `i` are the suffixes that start there.
mod Widths
mod Tests
use go_posix.Base.{
  ℕ, zero, suc, ◌+◌, ◌-◌, ◌%◌, Bool, true, false, not, ◌&&◌, ◌||◌, List, [], ◌∷◌, ◌++◌, map, Bytes,
  codes, ltb, leb, ◌==◌, if◌then◌else◌, length,
}
use go_posix.Base.Text.{split, join}
use go_posix.Tools.Expand.{chop}

pub advance : Bool → ℕ → ℕ → ℕ
advance byte_mode pos r = if not byte_mode && r == b'\t' then 8 - pos % 8 else 1

-- The loop from `start` on, up to the next break: what stands before the break, and what is left,
-- nothing where the line ends. (The case of a byte that is wider than the width does not occur.)
pub scan : Bool → ℕ → ℕ → Bytes → Bytes × Bytes
scan byte_mode width pos [] = ([], [])
scan byte_mode width pos (r ∷ s) =
    let next = pos + advance byte_mode pos r in
    let rest = scan byte_mode width next s in
    if ltb width next && ltb 0 pos then ([], r ∷ s) else (r ∷ rest.0, rest.1)

pub has_space : Bytes → Bool
has_space [] = false
has_space (r ∷ s) = r == b' ' || has_space s

-- Up to the last space, and what stands behind it; the whole text where it has none.
pub cut_at_space : Bytes → Bytes × Bytes
cut_at_space [] = ([], [])
cut_at_space (r ∷ s) =
    let rest = cut_at_space s in
    if r == b' ' && not (has_space s) then (r ∷ [], s) else (r ∷ rest.0, rest.1)

-- `if spaceBreak && start < len(line) && line[start] == ' ' { start++ }`
pub skip_space : Bool → Bytes → Bytes
skip_space space_break [] = []
skip_space space_break (r ∷ s) = if space_break && r == b' ' then s else r ∷ s

-- The loop from break to break, with as many rounds left.
pub fold_from : ℕ → Bool → ℕ → Bool → Bytes → Bytes
fold_from zero byte_mode width space_break line = []
fold_from (suc rounds) byte_mode width space_break line =
    let (taken, left) = scan byte_mode width 0 line in
    let (piece, more) = if space_break then cut_at_space taken else (taken, []) in
    let rest =
      fold_from rounds byte_mode width space_break (skip_space space_break (more ++ left)) in
    elim left [ [] ↦ taken | r ∷ s ↦ piece ++ b'\n' ∷ rest ]

-- `foldLine`
pub fold_line : Bytes → ℕ → Bool → Bool → Bytes
fold_line line width byte_mode space_break =
    if width == 0 then line else fold_from (length line) byte_mode width space_break line

-- `Fold` on the data that it reads
pub fold : Bytes → ℕ → Bool → Bool → Bytes
fold [] width byte_mode space_break = []
fold (c ∷ input) width byte_mode space_break =
    let (text, newline) = chop (c ∷ input) in
    join (map (λ line. fold_line line width byte_mode space_break) (split text (codes "\n")))
      (codes "\n")
    ++ (if newline then codes "\n" else [])
