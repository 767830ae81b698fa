-- ===== src/Tools/Patch/Refused.antt =====
-- Hunks that `applyHunk` takes for applied before it looks for their old lines.
use go_posix.Base.{
  ℕ, zero, suc, ◌+◌, ◌-◌, ◌≤◌, ◌≡◌, ◌≢◌, ◌∙◌, refl, ap, Bool, true, false, List, [], ◌∷◌, ◌++◌,
  append_assoc, Bytes, beq_iff, arith, ltb, ◌==◌, if◌then◌else◌, length, length-append, drop,
}
use go_posix.Tools.Patch.{Hunk, verify_hunk, expected, begins, search, already_applied, apply_hunk}
use go_posix.Tools.Patch.Texts.{old_lines, verify_from-drop}

begins-append : (xs ys : List Bytes) → begins (xs ++ ys) xs ≡ true
unfolding begins
begins-append [] ys = refl
begins-append (x ∷ xs) ys = ground (arith, beq_iff x x, begins-append xs ys)

search-begins :
    (lines wanted : List Bytes) (rounds : ℕ)
    → 1 ≤ rounds
    → begins lines wanted ≡ true
    → search lines wanted rounds ≡ true
unfolding search
search-begins lines wanted zero le h = absurd (omega arith)
search-begins lines wanted (suc rounds) le h = rw h refl

-- A hunk that only takes out lines behind its context, some of it not empty, and whose old lines stand in
-- the text at the line that its header names, counts as applied: the text stays as it is.
pub apply_hunk-deletion :
    (lines more : List Bytes) (h : Hunk) (ignore_applied : Bool)
    → h.old_count ≢ 0
    → 1 ≤ length (expected h.lines)
    → old_lines h.lines ≡ expected h.lines ++ more
    → h.old_start - 1 + length (old_lines h.lines) ≤ length lines
    → verify_hunk lines h (h.old_start - 1) ≡ true
    → apply_hunk lines h ignore_applied ≡ (lines, ignore_applied)
unfolding apply_hunk already_applied verify_hunk
apply_hunk-deletion lines more h ignore_applied some_ context_ only inside ok_ =
    let start = h.old_start - 1 in
    let wanted = expected h.lines in
    let here = verify_from-drop lines h.lines start inside ok_ in
    let post = drop (start + length (old_lines h.lines)) lines in
    let grouped : drop start lines ≡ wanted ++ (more ++ post) =
      here ∙ ap (λ ls. ls ++ post) only ∙ append_assoc wanted more post in
    let seen : begins (drop start lines) wanted ≡ true =
      rw grouped (begins-append wanted (more ++ post)) in
    let long : length (old_lines h.lines) ≡ length wanted + length more =
      ap length only ∙ length-append wanted more in
    let limit = start + length wanted + 10 in
    let end = if ltb (length lines) limit then length lines else limit in
    let some_rounds : 1 ≤ end + 1 - (start + length wanted) = ground (arith, long) in
    let counted =
      search-begins (drop start lines) wanted (end + 1 - (start + length wanted)) some_rounds
        seen in
    let not_empty : (h.old_count == 0) ≡ false = ground arith in
    let not_short : (length wanted == 0) ≡ false = ground arith in
    rw not_empty (rw not_short (rw counted refl))
