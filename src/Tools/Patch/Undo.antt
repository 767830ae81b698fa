-- ===== src/Tools/Patch/Undo.antt =====
-- A hunk at the place where it fits, and the reversed hunk behind it.
use go_posix.Base.{
  ℕ, suc, ◌+◌, ◌≤◌, ◌≡◌, ◌∙◌, refl, sym, ap, true, List, [], ◌∷◌, ◌++◌, append_assoc, map, Bytes,
  arith, length, length-append, length-take, take, drop, take-append-drop,
}
use go_posix.Tools.Patch.{Hunk, reverse_line, reverse_hunk, verify_hunk, new_lines, apply_at}
use go_posix.Tools.Patch.Texts.{old_lines, verify_from-drop, drop-verify_from, lines-reverse}

-- A hunk whose header counts its lines, at a place of the text where its old lines fit.
pub record Fits (lines : List Bytes) (h : Hunk) (pos : ℕ) : Type 0 where
  pub old_count : h.old_count ≡ length (old_lines h.lines)
  pub new_count : h.new_count ≡ length (new_lines h.lines)
  pub inside : pos + h.old_count ≤ length lines

take-append {ℓ} : {A : Type ℓ} (xs ys : List A) → take (length xs) (xs ++ ys) ≡ xs
take-append [] ys = refl
take-append (x ∷ xs) ys = ap (λ zs. x ∷ zs) (take-append xs ys)

pub drop-append {ℓ} :
    {A : Type ℓ} (xs ys : List A) (n : ℕ) → drop (length xs + n) (xs ++ ys) ≡ drop n ys
drop-append [] ys n = ap (λ k. drop k ys) (omega arith)
drop-append (x ∷ xs) ys n =
    ap (λ k. drop k (x ∷ (xs ++ ys))) {x = suc (length xs) + n} {y = suc (length xs + n)}
      (omega arith)
    ∙ drop-append xs ys n

-- The text before the hunk, its old lines, and the text behind it.
split_at :
    (lines : List Bytes) (h : Hunk) (pos : ℕ)
    → Fits lines h pos
    → verify_hunk lines h pos ≡ true
    → lines ≡ take pos lines ++ (old_lines h.lines ++ drop (pos + h.old_count) lines)
unfolding verify_hunk
split_at lines h pos fits ok_ =
    let counted = fits.old_count in
    let inside : pos + length (old_lines h.lines) ≤ length lines =
      omega (arith, fits.inside, counted) in
    sym (take-append-drop pos lines)
    ∙ ap (λ ls. take pos lines ++ ls)
        (verify_from-drop lines h.lines pos inside ok_
          ∙ ap (λ n. old_lines h.lines ++ drop (pos + n) lines) (sym counted))

length-before :
    (lines : List Bytes) (h : Hunk) (pos : ℕ) → Fits lines h pos → length (take pos lines) ≡ pos
length-before lines h pos fits = omega (arith, length-take pos lines, fits.inside)

-- The three parts of a text, by the length of the first.
pub parts :
    (pre mid post : List Bytes) (pos : ℕ)
    → length pre ≡ pos
    → (take pos (pre ++ mid ++ post) ≡ pre)
      × (drop pos (pre ++ mid ++ post) ≡ mid ++ post)
      × (drop (pos + length mid) (pre ++ mid ++ post) ≡ post)
parts pre mid post pos len =
    let grouped = append_assoc pre mid post in
    (
      ap (λ n. take n (pre ++ mid ++ post)) (sym len)
          ∙ ap (take (length pre)) grouped
          ∙ take-append pre (mid ++ post),
      ap (λ n. drop n (pre ++ mid ++ post)) {x = pos} {y = length pre + 0} (omega (arith, len))
          ∙ ap (drop (length pre + 0)) grouped
          ∙ drop-append pre (mid ++ post) 0,
      ap (λ n. drop n (pre ++ mid ++ post)) {x = pos + length mid} {y = length (pre ++ mid) + 0}
            (omega (arith, len, length-append pre mid))
          ∙ drop-append (pre ++ mid) post 0,
    )

-- Where a hunk fits and is verified, the reversed hunk is verified at the same place of the result, and
-- brings the text back.
pub apply_at-reverse :
    (lines : List Bytes) (h : Hunk) (pos : ℕ)
    → Fits lines h pos
    → verify_hunk lines h pos ≡ true
    → (verify_hunk (apply_at lines h pos) (reverse_hunk h) pos ≡ true)
      × (apply_at (apply_at lines h pos) (reverse_hunk h) pos ≡ lines)
unfolding verify_hunk apply_at reverse_hunk
apply_at-reverse lines h pos fits ok_ =
    let pre = take pos lines in
    let mid = new_lines h.lines in
    let post = drop (pos + h.old_count) lines in
    let (before, here, behind) = parts pre mid post pos (length-before lines h pos fits) in
    let (old, new) = lines-reverse h.lines in
    let counted = fits.new_count in
    (
      drop-verify_from (pre ++ mid ++ post) (map reverse_line h.lines) post pos
          (here ∙ ap (λ ls. ls ++ post) (sym old)),
      ap
            (λ ls.
              ls
              ++ new_lines (map reverse_line h.lines)
              ++ drop (pos + h.new_count) (pre ++ mid ++ post))
            before
          ∙ ap (λ ls. pre ++ ls ++ drop (pos + h.new_count) (pre ++ mid ++ post)) new
          ∙ ap (λ n. pre ++ old_lines h.lines ++ drop (pos + n) (pre ++ mid ++ post)) counted
          ∙ ap (λ ls. pre ++ old_lines h.lines ++ ls) behind
          ∙ append_assoc pre (old_lines h.lines) post
          ∙ sym (split_at lines h pos fits ok_),
    )
