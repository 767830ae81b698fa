-- ===== src/Tools/Expand/TabStops.antt =====
-- Where the text behind a tab goes.
use native.Mathlib.Nat.{mod-add-mod, mod_self, mod-lt, zero-mod}
use go_posix.Base.{
  ℕ, zero, suc, ◌+◌, ◌-◌, ◌%◌, ◌<◌, ◌≡◌, ◌≢◌, refl, sym, ap, ◌∙◌, false, [], ◌∷◌, ◌++◌, Bytes, ◌==◌,
  replicate, length, arith, Bool-cases, inl, inr, Lacks, All-append, length-append,
  length-replicate, append_assoc, append-nil,
}
use go_posix.Tools.Expand.{expand_from, expand_line}

replicate-Lacks : (n : ℕ) → Lacks b'\t' (replicate n b' ')
replicate-Lacks zero = tt
replicate-Lacks (suc n) = (ground arith, replicate-Lacks n)

-- Columns that are as far behind a tab stop give the same text.
mod-step : (w k a b : ℕ) → a % w ≡ b % w → (a + k) % w ≡ (b + k) % w
mod-step w k a b h = sym (mod-add-mod a w k) ∙ ap (λ (x : ℕ). (x + k) % w) h ∙ mod-add-mod b w k

module _ (w : ℕ) where
  expand_from-mod :
      (a b : ℕ) (line : Bytes)
      → a % w ≡ b % w
      → expand_from w false a line ≡ expand_from w false b line
  unfolding expand_from
  expand_from-mod a b [] h = refl
  expand_from-mod a b (r ∷ line) h = elim (Bool-cases (r == b'\t')) [
    | inl e ↦
        let tail =
          expand_from-mod (a + (w - a % w)) (b + (w - a % w)) line (mod-step w (w - a % w) a b h) in
        rw (e, tail)
          (ap (λ (m : ℕ). replicate (w - m) b' ' ++ expand_from w false (b + (w - m)) line) h)
    | inr e ↦ rw e (ap (λ xs. r ∷ xs) (expand_from-mod (a + 1) (b + 1) line (mod-step w 1 a b h)))
  ]

  -- The column behind a tab is a tab stop.
  tab_stop : (col : ℕ) → 0 < w → (col + (w - col % w)) % w ≡ 0
  tab_stop col h =
      let below = mod-lt col h in
      let full : col % w + (w - col % w) ≡ w = omega (arith, below) in
      sym (mod-add-mod col w (w - col % w)) ∙ ap (λ (x : ℕ). x % w) full ∙ mod_self w

  expand_from-Lacks : (col : ℕ) (line : Bytes) → Lacks b'\t' (expand_from w false col line)
  unfolding expand_from
  expand_from-Lacks col [] = tt
  expand_from-Lacks col (r ∷ line) = elim (Bool-cases (r == b'\t')) [
    | inl e ↦ rw e (
        All-append (λ (b : ℕ). b ≢ b'\t') (replicate (w - col % w) b' ')
          (expand_from w false (col + (w - col % w)) line) (replicate-Lacks (w - col % w))
          (expand_from-Lacks (col + (w - col % w)) line))
    | inr e ↦ rw e (ground arith, expand_from-Lacks (col + 1) line)
  ]

  expand_from-append_tab :
      (col : ℕ) (a b : Bytes)
      → 0 < w
      → expand_from w false col (a ++ b'\t' ∷ b)
        ≡ expand_from w false col (a ++ b'\t' ∷ []) ++ expand_from w false 0 b
  unfolding expand_from
  expand_from-append_tab col [] b h =
      let stop = tab_stop col h ∙ sym (zero-mod w) in
      rw (append-nil {A = ℕ} (replicate (w - col % w) b' ')) (
        ap (λ xs. replicate (w - col % w) b' ' ++ xs)
          (expand_from-mod (col + (w - col % w)) 0 b stop))
  expand_from-append_tab col (r ∷ a) b h = elim (Bool-cases (r == b'\t')) [
    | inl e ↦ rw e (
        ap (λ xs. replicate (w - col % w) b' ' ++ xs)
          (expand_from-append_tab (col + (w - col % w)) a b h)
        ∙ sym (
            append_assoc (replicate (w - col % w) b' ')
              (expand_from w false (col + (w - col % w)) (a ++ b'\t' ∷ []))
              (expand_from w false 0 b)))
    | inr e ↦ rw e (ap (λ xs. r ∷ xs) (expand_from-append_tab (col + 1) a b h))
  ]

  length-expand_from :
      (col : ℕ) (a : Bytes)
      → 0 < w
      → (col + length (expand_from w false col (a ++ b'\t' ∷ []))) % w ≡ 0
  unfolding expand_from
  length-expand_from col [] h =
      let len : length {A = ℕ} (replicate (w - col % w) b' ') ≡ w - col % w =
        length-replicate (w - col % w) b' ' in
      rw (append-nil {A = ℕ} (replicate (w - col % w) b' '), len) (tab_stop col h)
  length-expand_from col (r ∷ a) h = elim (Bool-cases (r == b'\t')) [
    | inl e ↦
        let rest = expand_from w false (col + (w - col % w)) (a ++ b'\t' ∷ []) in
        let len : length {A = ℕ} (replicate (w - col % w) b' ' ++ rest)
            ≡ w - col % w + length rest =
          length-append (replicate (w - col % w) b' ') rest
          ∙ ap (λ (x : ℕ). x + length rest) (length-replicate (w - col % w) b' ') in
        let regroup : col + (w - col % w + length rest) ≡ col + (w - col % w) + length rest =
          omega arith in
        rw (e, len, regroup) (length-expand_from (col + (w - col % w)) a h)
    | inr e ↦
        let rest = expand_from w false (col + 1) (a ++ b'\t' ∷ []) in
        let regroup : col + suc (length rest) ≡ col + 1 + length rest = omega arith in
        rw (e, regroup) (length-expand_from (col + 1) a h)
  ]

-- Without -i the expanded line holds no tab.
expand_line-Lacks : (line : Bytes) (w : ℕ) → Lacks b'\t' (expand_line line w false)
unfolding expand_line
expand_line-Lacks line w = expand_from-Lacks w 0 line

-- Without -i the text up to a tab is expanded to a whole number of tab widths, and the text behind
-- the tab as if it began the line. The condition is a tab width other than 0.
expand_line-append_tab :
    (a b : Bytes) (w : ℕ)
    → 0 < w
    → (expand_line (a ++ b'\t' ∷ b) w false
        ≡ expand_line (a ++ b'\t' ∷ []) w false ++ expand_line b w false)
      × (length (expand_line (a ++ b'\t' ∷ []) w false) % w ≡ 0)
unfolding expand_line
expand_line-append_tab a b w h =
    let len = length-expand_from w 0 a h in
    (expand_from-append_tab w 0 a b h, ap (λ (x : ℕ). x % w) (omega arith) ∙ len)
