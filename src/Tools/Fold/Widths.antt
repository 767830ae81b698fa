-- ===== src/Tools/Fold/Widths.antt =====
-- The lines of `fold`, their widths and their text.
use go_posix.Base.{
  ℕ, zero, suc, ◌+◌, ◌≤◌, ◌<◌, ◌≡◌, refl, sym, ap, ◌∙◌, subst⁻¹, inl, inr, Bool, true, false, not,
  ◌&&◌, ◌||◌, [], ◌∷◌, ◌++◌, append_assoc, append-nil, Bytes, Lacks, arith, length, length-append,
  leb, ◌==◌, if◌then◌else◌, Bool-cases,
}
use go_posix.Tools.Fold.{advance, scan, cut_at_space, skip_space, fold_from, fold_line}

-- No rune of a line goes over the width, but for the first one of the line.
unfoldable pub fits : Bool → ℕ → ℕ → Bytes → Bool
unfolding advance
fits byte_mode width pos [] = true
fits byte_mode width pos (r ∷ s) =
    let next = pos + advance byte_mode pos r in
    let new_line = fits byte_mode width 0 s in
    let same_line = fits byte_mode width next s in
    if r == b'\n' then new_line else ((pos == 0 || leb next width) && same_line)

-- The text without its newlines, and without its spaces where it is broken there.
unfoldable pub letters : Bool → Bytes → Bytes
letters space_break [] = []
letters space_break (r ∷ s) =
    let rest = letters space_break s in
    if r == b'\n' || (space_break && r == b' ') then rest else r ∷ rest

letters-append : (b : Bool) (s t : Bytes) → letters b (s ++ t) ≡ letters b s ++ letters b t
unfolding letters
letters-append b [] t = refl
letters-append b (r ∷ s) t = ground (arith, letters-append b s t)

module _ (byte_mode : Bool) (width : ℕ) where
  -- A part of one line.
  within : ℕ → Bytes → Bool
  unfolding advance
  within pos [] = true
  within pos (r ∷ s) =
      let next = pos + advance byte_mode pos r in
      let rest = within next s in not (r == b'\n') && (pos == 0 || leb next width) && rest

  within-fits :
      (pos : ℕ) (s out : Bytes)
      → within pos s ≡ true
      → fits byte_mode width pos (s ++ b'\n' ∷ out) ≡ fits byte_mode width 0 out
  unfolding within fits
  within-fits pos [] out h = refl
  within-fits pos (r ∷ s) out h =
      ground (arith, h, within-fits (pos + advance byte_mode pos r) s out)

  fits-within : (pos : ℕ) (s : Bytes) → within pos s ≡ true → fits byte_mode width pos s ≡ true
  unfolding within fits
  fits-within pos [] h = refl
  fits-within pos (r ∷ s) h = ground (arith, h, fits-within (pos + advance byte_mode pos r) s)

  within-front : (pos : ℕ) (s t : Bytes) → within pos (s ++ t) ≡ true → within pos s ≡ true
  unfolding within
  within-front pos [] t h = refl
  within-front pos (r ∷ s) t h = ground (arith, h, within-front (pos + advance byte_mode pos r) s t)

  scan-within :
      (pos : ℕ) (s : Bytes)
      → Lacks b'\n' s
      → (within pos (scan byte_mode width pos s).0 ≡ true)
        × ((scan byte_mode width pos s).0 ++ (scan byte_mode width pos s).1 ≡ s)
  unfolding within scan
  scan-within pos [] h = (refl, refl)
  scan-within pos (r ∷ s) (hr, h) =
      let (w, e) = scan-within (pos + advance byte_mode pos r) s h in
      (ground (arith, hr, w, e), ground (arith, hr, w, e))

  scan_some : (r : ℕ) (s : Bytes) → 1 ≤ length (scan byte_mode width 0 (r ∷ s)).0
  unfolding scan
  scan_some r s = ground arith

cut_at_space-append : (s : Bytes) → (cut_at_space s).0 ++ (cut_at_space s).1 ≡ s
unfolding cut_at_space
cut_at_space-append [] = refl
cut_at_space-append (r ∷ s) = ground (arith, cut_at_space-append s)

cut_some : (s : Bytes) → 1 ≤ length s → 1 ≤ length (cut_at_space s).0
unfolding cut_at_space
cut_some [] h = absurd (omega (arith, h))
cut_some (r ∷ s) h = ground arith

-- The two parts of a line at a break.
parts_at : Bool → Bytes → Bytes × Bytes
parts_at space_break taken = if space_break then cut_at_space taken else (taken, [])

parts_at-append : (b : Bool) (t : Bytes) → (parts_at b t).0 ++ (parts_at b t).1 ≡ t
unfolding parts_at
parts_at-append true t = cut_at_space-append t
parts_at-append false t = append-nil t

parts_at_some : (b : Bool) (t : Bytes) → 1 ≤ length t → 1 ≤ length (parts_at b t).0
unfolding parts_at
parts_at_some true t h = cut_some t h
parts_at_some false t h = h

skip_space-letters : (b : Bool) (s : Bytes) → letters b (skip_space b s) ≡ letters b s
unfolding skip_space letters
skip_space-letters b [] = refl
skip_space-letters b (r ∷ s) = ground arith

skip_space_le : (b : Bool) (s : Bytes) → length (skip_space b s) ≤ length s
unfolding skip_space
skip_space_le b [] = omega arith
skip_space_le b (r ∷ s) = ground arith

skip_space-Lacks : (b : Bool) (s : Bytes) → Lacks b'\n' s → Lacks b'\n' (skip_space b s)
unfolding skip_space
skip_space-Lacks b [] h = h
skip_space-Lacks b (r ∷ s) (hr, h) = elim (Bool-cases (b && r == b' ')) [
  | inl e ↦ rw e h
  | inr e ↦ rw e (hr, h)
]

Lacks-behind : (s t : Bytes) → Lacks b'\n' (s ++ t) → Lacks b'\n' t
Lacks-behind [] t h = h
Lacks-behind (r ∷ s) t (_, h) = Lacks-behind s t h

module _ (byte_mode : Bool) (width : ℕ) (space_break : Bool) where
  -- A text that fits and has the letters of the line.
  Folded : Bytes → Bytes → Type 0
  Folded line out =
      (fits byte_mode width 0 out ≡ true) × (letters space_break out ≡ letters space_break line)

  Folded-break :
      (taken left line rest : Bytes)
      → taken ++ left ≡ line
      → within byte_mode width 0 taken ≡ true
      → let (piece, more) = parts_at space_break taken in
        Folded (skip_space space_break (more ++ left)) rest
        → Folded line (elim left [ [] ↦ taken | r ∷ s ↦ piece ++ b'\n' ∷ rest ])
  unfolding Folded letters
  Folded-break taken [] line rest e w folded =
      (fits-within byte_mode width 0 taken w, ap (letters space_break) (sym (append-nil taken) ∙ e))
  Folded-break taken (c ∷ left) line rest e w (fit, same) =
      let p = (parts_at space_break taken).0 in
      let m = (parts_at space_break taken).1 in
      let whole = parts_at-append space_break taken in
      let front : within byte_mode width 0 p ≡ true =
        within-front byte_mode width 0 p m
          (subst⁻¹ (λ t. within byte_mode width 0 t ≡ true) whole w) in
      (
        within-fits byte_mode width 0 p rest front ∙ fit,
        letters-append space_break p (b'\n' ∷ rest)
            ∙ ap (λ t. letters space_break p ++ t)
                (same ∙ skip_space-letters space_break (m ++ c ∷ left))
            ∙ sym (letters-append space_break p (m ++ c ∷ left))
            ∙ ap (letters space_break)
                (sym (append_assoc p m (c ∷ left)) ∙ ap (λ t. t ++ c ∷ left) whole ∙ e),
      )

  Folded-nil : Folded [] []
  unfolding Folded fits letters
  Folded-nil = (refl, refl)

  fold_from-Folded :
      (rounds : ℕ) (line : Bytes)
      → length line ≤ rounds
      → Lacks b'\n' line
      → Folded line (fold_from rounds byte_mode width space_break line)
  unfolding fold_from parts_at scan
  fold_from-Folded zero [] le h = Folded-nil
  fold_from-Folded zero (r ∷ s) le h = absurd (omega (arith, le))
  fold_from-Folded (suc rounds) [] le h = Folded-nil
  fold_from-Folded (suc rounds) (r ∷ s) le h =
      let taken = (scan byte_mode width 0 (r ∷ s)).0 in
      let left = (scan byte_mode width 0 (r ∷ s)).1 in
      let (w, e) = scan-within byte_mode width 0 (r ∷ s) h in
      let p = (parts_at space_break taken).0 in
      let m = (parts_at space_break taken).1 in
      let next = skip_space space_break (m ++ left) in
      let lacks : Lacks b'\n' (m ++ left) = Lacks-behind p (m ++ left) (
        subst⁻¹ (Lacks b'\n')
          (sym (append_assoc p m left)
            ∙ ap (λ t. t ++ left) (parts_at-append space_break taken)
            ∙ e)
          h) in
      let shorter : length next ≤ rounds = omega (
        arith,
        le,
        skip_space_le space_break (m ++ left),
        length-append m left,
        length-append p m,
        length-append taken left,
        ap length e,
        ap length (parts_at-append space_break taken),
        parts_at_some space_break taken (scan_some byte_mode width r s),
      ) in
      Folded-break taken left (r ∷ s) (fold_from rounds byte_mode width space_break next) e w
        (fold_from-Folded rounds next shorter (skip_space-Lacks space_break (m ++ left) lacks))

-- Where a line has no newline and the width is not 0, no rune of a line of the result goes over the
-- width, but for the first of its line, and the text is that of the line but for newlines, and but for
-- spaces with -s.
pub fold_line_lem :
    (line : Bytes) (width : ℕ) (byte_mode space_break : Bool)
    → 0 < width
    → Lacks b'\n' line
    → (fits byte_mode width 0 (fold_line line width byte_mode space_break) ≡ true)
      × (letters space_break (fold_line line width byte_mode space_break)
          ≡ letters space_break line)
unfolding fold_line Folded
fold_line_lem line width byte_mode space_break pos_width h =
    let some_width : (width == 0) ≡ false = ground (arith, pos_width) in
    rw some_width (fold_from-Folded byte_mode width space_break (length line) line (omega arith) h)
