-- ===== src/Tools/Patch/Places.antt =====
-- The places at which `applyHunk` looks for the lines of a hunk.
use go_posix.Base.{
  ℕ, zero, suc, ◌+◌, ◌-◌, ◌≤◌, ◌<◌, ◌≡◌, ◌≢◌, ◌⊎◌, inl, inr, refl, subst, Bool, true, false, ◌&&◌,
  List, Bytes, arith, leb, ◌==◌, if◌then◌else◌, Bool-cases, length,
}
use go_posix.Tools.Patch.{Hunk, verify_hunk, apply_at, already_applied, fuzzy, apply_hunk}

-- The hunk is applied at a place where it is verified.
pub data Found (lines : List Bytes) (h : Hunk) : List Bytes × Bool → Type 0 where
  found : (q : ℕ) → verify_hunk lines h q ≡ true → Found lines h (apply_at lines h q, true)

Found-if :
    {lines : List Bytes} {h : Hunk} (r s : List Bytes × Bool) (b : Bool)
    → (b ≡ true → Found lines h r)
    → (b ≡ false → Found lines h s)
    → Found lines h (if b then r else s)
Found-if r s true f g = f refl
Found-if r s false f g = g refl

-- `p` stands `d` lines before or behind `pos`.
abbrev Apart : ℕ → ℕ → ℕ → Type 0
Apart p d pos = (p + d ≡ pos) ⊎ (p ≡ pos + d)

module _ (lines : List Bytes) (h : Hunk) (p : ℕ) (inside : p + h.old_count ≤ length lines)
    (ok_ : verify_hunk lines h p ≡ true) where
  -- At the distance of the offset one of the two tests succeeds.
  tests :
      (pos offset : ℕ)
      → Apart p offset pos
      → (leb offset pos && verify_hunk lines h (pos - offset)) ≡ false
      → (leb (pos + offset + h.old_count) (length lines) && verify_hunk lines h (pos + offset))
        ≢ false
  tests pos offset (inl e) t =
      let place : p ≡ pos - offset = omega arith in
      let here : verify_hunk lines h (pos - offset) ≡ true =
        subst (λ k. verify_hunk lines h k ≡ true) place ok_ in
      absurd (ground arith)
  tests pos offset (inr e) t =
      let here : verify_hunk lines h (pos + offset) ≡ true =
        subst (λ k. verify_hunk lines h k ≡ true) e ok_ in
      λ none_. ground arith

  further :
      (pos d offset : ℕ)
      → Apart p d pos
      → offset ≤ d
      → (leb offset pos && verify_hunk lines h (pos - offset)) ≡ false
      → (leb (pos + offset + h.old_count) (length lines) && verify_hunk lines h (pos + offset))
        ≡ false
      → offset + 1 ≤ d
  further pos d offset apart le t t' = elim (Bool-cases (d == offset)) [
    | inl e ↦
        let same : d ≡ offset = ground arith in
        absurd (tests pos offset (subst (λ k. Apart p k pos) same apart) t t')
    | inr e ↦ ground arith
  ]

  fuzzy-Found :
      (pos d offset rounds : ℕ)
      → Apart p d pos
      → offset ≤ d
      → d < offset + rounds
      → Found lines h (fuzzy lines h pos offset rounds)
  unfolding fuzzy
  fuzzy-Found pos d offset zero apart le lt = absurd (omega arith)
  fuzzy-Found pos d offset (suc rounds) apart le lt =
      Found-if _ _ (leb offset pos && verify_hunk lines h (pos - offset))
        (λ e. found (pos - offset) (ground arith))
        (λ e.
          Found-if _ _
            (leb (pos + offset + h.old_count) (length lines) && verify_hunk lines h (pos + offset))
            (λ e'. found (pos + offset) (ground arith))
            (λ e'.
              fuzzy-Found pos d (offset + 1) rounds apart (further pos d offset apart le e e')
                (omega arith)))

Apart-distance : (p pos : ℕ) → Apart p ((p - pos) + (pos - p)) pos
Apart-distance p pos = elim (Bool-cases (leb p pos)) [
  | inl e ↦ inl (ground arith)
  | inr e ↦ inr (ground arith)
]

away :
    (lines : List Bytes) (h : Hunk) (p pos : ℕ)
    → p + h.old_count ≤ length lines
    → verify_hunk lines h p ≡ true
    → (leb (pos + h.old_count) (length lines) && verify_hunk lines h pos) ≡ false
    → 1 ≤ (p - pos) + (pos - p)
away lines h p pos inside ok_ not_here = elim (Bool-cases (p == pos)) [
  | inl e ↦
      let same : p ≡ pos = ground arith in
      let here : verify_hunk lines h pos ≡ true =
        subst (λ k. verify_hunk lines h k ≡ true) same ok_ in
      absurd (ground arith)
  | inr e ↦ ground arith
]

-- Where the old lines of a hunk fit somewhere in the text, a hunk that does not begin more than a line
-- behind it and does not count as applied is applied at a place where it is verified.
pub apply_hunk-Found :
    (lines : List Bytes) (h : Hunk) (ignore_applied : Bool) (p : ℕ)
    → h.old_count ≢ 0
    → h.old_start ≤ length lines + 1
    → already_applied lines h ≡ false
    → p + h.old_count ≤ length lines
    → verify_hunk lines h p ≡ true
    → Found lines h (apply_hunk lines h ignore_applied)
unfolding apply_hunk
apply_hunk-Found lines h ignore_applied p some_ near fresh inside ok_ =
    let pos = h.old_start - 1 in
    Found-if _ _ (h.old_count == 0) (λ e. absurd (ground arith))
      (λ e.
        Found-if _ _ (already_applied lines h) (λ e'. absurd cc)
          (λ e'.
            Found-if _ _ (leb (pos + h.old_count) (length lines) && verify_hunk lines h pos)
              (λ here. found pos (ground arith))
              (λ not_here.
                let d = (p - pos) + (pos - p) in
                fuzzy-Found lines h p inside ok_ pos d 1 (length lines) (Apart-distance p pos)
                  (away lines h p pos inside ok_ not_here) (omega arith))))
