-- ===== src/Tools/Diff/Applied.antt =====
-- The hunks of `BuildHunks` under the operations of pkg/patch.
use go_posix.Base.{
  ℕ, zero, suc, ◌+◌, ◌-◌, ◌≤◌, ◌≡◌, refl, sym, ap, ◌∙◌, ◌⊎◌, inl, inr, true, false, List, [], ◌∷◌,
  ◌++◌, map, append_assoc, Bytes, All, arith, tests, length, length-drop, take, drop,
  take-append-drop, ltb, leb, Bool-cases,
}
use go_posix.Tools.Patch
use go_posix.Tools.Patch.{verify_hunk, apply_at, new_lines}
use go_posix.Tools.Patch.Undo.{parts}
use go_posix.Tools.Patch.Texts.{drop-verify_from}
use go_posix.Tools.Diff.{DiffItem}
use go_posix.Tools.Diff.Furthest.{drop-add}
use go_posix.Tools.Diff.Hunks.{
  Hunk, kept_run, count_old, hunk_line, make_hunk, find_end, hunks_from, build_hunks,
}
use go_posix.Tools.Diff.Script.{old_side, new_side}
use go_posix.Tools.Diff.Plain.{
  Plain, Plain-drop, old_side-append, new_side-append, count_old-length, new_lines-map,
  old_lines-map, kept-sides,
}
use go_posix.Tools.Diff.Segments.{Apart, Ends, find_end-Ends, kept_run-drop}

-- The hunk as patch has it.
unfoldable pub patch_hunk : Hunk → Patch.Hunk
patch_hunk h = record {
  old_start = h.old_start;
  old_count = h.old_lines;
  new_start = h.new_start;
  new_count = h.new_lines;
  lines = h.lines;
}

-- The hunks applied at the places of their headers, the last one first.
unfoldable pub apply_back : List Bytes → List Hunk → List Bytes
unfolding patch_hunk
apply_back lines [] = lines
apply_back lines (h ∷ hs) = apply_at (apply_back lines hs) (patch_hunk h) (h.old_start - 1)

module _ {ℓ} {A : Type ℓ} where
  take_nil : (n : ℕ) → take {A = A} n [] ≡ []
  take_nil zero = refl
  take_nil (suc n) = refl

  take-between : (s n e : ℕ) (xs : List A) → e ≡ s + n → take e xs ≡ take s xs ++ take n (drop s xs)
  take-between zero n e xs h = ap (λ k. take k xs) (omega (arith, h))
  take-between (suc s) n zero xs h = absurd (omega (arith, h))
  take-between (suc s) n (suc e) [] h = sym (take_nil n)
  take-between (suc s) n (suc e) (x ∷ xs) h =
      ap (λ ys. x ∷ ys) (take-between s n e xs (omega (arith, h)))

  take_long : (n : ℕ) (xs : List A) → length xs ≤ n → take n xs ≡ xs
  take_long n [] h = take_nil n
  take_long zero (x ∷ xs) h = absurd (omega (arith, h))
  take_long (suc n) (x ∷ xs) h = ap (λ ys. x ∷ ys) (take_long n xs (omega (arith, h)))

  drop-between : (s n e : ℕ) (xs : List A) → e ≡ s + n → drop s xs ≡ take n (drop s xs) ++ drop e xs
  drop-between s n e xs h =
      sym (take-append-drop n (drop s xs))
      ∙ ap (λ ys. take n (drop s xs) ++ ys) (sym (ap (λ k. drop k xs) h ∙ drop-add s n xs))

-- The lines where the items before `i` are those of the first file and the others those of the second.
half_way : List DiffItem → ℕ → List Bytes
half_way script i = old_side (take i script) ++ new_side (drop i script)

-- Kept items do not matter for it.
half_way-kept :
    (script : List DiffItem) (i s : ℕ)
    → Plain script
    → i ≤ s
    → s ≤ i + kept_run (drop i script)
    → half_way script s ≡ half_way script i
unfolding half_way
half_way-kept script i s plain le within =
    let gap = take (s - i) (drop i script) in
    let before = old_side (take i script) in
    let after = new_side (drop s script) in
    let same : old_side gap ≡ new_side gap =
      kept-sides (s - i) (drop i script) (Plain-drop i script plain) (omega (arith, within, le)) in
    ap (λ xs. old_side xs ++ after) (take-between i (s - i) s script (omega (arith, le)))
    ∙ ap (λ xs. xs ++ after) (old_side-append (take i script) gap ∙ ap (λ xs. before ++ xs) same)
    ∙ append_assoc before (new_side gap) after
    ∙ ap (λ xs. before ++ xs)
        (sym (new_side-append gap (drop s script))
          ∙ sym (ap new_side (drop-between i (s - i) s script (omega (arith, le)))))

-- A hunk takes the items it is about to the second file.
make_hunk-half_way :
    (script : List DiffItem) (s e : ℕ)
    → s ≤ e
    → let h = make_hunk script s e in
      apply_at (half_way script e) (patch_hunk h) (h.old_start - 1) ≡ half_way script s
unfolding half_way apply_at patch_hunk make_hunk
make_hunk-half_way script s e le =
    let seg = take (e - s) (drop s script) in
    let before = old_side (take s script) in
    let after = new_side (drop e script) in
    let pos = 1 + count_old (take s script) - 1 in
    let is_pos : length before ≡ pos = omega (arith, count_old-length (take s script)) in
    let text : half_way script e ≡ before ++ old_side seg ++ after =
      ap (λ xs. old_side xs ++ after) (take-between s (e - s) e script (omega (arith, le)))
      ∙ ap (λ xs. xs ++ after) (old_side-append (take s script) seg) in
    let (front, _, back) = parts before (old_side seg) after pos is_pos in
    let result : new_side (drop s script) ≡ new_side seg ++ after =
      ap new_side (drop-between s (e - s) e script (omega (arith, le)))
      ∙ new_side-append seg (drop e script) in
    rw (text, front, count_old-length seg, back, new_lines-map seg, result)
      (append_assoc before (new_side seg) after)

-- It is verified at its place of the first file.
make_hunk-verified :
    (script : List DiffItem) (s e : ℕ)
    → s ≤ e
    → let h = make_hunk script s e in
      verify_hunk (old_side script) (patch_hunk h) (h.old_start - 1) ≡ true
unfolding verify_hunk patch_hunk make_hunk
make_hunk-verified script s e le =
    let seg = take (e - s) (drop s script) in
    let before = old_side (take s script) in
    let after = old_side (drop e script) in
    let pos = 1 + count_old (take s script) - 1 in
    let is_pos : length before ≡ pos = omega (arith, count_old-length (take s script)) in
    let text : old_side script ≡ before ++ old_side seg ++ after =
      ap old_side (sym (take-append-drop s script))
      ∙ old_side-append (take s script) (drop s script)
      ∙ ap (λ xs. before ++ old_side xs) (drop-between s (e - s) e script (omega (arith, le)))
      ∙ ap (λ xs. before ++ xs) (old_side-append seg (drop e script))
      ∙ sym (append_assoc before (old_side seg) after) in
    let (_, here, _) = parts before (old_side seg) after pos is_pos in
    drop-verify_from (old_side script) (map hunk_line seg) after pos
      (rw (text, here, old_lines-map seg))

-- A hunk on its own: verified in the first file, with the number of its old lines.
unfoldable pub Verified : List Bytes → Hunk → Type 0
unfolding patch_hunk
Verified lines h = verify_hunk lines (patch_hunk h) (h.old_start - 1) ≡ true

-- The hunks of the rest of the script.
record Hunks (script : List DiffItem) (i : ℕ) (hs : List Hunk) : Type 0 where
  applied : Plain script → apply_back (old_side script) hs ≡ half_way script i
  verified : All (Verified (old_side script)) hs

-- A script whose changes are over.
Hunks-none :
    (script : List DiffItem) (i : ℕ)
    → length script ≤ i + kept_run (drop i script)
    → Hunks script i []
unfolding apply_back half_way
Hunks-none script i over = record {
  applied = λ plain.
      let rest = drop i script in
      let all_kept = take_long (kept_run rest) rest (omega (arith, over, length-drop i script)) in
      ap old_side (sym (take-append-drop i script))
      ∙ old_side-append (take i script) rest
      ∙ ap (λ xs. old_side (take i script) ++ xs)
          (sym (ap old_side all_kept)
            ∙ kept-sides (kept_run rest) rest (Plain-drop i script plain) (omega arith)
            ∙ ap new_side all_kept);
  verified = tt;
}

-- One more hunk in front of them.
Hunks-cons :
    (script : List DiffItem) (i s e : ℕ) (hs : List Hunk)
    → i ≤ s
    → s ≤ i + kept_run (drop i script)
    → s ≤ e
    → Hunks script e hs
    → Hunks script i (make_hunk script s e ∷ hs)
unfolding apply_back Verified
Hunks-cons script i s e hs le within le2 rest =
    let h = make_hunk script s e in
    record {
      applied = λ plain.
          ap (λ lines. apply_at lines (patch_hunk h) (h.old_start - 1)) (rest.applied plain)
          ∙ make_hunk-half_way script s e le2
          ∙ half_way-kept script i s plain le within;
      verified = (make_hunk-verified script s e le2, rest.verified);
    }

hunks_from-Hunks :
    (rounds : ℕ) (script : List DiffItem) (context i : ℕ)
    → length script ≤ i + rounds
    → (i ≡ 0) ⊎ Apart script context i
    → Hunks script i (hunks_from rounds script context i)
unfolding hunks_from Apart Ends
hunks_from-Hunks zero script context i enough ready = Hunks-none script i (omega (arith, enough))
hunks_from-Hunks (suc rounds) script context i enough ready =
    let first = i + kept_run (drop i script) in
    let found = find_end (length script) script context first in
    elim (Bool-cases (leb (length script) first)) [
      | inl e ↦ rw e (Hunks-none script i (omega (tests, e)))
      | inr e ↦
          let (later, inside, apart) =
            find_end-Ends (length script) script context first (ground (arith, e)) (omega arith) (
              ap kept_run (drop-add i (kept_run (drop i script)) script)
              ∙ kept_run-drop (drop i script) (kept_run (drop i script)) (omega arith)
              ∙ omega arith) in
          let fits : ltb (length script) found ≡ false = ground (arith, inside) in
          let rest =
            hunks_from-Hunks rounds script context found (omega (arith, enough, later))
              (inr apart) in
          let gap : i ≤ first - context = elim ready [
            | inl zero_i ↦ omega (arith, zero_i)
            | inr (inl far) ↦ omega (arith, far)
            | inr (inr over) ↦ ground (arith, e, over)
          ] in
          rw (e, fits)
            (Hunks-cons script i (first - context) found (hunks_from rounds script context found)
              gap (omega arith) (omega (arith, later)) rest)
    ]

-- The hunks of a script, whatever the number of lines of context, are each verified by patch at the
-- place of their header in the first file; applied there, the last one first, they give the second
-- file, where nothing is ignored.
pub build_hunks-applied :
    (script : List DiffItem) (context : ℕ)
    → Plain script
    → (apply_back (old_side script) (build_hunks script context) ≡ new_side script)
      × All (Verified (old_side script)) (build_hunks script context)
unfolding build_hunks half_way new_side old_side
build_hunks-applied script context plain =
    let all = hunks_from-Hunks (length script) script context 0 (omega arith) (inl refl) in
    (all.applied plain, all.verified)
