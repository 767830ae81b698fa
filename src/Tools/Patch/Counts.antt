-- ===== src/Tools/Patch/Counts.antt =====
-- The loop of `Run` over the hunks of a patch: which of them are in the text that it leaves.
use go_posix.Base.{
  ℕ, suc, ◌+◌, ◌≤◌, ◌≡◌, ◌∙◌, refl, sym, ap, subst, Bool, true, false, Option, none, some, List, [],
  ◌∷◌, Bytes, arith, ◌==◌, if◌then◌else◌, length, take,
}
use go_posix.Tools.Patch.{Hunk, reverse_hunk, apply_hunk, Outcome, apply_hunks}

-- The hunk as it is applied, reversed or not.
abbrev pub turned : Bool → Hunk → Hunk
turned reverse hunk = if reverse then reverse_hunk hunk else hunk

-- One hunk after the other is applied, each to the text that the one before leaves.
pub data Applies (reverse ignore_applied : Bool)
    : List Bytes → List Hunk → List Bytes → Type 0 where
  no_hunk : {lines : List Bytes} → Applies reverse ignore_applied lines [] lines
  one_hunk :
      {lines between after : List Bytes} {hunk : Hunk} {hunks : List Hunk}
      → apply_hunk lines (turned reverse hunk) ignore_applied ≡ (between, true)
      → Applies reverse ignore_applied between hunks after
      → Applies reverse ignore_applied lines (hunk ∷ hunks) after

abbrev pub failed_number : Option (ℕ × Bool) → Option ℕ
failed_number none = none
failed_number (some (n, reversed)) = some n

-- The first `done` hunks are in the text behind a loop with `before` hunks in front of it.
record Stage (reverse ignore_applied : Bool) (before : ℕ) (lines : List Bytes) (hunks : List Hunk)
    (o : Outcome) : Type 0 where
  done : ℕ
  within : done ≤ length hunks
  counted : o.applied ≡ before + done
  applies : Applies reverse ignore_applied lines (take done hunks) o.lines
  rejects : o.rejected ≡ (if done == length hunks then 0 else 1)
  number :
      failed_number o.failed ≡ (if done == length hunks then none else some (before + done + 1))

Stage-one :
    (reverse ignore_applied : Bool) (before : ℕ) (lines : List Bytes) (hunk : Hunk)
    (hunks : List Hunk) (o : Outcome)
    → (apply_hunk lines (turned reverse hunk) ignore_applied).1 ≡ true
    → Stage reverse ignore_applied
        (before + 1)
        (apply_hunk lines (turned reverse hunk) ignore_applied).0
        hunks
        o
    → Stage reverse ignore_applied before lines (hunk ∷ hunks) o
Stage-one reverse ignore_applied before lines hunk hunks o e s =
    let same : (suc s.done == suc (length hunks)) ≡ (s.done == length hunks) = ground arith in
    let shift : before + 1 + s.done + 1 ≡ before + suc s.done + 1 = omega arith in
    record {
      done = suc s.done;
      within = omega (arith, s.within);
      counted = omega (arith, s.counted);
      applies =
          one_hunk (ap (λ b. ((apply_hunk lines (turned reverse hunk) ignore_applied).0, b)) e)
            s.applies;
      rejects = s.rejects ∙ ap (λ b. if b then 0 else 1) (sym same);
      number =
          s.number
          ∙ ap (λ b. if b then none else some (before + 1 + s.done + 1)) (sym same)
          ∙ ap (λ n. if suc s.done == suc (length hunks) then none else some n) shift;
    }

Stage-failed :
    (reverse ignore_applied : Bool) (before : ℕ) (lines : List Bytes) (hunk : Hunk)
    (hunks : List Hunk) (reversed : Bool)
    → Stage reverse ignore_applied before lines (hunk ∷ hunks) (record {
      lines = lines;
      applied = before;
      rejected = 1;
      failed = some (before + 1, reversed);
    })
Stage-failed reverse ignore_applied before lines hunk hunks reversed =
    let none_yet : (0 == suc (length hunks)) ≡ false = ground arith in
    record {
      done = 0;
      within = omega arith;
      counted = omega arith;
      applies = no_hunk;
      rejects = rw none_yet refl;
      number = rw none_yet (ap (λ n. some n) (omega arith));
    }

Stage-if :
    (reverse ignore_applied : Bool) (before : ℕ) (lines : List Bytes) (hunks : List Hunk)
    (o o' : Outcome) (b : Bool)
    → (b ≡ true → Stage reverse ignore_applied before lines hunks o)
    → Stage reverse ignore_applied before lines hunks o'
    → Stage reverse ignore_applied before lines hunks (if b then o else o')
Stage-if reverse ignore_applied before lines hunks o o' true s t = s refl
Stage-if reverse ignore_applied before lines hunks o o' false s t = t

apply_hunks-Stage :
    (reverse ignore_applied : Bool) (before : ℕ) (lines : List Bytes) (hunks : List Hunk)
    → Stage reverse ignore_applied before lines hunks
        (apply_hunks reverse ignore_applied before lines hunks)
unfolding apply_hunks
apply_hunks-Stage reverse ignore_applied before lines [] = record {
  done = 0;
  within = omega arith;
  counted = omega arith;
  applies = no_hunk;
  rejects = refl;
  number = refl;
}
apply_hunks-Stage reverse ignore_applied before lines (hunk ∷ hunks) =
    Stage-if reverse ignore_applied before lines (hunk ∷ hunks) _ _
      (apply_hunk lines (turned reverse hunk) ignore_applied).1
      (λ e. Stage-one reverse ignore_applied before lines hunk hunks _ e (
        apply_hunks-Stage reverse ignore_applied (before + 1)
          (apply_hunk lines (turned reverse hunk) ignore_applied).0 hunks))
      (Stage-failed reverse ignore_applied before lines hunk hunks _)

-- The text that the loop leaves is the one behind the hunks that it counts, from the first on and each
-- applied to the text that the one before leaves. Either these are all hunks and none is rejected, or
-- one is rejected, and it is the one behind them.
pub apply_hunks-Applies :
    (reverse ignore_applied : Bool) (lines : List Bytes) (hunks : List Hunk)
    → (Applies reverse ignore_applied lines
        (take (apply_hunks reverse ignore_applied 0 lines hunks).applied hunks)
        (apply_hunks reverse ignore_applied 0 lines hunks).lines)
      × ((apply_hunks reverse ignore_applied 0 lines hunks).rejected ≡ (
          if (apply_hunks reverse ignore_applied 0 lines hunks).applied == length hunks
          then 0
          else 1))
      × (failed_number (apply_hunks reverse ignore_applied 0 lines hunks).failed ≡ (
          if (apply_hunks reverse ignore_applied 0 lines hunks).applied == length hunks
          then none
          else some ((apply_hunks reverse ignore_applied 0 lines hunks).applied + 1)))
apply_hunks-Applies reverse ignore_applied lines hunks =
    let s = apply_hunks-Stage reverse ignore_applied 0 lines hunks in
    let o = apply_hunks reverse ignore_applied 0 lines hunks in
    let same : s.done ≡ o.applied = omega (arith, s.counted) in
    (
      subst (λ k. Applies reverse ignore_applied lines (take k hunks) o.lines) same s.applies,
      s.rejects ∙ ap (λ k. if k == length hunks then 0 else 1) same,
      s.number
          ∙ ap (λ k. if s.done == length hunks then none else some k) {x = 0 + s.done + 1}
              {y = s.done + 1} (omega arith)
          ∙ ap (λ k. if k == length hunks then none else some (k + 1)) same,
    )
