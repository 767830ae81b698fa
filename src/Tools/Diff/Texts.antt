-- ===== src/Tools/Diff/Texts.antt =====
-- The script of `GenerateDiff` in terms of the files' own lines, where they were compared without
-- their space.
use go_posix.Base.{
  ℕ, zero, suc, ◌-◌, ◌+◌, ◌==◌, Bool-cases, inl, inr, if◌then◌else◌, ◌≡◌, refl, sym, ap, ◌∙◌, ◌↔◌,
  Bool, true, false, List, [], ◌∷◌, map, Bytes, arith, ltb, length, drop, get_or,
}
use go_posix.Tools.Diff.{
  DiffItem, OpType, op_eq, op_del, op_ins, op_ignored_del, op_ignored_ins, diff, equals, backtrack,
  Array, outer,
}
use go_posix.Tools.Diff.Script.{old_side, new_side, edits}
use go_posix.Tools.Diff.Plain.{Plain, is_plain}
use go_posix.Tools.Diff.Hunks.{is_change}
use go_posix.Tools.Diff.Shortest.{diff-sides, diff-fewest}
use go_posix.Tools.Diff.Generate.{put_back, line_script, compared, differs}

Plain-equals :
    (a : List Bytes) (n x : ℕ) (script : List DiffItem) → Plain script → Plain (equals a n x script)
unfolding Plain equals is_plain
Plain-equals a zero x script h = h
Plain-equals a (suc n) x script h =
    Plain-equals a n (x - 1) (record { op = op_eq; text = get_or a (x - 1) [] } ∷ script) (refl, h)

change_Plain :
    (down : Bool) (s t : Bytes)
    → let item : DiffItem =
        if down then record { op = op_ins; text = s } else record { op = op_del; text = t } in
      is_plain item.op ≡ true
unfolding is_plain
change_Plain true s t = refl
change_Plain false s t = refl

Plain-backtrack :
    (a b : List Bytes) (max_d : ℕ) (trace : List Array) (d x y : ℕ) (script : List DiffItem)
    → Plain script
    → Plain (backtrack a b max_d trace d x y script)
unfolding Plain backtrack is_plain
Plain-backtrack a b max_d trace zero x y script h =
    Plain-equals a (if ltb x y then x else y) x script h
Plain-backtrack a b max_d trace (suc d) x y script h =
    Plain-backtrack a b max_d trace d _ _ _ (change_Plain _ _ _, Plain-equals a _ x script h)

-- `diff` ignores nothing.
Plain-diff : (a b : List Bytes) → Plain (diff a b)
unfolding diff Plain
Plain-diff a b =
    let max_d = length a + length b in
    let result = outer a b max_d (suc max_d) 0 (λ i. 0) [] in
    elim (Bool-cases (max_d == 0)) [
      | inl e ↦ rw e tt
      | inr e ↦ rw e (Plain-backtrack a b max_d result.1 result.0 (length a) (length b) [] tt)
    ]

-- What `put_back` does to a script for the lines as `f` makes them.
Restores : (Bytes → Bytes) → List DiffItem → Type 0
Restores f script =
    (xs ys : List Bytes)
    → Plain script
    → old_side script ≡ map f xs
    → new_side script ≡ map f ys
    → (old_side (put_back script xs ys) ≡ xs)
      × (map f (new_side (put_back script xs ys)) ≡ map f ys)
      × Plain (put_back script xs ys)

module _ (f : Bytes → Bytes) (text : Bytes) (script : List DiffItem)
    (rest : Restores f script) where
  Restores-item : (op : OpType) → Restores f (record { op = op; text = text } ∷ script)
  unfolding Restores old_side new_side put_back Plain is_plain
  Restores-item op_eq [] ys plain ho hn = cc
  Restores-item op_eq (x ∷ xs) [] plain ho hn = cc
  Restores-item op_eq (x ∷ xs) (y ∷ ys) (_, plain) ho hn =
      let (o, n, p) = rest xs ys plain (ground arith) (ground arith) in
      (ap (λ t. x ∷ t) o, ground (arith, n), (refl, p))
  Restores-item op_del [] ys plain ho hn = cc
  Restores-item op_del (x ∷ xs) ys (_, plain) ho hn =
      let (o, n, p) = rest xs ys plain (ground arith) (ground arith) in
      (ap (λ t. x ∷ t) o, n, (refl, p))
  Restores-item op_ins xs [] plain ho hn = cc
  Restores-item op_ins xs (y ∷ ys) (_, plain) ho hn =
      let (o, n, p) = rest xs ys plain (ground arith) (ground arith) in
      (o, ap (λ t. f y ∷ t) n, (refl, p))
  Restores-item op_ignored_del xs ys plain ho hn = cc
  Restores-item op_ignored_ins xs ys plain ho hn = cc

put_back-Restores : (f : Bytes → Bytes) (script : List DiffItem) → Restores f script
unfolding Restores old_side new_side put_back Plain
put_back-Restores f [] [] [] plain ho hn = (refl, refl, tt)
put_back-Restores f [] (x ∷ xs) ys plain ho hn = cc
put_back-Restores f [] xs (y ∷ ys) plain ho hn = cc
put_back-Restores f (item ∷ script) xs ys plain ho hn =
    Restores-item f item.text script (put_back-Restores f script) item.op xs ys plain ho hn

-- The sides of the script of `GenerateDiff`, before `-B`.
pub line_script-sides :
    (lines1 lines2 : List Bytes) (space all_space : Bool)
    → let script = line_script lines1 lines2 space all_space in
      let comp = compared space all_space in
      (old_side script ≡ lines1) × (map comp (new_side script) ≡ map comp lines2) × Plain script
unfolding line_script Restores
line_script-sides lines1 lines2 space all_space =
    let comp = compared space all_space in
    let (old, new) = diff-sides (map comp lines1) (map comp lines2) in
    put_back-Restores comp (diff (map comp lines1) (map comp lines2)) lines1 lines2
      (Plain-diff (map comp lines1) (map comp lines2)) old new

-- A script of equal lines.
all_equal : List Bytes → List DiffItem
all_equal = map (λ t. record { op = op_eq; text = t })

all_equal-sides :
    (lines : List Bytes)
    → (old_side (all_equal lines) ≡ lines)
      × (new_side (all_equal lines) ≡ lines)
      × (edits (all_equal lines) ≡ 0)
unfolding old_side new_side edits all_equal
all_equal-sides [] = (refl, refl, refl)
all_equal-sides (l ∷ lines) =
    let (o, n, e) = all_equal-sides lines in (ap (λ t. l ∷ t) o, ap (λ t. l ∷ t) n, e)

edits-differs :
    (script : List DiffItem) (xs ys : List Bytes)
    → edits script ≡ 0
    → differs (put_back script xs ys) ≡ false
unfolding edits differs put_back is_change
edits-differs [] xs ys h = refl
edits-differs (item ∷ script) xs ys h =
    ground (arith, h, edits-differs script (drop 1 xs) (drop 1 ys))

pub same_sides :
    (script : List DiffItem)
    → Plain script
    → differs script ≡ false
    → old_side script ≡ new_side script
unfolding Plain is_plain differs is_change old_side new_side
same_sides [] plain h = refl
same_sides (item ∷ script) (p, plain) h = ground (arith, p, h, same_sides script plain)

-- The script of `GenerateDiff` has a change just where the lines differ as they are compared.
pub line_script-differs :
    (lines1 lines2 : List Bytes) (space all_space : Bool)
    → let comp = compared space all_space in
      (differs (line_script lines1 lines2 space all_space) ≡ false)
      ↔ (map comp lines1 ≡ map comp lines2)
unfolding line_script
line_script-differs lines1 lines2 space all_space =
    let comp = compared space all_space in
    let (old, new, plain) = line_script-sides lines1 lines2 space all_space in
    let (o, n, e) = all_equal-sides (map comp lines1) in
    (
      λ h.
          sym (ap (map comp) old)
          ∙ ap (map comp) (same_sides (line_script lines1 lines2 space all_space) plain h)
          ∙ new,
      λ h. edits-differs (diff (map comp lines1) (map comp lines2)) lines1 lines2 (
          omega (
            arith,
            diff-fewest (map comp lines1) (map comp lines2) (all_equal (map comp lines1)) o (n ∙ h),
            e,
          )),
    )
