-- ===== src/Tools/Diff/Shortest.antt =====
-- The script of `Diff` among all scripts for its two files.
use go_posix.Base.{
  ℕ, zero, suc, ◌+◌, ◌≤◌, ◌≡◌, sym, ap, ◌∙◌, inl, inr, ◌≢◌, subst, List, [], ◌∷◌, Bytes, arith,
  length, length-drop, drop, beq_refl, ltb, Bool-cases, tests,
}
use go_posix.Tools.Diff.{
  op_eq, op_del, op_ins, op_ignored_del, op_ignored_ins, DiffItem, OpType, snake, diff,
}
use go_posix.Tools.Diff.Furthest.{furthest, right_le, down_le, furthest-snake, Reaches}
use go_posix.Tools.Diff.Script.{old_side, new_side, edits}
use go_posix.Tools.Diff.Paths.{trace-First, diff-Leads}

-- The script is one from the first file to the second: its lines of the one side are the first file,
-- and those of the other the second.
pub diff-sides : (a b : List Bytes) → (old_side (diff a b) ≡ a) × (new_side (diff a b) ≡ b)
diff-sides a b = let (old, new, count) = diff-Leads a b in (old, new)

drop-next {ℓ} :
    {A : Type ℓ} (n : ℕ) (xs : List A) (y : A) (ys : List A)
    → drop n xs ≡ y ∷ ys
    → drop (suc n) xs ≡ ys
drop-next zero [] y ys h = cc
drop-next zero (x ∷ xs) y ys h = cc
drop-next (suc n) [] y ys h = cc
drop-next (suc n) (x ∷ xs) y ys h = drop-next n xs y ys h

drop_after {ℓ} :
    {A : Type ℓ} (n : ℕ) {i : ℕ} (xs : List A) (y : A) (ys : List A)
    → i ≡ suc n
    → drop n xs ≡ y ∷ ys
    → drop i xs ≡ ys
drop_after n xs y ys e h = ap (λ k. drop k xs) e ∙ drop-next n xs y ys h

snake-same : (t : Bytes) (xs ys : List Bytes) → snake (t ∷ xs) (t ∷ ys) ≢ 0
unfolding snake
snake-same t xs ys = rw (beq_refl t) (λ e. absurd (omega (arith, e)))

-- Where a path has run `u` equal lines, and one more follows, the furthest path runs further.
one_more :
    (a b : List Bytes) (j r u : ℕ) (t : Bytes) (old new : List Bytes)
    → u ≤ furthest a b j r
    → drop (j + u) a ≡ t ∷ old
    → drop (r + u) b ≡ t ∷ new
    → suc u ≤ furthest a b j r
one_more a b j r u t old new le ha hb = elim (Bool-cases (ltb u (furthest a b j r))) [
  | inl e ↦ omega (tests, e)
  | inr e ↦
      let same : furthest a b j r ≡ u = ground (arith, e, le) in
      let stop : snake (drop (j + u) a) (drop (r + u) b) ≡ 0 =
        subst (λ k. snake (drop (j + k) a) (drop (r + k) b) ≡ 0) same (furthest-snake a b j r) in
      absurd (
        snake-same t old new (
          subst (λ xs. snake xs (t ∷ new) ≡ 0) ha
            (subst (λ ys. snake (drop (j + u) a) ys ≡ 0) hb stop)))
]

drop_past {ℓ} : {A : Type ℓ} (n : ℕ) (xs : List A) → drop n xs ≡ [] → length xs ≤ n
drop_past n xs h = omega (arith, length-drop n xs, ap length h)

-- A script from the rest of the first file to the rest of the second gives a path to the ends.
Walks : List Bytes → List Bytes → List DiffItem → Type 0
Walks a b script =
    (j r u : ℕ)
    → u ≤ furthest a b j r
    → drop (j + u) a ≡ old_side script
    → drop (r + u) b ≡ new_side script
    → (j2 : ℕ) × (r2 : ℕ) × (j2 + r2 ≡ j + r + edits script) × Reaches a b j2 r2

module _ (a b : List Bytes) (text : Bytes) (script : List DiffItem) (rest : Walks a b script) where
  Walks-keep : Walks a b (record { op = op_eq; text = text } ∷ script)
  unfolding Walks old_side new_side edits
  Walks-keep j r u le ha hb =
      rest j r (suc u) (one_more a b j r u text (old_side script) (new_side script) le ha hb)
        (drop_after (j + u) a text (old_side script) (omega arith) ha)
        (drop_after (r + u) b text (new_side script) (omega arith) hb)

  Walks-delete :
      (j r u : ℕ)
      → u ≤ furthest a b j r
      → drop (j + u) a ≡ text ∷ old_side script
      → drop (r + u) b ≡ new_side script
      → (j2 : ℕ) × (r2 : ℕ) × (j2 + r2 ≡ j + r + suc (edits script)) × Reaches a b j2 r2
  unfolding Walks
  Walks-delete j r u le ha hb =
      let (j2, r2, s, reaches) =
        rest (suc j) r u (omega (arith, le, right_le a b j r))
          (drop_after (j + u) a text (old_side script) (omega arith) ha) hb in
      (j2, r2, omega (arith, s), reaches)

  Walks-insert :
      (j r u : ℕ)
      → u ≤ furthest a b j r
      → drop (j + u) a ≡ old_side script
      → drop (r + u) b ≡ text ∷ new_side script
      → (j2 : ℕ) × (r2 : ℕ) × (j2 + r2 ≡ j + r + suc (edits script)) × Reaches a b j2 r2
  unfolding Walks
  Walks-insert j r u le ha hb =
      let (j2, r2, s, reaches) =
        rest j (suc r) u (omega (arith, le, down_le a b j r)) ha
          (drop_after (r + u) b text (new_side script) (omega arith) hb) in
      (j2, r2, omega (arith, s), reaches)

  Walks-item : (op : OpType) → Walks a b (record { op = op; text = text } ∷ script)
  unfolding Walks old_side new_side edits
  Walks-item op_eq = Walks-keep
  Walks-item op_del = Walks-delete
  Walks-item op_ins = Walks-insert
  Walks-item op_ignored_del = Walks-delete
  Walks-item op_ignored_ins = Walks-insert

walk-Walks : (a b : List Bytes) (script : List DiffItem) → Walks a b script
unfolding Walks old_side new_side edits Reaches
walk-Walks a b [] j r u le ha hb = (
  j,
  r,
  omega arith,
  (omega (arith, le, drop_past (j + u) a ha), omega (arith, le, drop_past (r + u) b hb)),
)
walk-Walks a b (item ∷ script) j r u le ha hb =
    Walks-item a b item.text script (walk-Walks a b script) item.op j r u le ha hb

-- Every script that takes the first file to the second has at least as many deletions and insertions
-- as that of `diff`.
pub diff-fewest :
    (a b : List Bytes) (script : List DiffItem)
    → old_side script ≡ a
    → new_side script ≡ b
    → edits (diff a b) ≤ edits script
unfolding Walks
diff-fewest a b script ha hb =
    let (old, new, count) = diff-Leads a b in
    let (j, r, s, reaches) = walk-Walks a b script 0 0 0 (omega arith) (sym ha) (sym hb) in
    let first = trace-First a b in
    elim (Bool-cases (ltb (edits script) (edits (diff a b)))) [
      | inl e ↦ absurd (first.shorter j r (omega (tests, e, s, count)) reaches)
      | inr e ↦ ground (arith, e)
    ]
