-- ===== src/Tools/Diff/Paths.antt =====
-- The backtracking of `Diff` along the furthest paths.
use go_posix.Base.{
  ℕ, zero, suc, ◌+◌, ◌-◌, ◌≤◌, ◌≡◌, refl, sym, ap, ◌∙◌, inl, inr, List, [], ◌∷◌, ◌++◌, Bytes, arith,
  length, get_or, drop, take, ◌==◌, if◌then◌else◌, ltb, Bool-cases,
}
use go_posix.Tools.Diff.{
  Array, DiffItem, op_del, op_ins, snake, goes_down, equals, backtrack, outer, diff,
}
use go_posix.Tools.Diff.Furthest.{furthest, start, furthest-start, Reaches-exact}
use go_posix.Tools.Diff.Search.{Traced, First, Found, outer-First}
use go_posix.Tools.Diff.Script.{old_side, new_side, edits}
use go_posix.Tools.Diff.Rows.{Row-Choice, Choice, Before}
use go_posix.Tools.Diff.Runs.{get_or-snake, get_or-drop, take-pred, equals-sides}

-- A script that takes what is behind `x` and `y` to the whole files, with `d` more edits.
Leads : List Bytes → List Bytes → ℕ → ℕ → ℕ → List DiffItem → List DiffItem → Type 0
Leads a b d x y script whole =
    (old_side whole ≡ take x a ++ old_side script)
    × (new_side whole ≡ take y b ++ new_side script)
    × (edits whole ≡ d + edits script)

-- The equal lines at the end of a furthest path.
furthest-equals :
    (a b : List Bytes) (j r x y n : ℕ) (script : List DiffItem)
    → x ≡ j + furthest a b j r
    → y ≡ r + furthest a b j r
    → x ≤ length a
    → y ≤ length b
    → furthest a b j r ≡ start a b j r + n
    → (take (j + start a b j r) a ++ old_side (equals a n x script) ≡ take x a ++ old_side script)
      × (take (r + start a b j r) b ++ new_side (equals a n x script) ≡ take y b ++ new_side script)
      × (edits (equals a n x script) ≡ edits script)
furthest-equals a b j r x y n script hx hy ha hb hn =
    let u = start a b j r in
    let count : n ≡ snake (drop (j + u) a) (drop (r + u) b) =
      omega (arith, hn, furthest-start a b j r) in
    equals-sides a b n (j + u) (r + u) x y script
      (λ i lt.
        sym (get_or-drop (j + u) i a [])
        ∙ get_or-snake (drop (j + u) a) (drop (r + u) b) i (omega (arith, lt, count))
        ∙ get_or-drop (r + u) i b [])
      (omega (arith, hx, hn)) (omega (arith, hy, hn)) ha hb

-- One step of the backtracking, where the array tells the start `x2`, `y2` of `n` equal lines.
backtrack-step :
    (a b : List Bytes) (max_d : ℕ) (trace : List Array) (d x y x2 y2 n : ℕ) (script : List DiffItem)
    → let i = x + max_d - y in
      let v = get_or trace d (λ i2. 0) in
      let down = goes_down v max_d (suc d) i in
      (if down then v (i + 1) else v (i - 1) + 1) ≡ x2
      → x ≡ x2 + n
      → y ≡ y2 + n
      → backtrack a b max_d trace (suc d) x y script
        ≡ backtrack a b max_d trace d (if down then x2 else x2 - 1) (if down then y2 - 1 else y2) (
            (if down
              then record { op = op_ins; text = get_or b (y2 - 1) [] }
              else record { op = op_del; text = get_or a (x2 - 1) [] })
            ∷ equals a n x script)
unfolding backtrack
backtrack-step a b max_d trace d x y x2 y2 n script at hx hy =
    let count : x - x2 ≡ n = omega (arith, hx) in
    let up : y - n ≡ y2 = omega (arith, hy) in rw (at, count, up)

backtrack-Leads :
    (a b : List Bytes) (max_d : ℕ) (trace : List Array) (d j r x y : ℕ) (script : List DiffItem)
    → j + r ≡ d
    → d ≤ max_d
    → Traced a b max_d d trace
    → x ≡ j + furthest a b j r
    → y ≡ r + furthest a b j r
    → x ≤ length a
    → y ≤ length b
    → Leads a b d x y script (backtrack a b max_d trace d x y script)
unfolding backtrack Leads Traced Choice start old_side new_side edits
backtrack-Leads a b max_d trace zero zero zero x y script s le traced hx hy ha hb =
    let n = if ltb x y then x else y in
    let (old, new, count) =
      furthest-equals a b zero zero x y n script hx hy ha hb (ground (arith, hx, hy)) in
    (old, new, omega (arith, count))
backtrack-Leads a b max_d trace zero (suc j) r x y script s le traced hx hy ha hb =
    absurd (omega (arith, s))
backtrack-Leads a b max_d trace zero j (suc r) x y script s le traced hx hy ha hb =
    absurd (omega (arith, s))
backtrack-Leads a b max_d trace (suc d) j r x y script s le traced hx hy ha hb =
    let i = x + max_d - y in
    let v = get_or trace d (λ i2. 0) in
    let u = start a b j r in
    let n = furthest a b j r - u in
    let more : furthest a b j r ≡ u + n = omega (arith, furthest-start a b j r) in
    let (old, new, count) = furthest-equals a b j r x y n script hx hy ha hb more in
    elim (Row-Choice a b max_d d v j r i (traced d (omega arith)) s le
      (omega (arith, hx, hy, s, le))) [
        | inl (down, r2, q, same, w) ↦
            let eq : backtrack a b max_d trace (suc d) x y script
                ≡ backtrack a b max_d trace d (j + u) (r + u - 1)
                    (record { op = op_ins; text = get_or b (r + u - 1) [] } ∷ equals a n x script) =
              rw (
                backtrack-step a b max_d trace d x y (j + u) (r + u) n script (rw (down, w))
                    (omega (arith, hx, more)) (omega (arith, hy, more)),
                down,
              ) in
            let (old2, new2, count2) =
              backtrack-Leads a b max_d trace d j r2 (j + u) (r + u - 1)
                (record { op = op_ins; text = get_or b (r + u - 1) [] } ∷ equals a n x script)
                (omega (arith, s, q)) (omega (arith, le)) (λ e lt. traced e (omega (arith, lt)))
                (omega (arith, same)) (omega (arith, same, q)) (omega (arith, ha, hx, more))
                (omega (arith, hb, hy, more)) in
            rw eq (
              old2 ∙ old,
              new2
                  ∙ take-pred (r + u) b (new_side (equals a n x script)) [] (omega (arith, q))
                      (omega (arith, hb, hy, more))
                  ∙ new,
              omega (arith, count2, count),
            )
        | inr (down, j2, q, same, w) ↦
            let eq : backtrack a b max_d trace (suc d) x y script
                ≡ backtrack a b max_d trace d (j + u - 1) (r + u)
                    (record { op = op_del; text = get_or a (j + u - 1) [] } ∷ equals a n x script) =
              rw (
                backtrack-step a b max_d trace d x y (j + u) (r + u) n script (rw (down, w))
                    (omega (arith, hx, more)) (omega (arith, hy, more)),
                down,
              ) in
            let (old2, new2, count2) =
              backtrack-Leads a b max_d trace d j2 r (j + u - 1) (r + u)
                (record { op = op_del; text = get_or a (j + u - 1) [] } ∷ equals a n x script)
                (omega (arith, s, q)) (omega (arith, le)) (λ e lt. traced e (omega (arith, lt)))
                (omega (arith, same, q)) (omega (arith, same)) (omega (arith, ha, hx, more))
                (omega (arith, hb, hy, more)) in
            rw eq (
              old2
                  ∙ take-pred (j + u) a (old_side (equals a n x script)) [] (omega (arith, q))
                      (omega (arith, ha, hx, more))
                  ∙ old,
              new2 ∙ new,
              omega (arith, count2, count),
            )
      ]

-- What the trace of `Diff` is.
pub trace-First :
    (a b : List Bytes)
    → let max_d = length a + length b in
      let result = outer a b max_d (suc max_d) 0 (λ i. 0) [] in First a b max_d result.0 result.1
unfolding Traced Before
trace-First a b =
    outer-First a b (length a + length b) (suc (length a + length b)) 0 (λ i. 0) [] refl
      (omega arith) refl refl (λ e lt. absurd (omega (arith, lt)))
      (λ j r lt. absurd (omega (arith, lt)))

length_zero {ℓ} : {A : Type ℓ} (xs : List A) → length xs ≡ 0 → xs ≡ []
length_zero [] h = refl
length_zero (x ∷ xs) h = absurd (omega (arith, h))

take_all {ℓ} : {A : Type ℓ} (xs : List A) → take (length xs) xs ++ [] ≡ xs
take_all [] = refl
take_all (x ∷ xs) = ap (λ zs. x ∷ zs) (take_all xs)

pub diff-Leads :
    (a b : List Bytes)
    → let max_d = length a + length b in
      (old_side (diff a b) ≡ a)
      × (new_side (diff a b) ≡ b)
      × (edits (diff a b) ≤ (outer a b max_d (suc max_d) 0 (λ i. 0) []).0)
unfolding diff Found Leads old_side new_side edits
diff-Leads a b =
    let max_d = length a + length b in
    let (d, trace) = outer a b max_d (suc max_d) 0 (λ i. 0) [] in
    let first = trace-First a b in
    let (j, r, s, reaches) = first.found in
    let (ea, eb) =
      Reaches-exact a b j r reaches (λ j2 r2 lt. first.shorter j2 r2 (omega (arith, lt, s))) in
    let (old, new, count) =
      backtrack-Leads a b max_d trace d j r (length a) (length b) [] s first.bounded first.traced
        (omega (arith, ea)) (omega (arith, eb)) (omega arith) (omega arith) in
    elim (Bool-cases (max_d == 0)) [
      | inl e ↦ rw e (
        sym (length_zero a (ground (arith, e))),
        sym (length_zero b (ground (arith, e))),
        omega arith,
      )
      | inr e ↦ rw e (old ∙ take_all a, new ∙ take_all b, omega (arith, count))
    ]
