-- ===== src/Tools/Diff/Runs.antt =====
-- The items of a run of equal lines in a script.
use go_posix.Base.{
  ℕ, zero, suc, ◌+◌, ◌-◌, ◌≤◌, ◌<◌, ◌≡◌, refl, ap, ◌∙◌, List, [], ◌∷◌, ◌++◌, Bytes, arith, length,
  get_or, drop, take, beq→eq,
}
use go_posix.Tools.Diff.{DiffItem, op_eq, snake, equals}
use go_posix.Tools.Diff.Script.{old_side, new_side, edits}

-- The lines that `snake` counts are equal.
pub get_or-snake : (xs ys : List Bytes) (i : ℕ) → i < snake xs ys → get_or xs i [] ≡ get_or ys i []
unfolding snake
get_or-snake [] ys i h = absurd (omega (arith, h))
get_or-snake (x ∷ xs) [] i h = absurd (omega (arith, h))
get_or-snake (x ∷ xs) (y ∷ ys) zero h = ground (arith, h, beq→eq x y)
get_or-snake (x ∷ xs) (y ∷ ys) (suc i) h = ground (arith, h, get_or-snake xs ys i)

module _ {ℓ} {A : Type ℓ} where
  pub get_or-drop : (k i : ℕ) (xs : List A) (z : A) → get_or (drop k xs) i z ≡ get_or xs (k + i) z
  get_or-drop zero i xs z = ap (λ n. get_or xs n z) (omega arith)
  get_or-drop (suc k) i [] z = refl
  get_or-drop (suc k) i (x ∷ xs) z =
      get_or-drop k i xs z
      ∙ ap (λ n. get_or (x ∷ xs) n z) {x = suc (k + i)} {y = suc k + i} (omega arith)

  take-get_or :
      (n : ℕ) (xs rest : List A) (z : A)
      → n < length xs
      → take n xs ++ get_or xs n z ∷ rest ≡ take (suc n) xs ++ rest
  take-get_or n [] rest z h = absurd (omega (arith, h))
  take-get_or zero (x ∷ xs) rest z h = refl
  take-get_or (suc n) (x ∷ xs) rest z h =
      ap (λ zs. x ∷ zs) (take-get_or n xs rest z (omega (arith, h)))

  pub take-pred :
      (n : ℕ) (xs rest : List A) (z : A)
      → 1 ≤ n
      → n ≤ length xs
      → take (n - 1) xs ++ get_or xs (n - 1) z ∷ rest ≡ take n xs ++ rest
  take-pred n xs rest z h le =
      take-get_or (n - 1) xs rest z (omega (arith, h, le))
      ∙ ap (λ k. take k xs ++ rest) {x = suc (n - 1)} {y = n} (omega (arith, h))

-- The items of `n` equal lines, behind line `k` of the first file and line `l` of the second.
pub equals-sides :
    (a b : List Bytes) (n k l x y : ℕ) (script : List DiffItem)
    → ((i : ℕ) → i < n → get_or a (k + i) [] ≡ get_or b (l + i) [])
    → x ≡ k + n
    → y ≡ l + n
    → x ≤ length a
    → y ≤ length b
    → (take k a ++ old_side (equals a n x script) ≡ take x a ++ old_side script)
      × (take l b ++ new_side (equals a n x script) ≡ take y b ++ new_side script)
      × (edits (equals a n x script) ≡ edits script)
unfolding equals old_side new_side edits
equals-sides a b zero k l x y script same hx hy ha hb = (
  ap (λ i. take i a ++ old_side script) (omega (arith, hx)),
  ap (λ i. take i b ++ new_side script) (omega (arith, hy)),
  refl,
)
equals-sides a b (suc n) k l x y script same hx hy ha hb =
    let item : DiffItem = record { op = op_eq; text = get_or a (x - 1) [] } in
    let (old, new, count) =
      equals-sides a b n k l (x - 1) (y - 1) (item ∷ script) (λ i lt. same i (omega (arith, lt)))
        (omega (arith, hx)) (omega (arith, hy)) (omega (arith, ha)) (omega (arith, hb)) in
    let last : get_or a (x - 1) [] ≡ get_or b (y - 1) [] =
      ap (λ i. get_or a i []) {x = x - 1} {y = k + n} (omega (arith, hx))
      ∙ same n (omega arith)
      ∙ ap (λ i. get_or b i []) {x = l + n} {y = y - 1} (omega (arith, hy)) in
    (
      old ∙ take-pred x a (old_side script) [] (omega (arith, hx)) ha,
      new
          ∙ ap (λ t. take (y - 1) b ++ t ∷ new_side script) last
          ∙ take-pred y b (new_side script) [] (omega (arith, hy)) hb,
      count,
    )
