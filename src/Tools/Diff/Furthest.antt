-- ===== src/Tools/Diff/Furthest.antt =====
-- How far a path of `j` deletions and `r` insertions can run: the number of equal lines on it, by
-- recursion on both, without the array of the search.
use Prim.Native.Nat.{max}
use go_posix.Base.{
  ℕ, zero, suc, ◌+◌, ◌-◌, ◌≤◌, ◌<◌, ◌≡◌, refl, ap, ◌∙◌, ◌⊎◌, inl, inr, List, [], ◌∷◌, Bytes, beq,
  arith, length, drop, length-drop, take, beq→eq, Bool-cases, tests, ltb,
}
use go_posix.Tools.Diff.{snake}

-- The equal lines behind `u` of them.
abbrev extend : List Bytes → List Bytes → ℕ → ℕ → ℕ → ℕ
extend a b j r u = u + snake (drop (j + u) a) (drop (r + u) b)

pub furthest : List Bytes → List Bytes → ℕ → ℕ → ℕ
furthest a b zero zero = extend a b zero zero 0
furthest a b (suc j) zero = extend a b (suc j) zero (furthest a b j zero)
furthest a b zero (suc r) = extend a b zero (suc r) (furthest a b zero r)
furthest a b (suc j) (suc r) =
    extend a b (suc j) (suc r) (max (furthest a b j (suc r)) (furthest a b (suc j) r))

-- Where the equal lines at the end of such a path start.
unfoldable pub start : List Bytes → List Bytes → ℕ → ℕ → ℕ
start a b zero zero = 0
start a b (suc j) zero = furthest a b j zero
start a b zero (suc r) = furthest a b zero r
start a b (suc j) (suc r) = max (furthest a b j (suc r)) (furthest a b (suc j) r)

pub furthest-start :
    (a b : List Bytes) (j r : ℕ)
    → furthest a b j r
      ≡ start a b j r + snake (drop (j + start a b j r) a) (drop (r + start a b j r) b)
unfolding furthest start
furthest-start a b zero zero = refl
furthest-start a b zero (suc r) = refl
furthest-start a b (suc j) zero = refl
furthest-start a b (suc j) (suc r) = refl

snake_left : (xs ys : List Bytes) → snake xs ys ≤ length xs
unfolding snake
snake_left [] ys = omega arith
snake_left (x ∷ xs) [] = omega arith
snake_left (x ∷ xs) (y ∷ ys) = ground (arith, snake_left xs ys)

snake_right : (xs ys : List Bytes) → snake xs ys ≤ length ys
unfolding snake
snake_right [] ys = omega arith
snake_right (x ∷ xs) [] = omega arith
snake_right (x ∷ xs) (y ∷ ys) = ground (arith, snake_right xs ys)

take-snake : (xs ys : List Bytes) → take (snake xs ys) xs ≡ take (snake xs ys) ys
unfolding snake
take-snake [] ys = refl
take-snake (x ∷ xs) [] = refl
take-snake (x ∷ xs) (y ∷ ys) = elim (Bool-cases (beq x y)) [
  | inl e ↦ rw (e, take-snake xs ys, beq→eq x y e)
  | inr e ↦ rw e
]

snake_end : (xs ys : List Bytes) → snake (drop (snake xs ys) xs) (drop (snake xs ys) ys) ≡ 0
unfolding snake
snake_end [] ys = refl
snake_end (x ∷ xs) [] = refl
snake_end (x ∷ xs) (y ∷ ys) = elim (Bool-cases (beq x y)) [
  | inl e ↦ rw (e, snake_end xs ys)
  | inr e ↦ rw (e, e)
]

drop_nil {ℓ} : {A : Type ℓ} (n : ℕ) → drop {A = A} n [] ≡ []
drop_nil zero = refl
drop_nil (suc n) = refl

pub drop-add {ℓ} : {A : Type ℓ} (n k : ℕ) (xs : List A) → drop (n + k) xs ≡ drop k (drop n xs)
drop-add zero k xs = ap (λ i. drop i xs) (omega arith)
drop-add (suc n) k [] = rw (drop_nil (suc n + k), drop_nil k)
drop-add (suc n) k (x ∷ xs) =
    ap (λ i. drop i (x ∷ xs)) {x = suc n + k} {y = suc (n + k)} (omega arith) ∙ drop-add n k xs

-- The equal lines are taken as far as they go.
pub furthest-snake :
    (a b : List Bytes) (j r : ℕ)
    → snake (drop (j + furthest a b j r) a) (drop (r + furthest a b j r) b) ≡ 0
furthest-snake a b j r =
    let e = furthest-start a b j r in
    let u = start a b j r in
    let rest = snake_end (drop (j + u) a) (drop (r + u) b) in
    let n = snake (drop (j + u) a) (drop (r + u) b) in
    let left =
      ap (λ i. drop i a) {x = j + furthest a b j r} {y = j + u + n} (omega (arith, e))
      ∙ drop-add (j + u) n a in
    let right =
      ap (λ i. drop i b) {x = r + furthest a b j r} {y = r + u + n} (omega (arith, e))
      ∙ drop-add (r + u) n b in
    rw (left, right, rest)

start_le : (a b : List Bytes) (j r : ℕ) → start a b j r ≤ furthest a b j r
start_le a b j r = omega (arith, furthest-start a b j r)

pub right_le : (a b : List Bytes) (j r : ℕ) → furthest a b j r ≤ furthest a b (suc j) r
unfolding start
right_le a b j zero = start_le a b (suc j) zero
right_le a b j (suc r) = omega (arith, start_le a b (suc j) (suc r))

pub down_le : (a b : List Bytes) (j r : ℕ) → furthest a b j r ≤ furthest a b j (suc r)
unfolding start
down_le a b zero r = start_le a b zero (suc r)
down_le a b (suc j) r = omega (arith, start_le a b (suc j) (suc r))

-- Below the end of the second file, equal lines are no longer taken.
past_b :
    (a b : List Bytes) (j r e : ℕ)
    → r + furthest a b j r ≡ length b + suc e
    → furthest a b j r ≡ start a b j r
past_b a b j r e h = omega (
  arith,
  h,
  furthest-start a b j r,
  snake_right (drop (j + start a b j r) a) (drop (r + start a b j r) b),
  length-drop (r + start a b j r) b,
)

past_a :
    (a b : List Bytes) (j r e : ℕ)
    → j + furthest a b j r ≡ length a + suc e
    → furthest a b j r ≡ start a b j r
past_a a b j r e h = omega (
  arith,
  h,
  furthest-start a b j r,
  snake_left (drop (j + start a b j r) a) (drop (r + start a b j r) b),
  length-drop (j + start a b j r) a,
)

max_choice : (m n : ℕ) → (max m n ≡ m) ⊎ (max m n ≡ n)
max_choice m n = elim (Bool-cases (ltb m n)) [
  | inl e ↦ inr (omega (tests, e))
  | inr e ↦ inl (ground (arith, e))
]

-- A path that leaves the second file by `e` lines has as many insertions too many.
beyond_b :
    (a b : List Bytes) (j r e : ℕ)
    → r + furthest a b j r ≡ length b + e
    → (r2 : ℕ) × (r ≡ r2 + e) × (furthest a b j r ≤ furthest a b j r2)
unfolding start
beyond_b a b j r zero h = (r, omega arith, omega arith)
beyond_b a b zero zero (suc e) h = absurd (omega (arith, h, past_b a b zero zero e h))
beyond_b a b (suc j) zero (suc e) h =
    let s = past_b a b (suc j) zero e h in
    let (r2, q, le) = beyond_b a b j zero (suc e) (omega (arith, h, s)) in
    (r2, q, omega (arith, le, s, right_le a b j r2))
beyond_b a b zero (suc r) (suc e) h =
    let s = past_b a b zero (suc r) e h in
    let (r2, q, le) = beyond_b a b zero r e (omega (arith, h, s)) in
    (r2, omega (arith, q), omega (arith, le, s))
beyond_b a b (suc j) (suc r) (suc e) h =
    let s = past_b a b (suc j) (suc r) e h in
    elim (max_choice (furthest a b j (suc r)) (furthest a b (suc j) r)) [
      | inl q ↦
          let (r2, q2, le) = beyond_b a b j (suc r) (suc e) (omega (arith, h, s, q)) in
          (r2, q2, omega (arith, le, s, q, right_le a b j r2))
      | inr q ↦
          let (r2, q2, le) = beyond_b a b (suc j) r e (omega (arith, h, s, q)) in
          (r2, omega (arith, q2), omega (arith, le, s, q))
    ]

beyond_a :
    (a b : List Bytes) (j r e : ℕ)
    → j + furthest a b j r ≡ length a + e
    → (j2 : ℕ) × (j ≡ j2 + e) × (furthest a b j r ≤ furthest a b j2 r)
unfolding start
beyond_a a b j r zero h = (j, omega arith, omega arith)
beyond_a a b zero zero (suc e) h = absurd (omega (arith, h, past_a a b zero zero e h))
beyond_a a b zero (suc r) (suc e) h =
    let s = past_a a b zero (suc r) e h in
    let (j2, q, le) = beyond_a a b zero r (suc e) (omega (arith, h, s)) in
    (j2, q, omega (arith, le, s, down_le a b j2 r))
beyond_a a b (suc j) zero (suc e) h =
    let s = past_a a b (suc j) zero e h in
    let (j2, q, le) = beyond_a a b j zero e (omega (arith, h, s)) in
    (j2, omega (arith, q), omega (arith, le, s))
beyond_a a b (suc j) (suc r) (suc e) h =
    let s = past_a a b (suc j) (suc r) e h in
    elim (max_choice (furthest a b j (suc r)) (furthest a b (suc j) r)) [
      | inl q ↦
          let (j2, q2, le) = beyond_a a b j (suc r) e (omega (arith, h, s, q)) in
          (j2, omega (arith, q2), omega (arith, le, s, q))
      | inr q ↦
          let (j2, q2, le) = beyond_a a b (suc j) r (suc e) (omega (arith, h, s, q)) in
          (j2, q2, omega (arith, le, s, q, down_le a b j2 r))
    ]

-- The path of `j` deletions and `r` insertions comes to the ends of the files, or beyond them.
unfoldable pub Reaches : List Bytes → List Bytes → ℕ → ℕ → Type 0
Reaches a b j r = (length a ≤ j + furthest a b j r) × (length b ≤ r + furthest a b j r)

-- Where no shorter path reaches the ends, this one stops at them.
pub Reaches-exact :
    (a b : List Bytes) (j r : ℕ)
    → Reaches a b j r
    → ((j2 r2 : ℕ) → j2 + r2 < j + r → ¬ Reaches a b j2 r2)
    → (j + furthest a b j r ≡ length a) × (r + furthest a b j r ≡ length b)
unfolding Reaches
Reaches-exact a b j r (ha, hb) first =
    let over_a = j + furthest a b j r - length a in
    let over_b = r + furthest a b j r - length b in
    let (j2, qa, la) = beyond_a a b j r over_a (omega (arith, ha)) in
    let (r2, qb, lb) = beyond_b a b j r over_b (omega (arith, hb)) in
    let fa : ¬ (1 ≤ over_a) = λ p.
      first j2 r (omega (arith, qa, p)) (omega (arith, la, qa, ha), omega (arith, la, qa, hb)) in
    let fb : ¬ (1 ≤ over_b) = λ p.
      first j r2 (omega (arith, qb, p)) (omega (arith, lb, qb, ha), omega (arith, lb, qb, hb)) in
    (omega (arith, ha, fa), omega (arith, hb, fb))
