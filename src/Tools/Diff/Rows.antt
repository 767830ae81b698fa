-- ===== src/Tools/Diff/Rows.antt =====
-- A row of the trace of `Diff`, and the step that it tells.
use go_posix.Base.{
  ℕ, zero, suc, ◌+◌, ◌-◌, ◌≤◌, ◌<◌, ◌≡◌, ◌≢◌, refl, ap, ◌⊎◌, inl, inr, true, false, List, Bytes,
  arith, tests, if◌then◌else◌, ltb, Bool-cases,
}
use go_posix.Tools.Diff.{Array, store, goes_down}
use go_posix.Tools.Diff.Furthest.{furthest, start}

-- The array holds the furthest paths of `d` steps.
unfoldable pub Row : List Bytes → List Bytes → ℕ → ℕ → Array → Type 0
Row a b max_d d v = (j r i : ℕ) → j + r ≡ d → i + r ≡ max_d + j → v i ≡ j + furthest a b j r

-- What a round starts from.
unfoldable pub Before : List Bytes → List Bytes → ℕ → ℕ → Array → Type 0
Before a b max_d zero v = v (max_d + 1) ≡ 0
Before a b max_d (suc d) v = Row a b max_d d v

-- The step that ends a furthest path is the one that the array tells.
unfoldable pub Choice : List Bytes → List Bytes → ℕ → ℕ → Array → ℕ → ℕ → ℕ → Type 0
Choice a b max_d d v j r i =
    ((goes_down v max_d d i ≡ true)
      × (r2 : ℕ) × (r ≡ suc r2)
      × (start a b j r ≡ furthest a b j r2)
      × (v (i + 1) ≡ j + start a b j r))
    ⊎ ((goes_down v max_d d i ≡ false)
        × (j2 : ℕ) × (j ≡ suc j2)
        × (start a b j r ≡ furthest a b j2 r)
        × (v (i - 1) + 1 ≡ j + start a b j r))

pub Row-Choice :
    (a b : List Bytes) (max_d d : ℕ) (v : Array) (j r i : ℕ)
    → Row a b max_d d v
    → j + r ≡ suc d
    → d < max_d
    → i + r ≡ max_d + j
    → Choice a b max_d (suc d) v j r i
unfolding Row Choice goes_down start
Row-Choice a b max_d d v zero zero i row s le at = absurd (omega (arith, s))
Row-Choice a b max_d d v zero (suc r) i row s le at = inl (
  ground (arith, s, at),
  r,
  refl,
  refl,
  row zero r (i + 1) (omega (arith, s)) (omega (arith, at)),
)
Row-Choice a b max_d d v (suc j) zero i row s le at = inr (
  ground (arith, s, at),
  j,
  refl,
  refl,
  omega (arith, row j zero (i - 1) (omega (arith, s)) (omega (arith, at, s, le))),
)
Row-Choice a b max_d d v (suc j) (suc r) i row s le at =
    let left = row j (suc r) (i - 1) (omega (arith, s)) (omega (arith, at, s, le)) in
    let right = row (suc j) r (i + 1) (omega (arith, s)) (omega (arith, at)) in
    elim (Bool-cases (ltb (v (i - 1)) (v (i + 1)))) [
      | inl e ↦ inl (
        ground (arith, s, at, e),
        r,
        refl,
        omega (tests, e, left, right),
        omega (tests, e, left, right),
      )
      | inr e ↦ inr (
        ground (arith, s, at, e),
        j,
        refl,
        ground (arith, e, left, right),
        ground (arith, e, left, right),
      )
    ]

goes_down_zero : (max_d : ℕ) (v : Array) (i : ℕ) → i ≡ max_d → goes_down v max_d 0 i ≡ true
unfolding goes_down
goes_down_zero max_d v i h = ground (arith, h)

-- Where the lines of a diagonal are compared.
pub start_x :
    (a b : List Bytes) (max_d d : ℕ) (v : Array) (j r i : ℕ)
    → Before a b max_d d v
    → j + r ≡ d
    → d ≤ max_d
    → i + r ≡ max_d + j
    → (if goes_down v max_d d i then v (i + 1) else v (i - 1) + 1) ≡ j + start a b j r
unfolding Before start Choice
start_x a b max_d zero v zero zero i before s le at = rw (
  goes_down_zero max_d v i (omega (arith, s, at)),
  ap v {x = i + 1} {y = max_d + 1} (omega (arith, at)),
  before,
)
start_x a b max_d zero v (suc j) r i before s le at = absurd (omega (arith, s))
start_x a b max_d zero v j (suc r) i before s le at = absurd (omega (arith, s))
start_x a b max_d (suc d) v j r i before s le at =
    elim (Row-Choice a b max_d d v j r i before s le at) [
      | inl (e, r2, q, h, w) ↦ rw (e, w)
      | inr (e, j2, q, h, w) ↦ rw (e, w)
    ]

pub store_self : (v : Array) (i x : ℕ) → store v i x i ≡ x
unfolding store
store_self v i x = ground arith

pub store_other : (v : Array) (i x i2 : ℕ) → i2 ≢ i → store v i x i2 ≡ v i2
unfolding store
store_other v i x i2 h = ground (arith, h)
