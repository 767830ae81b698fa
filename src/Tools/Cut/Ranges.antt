-- ===== src/Tools/Cut/Ranges.antt =====
-- The lists of `cut`, and what a range selects.
use go_posix.Base.{
  ℕ, zero, suc, ◌+◌, ◌-◌, ◌≤◌, ◌<◌, ◌≡◌, refl, sym, ap, subst, ◌∙◌, tests, true, false, Option,
  none, some, List, [], ◌∷◌, Bytes, codes, All, beq, arith, take, drop, leb, Bool-cases, inl, inr,
}
use go_posix.Base.Text.{split}
use go_posix.Tools.Cut.{
  RangeSpec, max_int, in_range, select_at, positive, check_int, digits, drop_plus, bound,
  parse_range, parse_parts, parse_list, split_dash, ◌>>=◌,
}

-- The ends of a range are positions that an `int` holds.
abbrev pub IsValid : RangeSpec → Type 0
IsValid s = (1 ≤ s.start) × (s.start ≤ max_int) × (1 ≤ s.end) × (s.end ≤ max_int)

take-nil : (n : ℕ) → take n (codes "") ≡ []
take-nil zero = refl
take-nil (suc n) = refl

-- A range that begins behind the position before `i` selects all positions up to its end.
select_at-inside :
    (s : RangeSpec) (i : ℕ) (xs : Bytes)
    → s.start ≤ i + 1
    → select_at (s ∷ []) i xs ≡ take (s.end - i) xs
unfolding select_at in_range
select_at-inside s i [] h = sym (take-nil (s.end - i))
select_at-inside s i (x ∷ xs) h = elim (Bool-cases (leb (i + 1) s.end)) [
  | inl e ↦
      let next : s.end - i ≡ suc (s.end - (i + 1)) = omega (tests, e) in
      let tail = select_at-inside s (i + 1) xs (omega arith) in rw next (ground (arith, tail))
  | inr e ↦
      let none_left : s.end - i ≡ 0 = ground arith in
      let none_left' : s.end - (i + 1) ≡ 0 = ground arith in
      let inside : leb s.start (i + 1) ≡ true = ground arith in
      let tail = select_at-inside s (i + 1) xs (omega arith) in
      rw (none_left, inside, e) (rw none_left' at tail)
]

-- Positions before the range are passed over.
select_at-before :
    (s : RangeSpec) (k i : ℕ) (xs : Bytes)
    → i + k < s.start
    → select_at (s ∷ []) i xs ≡ select_at (s ∷ []) (i + k) (drop k xs)
unfolding select_at in_range
select_at-before s zero i xs h = ap (λ j. select_at (s ∷ []) j xs) (omega arith)
select_at-before s (suc k) i [] h = refl
select_at-before s (suc k) i (x ∷ xs) h =
    let same : i + 1 + k ≡ i + suc k = omega arith in
    let tail = select_at-before s k (i + 1) xs (omega arith) in
    let tail' = tail ∙ ap (λ j. select_at (s ∷ []) j (drop k xs)) same in
    let outside : leb s.start (i + 1) ≡ false = ground arith in rw outside tail'

-- A single range selects a slice of the line, for `-c` and `-b`.
pub select_at-slice :
    (s : RangeSpec) (xs : Bytes)
    → 1 ≤ s.start
    → select_at (s ∷ []) 0 xs ≡ take (s.end + 1 - s.start) (drop (s.start - 1) xs)
select_at-slice s xs h =
    let k = s.start - 1 in
    let count : s.end - (0 + k) ≡ s.end + 1 - s.start = omega arith in
    select_at-before s k 0 xs (omega arith)
    ∙ select_at-inside s (0 + k) (drop k xs) (omega arith)
    ∙ ap (λ n. take n (drop k xs)) count

check_int-value : (o : Option ℕ) (v : ℕ) → check_int o ≡ some v → (1 ≤ v) × (v ≤ max_int)
unfolding check_int
check_int-value none v h = cc
check_int-value (some w) v h = ground arith

abbrev HoldsValid : Option RangeSpec → Type 0
HoldsValid none = ⊥
HoldsValid (some s) = IsValid s

abbrev HoldValid : Option (List RangeSpec) → Type 0
HoldValid none = ⊥
HoldValid (some ss) = All IsValid ss

positive-value : (p : Bytes) (v : ℕ) → positive p ≡ some v → (1 ≤ v) × (v ≤ max_int)
unfolding positive
positive-value p v h = elim (Bool-cases (beq (drop_plus p) [])) [
  | inl e ↦ absurd (ground (arith, rw e at h))
  | inr e ↦ check_int-value (digits 0 (drop_plus p)) v (rw e at h)
]

bind-some :
    {A B : Type 0} {f : A → Option B} {b : B} (o : Option A)
    → (o >>= f) ≡ some b
    → (a : A) × (o ≡ some a) × (f a ≡ some b)
bind-some none h = cc
bind-some (some a) h = (a, refl, h)

bound-value :
    (d : ℕ) (p : Bytes) (v : ℕ) → 1 ≤ d → d ≤ max_int → bound d p ≡ some v → (1 ≤ v) × (v ≤ max_int)
unfolding bound
bound-value d p v low high h = elim (Bool-cases (beq p [])) [
  | inl e ↦ let same : some d ≡ some v = rw e at h in ground arith
  | inr e ↦ positive-value p v (rw e at h)
]

parse_range-IsValid :
    (p : Bytes) (o : Option (Bytes × Bytes)) (s : RangeSpec) → parse_range p o ≡ some s → IsValid s
unfolding parse_range
parse_range-IsValid p none s h =
    let (v, e, made) = bind-some (positive p) h in
    let (low, high) = positive-value p v e in subst HoldsValid made (low, high, low, high)
parse_range-IsValid p (some (a, b)) s h =
    let (v, ev, h') = bind-some (bound 1 a) h in
    let (w, ew, made) = bind-some (bound max_int b) h' in
    let (low, high) = bound-value 1 a v (omega arith) (omega arith) ev in
    let (low', high') = bound-value max_int b w (omega arith) (omega arith) ew in
    subst HoldsValid made (low, high, low', high')

parse_parts-IsValid :
    (ps : List Bytes) (specs : List RangeSpec) → parse_parts ps ≡ some specs → All IsValid specs
unfolding parse_parts
parse_parts-IsValid [] specs h = subst HoldValid h tt
parse_parts-IsValid (p ∷ ps) specs h =
    let (s, es, h') = bind-some (parse_range p (split_dash p)) h in
    let (ss, ess, made) = bind-some (parse_parts ps) h' in
    subst HoldValid made (parse_range-IsValid p (split_dash p) s es, parse_parts-IsValid ps ss ess)

-- In a list that `parseList` accepts, both ends of every range are at least 1 and fit in an `int`.
parse_list-IsValid :
    (list : Bytes) (specs : List RangeSpec) → parse_list list ≡ some specs → All IsValid specs
unfolding parse_list
parse_list-IsValid list specs h = parse_parts-IsValid (split list (codes ",")) specs h
