-- ===== src/Base/Order.antt =====
-- `strings.Compare`: the order of strings byte by byte.
use Prim.Native.Nat.{ℕ, Ordering, suc}
use mathlib.Core.Path.{◌≡◌, refl, subst}
use mathlib.Core.Logic.{◌≢◌}
use mathlib.Core.List.{List, [], ◌∷◌}
use native.Mathlib.Omega.{arith}
use go_posix.Base.Tests.{if◌then◌else◌, ltb, ◌==◌}
use go_posix.Base.ByteStrings.{Bytes, beq, beq_iff, All}

unfoldable pub compare_bytes : Bytes → Bytes → Ordering
compare_bytes [] [] = Ordering.eq
compare_bytes [] (y ∷ ys) = Ordering.lt
compare_bytes (x ∷ xs) [] = Ordering.gt
compare_bytes (x ∷ xs) (y ∷ ys) =
    if ltb x y then Ordering.lt else if x == y then compare_bytes xs ys else Ordering.gt

compare_bytes_refl : (s : Bytes) → compare_bytes s s ≡ Ordering.eq
unfolding compare_bytes
compare_bytes_refl [] = refl
compare_bytes_refl (x ∷ xs) = ground (arith, compare_bytes_refl xs)

pub compare_bytes-eq : (s t : Bytes) → compare_bytes s t ≡ Ordering.eq → s ≡ t
unfolding compare_bytes
compare_bytes-eq [] [] h = refl
compare_bytes-eq [] (y ∷ ys) h = cc
compare_bytes-eq (x ∷ xs) [] h = cc
compare_bytes-eq (x ∷ xs) (y ∷ ys) h = ground (arith, compare_bytes-eq xs ys)

pub compare_bytes-gt :
    (s t : Bytes) → compare_bytes s t ≡ Ordering.gt → compare_bytes t s ≡ Ordering.lt
unfolding compare_bytes
compare_bytes-gt [] [] h = cc
compare_bytes-gt [] (y ∷ ys) h = cc
compare_bytes-gt (x ∷ xs) [] h = refl
compare_bytes-gt (x ∷ xs) (y ∷ ys) h = ground (arith, compare_bytes-gt xs ys)

compare_bytes-lt_le :
    (s t u : Bytes)
    → compare_bytes s t ≡ Ordering.lt
    → compare_bytes t u ≢ Ordering.gt
    → compare_bytes s u ≡ Ordering.lt
unfolding compare_bytes
compare_bytes-lt_le [] [] u h k = cc
compare_bytes-lt_le [] (y ∷ t) [] h k = absurd (k refl)
compare_bytes-lt_le [] (y ∷ t) (z ∷ u) h k = refl
compare_bytes-lt_le (x ∷ s) [] u h k = cc
compare_bytes-lt_le (x ∷ s) (y ∷ t) [] h k = absurd (k refl)
compare_bytes-lt_le (x ∷ s) (y ∷ t) (z ∷ u) h k = ground (arith, compare_bytes-lt_le s t u)

-- No line stands before a smaller one.
abbrev pub IsSorted : List Bytes → Type 0
IsSorted [] = Unit
IsSorted (x ∷ xs) = All (λ y. compare_bytes x y ≢ Ordering.gt) xs × IsSorted xs

-- How often a line occurs.
unfoldable pub count : Bytes → List Bytes → ℕ
count x [] = 0
count x (y ∷ ys) = if beq y x then suc (count x ys) else count x ys

pub lt_bytes-ne : (s t : Bytes) → compare_bytes s t ≡ Ordering.lt → t ≢ s
lt_bytes-ne s t h e =
    cc (subst (λ (u : Bytes). compare_bytes s u ≡ Ordering.lt) e h, compare_bytes_refl s)

-- A line below the first of a sorted file does not occur in it.
pub count-above :
    (x y : Bytes) (ys : List Bytes)
    → compare_bytes x y ≡ Ordering.lt
    → All (λ z. compare_bytes y z ≢ Ordering.gt) ys
    → count x ys ≡ 0
unfolding count
count-above x y [] h k = refl
count-above x y (z ∷ ys) h (kz, k) =
    let differ = lt_bytes-ne x z (compare_bytes-lt_le x y z h kz) in
    ground (arith, count-above x y ys h k, beq_iff z x)
