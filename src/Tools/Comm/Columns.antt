-- ===== src/Tools/Comm/Columns.antt =====
-- What stands in the columns.
use Prim.Native.Nat.{Ordering, min}
use go_posix.Base.{
  ◌≡◌, ◌≢◌, refl, subst, Bool, true, false, ◌⊎◌, inl, inr, List, [], ◌∷◌, Bytes, beq, beq_iff,
  if◌then◌else◌, arith, All,
}
use go_posix.Base.Order.{
  compare_bytes, compare_bytes-eq, compare_bytes-gt, lt_bytes-ne, IsSorted, count, count-above,
}
use go_posix.Tools.Comm.{
  Column, only_file1, only_file2, both, Entry, Suppress, suppressed, rest_of, compare,
}

abbrev pub show_all : Suppress
show_all = record { col1 = false; col2 = false; col3 = false }

-- The texts of the entries in the columns that `in_column` picks, in their order.
abbrev pub texts : (Column → Bool) → List Entry → List Bytes
texts in_column [] = []
texts in_column (e ∷ es) =
    if in_column e.col then e.text ∷ texts in_column es else texts in_column es

abbrev pub from_file1 : Column → Bool
from_file1 only_file2 = false
from_file1 _ = true

abbrev pub from_file2 : Column → Bool
from_file2 only_file1 = false
from_file2 _ = true

abbrev in_both : Column → Bool
in_both both = true
in_both _ = false

-- The entries that are not suppressed.
abbrev visible : Suppress → List Entry → List Entry
visible s [] = []
visible s (e ∷ es) = if suppressed s e.col then visible s es else e ∷ visible s es

rest_of-texts :
    (p : Column → Bool) (c : Column) (ts : List Bytes)
    → texts p (rest_of show_all c ts) ≡ (if p c then ts else [])
unfolding rest_of
rest_of-texts p only_file1 [] = ground arith
rest_of-texts p only_file2 [] = ground arith
rest_of-texts p both [] = ground arith
rest_of-texts p only_file1 (t ∷ ts) = ground (arith, rest_of-texts p only_file1 ts)
rest_of-texts p only_file2 (t ∷ ts) = ground (arith, rest_of-texts p only_file2 ts)
rest_of-texts p both (t ∷ ts) = ground (arith, rest_of-texts p both ts)

texts-compare_file1 : (xs ys : List Bytes) → texts from_file1 (compare xs ys show_all) ≡ xs
unfolding compare
texts-compare_file1 [] ys = rest_of-texts from_file1 only_file2 ys
texts-compare_file1 (x ∷ xs) [] = rest_of-texts from_file1 only_file1 (x ∷ xs)
texts-compare_file1 (x ∷ xs) (y ∷ ys) = ground (
  arith,
  texts-compare_file1 xs (y ∷ ys),
  texts-compare_file1 (x ∷ xs) ys,
  texts-compare_file1 xs ys,
)

texts-compare_file2 : (xs ys : List Bytes) → texts from_file2 (compare xs ys show_all) ≡ ys
unfolding compare
texts-compare_file2 [] ys = rest_of-texts from_file2 only_file2 ys
texts-compare_file2 (x ∷ xs) [] = rest_of-texts from_file2 only_file1 (x ∷ xs)
texts-compare_file2 (x ∷ xs) (y ∷ ys) = ground (
  arith,
  texts-compare_file2 xs (y ∷ ys),
  texts-compare_file2 (x ∷ xs) ys,
  texts-compare_file2 xs ys,
  compare_bytes-eq x y,
)

-- The first and the third column are the first file, the second and the third are the second file,
-- line by line and in order, sorted or not.
pub texts-compare :
    (xs ys : List Bytes)
    → (texts from_file1 (compare xs ys show_all) ≡ xs)
      × (texts from_file2 (compare xs ys show_all) ≡ ys)
texts-compare xs ys = (texts-compare_file1 xs ys, texts-compare_file2 xs ys)

rest_of-visible :
    (s : Suppress) (c : Column) (ts : List Bytes)
    → rest_of s c ts ≡ visible s (rest_of show_all c ts)
unfolding rest_of
rest_of-visible s only_file1 [] = refl
rest_of-visible s only_file1 (t ∷ ts) = ground (arith, rest_of-visible s only_file1 ts)
rest_of-visible s only_file2 [] = refl
rest_of-visible s only_file2 (t ∷ ts) = ground (arith, rest_of-visible s only_file2 ts)
rest_of-visible s both [] = refl
rest_of-visible s both (t ∷ ts) = ground (arith, rest_of-visible s both ts)

-- Suppressing columns leaves out their entries and changes nothing else.
compare-visible :
    (s : Suppress) (xs ys : List Bytes) → compare xs ys s ≡ visible s (compare xs ys show_all)
unfolding compare
compare-visible s [] ys = rest_of-visible s only_file2 ys
compare-visible s (x ∷ xs) [] = rest_of-visible s only_file1 (x ∷ xs)
compare-visible s (x ∷ xs) (y ∷ ys) =
    ground
      (arith, compare-visible s xs (y ∷ ys), compare-visible s (x ∷ xs) ys, compare-visible s xs ys)

Ordering-cases : (o : Ordering) → (o ≡ Ordering.lt) ⊎ ((o ≡ Ordering.gt) ⊎ (o ≡ Ordering.eq))
Ordering-cases Ordering.lt = inl refl
Ordering-cases Ordering.gt = inr (inl refl)
Ordering-cases Ordering.eq = inr (inr refl)

-- The smaller first line of two sorted files is not in the other one.
absent :
    (t x y : Bytes) (ys : List Bytes)
    → compare_bytes x y ≡ Ordering.lt
    → All (λ z. compare_bytes y z ≢ Ordering.gt) ys
    → beq x t ≡ true
    → count t (y ∷ ys) ≡ 0
unfolding count
absent t x y ys h hy same =
    let t_below = subst (λ (u : Bytes). compare_bytes u y ≡ Ordering.lt) ((beq_iff x t).0 same) h in
    let differ = lt_bytes-ne t y t_below in
    ground (arith, count-above t y ys t_below hy, beq_iff y t)

-- In sorted files the third column has each line as often as both files have it.
count-compare_both :
    (t : Bytes) (xs ys : List Bytes)
    → IsSorted xs
    → IsSorted ys
    → count t (texts in_both (compare xs ys show_all)) ≡ min (count t xs) (count t ys)
unfolding compare count
count-compare_both t [] ys hx hy = rw (rest_of-texts in_both only_file2 ys) (omega arith)
count-compare_both t (x ∷ xs) [] hx hy = rw (rest_of-texts in_both only_file1 xs) (omega arith)
count-compare_both t (x ∷ xs) (y ∷ ys) (hx, hxs) (hy, hys) =
    elim (Ordering-cases (compare_bytes x y)) [
      | inl lt ↦
          rw (lt, compare)
            (ground (arith, count-compare_both t xs (y ∷ ys) hxs (hy, hys), absent t x y ys lt hy))
      | inr (inl gt) ↦
          rw (gt, compare)
            (ground (
              arith,
              count-compare_both t (x ∷ xs) ys (hx, hxs) hys,
              absent t y x xs (compare_bytes-gt x y gt) hx,
            ))
      | inr (inr eq) ↦
          rw (eq, compare)
            (ground (arith, count-compare_both t xs ys hxs hys, compare_bytes-eq x y eq))
    ]
