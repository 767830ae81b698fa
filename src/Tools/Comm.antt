-- ===== src/Tools/Comm.antt =====
-- pkg/comm/comm.go: the lines of two files in three columns. The two indices are the suffixes of the
-- files that start there.
mod Columns
mod Tests
use Prim.Native.Nat.{Ordering}
use go_posix.Base.{ℕ, suc, ◌+◌, Bool, true, false, List, [], ◌∷◌, ◌++◌, Bytes, codes, if◌then◌else◌}
use go_posix.Base.Order.{compare_bytes}

-- The column of an entry: `Col` is 1, 2 or 3.
pub data Column : Type 0 where
  only_file1 only_file2 both : Column

pub record Entry : Type 0 where
  pub text : Bytes
  pub col : Column

-- The three elements of `suppress`.
pub record Suppress : Type 0 where
  pub col1 : Bool
  pub col2 : Bool
  pub col3 : Bool

pub suppressed : Suppress → Column → Bool
suppressed s only_file1 = s.col1
suppressed s only_file2 = s.col2
suppressed s both = s.col3

-- `if !suppress[i] { entries = append(entries, e) }`, in front of the entries that follow.
emit : Suppress → Column → Bytes → List Entry → List Entry
unfolding suppressed
emit s c t rest = if suppressed s c then rest else record { text = t; col = c } ∷ rest

-- The two loops over what is left of one file.
rest_of : Suppress → Column → List Bytes → List Entry
unfolding emit
rest_of s c [] = []
rest_of s c (t ∷ ts) = emit s c t (rest_of s c ts)

pub compare : List Bytes → List Bytes → Suppress → List Entry
unfolding emit rest_of
compare [] file2 s = rest_of s only_file2 file2
compare (x ∷ xs) [] s = rest_of s only_file1 (x ∷ xs)
compare (x ∷ xs) (y ∷ ys) s = elim (compare_bytes x y) [
  | Ordering.lt ↦ emit s only_file1 x (compare xs (y ∷ ys) s)
  | Ordering.gt ↦ emit s only_file2 y (compare (x ∷ xs) ys s)
  | Ordering.eq ↦ emit s both x (compare xs ys s)
]

line_of : Entry → Bytes
line_of e = elim e.col [
  | only_file1 ↦ e.text
  | only_file2 ↦ b'\t' ∷ e.text
  | both ↦ b'\t' ∷ b'\t' ∷ e.text
]

pub format : List Entry → Bytes
unfolding line_of
format [] = []
format (e ∷ es) = line_of e ++ b'\n' ∷ format es

count_one : Column → ℕ × ℕ × ℕ → ℕ × ℕ × ℕ
count_one only_file1 (c1, c2, c3) = (c1 + 1, c2, c3)
count_one only_file2 (c1, c2, c3) = (c1, c2 + 1, c3)
count_one both (c1, c2, c3) = (c1, c2, c3 + 1)

count_from : List Entry → ℕ × ℕ × ℕ → ℕ × ℕ × ℕ
unfolding count_one
count_from [] n = n
count_from (e ∷ es) n = count_from es (count_one e.col n)

pub counts : List Entry → ℕ × ℕ × ℕ
unfolding count_from
counts es = count_from es (0, 0, 0)
