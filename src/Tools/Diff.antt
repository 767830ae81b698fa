-- ===== src/Tools/Diff.antt =====
-- pkg/diff/diff.go: `Diff`, the comparison of two lists of lines in O(ND) steps. The index
-- `maxD+k` of the source is `i` here, so that `k` is `i - max_d`; the array `v` is the function of its
-- indices, and its copies in `trace` are a list of such functions.
pub mod Furthest
pub mod Rows
pub mod Search
pub mod Script
pub mod Runs
pub mod Paths
pub mod Shortest
pub mod Hunks
pub mod Segments
pub mod Plain
pub mod Applied
pub mod Generate
pub mod Texts
pub mod BlankLines
pub mod Print
pub mod Reading
pub mod Scanned
pub mod Readable
pub mod Report
mod Tests
use go_posix.Base.{
  ℕ, zero, suc, ◌+◌, ◌-◌, Bool, true, false, not, ◌&&◌, ◌||◌, List, [], ◌∷◌, ◌++◌, Bytes, beq, ltb,
  leb, ◌==◌, if◌then◌else◌, length, get_or, drop,
}

-- `opType`
pub data OpType : Type 0 where
  op_eq op_del op_ins op_ignored_del op_ignored_ins : OpType

pub record DiffItem : Type 0 where
  pub op : OpType
  pub text : Bytes

abbrev pub Array : Type 0
Array = ℕ → ℕ

-- `v[i] = x`
pub store : Array → ℕ → ℕ → Array
store v i x = λ i2. if i2 == i then x else v i2

-- How often the loop over equal lines advances, from the lines that are left of the two files.
pub snake : List Bytes → List Bytes → ℕ
snake [] ys = 0
snake (x ∷ xs) [] = 0
snake (x ∷ xs) (y ∷ ys) = let rest = snake xs ys in if beq x y then suc rest else 0

-- `k == -d || (k != d && v[maxD+k-1] < v[maxD+k+1])`
pub goes_down : Array → ℕ → ℕ → ℕ → Bool
goes_down v max_d d i = (i + d == max_d) || (not (i == max_d + d) && ltb (v (i - 1)) (v (i + 1)))

-- The loop over `k` from `i` on, with as many rounds left: the array, and whether the search is over.
pub round : List Bytes → List Bytes → ℕ → ℕ → ℕ → ℕ → Array → Array × Bool
round a b max_d d i zero v = (v, false)
round a b max_d d i (suc rounds) v =
    let x0 = if goes_down v max_d d i then v (i + 1) else v (i - 1) + 1 in
    let y0 = x0 + max_d - i in
    let equal = snake (drop x0 a) (drop y0 b) in
    let x = x0 + equal in
    let y = y0 + equal in
    let next = store v i x in
    let rest = round a b max_d d (i + 2) rounds next in
    if leb (length a) x && leb (length b) y then (next, true) else rest

-- The loop `Outer` from `d` on, with as many rounds left: `d` behind it, and `trace`.
pub outer : List Bytes → List Bytes → ℕ → ℕ → ℕ → Array → List Array → ℕ × List Array
outer a b max_d zero d v trace = (d, trace)
outer a b max_d (suc rounds) d v trace =
    let (v2, over) = round a b max_d d (max_d - d) (suc d) v in
    let trace2 = trace ++ v2 ∷ [] in
    let rest = outer a b max_d rounds (suc d) v2 trace2 in if over then (d, trace2) else rest

-- The loops that take the items of equal lines off the end; the script is built from its end, as the
-- source appends and then reverses it.
pub equals : List Bytes → ℕ → ℕ → List DiffItem → List DiffItem
equals a zero x script = script
equals a (suc n) x script =
    equals a n (x - 1) (record { op = op_eq; text = get_or a (x - 1) [] } ∷ script)

-- The backtracking from `x` and `y`.
pub backtrack : List Bytes → List Bytes → ℕ → List Array → ℕ → ℕ → ℕ → List DiffItem → List DiffItem
backtrack a b max_d trace zero x y script = equals a (if ltb x y then x else y) x script
backtrack a b max_d trace (suc d) x y script =
    let i = x + max_d - y in
    let v = get_or trace d (λ i2. 0) in
    let down = goes_down v max_d (suc d) i in
    let start_x = if down then v (i + 1) else v (i - 1) + 1 in
    let start_y = y - (x - start_x) in
    let later = equals a (x - start_x) x script in
    let item =
      if down
      then record { op = op_ins; text = get_or b (start_y - 1) [] }
      else record { op = op_del; text = get_or a (start_x - 1) [] } in
    backtrack a b max_d trace d (if down then start_x else start_x - 1)
      (if down then start_y - 1 else start_y) (item ∷ later)

-- `Diff`
pub diff : List Bytes → List Bytes → List DiffItem
diff a b =
    let max_d = length a + length b in
    let (d, trace) = outer a b max_d (suc max_d) 0 (λ i. 0) [] in
    if max_d == 0 then [] else backtrack a b max_d trace d (length a) (length b) []
