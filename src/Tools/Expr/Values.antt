-- ===== src/Tools/Expr/Values.antt =====
-- pkg/expr/expr.go: the operators and functions of `expr` on their operands.
-- Package regexp is a parameter: `none` is a pattern that does not compile, `some none` no match, and
-- `some (some m)` the match and its groups.
use Prim.Native.Nat.{Ordering}
use go_posix.Base.{
  ℕ, zero, suc, ◌+◌, ◌-◌, Bool, not, ◌||◌, Option, none, some, List, [], ◌∷◌, ◌++◌, Bytes, beq,
  codes, ltb, leb, if◌then◌else◌, length, take, drop, Result, ok, err,
}
use go_posix.Base.FilePath.{has_prefix}
use go_posix.Base.Text.{contains}
use go_posix.Base.Runes.{decode_rune, contains_rune}
use go_posix.Base.Order.{compare_bytes}
use go_posix.Base.Int64.{
  ℤ, pos, negsuc, add, sub, mul, quo, rem, eq_int, lt_int, parse_int, format_int,
}

-- `panics` is the run-time panic of a slice out of range. `out_of_fuel` belongs to the model only.
pub data Error : Type 0 where
  missing_operand : Error
  unexpected : Bytes → Error
  unexpected_end expected_close syntax_error : Error
  non_integer division_by_zero invalid_regex : Error
  panics : Error
  out_of_fuel : Error

abbrev pub Value : Type 0
Value = Result Error Bytes

unfoldable pub is_null : Bytes → Bool
is_null v = beq v [] || beq v (codes "0")

unfoldable pub exit_code : Bytes → ℕ
unfolding is_null
exit_code v = if is_null v then 1 else 0

abbrev pub truth : Bool → Bytes
truth b = if b then codes "1" else codes "0"

unfoldable pub compare_ints : Bytes → ℤ → ℤ → Bool
compare_ints op a b =
    if beq op (codes "=")
    then eq_int a b
    else if beq op (codes "!=")
    then not (eq_int a b)
    else if beq op (codes "<")
    then lt_int a b
    else if beq op (codes "<=")
    then lt_int a b || eq_int a b
    else if beq op (codes ">")
    then lt_int b a
    else lt_int b a || eq_int a b

unfoldable compare_texts : Bytes → Ordering → Bool
compare_texts op Ordering.eq = beq op (codes "=") || beq op (codes "<=") || beq op (codes ">=")
compare_texts op Ordering.lt = beq op (codes "!=") || beq op (codes "<") || beq op (codes "<=")
compare_texts op Ordering.gt = beq op (codes "!=") || beq op (codes ">") || beq op (codes ">=")

unfoldable cmp_result : Bytes → Bytes → Bytes → Bytes
unfolding compare_ints compare_texts
cmp_result left op right = elim (parse_int left) [
  | some a ↦ elim (parse_int right) [
    | some b ↦ truth (compare_ints op a b)
    | none ↦ truth (compare_texts op (compare_bytes left right))
  ]
  | none ↦ truth (compare_texts op (compare_bytes left right))
]

-- What the loops of `parseOr`, `parseAnd`, `parseCmp`, `parseAdd` and `parseMul` do with an operator
-- and its two operands.
unfoldable pub or_result : Bytes → Bytes → Bytes → Value
unfolding is_null
or_result op left right = ok (if is_null left then right else left)

unfoldable pub and_result : Bytes → Bytes → Bytes → Value
unfolding is_null
and_result op left right = ok (if is_null left || is_null right then codes "0" else left)

unfoldable pub compare_result : Bytes → Bytes → Bytes → Value
unfolding cmp_result
compare_result op left right = ok (cmp_result left op right)

unfoldable pub with_ints : Option ℤ → Option ℤ → (ℤ → ℤ → Value) → Value
with_ints (some a) (some b) f = f a b
with_ints _ _ f = err non_integer

unfoldable pub add_result : Bytes → Bytes → Bytes → Value
unfolding with_ints
add_result op left right =
    with_ints (parse_int left) (parse_int right)
      (λ a b. ok (format_int (if beq op (codes "+") then add a b else sub a b)))

unfoldable pub mul_ints : Bytes → ℤ → ℤ → Value
mul_ints op a b =
    if beq op (codes "*")
    then ok (format_int (mul a b))
    else if eq_int b (pos 0)
    then err division_by_zero
    else if beq op (codes "/")
    then ok (format_int (quo a b))
    else ok (format_int (rem a b))

unfoldable pub mul_result : Bytes → Bytes → Bytes → Value
unfolding with_ints mul_ints
mul_result op left right = with_ints (parse_int left) (parse_int right) (mul_ints op)

unfoldable pub is_or : Bytes → Bool
is_or t = beq t (codes "|")

unfoldable pub is_and : Bytes → Bool
is_and t = beq t (codes "&")

unfoldable pub is_compare : Bytes → Bool
is_compare t =
    beq t (codes "=")
    || beq t (codes "!=")
    || beq t (codes "<")
    || beq t (codes "<=")
    || beq t (codes ">")
    || beq t (codes ">=")

unfoldable pub is_add : Bytes → Bool
is_add t = beq t (codes "+") || beq t (codes "-")

unfoldable pub is_mul : Bytes → Bool
is_mul t = beq t (codes "*") || beq t (codes "/") || beq t (codes "%")

-- `str[start:end]`
unfoldable pub slice : Bytes → ℕ → ℤ → Value
slice str start (negsuc n) = err panics
slice str start (pos end) =
    if ltb (length str) end || ltb end start
    then err panics
    else ok (take (end - start) (drop start str))

-- `pos - 1`, for a position from 1 on
unfoldable pub start_of : ℤ → ℕ
start_of (pos n) = n - 1
start_of (negsuc n) = 0

-- `if end > len(str) { end = len(str) }`
unfoldable pub clip : Bytes → ℤ → ℤ
clip str end = if lt_int (pos (length str)) end then pos (length str) else end

unfoldable pub substr_ints : Bytes → ℤ → ℤ → Value
unfolding slice start_of clip
substr_ints str position len =
    let start = start_of position in
    if leb (length str) start then ok [] else slice str start (clip str (add (pos start) len))

unfoldable pub substr_str : Bytes → Bytes → Bytes → Value
unfolding with_ints substr_ints
substr_str str position len = with_ints (parse_int position) (parse_int len) (substr_ints str)

-- The loop of `indexStr` from the byte number `i` on; `skip` bytes belong to the rune before.
unfoldable index_from : Bytes → ℕ → ℕ → Bytes → Bytes
index_from chars i skip [] = codes "0"
index_from chars i (suc skip) (c ∷ s) = index_from chars (i + 1) skip s
index_from chars i zero (c ∷ s) =
    let (r, size) = decode_rune (c ∷ s) in
    let more = index_from chars (i + 1) (size - 1) s in
    if contains_rune chars r then format_int (pos (i + 1)) else more

unfoldable pub index_str : Bytes → Bytes → Bytes
unfolding index_from
index_str str chars = index_from chars 0 0 str

abbrev pub Regexp : Type 0
Regexp = Bytes → Bytes → Option (Option (Bytes × List Bytes))

unfoldable pub anchored : Bytes → Bytes
anchored pattern = if has_prefix pattern (codes "^") then pattern else codes "^" ++ pattern

-- What becomes of the answer of `FindStringSubmatch`; `grouped` is a pattern with a `(`.
unfoldable pub match_result : Bool → Option (Option (Bytes × List Bytes)) → Value
match_result grouped none = err invalid_regex
match_result grouped (some none) = ok (if grouped then [] else codes "0")
match_result grouped (some (some (whole, []))) = ok (format_int (pos (length whole)))
match_result grouped (some (some (whole, g ∷ groups))) = ok g

unfoldable pub match_str : Regexp → Bytes → Bytes → Value
unfolding anchored match_result
match_str regexp str pattern =
    match_result (contains (anchored pattern) (codes "(")) (regexp (anchored pattern) str)
