-- ===== src/Tools/Expr/Errors.antt =====
-- The operators and functions of `expr`: which errors they give.
use go_posix.Base.{
  ℕ, ◌≡◌, refl, Bool, true, false, ◌||◌, Option, none, some, List, [], ◌∷◌, Bytes, beq, codes, leb,
  ltb, length, if◌then◌else◌, ok, err,
}
use go_posix.Base.Int64.{ℤ, pos, negsuc, add, eq_int, parse_int}
use go_posix.Tools.Expr.Values.{
  Error, out_of_fuel, Value, Regexp, or_result, and_result, compare_result, add_result, mul_result,
  with_ints, mul_ints, is_or, is_and, is_compare, is_add, is_mul, match_result, match_str,
  substr_str, substr_ints, slice, start_of, clip,
}

abbrev pub OfSource : Error → Type 0
OfSource out_of_fuel = ⊥
OfSource _ = Unit

-- A value, or an error of the source.
pub data Real : Value → Type 0 where
  value : {v : Bytes} → Real (ok v)
  raised : {e : Error} → OfSource e → Real (err e)

-- A level's test fails at the end, and what it does with its operands is an error of the source or none.
pub record IsLevel (is_op : Bytes → Bool) (combine : Bytes → Bytes → Bytes → Value) : Type 0 where
  pub at_end : is_op [] ≡ false
  pub real : (op a b : Bytes) → Real (combine op a b)

pub or-IsLevel : IsLevel is_or or_result
unfolding is_or or_result beq
or-IsLevel = record { at_end = refl; real = λ op a b. value }

pub and-IsLevel : IsLevel is_and and_result
unfolding is_and and_result beq
and-IsLevel = record { at_end = refl; real = λ op a b. value }

pub compare-IsLevel : IsLevel is_compare compare_result
unfolding is_compare compare_result beq
compare-IsLevel = record { at_end = refl; real = λ op a b. value }

with_ints-Real :
    (a b : Option ℤ) (f : ℤ → ℤ → Value) → ((x y : ℤ) → Real (f x y)) → Real (with_ints a b f)
unfolding with_ints
with_ints-Real (some a) (some b) f h = h a b
with_ints-Real none none f h = raised tt
with_ints-Real none (some b) f h = raised tt
with_ints-Real (some a) none f h = raised tt

Real-if : {r s : Value} (b : Bool) → Real r → Real s → Real (if b then r else s)
Real-if true h k = h
Real-if false h k = k

pub add-IsLevel : IsLevel is_add add_result
unfolding is_add add_result beq
add-IsLevel = record { at_end = refl; real = λ op a b. with_ints-Real _ _ _ (λ x y. value) }

mul_ints-Real : (op : Bytes) (x y : ℤ) → Real (mul_ints op x y)
unfolding mul_ints
mul_ints-Real op x y =
    Real-if (beq op (codes "*")) value
      (Real-if (eq_int y (pos 0)) (raised tt) (Real-if (beq op (codes "/")) value value))

pub mul-IsLevel : IsLevel is_mul mul_result
unfolding is_mul mul_result beq
mul-IsLevel = record { at_end = refl; real = λ op a b. with_ints-Real _ _ _ (mul_ints-Real op) }

slice-Real : (str : Bytes) (start : ℕ) (end : ℤ) → Real (slice str start end)
unfolding slice
slice-Real str start (negsuc n) = raised tt
slice-Real str start (pos n) = Real-if (ltb (length str) n || ltb n start) (raised tt) value

pub substr_str-Real : (str position len : Bytes) → Real (substr_str str position len)
unfolding substr_str substr_ints
substr_str-Real str position len =
    with_ints-Real (parse_int position) (parse_int len) (substr_ints str) (λ x y.
      Real-if (leb (length str) (start_of x)) value
        (slice-Real str (start_of x) (clip str (add (pos (start_of x)) y))))

match_result-Real :
    (grouped : Bool) (m : Option (Option (Bytes × List Bytes))) → Real (match_result grouped m)
unfolding match_result
match_result-Real grouped none = raised tt
match_result-Real grouped (some none) = value
match_result-Real grouped (some (some (whole, []))) = value
match_result-Real grouped (some (some (whole, g ∷ groups))) = value

pub match_str-Real : (regexp : Regexp) (str pattern : Bytes) → Real (match_str regexp str pattern)
unfolding match_str
match_str-Real regexp str pattern = match_result-Real _ _
