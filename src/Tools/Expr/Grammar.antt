-- ===== src/Tools/Expr/Grammar.antt =====
-- The expressions that the grammar of pkg/expr/expr.go derives, with their values, and the tokens that
-- stand for them, with parentheses where a part binds less tightly than its place wants.
-- The levels are 0 for `|` to 4 for `*`, 5 for the functions and 6 for what stands in one token or
-- in parentheses.
use go_posix.Base.{
  ℕ, zero, suc, ◌+◌, ◌≡◌, Bool, false, ◌||◌, List, [], ◌∷◌, ◌++◌, Bytes, beq, codes, ltb,
  if◌then◌else◌, length, ok, ◌>>=◌,
}
use go_posix.Base.Int64.{pos, format_int}
use go_posix.Tools.Expr.Values.{
  Value, Regexp, or_result, and_result, compare_result, add_result, mul_result, match_str,
  substr_str, index_str,
}

pub data Operator : Type 0 where
  either both : Operator
  equal unequal less at_most greater at_least : Operator
  plus minus : Operator
  times divided modulo : Operator

abbrev pub rank : Operator → ℕ
rank either = 0
rank both = 1
rank plus = 3
rank minus = 3
rank times = 4
rank divided = 4
rank modulo = 4
rank _ = 2

abbrev pub token : Operator → Bytes
token either = codes "|"
token both = codes "&"
token equal = codes "="
token unequal = codes "!="
token less = codes "<"
token at_most = codes "<="
token greater = codes ">"
token at_least = codes ">="
token plus = codes "+"
token minus = codes "-"
token times = codes "*"
token divided = codes "/"
token modulo = codes "%"

-- What the operators of a level do.
unfoldable pub combine_at : ℕ → Bytes → Bytes → Bytes → Value
combine_at zero = or_result
combine_at (suc zero) = and_result
combine_at (suc (suc zero)) = compare_result
combine_at (suc (suc (suc zero))) = add_result
combine_at _ = mul_result

pub data Expr : Type 0 where
  atom : Bytes → Expr
  binary : Operator → Expr → Expr → Expr
  match_at : Bytes → Expr → Expr
  match_of index_of : Expr → Expr → Expr
  substr_of : Expr → Expr → Expr → Expr
  length_of : Expr → Expr

unfoldable pub value : Regexp → Expr → Value
unfolding combine_at
value regexp (atom a) = ok a
value regexp (binary o a b) = do
  v ← value regexp a
  w ← value regexp b
  combine_at (rank o) (token o) v w
value regexp (match_at str b) = do pat ← value regexp b; match_str regexp str pat
value regexp (match_of a b) = do
  str ← value regexp a
  pat ← value regexp b
  match_str regexp str pat
value regexp (index_of a b) = do
  str ← value regexp a
  chars ← value regexp b
  ok (index_str str chars)
value regexp (substr_of a b c) = do
  str ← value regexp a
  position ← value regexp b
  len ← value regexp c
  substr_str str position len
value regexp (length_of a) = do str ← value regexp a; ok (format_int (pos (length str)))

abbrev pub wrap : Bool → List Bytes → List Bytes
wrap b ts = if b then codes "(" ∷ ts ++ codes ")" ∷ [] else ts

-- The tokens of an expression in a place of the level `n`.
unfoldable pub print : ℕ → Expr → List Bytes
print n (atom a) = a ∷ []
print n (binary o a b) =
    wrap (ltb (rank o) n) (print (rank o) a ++ token o ∷ print (suc (rank o)) b)
print n (match_at str b) = str ∷ codes ":" ∷ print 6 b
print n (match_of a b) = wrap (ltb 5 n) (codes "match" ∷ print 6 a ++ print 6 b)
print n (index_of a b) = wrap (ltb 5 n) (codes "index" ∷ print 6 a ++ print 6 b)
print n (substr_of a b c) = wrap (ltb 5 n) (codes "substr" ∷ print 6 a ++ print 6 b ++ print 6 c)
print n (length_of a) = wrap (ltb 5 n) (codes "length" ∷ print 6 a)

-- A token that `expr` does not take for an operand everywhere.
unfoldable pub is_reserved : Bytes → Bool
is_reserved t =
    beq t []
    || beq t (codes "(")
    || beq t (codes ")")
    || beq t (codes ":")
    || beq t (codes "|")
    || beq t (codes "&")
    || beq t (codes "match")
    || beq t (codes "substr")
    || beq t (codes "index")
    || beq t (codes "length")

-- No operand is reserved.
abbrev pub IsPlain : Expr → Type 0
IsPlain (atom a) = is_reserved a ≡ false
IsPlain (binary o a b) = IsPlain a × IsPlain b
IsPlain (match_at str b) = (is_reserved str ≡ false) × IsPlain b
IsPlain (match_of a b) = IsPlain a × IsPlain b
IsPlain (index_of a b) = IsPlain a × IsPlain b
IsPlain (substr_of a b c) = IsPlain a × IsPlain b × IsPlain c
IsPlain (length_of a) = IsPlain a

abbrev pub size : Expr → ℕ
size (atom a) = 1
size (binary o a b) = 1 + size a + size b
size (match_at str b) = 1 + size b
size (match_of a b) = 1 + size a + size b
size (index_of a b) = 1 + size a + size b
size (substr_of a b c) = 1 + size a + size b + size c
size (length_of a) = 1 + size a
