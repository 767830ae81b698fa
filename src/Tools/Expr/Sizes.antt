-- ===== src/Tools/Expr/Sizes.antt =====
-- The parts of an expression of `expr` and its tokens.
use go_posix.Base.{
  ℕ, suc, ◌+◌, ◌≤◌, Bool, true, false, [], ◌∷◌, ◌++◌, Bytes, codes, arith, ltb, length,
  length-append,
}
use go_posix.Tools.Expr.Grammar.{
  rank, token, Expr, atom, binary, match_at, match_of, index_of, substr_of, length_of, print, wrap,
  size,
}
use go_posix.Tools.Expr.{Tokens}

length-wrap : (b : Bool) (ts : Tokens) → length ts ≤ length (wrap b ts)
length-wrap true ts = omega (arith, length-append ts (codes ")" ∷ []))
length-wrap false ts = omega arith

length-wrap_two :
    (b : Bool) (name : Bytes) (ts us : Tokens)
    → 1 + length ts + length us ≤ length (wrap b (name ∷ ts ++ us))
length-wrap_two b name ts us = omega (arith, length-wrap b (name ∷ ts ++ us), length-append ts us)

pub size-print : (n : ℕ) (e : Expr) → size e ≤ length (print n e)
unfolding print
size-print n (atom a) = omega arith
size-print n (binary o a b) =
    let inside = print (rank o) a ++ token o ∷ print (suc (rank o)) b in
    omega (
      arith,
      length-wrap (ltb (rank o) n) inside,
      length-append (print (rank o) a) (token o ∷ print (suc (rank o)) b),
      size-print (rank o) a,
      size-print (suc (rank o)) b,
    )
size-print n (match_at str b) = omega (arith, size-print 6 b)
size-print n (match_of a b) = omega (
  arith,
  length-wrap_two (ltb 5 n) (codes "match") (print 6 a) (print 6 b),
  size-print 6 a,
  size-print 6 b,
)
size-print n (index_of a b) = omega (
  arith,
  length-wrap_two (ltb 5 n) (codes "index") (print 6 a) (print 6 b),
  size-print 6 a,
  size-print 6 b,
)
size-print n (substr_of a b c) = omega (
  arith,
  length-wrap_two (ltb 5 n) (codes "substr") (print 6 a ++ print 6 b) (print 6 c),
  length-append (print 6 a) (print 6 b),
  size-print 6 a,
  size-print 6 b,
  size-print 6 c,
)
size-print n (length_of a) =
    omega (arith, length-wrap (ltb 5 n) (codes "length" ∷ print 6 a), size-print 6 a)

pub size_positive : (e : Expr) → 1 ≤ size e
size_positive (atom a) = omega arith
size_positive (binary o a b) = omega arith
size_positive (match_at str b) = omega arith
size_positive (match_of a b) = omega arith
size_positive (index_of a b) = omega arith
size_positive (substr_of a b c) = omega arith
size_positive (length_of a) = omega arith
