-- ===== src/Tools/TestCmd/Values.antt =====
-- pkg/testcmd/testcmd.go: the operators of `test` on their operands.
-- What `os.Lstat` and `os.Stat` give is an argument, `none` where they fail.
use Prim.Native.Nat.{bit_and}
use go_posix.Base.{
  ℕ, Bool, true, false, not, ◌||◌, Option, none, some, List, [], ◌∷◌, Bytes, beq, codes, ltb,
  if◌then◌else◌, Result, ok, err,
}
use go_posix.Base.Int64.{ℤ, eq_int, lt_int, parse_int}

-- `out_of_fuel` belongs to the model only.
pub data Error : Type 0 where
  unexpected_argument : Bytes → Error
  missing_paren : Error
  missing_argument : Bytes → Error
  unknown_unary unknown_binary : Bytes → Error
  integer_expected : Error
  out_of_fuel : Error

-- `os.FileInfo`, as far as the tests read it.
pub record FileInfo : Type 0 where
  pub is_regular : Bool
  pub is_dir : Bool
  pub file_size : ℕ
  pub symlink : Bool
  pub device : Bool
  pub char_device : Bool
  pub named_pipe : Bool
  pub socket : Bool
  pub setgid : Bool
  pub setuid : Bool
  pub sticky : Bool
  pub perm : ℕ

pub record Files : Type 0 where
  pub lstat : Bytes → Option FileInfo
  pub stat : Bytes → Option FileInfo

unfoldable pub any_of : Bytes → List Bytes → Bool
any_of t [] = false
any_of t (s ∷ ss) = beq t s || any_of t ss

unfoldable pub is_unary_op : Bytes → Bool
unfolding any_of
is_unary_op t = any_of t (
    codes "-e"
    ∷ codes "-f"
    ∷ codes "-d"
    ∷ codes "-s"
    ∷ codes "-r"
    ∷ codes "-w"
    ∷ codes "-x"
    ∷ codes "-L"
    ∷ codes "-h"
    ∷ codes "-b"
    ∷ codes "-c"
    ∷ codes "-p"
    ∷ codes "-S"
    ∷ codes "-g"
    ∷ codes "-u"
    ∷ codes "-k"
    ∷ codes "-t"
    ∷ codes "-z"
    ∷ codes "-n"
    ∷ [])

unfoldable pub is_binary_op : Bytes → Bool
unfolding any_of
is_binary_op t = any_of t (
    codes "="
    ∷ codes "=="
    ∷ codes "!="
    ∷ codes "-eq"
    ∷ codes "-ne"
    ∷ codes "-lt"
    ∷ codes "-le"
    ∷ codes "-gt"
    ∷ codes "-ge"
    ∷ [])

-- `err == nil && test(info)`
abbrev pub when_found : Option FileInfo → (FileInfo → Bool) → Result Error Bool
when_found none test = ok false
when_found (some info) test = ok (test info)

-- 292, 146 and 73 are 0444, 0222 and 0111.
unfoldable pub eval_unary : Files → Bytes → Bytes → Result Error Bool
eval_unary files op arg =
    let info = files.lstat arg in
    let target = files.stat arg in
    if beq op (codes "-z")
    then ok (beq arg [])
    else if beq op (codes "-n")
    then ok (not (beq arg []))
    else if beq op (codes "-e")
    then when_found info (λ i. true)
    else if beq op (codes "-f")
    then when_found info (λ i. i.is_regular)
    else if beq op (codes "-d")
    then when_found info (λ i. i.is_dir)
    else if beq op (codes "-s")
    then when_found info (λ i. ltb 0 i.file_size)
    else if beq op (codes "-L") || beq op (codes "-h")
    then when_found info (λ i. i.symlink)
    else if beq op (codes "-b")
    then when_found info (λ i. i.device)
    else if beq op (codes "-c")
    then when_found info (λ i. i.char_device)
    else if beq op (codes "-p")
    then when_found info (λ i. i.named_pipe)
    else if beq op (codes "-S")
    then when_found info (λ i. i.socket)
    else if beq op (codes "-g")
    then when_found info (λ i. i.setgid)
    else if beq op (codes "-u")
    then when_found info (λ i. i.setuid)
    else if beq op (codes "-k")
    then when_found info (λ i. i.sticky)
    else if beq op (codes "-r")
    then when_found target (λ i. ltb 0 (bit_and i.perm 292))
    else if beq op (codes "-w")
    then when_found target (λ i. ltb 0 (bit_and i.perm 146))
    else if beq op (codes "-x")
    then when_found target (λ i. ltb 0 (bit_and i.perm 73))
    else err (unknown_unary op)

unfoldable pub compare_ints : Bytes → ℤ → ℤ → Result Error Bool
compare_ints op a b =
    if beq op (codes "-eq")
    then ok (eq_int a b)
    else if beq op (codes "-ne")
    then ok (not (eq_int a b))
    else if beq op (codes "-lt")
    then ok (lt_int a b)
    else if beq op (codes "-le")
    then ok (lt_int a b || eq_int a b)
    else if beq op (codes "-gt")
    then ok (lt_int b a)
    else if beq op (codes "-ge")
    then ok (lt_int b a || eq_int a b)
    else err (unknown_binary op)

unfoldable pub eval_ints : Bytes → Option ℤ → Option ℤ → Result Error Bool
unfolding compare_ints
eval_ints op (some a) (some b) = compare_ints op a b
eval_ints op _ _ = err integer_expected

unfoldable pub eval_binary : Bytes → Bytes → Bytes → Result Error Bool
unfolding eval_ints
eval_binary left op right =
    if beq op (codes "=") || beq op (codes "==")
    then ok (beq left right)
    else if beq op (codes "!=")
    then ok (not (beq left right))
    else eval_ints op (parse_int left) (parse_int right)
