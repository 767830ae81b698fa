-- ===== src/Tools/TestCmd/Errors.antt =====
-- The operators of `test`: which errors they give.
use go_posix.Base.{
  Bool, true, false, ◌||◌, Option, none, some, Bytes, beq, codes, if◌then◌else◌, Result, ok, err,
}
use go_posix.Base.Int64.{ℤ, parse_int}
use go_posix.Tools.TestCmd.Values.{
  Error, out_of_fuel, Files, FileInfo, when_found, eval_unary, compare_ints, eval_ints, eval_binary,
}

abbrev pub OfSource : Error → Type 0
OfSource out_of_fuel = ⊥
OfSource _ = Unit

-- A truth value, or an error of the source.
abbrev pub FromSource : Result Error Bool → Type 0
FromSource (ok v) = Unit
FromSource (err e) = OfSource e

pub FromSource-if :
    (r s : Result Error Bool) (b : Bool)
    → FromSource r
    → FromSource s
    → FromSource (if b then r else s)
FromSource-if r s true h k = h
FromSource-if r s false h k = k

when_found-FromSource :
    (info : Option FileInfo) (test : FileInfo → Bool) → FromSource (when_found info test)
when_found-FromSource none test = tt
when_found-FromSource (some i) test = tt

found-FromSource :
    (info : Option FileInfo) (test : FileInfo → Bool) (s : Result Error Bool) (b : Bool)
    → FromSource s
    → FromSource (if b then when_found info test else s)
found-FromSource info test s b h = FromSource-if _ s b (when_found-FromSource info test) h

pub eval_unary-FromSource : (files : Files) (op arg : Bytes) → FromSource (eval_unary files op arg)
unfolding eval_unary
eval_unary-FromSource files op arg = FromSource-if _ _ (beq op (codes "-z")) tt (
    FromSource-if _ _ (beq op (codes "-n")) tt (
      found-FromSource _ _ _ (beq op (codes "-e")) (
        found-FromSource _ _ _ (beq op (codes "-f")) (
          found-FromSource _ _ _ (beq op (codes "-d")) (
            found-FromSource _ _ _ (beq op (codes "-s")) (
              found-FromSource _ _ _ (beq op (codes "-L") || beq op (codes "-h")) (
                found-FromSource _ _ _ (beq op (codes "-b")) (
                  found-FromSource _ _ _ (beq op (codes "-c")) (
                    found-FromSource _ _ _ (beq op (codes "-p")) (
                      found-FromSource _ _ _ (beq op (codes "-S")) (
                        found-FromSource _ _ _ (beq op (codes "-g")) (
                          found-FromSource _ _ _ (beq op (codes "-u")) (
                            found-FromSource _ _ _ (beq op (codes "-k")) (
                              found-FromSource _ _ _ (beq op (codes "-r")) (
                                found-FromSource _ _ _ (beq op (codes "-w"))
                                  (found-FromSource _ _ _ (beq op (codes "-x")) (tt)))))))))))))))))

compare_ints-FromSource : (op : Bytes) (a b : ℤ) → FromSource (compare_ints op a b)
unfolding compare_ints
compare_ints-FromSource op a b = FromSource-if _ _ (beq op (codes "-eq")) tt (
    FromSource-if _ _ (beq op (codes "-ne")) tt (
      FromSource-if _ _ (beq op (codes "-lt")) tt (
        FromSource-if _ _ (beq op (codes "-le")) tt (
          FromSource-if _ _ (beq op (codes "-gt")) tt
            (FromSource-if _ _ (beq op (codes "-ge")) tt tt)))))

eval_ints-FromSource : (op : Bytes) (a b : Option ℤ) → FromSource (eval_ints op a b)
unfolding eval_ints
eval_ints-FromSource op none none = tt
eval_ints-FromSource op none (some b) = tt
eval_ints-FromSource op (some a) none = tt
eval_ints-FromSource op (some a) (some b) = compare_ints-FromSource op a b

pub eval_binary-FromSource : (left op right : Bytes) → FromSource (eval_binary left op right)
unfolding eval_binary
eval_binary-FromSource left op right =
    FromSource-if _ _ (beq op (codes "=") || beq op (codes "==")) tt (
      FromSource-if _ _ (beq op (codes "!=")) tt
        (eval_ints-FromSource op (parse_int left) (parse_int right)))
