-- ===== src/Tools/Cut/Fields.antt =====
-- Splitting a line and joining it again: `cut -f 1-`.
use go_posix.Base.{
  ℕ, zero, suc, ◌+◌, ◌≤◌, ◌<◌, ◌≡◌, ◌≢◌, refl, ap, ◌∙◌, false, Option, some, List, [], ◌∷◌, map,
  Bytes, All, codes, beq, arith, length, Bool-cases, inl, inr, if◌then◌else◌, append-nil,
}
use go_posix.Base.Text.Split.{join-split}
use go_posix.Base.FilePath.{has_prefix}
use go_posix.Base.Text.{encode, split, split_go, contains, join, rest_length}
use go_posix.Tools.Cut.{
  RangeSpec, max_int, Options, selection, parse_list, range_fields, select_fields, delim,
  cut_fields, cut_line, cut_lines, keep, run, parse_parts, parse_range, split_dash, bound, positive,
  digits, drop_plus, check_int,
}

length-split_go : (sep : Bytes) (skip : ℕ) (s : Bytes) → length (split_go sep skip s).1 ≤ length s
unfolding split_go
length-split_go sep zero [] = omega arith
length-split_go sep (suc skip) [] = omega arith
length-split_go sep (suc skip) (c ∷ s) = omega (arith, length-split_go sep skip s)
length-split_go sep zero (c ∷ s) = elim (Bool-cases (has_prefix (c ∷ s) sep)) [
  | inl e ↦ rw e (omega (arith, length-split_go sep (rest_length sep) s))
  | inr e ↦ rw e (omega (arith, length-split_go sep zero s))
]

length-split : (s sep : Bytes) → length (split s sep) ≤ length s + 1
unfolding split
length-split s sep = omega (arith, length-split_go sep 0 s)

range_fields-whole :
    (f e : ℕ) (parts : List Bytes) → f + length parts ≤ e + 1 → range_fields f e parts ≡ parts
unfolding range_fields
range_fields-whole f e [] h = refl
range_fields-whole f e (p ∷ ps) h = ground (arith, range_fields-whole (f + 1) e ps (omega arith))

delim-ne-nil : (o : Options) → delim o ≢ []
unfolding delim beq
delim-ne-nil o = go o.delimiter
  where
    go : (d : Bytes) → (if beq d [] then codes "\t" else d) ≢ []
    go [] h = ground arith
    go (c ∷ d) h = ground arith

-- The range of `1-`.
abbrev from_first : RangeSpec
from_first = record { start = 1; end = max_int }

select_fields-from_first :
    (parts : List Bytes) → length parts ≤ max_int → select_fields (from_first ∷ []) parts ≡ parts
unfolding select_fields
select_fields-from_first parts h = append-nil _ ∙ range_fields-whole 1 max_int parts (omega arith)

cut_fields-whole :
    (o : Options) (t : Bytes)
    → o.whitespace_fields ≡ false
    → o.only_delimited ≡ false
    → o.no_suppress ≡ false
    → length t < max_int
    → cut_fields o (from_first ∷ []) t ≡ some (encode t ∷ [])
unfolding cut_fields
cut_fields-whole o t w d n h =
    let len : length (split t (delim o)) ≤ max_int = omega (arith, length-split t (delim o)) in
    elim (Bool-cases (contains t (delim o))) [
      | inl e ↦
          rw (w, e)
            (ap (λ xs. some (encode xs ∷ []))
              (ap (λ ps. join ps (delim o)) (select_fields-from_first (split t (delim o)) len)
                ∙ join-split t (delim o) (delim-ne-nil o)))
      | inr e ↦ rw (w, e, d, n)
    ]

parse_list-from_first : parse_list (codes "1-") ≡ some (from_first ∷ [])
unfolding parse_list parse_parts parse_range split_dash bound positive digits drop_plus check_int
    split split_go beq has_prefix
parse_list-from_first = refl

cut_line-fields :
    (o : Options) (a b c : List RangeSpec) (t : Bytes)
    → beq o.fields [] ≡ false
    → cut_line o a b c t ≡ cut_fields o a t
unfolding cut_line
cut_line-fields o a b c t h = rw h

cut_lines-some :
    (f : Bytes → Option (List Bytes)) (t : Bytes) (ts : List Bytes) (x : List Bytes)
    → f t ≡ some x
    → cut_lines f (t ∷ ts) ≡ x ∷ cut_lines f ts
unfolding cut_lines keep
cut_lines-some f t ts x h = ap (λ o. keep o (cut_lines f ts)) h

run-selection :
    (o : Options) (lines : List Bytes) (a b c : List RangeSpec)
    → selection o.fields ≡ some a
    → selection o.chars ≡ some b
    → selection o.bytes_list ≡ some c
    → run o lines ≡ some (cut_lines (cut_line o a b c) lines)
unfolding run
run-selection o lines a b c ha hb hc = rw (ha, hb, hc)

selection-from_first : selection (codes "1-") ≡ some (from_first ∷ [])
unfolding selection beq
selection-from_first = parse_list-from_first

selection-nil : selection [] ≡ some []
unfolding selection beq
selection-nil = refl

cut_lines-whole :
    (o : Options) (ts : List Bytes)
    → beq o.fields [] ≡ false
    → o.whitespace_fields ≡ false
    → o.only_delimited ≡ false
    → o.no_suppress ≡ false
    → All (λ t. length t < max_int) ts
    → cut_lines (cut_line o (from_first ∷ []) [] []) ts ≡ map (λ t. encode t ∷ []) ts
unfolding cut_lines
cut_lines-whole o [] f w d n h = refl
cut_lines-whole o (t ∷ ts) f w d n (ht, hts) =
    cut_lines-some (cut_line o (from_first ∷ []) [] []) t ts (encode t ∷ [])
      (cut_line-fields o (from_first ∷ []) [] [] t f ∙ cut_fields-whole o t w d n ht)
    ∙ ap (λ rest. (encode t ∷ []) ∷ rest) (cut_lines-whole o ts f w d n hts)

-- `cut -f 1-` prints every line as it is, whatever the delimiter, also a line without one. (Without
-- -F, -s and -D, and without a list of characters or bytes.)
pub run-from_first :
    (o : Options) (lines : List Bytes)
    → o.fields ≡ codes "1-"
    → o.chars ≡ []
    → o.bytes_list ≡ []
    → o.whitespace_fields ≡ false
    → o.only_delimited ≡ false
    → o.no_suppress ≡ false
    → All (λ t. length t < max_int) lines
    → run o lines ≡ some (map (λ t. encode t ∷ []) lines)
unfolding beq
run-from_first o lines f c b w d n h =
    let nonempty : beq o.fields [] ≡ false = ap (λ fs. beq fs []) f in
    run-selection o lines (from_first ∷ []) [] [] (ap selection f ∙ selection-from_first)
      (ap selection c ∙ selection-nil) (ap selection b ∙ selection-nil)
    ∙ ap some (cut_lines-whole o lines nonempty w d n h)
