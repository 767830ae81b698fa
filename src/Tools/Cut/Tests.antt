-- ===== src/Tools/Cut/Tests.antt =====
-- `cut` on small lines.
use go_posix.Base.{
  ◌≡◌, refl, false, true, some, none, List, [], ◌∷◌, ◌+◌, ◌-◌, map, Bytes, codes, beq, take, drop,
  arith,
}
use go_posix.Base.FilePath.{has_prefix}
use go_posix.Base.Text.{
  encode, utf8, split, split_go, join, join_tail, contains, fields_of, is_space,
}
use go_posix.Tools.Cut.{
  Options, RangeSpec, run, selection, parse_list, parse_parts, parse_range, split_dash, bound,
  positive, digits, drop_plus, check_int, cut_lines, keep, cut_line, cut_fields, select_at,
  select_fields, range_fields, delim,
}
use go_posix.Tools.Cut.Fields.{run-from_first}
use go_posix.Tools.Cut.Ranges.{select_at-slice}

abbrev plain : Options
plain = record {
  fields = [];
  delimiter = codes ":";
  chars = [];
  bytes_list = [];
  only_delimited = false;
  no_suppress = false;
  whitespace_fields = false;
}

abbrev lines : List Bytes
lines = codes "a:b:c" ∷ codes "none" ∷ []

second_field :
    run (record plain { fields = codes "2,1" }) lines
    ≡ some ((codes "b:a" ∷ []) ∷ (codes "none" ∷ []) ∷ [])
unfolding run selection parse_list parse_parts parse_range split_dash bound positive digits
    drop_plus check_int cut_lines keep cut_line cut_fields delim contains split split_go join
    join_tail select_fields range_fields encode utf8 beq has_prefix
second_field = refl

fields_by_blanks :
    run (record plain { fields = codes "2"; whitespace_fields = true }) (codes " a  b c" ∷ [])
    ≡ some ((codes "b" ∷ []) ∷ [])
unfolding run selection parse_list parse_parts parse_range split_dash bound positive digits
    drop_plus check_int cut_lines keep cut_line cut_fields fields_of is_space split split_go join
    join_tail select_fields range_fields encode utf8 beq has_prefix
fields_by_blanks = refl

zero_is_refused : run (record plain { chars = codes "0-3" }) lines ≡ none
unfolding run selection parse_list parse_parts parse_range split_dash bound positive digits
    drop_plus check_int split split_go beq has_prefix
zero_is_refused = refl

run-from_first_example :
    run (record plain { fields = codes "1-" }) lines ≡ some (map (λ t. encode t ∷ []) lines)
run-from_first_example =
    run-from_first (record plain { fields = codes "1-" }) lines refl refl refl refl refl refl
      (omega arith, (omega arith, tt))

abbrev two_to_three : RangeSpec
two_to_three = record { start = 2; end = 3 }

select_at-slice_example :
    select_at (two_to_three ∷ []) 0 (codes "abcd") ≡ take (3 + 1 - 2) (drop (2 - 1) (codes "abcd"))
select_at-slice_example = select_at-slice two_to_three (codes "abcd") (omega arith)

parsed : parse_list (codes "2-3") ≡ some (two_to_three ∷ [])
unfolding parse_list parse_parts parse_range split_dash bound positive digits drop_plus check_int
    split split_go beq has_prefix
parsed = refl
