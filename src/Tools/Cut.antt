-- ===== src/Tools/Cut.antt =====
-- pkg/cut/cut.go: `parseList`, `inRange` and `Run`.
-- A line and the options are runes (the text is valid UTF-8); what is cut out is bytes.
mod Ranges
mod Fields
mod Tests
use go_posix.Base.{
  ℕ, zero, suc, ◌+◌, ◌-◌, ◌*◌, ◌/◌, ◌%◌, ◌^◌, Bool, true, false, not, ◌&&◌, ◌||◌, Option, none,
  some, List, [], ◌∷◌, ◌++◌, Bytes, beq, codes, ltb, leb, ◌==◌, if◌then◌else◌, length, drop,
}
use go_posix.Base.Text.{encode, split, contains, join, fields_of}

-- An error is always `invalid byte, character or field list`.
infixl 5 ◌>>=◌
abbrev pub ◌>>=◌ {ℓ κ} : {A : Type ℓ} {B : Type κ} → Option A → (A → Option B) → Option B
none >>= f = none
some a >>= f = f a

-- `strconv.Atoi` on digits, exactly
pub digits : ℕ → Bytes → Option ℕ
digits n [] = some n
digits n (c ∷ s) =
    let rest = digits (n * 10 + (c - b'0')) s in if leb b'0' c && leb c b'9' then rest else none

-- The largest `int`.
abbrev pub max_int : ℕ
max_int = 2 ^ 63 - 1

drop_plus : Bytes → Bytes
drop_plus [] = []
drop_plus (c ∷ s) = if c == b'+' then s else c ∷ s

pub check_int : Option ℕ → Option ℕ
check_int none = none
check_int (some v) = if ltb v 1 || ltb max_int v then none else some v

-- `v, err := strconv.Atoi(s)` with the test `err != nil || v < 1`; a `-` in front makes both `v < 1`
-- and `none`.
pub positive : Bytes → Option ℕ
unfolding digits drop_plus check_int
positive s = if beq (drop_plus s) [] then none else check_int (digits 0 (drop_plus s))

pub record RangeSpec : Type 0 where
  pub start : ℕ
  pub end : ℕ

-- `strings.SplitN(p, "-", 2)`, `none` where there is no dash
pub split_dash : Bytes → Option (Bytes × Bytes)
split_dash [] = none
split_dash (c ∷ s) =
    let rest = split_dash s in
    if c == b'-' then some ([], s) else (rest >>= λ r. some (c ∷ r.0, r.1))

-- One side of a range, with the value it has where it is left out.
pub bound : ℕ → Bytes → Option ℕ
unfolding positive
bound default s = if beq s [] then some default else positive s

pub parse_range : Bytes → Option (Bytes × Bytes) → Option RangeSpec
unfolding bound positive
parse_range p none = do v ← positive p; some (record { start = v; end = v })
parse_range p (some (a, b)) = do
  v ← bound 1 a
  w ← bound max_int b
  some (record { start = v; end = w })

pub parse_parts : List Bytes → Option (List RangeSpec)
unfolding parse_range split_dash
parse_parts [] = some []
parse_parts (p ∷ ps) = do s ← parse_range p (split_dash p); ss ← parse_parts ps; some (s ∷ ss)

pub parse_list : Bytes → Option (List RangeSpec)
unfolding parse_parts split
parse_list list = parse_parts (split list (codes ","))

pub in_range : ℕ → List RangeSpec → Bool
in_range idx [] = false
in_range idx (s ∷ ss) = (leb s.start idx && leb idx s.end) || in_range idx ss

-- The loops of `-c` and `-b` over the runes or bytes from the index `i` on.
pub select_at : List RangeSpec → ℕ → Bytes → Bytes
unfolding in_range
select_at specs i [] = []
select_at specs i (x ∷ xs) =
    let rest = select_at specs (i + 1) xs in if in_range (i + 1) specs then x ∷ rest else rest

-- `for f := start; f <= end && f <= len(parts); f++`, on the parts from number `f` on.
pub range_fields : ℕ → ℕ → List Bytes → List Bytes
range_fields f end [] = []
range_fields f end (p ∷ ps) =
    let rest = range_fields (f + 1) end ps in if leb f end then p ∷ rest else []

pub select_fields : List RangeSpec → List Bytes → List Bytes
unfolding range_fields
select_fields [] parts = []
select_fields (s ∷ ss) parts =
    range_fields s.start s.end (drop (s.start - 1) parts) ++ select_fields ss parts

pub record Options : Type 0 where
  pub fields : Bytes
  pub delimiter : Bytes
  pub chars : Bytes
  pub bytes_list : Bytes
  pub only_delimited : Bool
  pub no_suppress : Bool
  pub whitespace_fields : Bool

-- `delim`, without `-F`
pub delim : Options → Bytes
delim o = if beq o.delimiter [] then codes "\t" else o.delimiter

-- The fields of a line, joined. `none` suppresses the line.
pub cut_fields : Options → List RangeSpec → Bytes → Option (List Bytes)
unfolding delim contains split join fields_of select_fields encode
cut_fields o specs text =
    if o.whitespace_fields
    then some (encode (join (select_fields specs (fields_of [] text)) (codes " ")) ∷ [])
    else if contains text (delim o)
    then some (encode (join (select_fields specs (split text (delim o))) (delim o)) ∷ [])
    else if not o.only_delimited && not o.no_suppress
    then some (encode text ∷ [])
    else if o.no_suppress
    then some ([] ∷ [])
    else none

-- One round of the loop of `Run`: what is extracted from a line, `none` for `continue`.
pub cut_line :
    Options → List RangeSpec → List RangeSpec → List RangeSpec → Bytes → Option (List Bytes)
unfolding cut_fields select_at encode
cut_line o field_sel char_sel byte_sel text =
    if not (beq o.fields [])
    then cut_fields o field_sel text
    else if not (beq o.chars [])
    then some (encode (select_at char_sel 0 text) ∷ [])
    else if not (beq o.bytes_list [])
    then some (select_at byte_sel 0 (encode text) ∷ [])
    else some []

-- `continue`, or `lines = append(lines, …)` in front of the lines that follow.
pub keep : Option (List Bytes) → List (List Bytes) → List (List Bytes)
keep none rest = rest
keep (some fields) rest = fields ∷ rest

pub cut_lines : (Bytes → Option (List Bytes)) → List Bytes → List (List Bytes)
unfolding keep
cut_lines f [] = []
cut_lines f (t ∷ ts) = keep (f t) (cut_lines f ts)

-- `if list != "" { sel, err = parseList(list) }`
pub selection : Bytes → Option (List RangeSpec)
unfolding parse_list
selection list = if beq list [] then some [] else parse_list list

-- The `Fields` of each line that is kept, or the error.
pub run : Options → List Bytes → Option (List (List Bytes))
unfolding selection cut_line cut_lines
run o lines = do
  field_sel ← selection o.fields
  char_sel ← selection o.chars
  byte_sel ← selection o.bytes_list
  some (cut_lines (cut_line o field_sel char_sel byte_sel) lines)
