-- ===== src/Tools/Uniq.antt =====
-- pkg/uniq/uniq.go: the lines of a file with their repetitions counted.
-- A line is a list of runes (the text is valid UTF-8); `strings.ToLower` maps the runes one by one.
mod Runs
mod Tests
use go_posix.Base.{
  ℕ, zero, suc, ◌+◌, Bool, true, false, not, ◌&&◌, ◌||◌, List, [], ◌∷◌, ◌++◌, map, Bytes, beq, ltb,
  leb, ◌==◌, if◌then◌else◌, length, take, drop,
}

pub record UniqItem : Type 0 where
  pub line : Bytes
  pub count : ℕ

pub record Options : Type 0 where
  pub duplicates_only : Bool
  pub unique_only : Bool
  pub ignore_case : Bool
  pub skip_fields : ℕ
  pub skip_chars : ℕ
  pub check_chars : ℕ

is_blank : ℕ → Bool
is_blank c = c == b' ' || c == b'\t'

-- `strings.TrimLeft(line, " \t")`
trim_left : Bytes → Bytes
unfolding is_blank
trim_left [] = []
trim_left (c ∷ s) = if is_blank c then trim_left s else c ∷ s

-- `line[strings.IndexAny(line, " \t"):]`, and `""` where there is no blank
from_blank : Bytes → Bytes
unfolding is_blank
from_blank [] = []
from_blank (c ∷ s) = if is_blank c then c ∷ s else from_blank s

-- The loop over the fields. On `""` it changes nothing more, as the source's `break`.
pub skip_fields : ℕ → Bytes → Bytes
unfolding trim_left from_blank
skip_fields zero line = line
skip_fields (suc n) line = skip_fields n (from_blank (trim_left line))

pub extract_compare_key : Bytes → ℕ → ℕ → ℕ → Bytes
unfolding skip_fields
extract_compare_key line fields skip check =
    let line1 = skip_fields fields line in
    let line2 =
      if ltb 0 skip then (if ltb skip (length line1) then drop skip line1 else []) else line1 in
    if ltb 0 check && ltb check (length line2) then take check line2 else line2

module _ (to_lower : ℕ → ℕ) where
  pub key_of : Options → Bytes → Bytes
  unfolding extract_compare_key
  key_of o orig =
      extract_compare_key (if o.ignore_case then map to_lower orig else orig) o.skip_fields
        o.skip_chars o.check_chars

-- The test before an item is appended.
pub wanted : Options → ℕ → Bool
wanted o count =
    (not o.duplicates_only && not o.unique_only)
    || (o.duplicates_only && ltb 1 count)
    || (o.unique_only && count == 1)

pub append_item : Options → Bytes → ℕ → List UniqItem → List UniqItem
unfolding wanted
append_item o orig count items =
    if wanted o count then items ++ record { line = orig; count = count } ∷ [] else items

module _ (to_lower : ℕ → ℕ) (o : Options) where
  -- The loop behind the first line: `prev`, `prevOrig` and `count` of the run so far.
  pub scan : Bytes → Bytes → ℕ → List Bytes → List UniqItem → List UniqItem
  unfolding key_of append_item
  scan prev prev_orig count [] items = append_item o prev_orig count items
  scan prev prev_orig count (orig ∷ lines) items =
      let line = key_of to_lower o orig in
      let same = scan prev prev_orig (count + 1) lines items in
      let fresh = scan line orig 1 lines (append_item o prev_orig count items) in
      if beq line prev then same else fresh

  pub run : List Bytes → List UniqItem
  unfolding scan
  run [] = []
  run (orig ∷ lines) =
      if o.unique_only && o.duplicates_only
      then []
      else scan (key_of to_lower o orig) orig 1 lines []
