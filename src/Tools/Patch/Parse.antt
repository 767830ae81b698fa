-- ===== src/Tools/Patch/Parse.antt =====
-- pkg/patch/patch.go: `ParsePatch` and `parseHunkHeader`. The numbers of a header are int64 here,
-- negative ones included.
use go_posix.Base.{
  ◌-◌, ◌^◌, Bool, true, false, ◌||◌, Option, none, some, List, [], ◌∷◌, ◌++◌, Bytes, beq, codes,
  ◌==◌, if◌then◌else◌, length, drop,
}
use go_posix.Base.FilePath.{has_prefix}
use go_posix.Base.Int64.{ℤ, pos, negsuc, parse_int, magnitude_of}
use go_posix.Base.Text.{fields_of}
use go_posix.Tools.Patch.Scanner.{scan_lines}

pub record Header : Type 0 where
  pub old_start : ℤ
  pub old_count : ℤ
  pub new_start : ℤ
  pub new_count : ℤ

pub record ParsedHunk : Type 0 where
  pub header : Header
  pub lines : List Bytes

pub record ParsedPatch : Type 0 where
  pub old_file : Bytes
  pub new_file : Bytes
  pub hunks : List ParsedHunk

-- The number that `strconv.Atoi` returns, also with an error: 0 for what is no number, and the bound
-- of an int64 for what is beyond it.
unfoldable pub atoi_value : Bytes → ℤ
atoi_value [] = pos 0
atoi_value (c ∷ s) =
    let negative = c == b'-' in
    let size = if negative || c == b'+' then magnitude_of s else magnitude_of (c ∷ s) in
    elim (parse_int (c ∷ s)) [
      | some n ↦ n
      | none ↦ elim size [
        | none ↦ pos 0
        | some n ↦ if negative then negsuc (2 ^ 63 - 1) else pos (2 ^ 63 - 1)
      ]
    ]

-- Up to the first `sep`, or the whole text.
unfoldable pub before : Bytes → Bytes → Bytes
before sep [] = []
before sep (c ∷ s) = let rest = before sep s in if has_prefix (c ∷ s) sep then [] else c ∷ rest

-- `strings.TrimPrefix`
unfoldable pub trim_prefix : Bytes → Bytes → Bytes
trim_prefix s p = if has_prefix s p then drop (length p) s else s

-- What stands around the first comma, if there is one.
unfoldable pub at_comma : Bytes → Option (Bytes × Bytes)
at_comma [] = none
at_comma (c ∷ s) =
    let rest = at_comma s in
    if c == b',' then some ([], s) else elim rest [ none ↦ none | some (a, b) ↦ some (c ∷ a, b) ]

-- The start and the count of a part.
unfoldable pub range_of : Bytes → ℤ × ℤ
range_of part = elim (at_comma part) [
  | some (start, count) ↦ (atoi_value start, atoi_value count)
  | none ↦ (atoi_value part, pos 1)
]

-- `parseHunkHeader`, `none` for an error
unfoldable pub parse_hunk_header : Bytes → Option Header
parse_hunk_header line =
    elim (fields_of [] (before (codes " @@") (trim_prefix line (codes "@@ ")))) [
      | [] ↦ none
      | old ∷ parts ↦ elim parts [
        | [] ↦ none
        | new ∷ more ↦
            let (old_start, old_count) = range_of (trim_prefix old (codes "-")) in
            let (new_start, new_count) = range_of (trim_prefix new (codes "+")) in
            some (record {
              old_start = old_start;
              old_count = old_count;
              new_start = new_start;
              new_count = new_count;
            })
      ]
    ]

-- `patches`, `current`, `currentHunk` and `inHunk`.
pub record Scan : Type 0 where
  pub patches : List ParsedPatch
  pub current : Option ParsedPatch
  pub hunk : Option ParsedHunk
  pub in_hunk : Bool

-- `current.Hunks = append(current.Hunks, *currentHunk)`, where there is a hunk.
unfoldable pub close_hunk : ParsedPatch → Option ParsedHunk → ParsedPatch
close_hunk p none = p
close_hunk p (some h) = record {
  old_file = p.old_file;
  new_file = p.new_file;
  hunks = p.hunks ++ h ∷ [];
}

abbrev pub no_newline : Bytes
no_newline = codes "\\ No newline at end of file"

-- The case `inHunk && currentHunk != nil`.
unfoldable pub collect : Scan → ParsedHunk → Bytes → Scan
collect s h line =
    let is_body =
      beq line []
      || has_prefix line (codes " ")
      || has_prefix line (codes "+")
      || has_prefix line (codes "-")
      || beq line no_newline in
    if is_body
    then record {
      patches = s.patches;
      current = s.current;
      hunk = some (record { header = h.header; lines = h.lines ++ line ∷ [] });
      in_hunk = s.in_hunk;
    }
    else if has_prefix line (codes "-- ")
    then s
    else record { patches = s.patches; current = s.current; hunk = s.hunk; in_hunk = false }

-- The case `"@@ "`.
unfoldable pub open_hunk : Scan → ParsedPatch → Bytes → Scan
open_hunk s p line =
    let closed = some (close_hunk p s.hunk) in
    elim (parse_hunk_header line) [
      | none ↦ record { patches = s.patches; current = closed; hunk = s.hunk; in_hunk = s.in_hunk }
      | some header ↦ record {
        patches = s.patches;
        current = closed;
        hunk = some (record { header = header; lines = [] });
        in_hunk = true;
      }
    ]

-- The case `"--- "`.
unfoldable pub open_patch : Scan → Bytes → Scan
open_patch s line =
    let next = some (record { old_file = drop 4 line; new_file = []; hunks = [] }) in
    elim s.current [
      | none ↦ record { patches = s.patches; current = next; hunk = s.hunk; in_hunk = false }
      | some p ↦ record {
        patches = s.patches ++ close_hunk p s.hunk ∷ [];
        current = next;
        hunk = none;
        in_hunk = false;
      }
    ]

-- The body of the loop.
unfoldable pub scan_line : Scan → Bytes → Scan
scan_line s line =
    if has_prefix line (codes "--- ")
    then open_patch s line
    else if has_prefix line (codes "+++ ")
    then elim s.current [
      | none ↦ s
      | some p ↦ record {
        patches = s.patches;
        current = some (record { old_file = p.old_file; new_file = drop 4 line; hunks = p.hunks });
        hunk = s.hunk;
        in_hunk = s.in_hunk;
      }
    ]
    else if has_prefix line (codes "@@ ")
    then elim s.current [ none ↦ s | some p ↦ open_hunk s p line ]
    else if s.in_hunk
    then elim s.hunk [ none ↦ s | some h ↦ collect s h line ]
    else s

-- The loop, and what follows it.
unfoldable pub scan : Scan → List Bytes → List ParsedPatch
scan s [] = elim s.current [ none ↦ s.patches | some p ↦ s.patches ++ close_hunk p s.hunk ∷ [] ]
scan s (line ∷ lines) = scan (scan_line s line) lines

-- `ParsePatch` on the text that it reads: the patches, and whether there is an error beside them.
unfoldable pub parse_patch : Bytes → List ParsedPatch × Bool
parse_patch text =
    let (lines, failed) = scan_lines text in
    (scan (record { patches = []; current = none; hunk = none; in_hunk = false }) lines, failed)
