-- ===== src/Tools/Diff/Scanned.antt =====
-- The unified text of `diff` as the scanner of `ParsePatch` splits it.
use go_posix.Base.{
  ℕ, ◌≡◌, refl, ap, subst⁻¹, inl, inr, Bool, true, false, ◌&&◌, none, List, [], ◌∷◌, ◌++◌, map,
  Bytes, codes, All, All-append, arith, length, length-append, ltb, ◌+◌, ◌≤◌,
}
use go_posix.Base.FilePath.{has_prefix}
use go_posix.Base.Int64.{pos, format_int}
use go_posix.Base.Decimal.{Digit, format_int-Digit, length-format_int}
use go_posix.Tools.Patch.Parse.{close_hunk, open_patch, scan_line, scan, parse_patch}
use go_posix.Tools.Patch.Scanner.{
  is_clean, is_line, is_clean-append, scan_lines-unlines, max_token_size,
}
use go_posix.Tools.Diff.Hunks.{Hunk}
use go_posix.Tools.Diff.Print.{
  range_text, header_text, body_text, hunks_text, unified_lines, unified_text,
}
use go_posix.Tools.Diff.Reading.{
  printed_start, read_hunk, is_body, Printable, Taken, range_text_cases, body_text-Taken,
  scan-hunks_text,
}

-- A name of a file that the scanner gives as it is, behind the four bytes in front of it.
unfoldable pub is_name : Bytes → Bool
is_name file = is_clean file && ltb (length file + 4) max_token_size

-- A text that is clean, and not longer than `n`.
Short : ℕ → Bytes → Type 0
Short n s = (is_clean s ≡ true) × (length s ≤ n)

Short-append : (m n : ℕ) (s t : Bytes) → Short m s → Short n t → Short (m + n) (s ++ t)
unfolding Short
Short-append m n s t (cs, ls) (ct, lt) =
    (is_clean-append s t cs ct, omega (arith, ls, lt, length-append s t))

Digit-is_clean : (s : Bytes) → All Digit s → is_clean s ≡ true
unfolding is_clean Digit
Digit-is_clean [] h = refl
Digit-is_clean (c ∷ s) (hc, h) = ground (arith, hc, Digit-is_clean s h)

number-Short : (n : ℕ) → Short 20 (format_int (pos n))
unfolding Short
number-Short n = (Digit-is_clean (format_int (pos n)) (format_int-Digit n), length-format_int n)

range_text-Short : (start count : ℕ) → Short 41 (range_text start count)
unfolding Short is_clean
range_text-Short start count = elim (range_text_cases start count) [
  | inl (_, e) ↦ let (c, l) = number-Short start in subst⁻¹ (Short 41) e (c, omega (arith, l))
  | inr e ↦ subst⁻¹ (Short 41) e (
      Short-append 20 21 (format_int (pos (printed_start start count)))
        (b',' ∷ format_int (pos count)) (number-Short (printed_start start count))
        (Short-append 1 20 (codes ",") (format_int (pos count)) (refl, omega arith)
          (number-Short count)))
]

header_text_line : (h : Hunk) → is_line (header_text h) ≡ true
unfolding header_text is_line Short is_clean
header_text_line h =
    let old = range_text-Short h.old_start h.old_lines in
    let new = range_text-Short h.new_start h.new_lines in
    let r1 = range_text h.old_start h.old_lines in
    let r2 = range_text h.new_start h.new_lines in
    let front : Short 45 (codes "@@ -" ++ r1) =
      Short-append 4 41 (codes "@@ -") r1 (refl, omega arith) old in
    let middle : Short 47 (codes "@@ -" ++ r1 ++ codes " +") =
      Short-append 45 2 (codes "@@ -" ++ r1) (codes " +") front (refl, omega arith) in
    let behind : Short 88 (codes "@@ -" ++ r1 ++ codes " +" ++ r2) =
      Short-append 47 41 (codes "@@ -" ++ r1 ++ codes " +") r2 middle new in
    let short : Short 91 (header_text h) =
      Short-append 88 3 (codes "@@ -" ++ r1 ++ codes " +" ++ r2) (codes " @@") behind
        (refl, omega arith) in
    ground (arith, short)

Taken-line : (l : Bytes) → Taken l → is_line l ≡ true
unfolding Taken is_body is_line is_clean
Taken-line l (inl h) = ground (arith, h)
Taken-line l (inr e) = rw e refl

All-lines : (ls : List Bytes) → All Taken ls → All (λ l. is_line l ≡ true) ls
All-lines [] h = tt
All-lines (l ∷ ls) (hl, h) = (Taken-line l hl, All-lines ls h)

hunks_text-lines :
    (newline1 newline2 : Bool) (hs : List Hunk)
    → All Printable hs
    → All (λ l. is_line l ≡ true) (hunks_text newline1 newline2 hs)
unfolding hunks_text
hunks_text-lines newline1 newline2 [] h = tt
hunks_text-lines newline1 newline2 (h ∷ hs) (ph, phs) = (
  header_text_line h,
  All-append (λ l. is_line l ≡ true) (body_text newline1 newline2 h.lines)
      (hunks_text newline1 newline2 hs)
      (All-lines (body_text newline1 newline2 h.lines)
        (body_text-Taken newline1 newline2 h.lines ph.body))
      (hunks_text-lines newline1 newline2 hs phs),
)

-- The text that diff prints for files that differ is read by ParsePatch as one patch with the names of
-- the files and the hunks of the text, where the scanner gives the names as they are, the numbers of the
-- hunks are in the range of an int64 and their lines are read as lines of a hunk.
pub parse_patch-unified_text :
    (file1 file2 : Bytes) (newline1 newline2 : Bool) (hs : List Hunk)
    → is_name file1 ≡ true
    → is_name file2 ≡ true
    → All Printable hs
    → parse_patch (unified_text file1 file2 newline1 newline2 hs) ≡ (
      record { old_file = file1; new_file = file2; hunks = map (read_hunk newline1 newline2) hs }
          ∷ [],
      false,
    )
unfolding parse_patch unified_text unified_lines is_name is_line is_clean scan scan_line open_patch
    has_prefix close_hunk
parse_patch-unified_text file1 file2 newline1 newline2 hs name1 name2 h =
    let old : is_line (codes "--- " ++ file1) ≡ true = ground (arith, name1) in
    let new : is_line (codes "+++ " ++ file2) ≡ true = ground (arith, name2) in
    let given =
      scan_lines-unlines (unified_lines file1 file2 newline1 newline2 hs)
        (old, (new, hunks_text-lines newline1 newline2 hs h)) in
    let read =
      scan-hunks_text newline1 newline2 (record { old_file = file1; new_file = file2; hunks = [] })
        none false hs h in
    rw given (ap (λ patches. (patches, false)) read)
