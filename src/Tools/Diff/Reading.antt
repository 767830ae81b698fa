-- ===== src/Tools/Diff/Reading.antt =====
-- The unified text of `diff` under `ParsePatch`.
use go_posix.Base.{
  ℕ, ◌-◌, ◌^◌, ◌<◌, ◌≡◌, refl, sym, ap, ◌∙◌, subst⁻¹, ◌⊎◌, inl, inr, Bool, true, false, not, ◌&&◌,
  ◌||◌, Option, none, some, List, [], ◌∷◌, ◌++◌, map, append_assoc, append-nil, Bytes, beq, codes,
  All, arith, ◌==◌, if◌then◌else◌, Bool-cases,
}
use go_posix.Base.FilePath.{has_prefix}
use go_posix.Base.Int64.{pos, format_int}
use go_posix.Tools.Patch.Parse.{
  ParsedHunk, ParsedPatch, Scan, no_newline, range_of, parse_hunk_header, close_hunk, collect,
  open_hunk, scan_line, scan,
}
use go_posix.Tools.Patch.Headers.{
  Word, parse_hunk_header-parts, range_of-number, range_of-pair, Word-number, Word-pair,
}
use go_posix.Tools.Patch.Scanner.{is_line}
use go_posix.Tools.Diff.Hunks.{Hunk}
use go_posix.Tools.Diff.Print.{range_text, header_text, body_text, hunks_text}

-- The start that stands in the header.
unfoldable pub printed_start : ℕ → ℕ → ℕ
printed_start start count = if count == 0 then start - 1 else start

-- The hunk that is read for a hunk.
unfoldable pub read_hunk : Bool → Bool → Hunk → ParsedHunk
read_hunk newline1 newline2 h = record {
  header = record {
    old_start = pos (printed_start h.old_start h.old_lines);
    old_count = pos h.old_lines;
    new_start = pos (printed_start h.new_start h.new_lines);
    new_count = pos h.new_lines;
  };
  lines = body_text newline1 newline2 h.lines;
}

-- A line of a hunk that is not taken for a line above the hunks, and that the scanner gives as it is.
unfoldable pub is_body : Bytes → Bool
is_body l =
    (has_prefix l (codes " ") || has_prefix l (codes "+") || has_prefix l (codes "-"))
    && not (has_prefix l (codes "--- "))
    && not (has_prefix l (codes "+++ "))
    && is_line l

-- The numbers of the hunk are in the range of an int64, and its lines are lines of a hunk.
pub record Printable (h : Hunk) : Type 0 where
  pub old_start : h.old_start < 2 ^ 63
  pub old_lines : h.old_lines < 2 ^ 63
  pub new_start : h.new_start < 2 ^ 63
  pub new_lines : h.new_lines < 2 ^ 63
  pub body : All (λ l. is_body l ≡ true) h.lines

pub range_text_cases :
    (start count : ℕ)
    → ((count ≡ 1) × (range_text start count ≡ format_int (pos start)))
      ⊎ (range_text start count
          ≡ format_int (pos (printed_start start count)) ++ b',' ∷ format_int (pos count))
unfolding range_text printed_start format_int
range_text_cases start count = elim (Bool-cases (count == 1)) [
  | inl e ↦ inl (ground (arith, e), rw (e, range_text) refl)
  | inr e ↦ elim (Bool-cases (count == 0)) [
    | inl e2 ↦
        let zero_count : count ≡ 0 = ground (arith, e2) in
        inr (
          rw (e, e2, range_text, printed_start)
            (ap (λ k. format_int (pos (start - 1)) ++ b',' ∷ format_int (pos k)) (sym zero_count)))
    | inr e2 ↦ inr (
        rw (e, e2, range_text, printed_start)
          (append_assoc (format_int (pos start)) (codes ",") (format_int (pos count))))
  ]
]

range_of-range_text :
    (start count : ℕ)
    → start < 2 ^ 63
    → count < 2 ^ 63
    → range_of (range_text start count) ≡ (pos (printed_start start count), pos count)
unfolding printed_start
range_of-range_text start count hs hc = elim (range_text_cases start count) [
  | inl (one, e) ↦ ap range_of e ∙ range_of-number start hs ∙ rw (one, printed_start) refl
  | inr e ↦ ap range_of e ∙ range_of-pair (printed_start start count) count (ground (arith, hs)) hc
]

Word-range_text : (start count : ℕ) → Word (range_text start count)
Word-range_text start count = elim (range_text_cases start count) [
  | inl (_, e) ↦ subst⁻¹ Word e (Word-number start)
  | inr e ↦ subst⁻¹ Word e (Word-pair (printed_start start count) count)
]

header_text-read :
    (newline1 newline2 : Bool) (h : Hunk)
    → Printable h
    → parse_hunk_header (header_text h) ≡ some (read_hunk newline1 newline2 h).header
unfolding header_text read_hunk
header_text-read newline1 newline2 h printable =
    let old = range_of-range_text h.old_start h.old_lines printable.old_start printable.old_lines in
    let new = range_of-range_text h.new_start h.new_lines printable.new_start printable.new_lines in
    rw
      (
        parse_hunk_header-parts (range_text h.old_start h.old_lines)
            (range_text h.new_start h.new_lines) (Word-range_text h.old_start h.old_lines)
            (Word-range_text h.new_start h.new_lines),
        old,
        new,
      )
      refl

-- What the parser collects.
unfoldable pub Taken : Bytes → Type 0
Taken l = (is_body l ≡ true) ⊎ (l ≡ no_newline)

abbrev in_patch : ParsedPatch → ParsedHunk → Scan
in_patch p h = record { patches = []; current = some p; hunk = some h; in_hunk = true }

abbrev add_lines : ParsedHunk → List Bytes → ParsedHunk
add_lines h ls = record { header = h.header; lines = h.lines ++ ls }

body_at : (l : Bytes) → is_body l ≡ true → has_prefix l (codes "@@ ") ≡ false
unfolding is_body has_prefix
body_at [] h = refl
body_at (c ∷ l) h = ground (arith, h)

scan_line-Taken :
    (p : ParsedPatch) (h : ParsedHunk) (l : Bytes)
    → Taken l
    → scan_line (in_patch p h) l ≡ in_patch p (add_lines h (l ∷ []))
unfolding scan_line collect is_body Taken has_prefix beq
scan_line-Taken p h l taken = elim taken [
  | inl body ↦
      let minus : has_prefix l (codes "--- ") ≡ false = ground (arith, body) in
      let plus : has_prefix l (codes "+++ ") ≡ false = ground (arith, body) in
      let kept : (beq l []
            || has_prefix l (codes " ")
            || has_prefix l (codes "+")
            || has_prefix l (codes "-")
            || beq l no_newline)
          ≡ true =
        ground (arith, body) in
      rw (minus, plus, body_at l body, kept, scan_line, collect) refl
  | inr mark ↦ rw mark refl
]

pub body_text-Taken :
    (newline1 newline2 : Bool) (ls : List Bytes)
    → All (λ l. is_body l ≡ true) ls
    → All Taken (body_text newline1 newline2 ls)
unfolding body_text Taken
body_text-Taken newline1 newline2 [] h = tt
body_text-Taken newline1 newline2 (l ∷ []) (hl, h) =
    elim (Bool-cases (has_prefix l (codes "-") && not newline1)) [
      | inl e ↦ rw e (inl hl, (inr refl, tt))
      | inr e ↦ elim (Bool-cases (has_prefix l (codes "+") && not newline2)) [
        | inl e2 ↦ rw (e, e2) (inl hl, (inr refl, tt))
        | inr e2 ↦ rw (e, e2) (inl hl, tt)
      ]
    ]
body_text-Taken newline1 newline2 (l ∷ m ∷ ls) (hl, h) =
    (inl hl, body_text-Taken newline1 newline2 (m ∷ ls) h)

scan-Taken :
    (p : ParsedPatch) (h : ParsedHunk) (ls rest : List Bytes)
    → All Taken ls
    → scan (in_patch p h) (ls ++ rest) ≡ scan (in_patch p (add_lines h ls)) rest
unfolding scan
scan-Taken p h [] rest taken =
    ap (λ t. scan (in_patch p (record { header = h.header; lines = t })) rest)
      (sym (append-nil h.lines))
scan-Taken p h (l ∷ ls) rest (tl, taken) =
    ap (λ s. scan s (ls ++ rest)) (scan_line-Taken p h l tl)
    ∙ scan-Taken p (add_lines h (l ∷ [])) ls rest taken
    ∙ ap (λ t. scan (in_patch p (record { header = h.header; lines = t })) rest)
        (append_assoc h.lines (l ∷ []) ls)

header_text_prefix :
    (h : Hunk)
    → (has_prefix (header_text h) (codes "--- ") ≡ false)
      × (has_prefix (header_text h) (codes "+++ ") ≡ false)
      × (has_prefix (header_text h) (codes "@@ ") ≡ true)
unfolding has_prefix header_text
header_text_prefix h = (refl, refl, refl)

-- The header of a hunk closes the one before.
scan_line-header :
    (newline1 newline2 : Bool) (p : ParsedPatch) (before : Option ParsedHunk) (in_hunk : Bool)
    (h : Hunk)
    → Printable h
    → scan_line
        (record { patches = []; current = some p; hunk = before; in_hunk = in_hunk })
        (header_text h)
      ≡ in_patch
          (close_hunk p before)
          (record { header = (read_hunk newline1 newline2 h).header; lines = [] })
unfolding scan_line open_hunk
scan_line-header newline1 newline2 p before in_hunk h printable =
    let (minus, plus, at) = header_text_prefix h in
    rw (minus, plus, at, header_text-read newline1 newline2 h printable, scan_line, open_hunk) refl

close_hunk_names :
    (p : ParsedPatch) (before : Option ParsedHunk)
    → ((close_hunk p before).old_file ≡ p.old_file) × ((close_hunk p before).new_file ≡ p.new_file)
unfolding close_hunk
close_hunk_names p none = (refl, refl)
close_hunk_names p (some h) = (refl, refl)

with_hunks :
    (p : ParsedPatch) (before : Option ParsedHunk) (hunks : List ParsedHunk)
    → (close_hunk p before).hunks ≡ hunks
    → close_hunk p before ≡ record { old_file = p.old_file; new_file = p.new_file; hunks = hunks }
unfolding close_hunk
with_hunks p none hunks e =
    ap (λ t. record { old_file = p.old_file; new_file = p.new_file; hunks = t }) e
with_hunks p (some h) hunks e =
    ap (λ t. record { old_file = p.old_file; new_file = p.new_file; hunks = t }) e

-- The hunks up to the end of the text.
pub scan-hunks_text :
    (newline1 newline2 : Bool) (p : ParsedPatch) (before : Option ParsedHunk) (in_hunk : Bool)
    (hs : List Hunk)
    → All Printable hs
    → scan
        (record { patches = []; current = some p; hunk = before; in_hunk = in_hunk })
        (hunks_text newline1 newline2 hs)
      ≡ record {
        old_file = p.old_file;
        new_file = p.new_file;
        hunks = (close_hunk p before).hunks ++ map (read_hunk newline1 newline2) hs;
      }
        ∷ []
unfolding scan hunks_text close_hunk read_hunk
scan-hunks_text newline1 newline2 p before in_hunk [] h =
    ap (λ q. q ∷ [])
      (with_hunks p before ((close_hunk p before).hunks ++ [])
        (sym (append-nil (close_hunk p before).hunks)))
scan-hunks_text newline1 newline2 p before in_hunk (h ∷ hs) (ph, phs) =
    let q = close_hunk p before in
    let read = read_hunk newline1 newline2 h in
    let rest = hunks_text newline1 newline2 hs in
    let body = body_text newline1 newline2 h.lines in
    let (n1, n2) = close_hunk_names p before in
    ap (λ s. scan s (body ++ rest)) (scan_line-header newline1 newline2 p before in_hunk h ph)
    ∙ scan-Taken q (record { header = read.header; lines = [] }) body rest
        (body_text-Taken newline1 newline2 h.lines ph.body)
    ∙ scan-hunks_text newline1 newline2 q (some read) true hs phs
    ∙ rw (n1, n2)
        (ap (λ t. record { old_file = p.old_file; new_file = p.new_file; hunks = t } ∷ [])
          (append_assoc q.hunks (read ∷ []) (map (read_hunk newline1 newline2) hs)))
