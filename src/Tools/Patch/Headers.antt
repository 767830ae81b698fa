-- ===== src/Tools/Patch/Headers.antt =====
-- The header of a hunk as text, under `parseHunkHeader`.
use go_posix.Base.{
  ℕ, ◌^◌, ◌<◌, ◌≡◌, refl, sym, ap, ◌∙◌, false, none, some, [], ◌∷◌, ◌++◌, append_assoc, append-nil,
  Bytes, beq, codes, All, All-append, arith, ◌==◌,
}
use go_posix.Base.FilePath.{has_prefix}
use go_posix.Base.Int64.{ℤ, pos, parse_int, format_int}
use go_posix.Base.Decimal.{Digit, format_int-Digit, parse_int-format_int}
use go_posix.Base.Text.{is_space, fields_of}
use go_posix.Tools.Patch.Parse.{
  atoi_value, before, trim_prefix, at_comma, range_of, parse_hunk_header,
}

-- No space.
unfoldable pub Word : Bytes → Type 0
unfolding is_space
Word = All (λ c. is_space c ≡ false)

before-Word :
    (w rest : Bytes) → Word w → before (codes " @@") (w ++ rest) ≡ w ++ before (codes " @@") rest
unfolding before Word has_prefix is_space
before-Word [] rest h = refl
before-Word (c ∷ w) rest (hc, h) =
    let other : has_prefix (c ∷ (w ++ rest)) (codes " @@") ≡ false = ground (arith, hc) in
    rw other (ap (λ t. c ∷ t) (before-Word w rest h))

fields_of-Word :
    (d : ℕ) (cur w rest : Bytes)
    → Word w
    → fields_of (d ∷ cur) (w ++ b' ' ∷ rest) ≡ (d ∷ (cur ++ w)) ∷ fields_of [] rest
unfolding fields_of Word is_space beq
fields_of-Word d cur [] rest h = ap (λ t. (d ∷ t) ∷ fields_of [] rest) (sym (append-nil cur))
fields_of-Word d cur (c ∷ w) rest (hc, h) = rw hc (
    fields_of-Word d (cur ++ c ∷ []) w rest h
    ∙ ap (λ t. (d ∷ t) ∷ fields_of [] rest) (append_assoc cur (c ∷ []) w))

fields_of-last : (d : ℕ) (cur w : Bytes) → Word w → fields_of (d ∷ cur) w ≡ (d ∷ (cur ++ w)) ∷ []
unfolding fields_of Word beq
fields_of-last d cur [] h = ap (λ t. (d ∷ t) ∷ []) (sym (append-nil cur))
fields_of-last d cur (c ∷ w) (hc, h) =
    rw hc
      (fields_of-last d (cur ++ c ∷ []) w h ∙ ap (λ t. (d ∷ t) ∷ []) (append_assoc cur (c ∷ []) w))

header_of_fields :
    (line old new : Bytes)
    → fields_of [] (before (codes " @@") (trim_prefix line (codes "@@ ")))
      ≡ (codes "-" ++ old) ∷ (codes "+" ++ new) ∷ []
    → parse_hunk_header line
      ≡ some (record {
        old_start = (range_of old).0;
        old_count = (range_of old).1;
        new_start = (range_of new).0;
        new_count = (range_of new).1;
      })
unfolding trim_prefix has_prefix parse_hunk_header range_of
header_of_fields line old new h = rw (h, parse_hunk_header) refl

-- The header with these two parts.
pub parse_hunk_header-parts :
    (old new : Bytes)
    → Word old
    → Word new
    → parse_hunk_header (codes "@@ -" ++ old ++ codes " +" ++ new ++ codes " @@")
      ≡ some (record {
        old_start = (range_of old).0;
        old_count = (range_of old).1;
        new_start = (range_of new).0;
        new_count = (range_of new).1;
      })
unfolding trim_prefix has_prefix before fields_of is_space beq
parse_hunk_header-parts old new ho hn =
    let line = codes "-" ++ old ++ codes " +" ++ new ++ codes " @@" in
    let cut : before (codes " @@") line ≡ b'-' ∷ (old ++ b' ' ∷ b'+' ∷ new) =
      ap (λ t. b'-' ∷ before (codes " @@") t)
        (append_assoc (old ++ codes " +") new (codes " @@")
          ∙ append_assoc old (codes " +") (new ++ codes " @@"))
      ∙ ap (λ t. b'-' ∷ t) (before-Word old (b' ' ∷ b'+' ∷ (new ++ codes " @@")) ho)
      ∙ ap (λ t. b'-' ∷ (old ++ b' ' ∷ b'+' ∷ t))
          (before-Word new (codes " @@") hn ∙ append-nil new) in
    let fields : fields_of [] (b'-' ∷ (old ++ b' ' ∷ b'+' ∷ new))
        ≡ (b'-' ∷ old) ∷ (b'+' ∷ new) ∷ [] =
      fields_of-Word b'-' [] old (b'+' ∷ new) ho
      ∙ ap (λ t. (b'-' ∷ old) ∷ t) (fields_of-last b'+' [] new hn) in
    header_of_fields (codes "@@ " ++ line) old new (ap (fields_of []) cut ∙ fields)

Digit-Word : (s : Bytes) → All Digit s → Word s
unfolding Word is_space Digit
Digit-Word [] h = tt
Digit-Word (c ∷ s) (hc, h) = (ground (arith, hc), Digit-Word s h)

atoi_value-parse_int : (s : Bytes) (v : ℤ) → parse_int s ≡ some v → atoi_value s ≡ v
unfolding atoi_value parse_int
atoi_value-parse_int [] v h = cc
atoi_value-parse_int (c ∷ s) v h = rw (h, atoi_value) refl

at_comma-digits : (s : Bytes) → All Digit s → at_comma s ≡ none
unfolding at_comma Digit
at_comma-digits [] h = refl
at_comma-digits (c ∷ s) (hc, h) =
    let other : (c == b',') ≡ false = ground (arith, hc) in rw (other, at_comma-digits s h) refl

at_comma-append : (s rest : Bytes) → All Digit s → at_comma (s ++ b',' ∷ rest) ≡ some (s, rest)
unfolding at_comma Digit
at_comma-append [] rest h = refl
at_comma-append (c ∷ s) rest (hc, h) =
    let other : (c == b',') ≡ false = ground (arith, hc) in
    rw (other, at_comma-append s rest h) refl

-- A number on its own, and two with a comma between them.
pub range_of-number : (n : ℕ) → n < 2 ^ 63 → range_of (format_int (pos n)) ≡ (pos n, pos 1)
unfolding range_of
range_of-number n h =
    rw
      (
        at_comma-digits (format_int (pos n)) (format_int-Digit n),
        atoi_value-parse_int (format_int (pos n)) (pos n) (parse_int-format_int n h),
        range_of,
      )
      refl

pub range_of-pair :
    (n k : ℕ)
    → n < 2 ^ 63
    → k < 2 ^ 63
    → range_of (format_int (pos n) ++ b',' ∷ format_int (pos k)) ≡ (pos n, pos k)
unfolding range_of
range_of-pair n k hn hk =
    rw
      (
        at_comma-append (format_int (pos n)) (format_int (pos k)) (format_int-Digit n),
        atoi_value-parse_int (format_int (pos n)) (pos n) (parse_int-format_int n hn),
        atoi_value-parse_int (format_int (pos k)) (pos k) (parse_int-format_int k hk),
        range_of,
      )
      refl

pub Word-number : (n : ℕ) → Word (format_int (pos n))
Word-number n = Digit-Word (format_int (pos n)) (format_int-Digit n)

pub Word-pair : (n k : ℕ) → Word (format_int (pos n) ++ b',' ∷ format_int (pos k))
unfolding Word is_space
Word-pair n k =
    All-append (λ c. is_space c ≡ false) (format_int (pos n)) (b',' ∷ format_int (pos k))
      (Word-number n) (refl, Word-number k)
