-- ===== src/Tools/Patch/Scanner.antt =====
-- pkg/patch/patch.go: the lines that `ParsePatch` reads from its text. `bufio.Scanner` takes off the
-- carriage return in front of a newline or the end, and stops at a line that its buffer cannot hold.
use go_posix.Base.{
  ℕ, ◌*◌, ◌≡◌, refl, Bool, true, false, not, ◌&&◌, List, [], ◌∷◌, ◌++◌, Bytes, beq, All, arith,
  length, leb, ltb, ◌==◌, if◌then◌else◌,
}

-- `bufio.MaxScanTokenSize`
abbrev pub max_token_size : ℕ
max_token_size = 64 * 1024

-- The text up to each newline, and what stands behind the last one, if it is not empty.
unfoldable pub pieces : Bytes → List Bytes
pieces [] = []
pieces (c ∷ s) =
    let rest = pieces s in
    if c == b'\n' then [] ∷ rest else elim rest [ [] ↦ (c ∷ []) ∷ [] | l ∷ ls ↦ (c ∷ l) ∷ ls ]

unfoldable pub drop_cr : Bytes → Bytes
drop_cr [] = []
drop_cr (c ∷ s) = let rest = drop_cr s in if c == b'\r' && beq s [] then [] else c ∷ rest

-- The tokens of the scanner, and whether it stops with an error.
unfoldable pub tokens : List Bytes → List Bytes × Bool
tokens [] = ([], false)
tokens (l ∷ ls) =
    let rest = tokens ls in
    if leb max_token_size (length l) then ([], true) else (drop_cr l ∷ rest.0, rest.1)

-- `scanner.Scan()` with `scanner.Text()`, up to the end, and `scanner.Err()`
unfoldable pub scan_lines : Bytes → List Bytes × Bool
scan_lines text = tokens (pieces text)

-- The lines with a newline behind each.
unfoldable pub unlines : List Bytes → Bytes
unlines [] = []
unlines (l ∷ ls) = l ++ b'\n' ∷ unlines ls

-- There is no newline in the text, and no carriage return at its end.
unfoldable pub is_clean : Bytes → Bool
is_clean [] = true
is_clean (c ∷ s) = not (c == b'\n') && not (c == b'\r' && beq s []) && is_clean s

-- A line that the scanner gives as it is.
unfoldable pub is_line : Bytes → Bool
is_line l = is_clean l && ltb (length l) max_token_size

pub is_clean-append :
    (s t : Bytes) → is_clean s ≡ true → is_clean t ≡ true → is_clean (s ++ t) ≡ true
unfolding is_clean beq
is_clean-append [] t hs ht = ht
is_clean-append (c ∷ []) t hs ht = ground (arith, hs, ht)
is_clean-append (c ∷ d ∷ s) t hs ht =
    ground (arith, hs, is_clean-append (d ∷ s) t (ground (arith, hs)) ht)

pieces-line : (l rest : Bytes) → is_clean l ≡ true → pieces (l ++ b'\n' ∷ rest) ≡ l ∷ pieces rest
unfolding is_clean pieces
pieces-line [] rest h = refl
pieces-line (c ∷ l) rest h =
    let more = pieces-line l rest (ground (arith, h)) in
    let no_newline : (c == b'\n') ≡ false = ground (arith, h) in rw (pieces, no_newline, more) refl

drop_cr_lem : (l : Bytes) → is_clean l ≡ true → drop_cr l ≡ l
unfolding is_clean drop_cr
drop_cr_lem [] h = refl
drop_cr_lem (c ∷ l) h = ground (arith, h, drop_cr_lem l (ground (arith, h)))

-- The scanner gives back lines that are ended by a newline each.
pub scan_lines-unlines :
    (ls : List Bytes) → All (λ l. is_line l ≡ true) ls → scan_lines (unlines ls) ≡ (ls, false)
unfolding scan_lines unlines tokens is_line pieces
scan_lines-unlines [] h = refl
scan_lines-unlines (l ∷ ls) (hl, h) =
    let clean : is_clean l ≡ true = ground (arith, hl) in
    let short : leb max_token_size (length l) ≡ false = ground (arith, hl) in
    let more : tokens (pieces (unlines ls)) ≡ (ls, false) = scan_lines-unlines ls h in
    rw (pieces-line l (unlines ls) clean, tokens, short, drop_cr_lem l clean, more) refl
