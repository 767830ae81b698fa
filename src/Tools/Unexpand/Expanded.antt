-- ===== src/Tools/Unexpand/Expanded.antt =====
-- What `unexpand` leaves, under `expand`.
use native.Mathlib.Nat.{mod-lt}
use go_posix.Base.{
  ℕ, zero, suc, ◌+◌, ◌-◌, ◌%◌, ◌≤◌, ◌<◌, ◌≡◌, refl, sym, ap, ◌∙◌, subst, inl, inr, Bool, true,
  false, ◌&&◌, ◌||◌, [], ◌∷◌, ◌++◌, append_assoc, Bytes, arith, tests, length, replicate, leb, ltb,
  ◌==◌, Bool-cases,
}
use go_posix.Tools.Expand.{expand_from, expand_line}
use go_posix.Tools.Unexpand.{
  is_blank, advance_col, blank_run_contains_tab, blank_run, blanks_to_tabs, unexpand_from,
  has_multi_byte, unexpand_line,
}

abbrev spaces : ℕ → Bytes
spaces n = replicate n b' '

spaces_add : (n k : ℕ) → spaces n ++ spaces k ≡ spaces (n + k)
spaces_add zero k = ap spaces (omega arith)
spaces_add (suc n) k =
    ap (λ t. b' ' ∷ t) (spaces_add n k) ∙ ap spaces {x = suc (n + k)} {y = suc n + k} (omega arith)

spaces_then :
    (n k m : ℕ) (rest : Bytes) → m ≡ n + k → spaces n ++ (spaces k ++ rest) ≡ spaces m ++ rest
spaces_then n k m rest e =
    sym (append_assoc (spaces n) (spaces k) rest)
    ∙ ap (λ t. t ++ rest) (spaces_add n k ∙ ap spaces (sym e))

no_spaces : (n : ℕ) (rest : Bytes) → n ≡ 0 → rest ≡ spaces n ++ rest
no_spaces n rest e = ap (λ k. spaces k ++ rest) (sym e)

module _ (w : ℕ) (pos_w : 0 < w) where
  abbrev expanded : ℕ → Bytes → Bytes
  expanded = expand_from w false

  tab_col : (col : ℕ) → (col + w - col % w ≡ col + (w - col % w)) × (col < col + w - col % w)
  tab_col col = let below = mod-lt col pos_w in (omega (arith, below), omega (arith, below))

  expanded_cons :
      (col r : ℕ) (x y : Bytes)
      → expanded (advance_col col r w) x ≡ expanded (advance_col col r w) y
      → expanded col (r ∷ x) ≡ expanded col (r ∷ y)
  unfolding expand_from advance_col
  expanded_cons col r x y h = elim (Bool-cases (r == b'\t')) [
    | inl e ↦
        let h2 : expanded (col + w - col % w) x ≡ expanded (col + w - col % w) y = rw e at h in
        rw e (
          ap (λ t. spaces (w - col % w) ++ t)
            (subst (λ c. expanded c x ≡ expanded c y) (tab_col col).0 h2))
    | inr e ↦
        let h2 : expanded (col + 1) x ≡ expanded (col + 1) y = rw e at h in
        rw e (ap (λ t. r ∷ t) h2)
  ]

  -- A blank takes the column to `advance_col`.
  expanded_blank :
      (col r : ℕ) (s : Bytes)
      → is_blank r ≡ true
      → (col < advance_col col r w)
        × (expanded col (r ∷ s)
            ≡ spaces (advance_col col r w - col) ++ expanded (advance_col col r w) s)
  unfolding expand_from is_blank advance_col
  expanded_blank col r s h = elim (Bool-cases (r == b'\t')) [
    | inl e ↦
        let (same, lt) = tab_col col in
        rw e (
          lt,
          ap (λ n. spaces n ++ expanded (col + (w - col % w)) s) {x = w - col % w}
                {y = col + w - col % w - col} (omega (arith, same, lt))
              ∙ ap (λ c. spaces (col + w - col % w - col) ++ expanded c s) (sym same),
        )
    | inr e ↦
        let space : r ≡ b' ' = ground (arith, h, e) in
        rw e (
          omega arith,
          ap (λ c. c ∷ expanded (col + 1) s) space
              ∙ ap (λ n. spaces n ++ expanded (col + 1) s) {x = 1} {y = col + 1 - col}
                  (omega arith),
        )
  ]

  -- The columns of a run of blanks.
  expanded-blank_run :
      (col : ℕ) (s : Bytes)
      → let run = blank_run w col s in
        (col ≤ run.0)
        × (expanded col s ≡ spaces (run.0 - col) ++ expanded run.0 run.1)
        × (length run.1 ≤ length s)
  unfolding blank_run
  expanded-blank_run col [] =
      (omega arith, no_spaces (col - col) (expanded col []) (omega arith), omega arith)
  expanded-blank_run col (r ∷ s) = elim (Bool-cases (is_blank r)) [
    | inl e ↦
        let next = advance_col col r w in
        let (lt, here) = expanded_blank col r s e in
        let (le, later, short) = expanded-blank_run next s in
        let run = blank_run w next s in
        rw e (
          omega (arith, lt, le),
          here
              ∙ ap (λ t. spaces (next - col) ++ t) later
              ∙ spaces_then (next - col) (run.0 - next) (run.0 - col) (expanded run.0 run.1)
                  (omega (arith, lt, le)),
          omega (arith, short),
        )
    | inr e ↦
        rw e (omega arith, no_spaces (col - col) (expanded col (r ∷ s)) (omega arith), omega arith)
  ]

  blank_run_shorter :
      (col r : ℕ) (s : Bytes) → is_blank r ≡ true → length (blank_run w col (r ∷ s)).1 ≤ length s
  unfolding blank_run
  blank_run_shorter col r s h = rw h (expanded-blank_run (advance_col col r w) s).2

  expanded-blanks_to_tabs :
      (rounds col end : ℕ) (rest : Bytes)
      → end ≤ col + rounds
      → col ≤ end
      → expanded col (blanks_to_tabs rounds col end w ++ rest)
        ≡ spaces (end - col) ++ expanded end rest
  unfolding blanks_to_tabs advance_col is_blank
  expanded-blanks_to_tabs zero col end rest enough le =
      ap (λ c. expanded c rest) {x = col} {y = end} (omega (arith, enough, le))
      ∙ no_spaces (end - col) (expanded end rest) (omega (arith, enough, le))
  expanded-blanks_to_tabs (suc rounds) col end rest enough le = elim (Bool-cases (ltb col end)) [
    | inl e ↦ elim (Bool-cases (leb (col + w - col % w) end)) [
      | inl e2 ↦
          let next = col + w - col % w in
          let (same, lt) = tab_col col in
          let fits : next ≤ end = omega (tests, e2) in
          rw (e, e2)
            ((expanded_blank col b'\t' (blanks_to_tabs rounds next end w ++ rest) refl).1
              ∙ ap (λ t. spaces (next - col) ++ t)
                  (expanded-blanks_to_tabs rounds next end rest (omega (arith, enough, lt)) fits)
              ∙ spaces_then (next - col) (end - next) (end - col) (expanded end rest)
                  (omega (arith, fits, lt)))
      | inr e2 ↦
          let lt : col < end = omega (tests, e) in
          rw (e, e2)
            ((expanded_blank col b' ' (blanks_to_tabs rounds (col + 1) end w ++ rest) refl).1
              ∙ ap (λ t. spaces (col + 1 - col) ++ t)
                  (expanded-blanks_to_tabs rounds (col + 1) end rest (omega (arith, enough))
                    (omega (arith, lt)))
              ∙ spaces_then (col + 1 - col) (end - (col + 1)) (end - col) (expanded end rest)
                  (omega (arith, lt)))
    ]
    | inr e ↦
        let over : end ≡ col = ground (arith, e, le) in
        rw e (
          ap (λ c. expanded c rest) (sym over)
          ∙ no_spaces (end - col) (expanded end rest) (omega (arith, over)))
  ]

  expanded-unexpand_from :
      (rounds : ℕ) (all_blanks : Bool) (col : ℕ) (s : Bytes)
      → length s ≤ rounds
      → expanded col (unexpand_from rounds w all_blanks col s) ≡ expanded col s
  unfolding unexpand_from
  expanded-unexpand_from zero all_blanks col [] enough = refl
  expanded-unexpand_from zero all_blanks col (r ∷ s) enough = absurd (omega (arith, enough))
  expanded-unexpand_from (suc rounds) all_blanks col [] enough = refl
  expanded-unexpand_from (suc rounds) all_blanks col (r ∷ s) enough =
      elim (Bool-cases (is_blank r && (all_blanks || col == 0 || blank_run_contains_tab (r ∷ s)))) [
        | inl e ↦
            let run = blank_run w col (r ∷ s) in
            let (le, here, _) = expanded-blank_run col (r ∷ s) in
            let short = blank_run_shorter col r s (ground (arith, e)) in
            rw e (
              expanded-blanks_to_tabs (run.0 - col) col run.0
                (unexpand_from rounds w all_blanks run.0 run.1) (omega arith) le
              ∙ ap (λ t. spaces (run.0 - col) ++ t)
                  (expanded-unexpand_from rounds all_blanks run.0 run.1
                    (omega (arith, enough, short)))
              ∙ sym here)
        | inr e ↦ rw e (
            expanded_cons col r (unexpand_from rounds w all_blanks (advance_col col r w) s) s (
              expanded-unexpand_from rounds all_blanks (advance_col col r w) s
                (omega (arith, enough))))
      ]

-- With a tab width other than 0, expand makes of a line that unexpand has converted what it makes of
-- the line itself, whether all blanks are converted or the leading ones.
pub expand_line-unexpand_line :
    (line : Bytes) (tab_width : ℕ) (all_blanks : Bool)
    → 0 < tab_width
    → expand_line (unexpand_line line tab_width all_blanks) tab_width false
      ≡ expand_line line tab_width false
unfolding expand_line unexpand_line
expand_line-unexpand_line line tab_width all_blanks h =
    expanded-unexpand_from tab_width h (length line) (all_blanks || has_multi_byte line) 0 line
      (omega arith)
