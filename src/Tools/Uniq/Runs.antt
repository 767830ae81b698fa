-- ===== src/Tools/Uniq/Runs.antt =====
-- The items of `uniq` and the runs of lines with one key.
use go_posix.Base.{
  ℕ, suc, ◌+◌, ◌≡◌, refl, ◌∙◌, false, ◌&&◌, List, [], ◌∷◌, ◌++◌, append-nil, append_assoc, Bytes,
  beq, beq→eq, if◌then◌else◌, length, length-append, arith, All, All-append, Bool-cases, inl, inr,
}
use go_posix.Tools.Uniq.{UniqItem, Options, key_of, wanted, append_item, scan, run}

-- A run of lines: its first line and those behind it.
pub record Run : Type 0 where
  pub first : Bytes
  pub rest : List Bytes

abbrev lines_of : Run → List Bytes
lines_of r = r.first ∷ r.rest

module _ (to_lower : ℕ → ℕ) (o : Options) where
  abbrev pub key : Bytes → Bytes
  key = key_of to_lower o

  -- All lines of the run have the key of its first.
  abbrev pub IsUniform : Run → Type 0
  IsUniform r = All (λ l. key l ≡ key r.first) r.rest

  -- Neighbouring runs have different keys.
  abbrev pub Separated : List Run → Type 0
  Separated [] = Unit
  Separated (r ∷ []) = Unit
  Separated (r ∷ s ∷ rs) = (beq (key s.first) (key r.first) ≡ false) × Separated (s ∷ rs)

  -- The wanted runs, each as its first line and its length.
  abbrev pub items_of : List Run → List UniqItem
  items_of [] = []
  items_of (r ∷ rs) =
      if wanted o (length (lines_of r))
      then record { line = r.first; count = length (lines_of r) } ∷ items_of rs
      else items_of rs

  abbrev pub all_lines : List Run → List Bytes
  all_lines [] = []
  all_lines (r ∷ rs) = lines_of r ++ all_lines rs

  -- The runs of a text whose first run begins with `r`.
  runs_from : Run → List Bytes → List Run
  runs_from r [] = r ∷ []
  runs_from r (l ∷ ls) =
      let more = runs_from (record r { rest = r.rest ++ l ∷ [] }) ls in
      let fresh = r ∷ runs_from (record { first = l; rest = [] }) ls in
      if beq (key l) (key r.first) then more else fresh

  all_lines-runs_from : (r : Run) (ls : List Bytes) → all_lines (runs_from r ls) ≡ lines_of r ++ ls
  unfolding runs_from
  all_lines-runs_from r [] = refl
  all_lines-runs_from r (l ∷ ls) = ground (
    arith,
    all_lines-runs_from (record r { rest = r.rest ++ l ∷ [] }) ls,
    all_lines-runs_from (record { first = l; rest = [] }) ls,
    append_assoc r.rest (l ∷ []) ls,
  )

  runs_from-IsUniform : (r : Run) (ls : List Bytes) → IsUniform r → All IsUniform (runs_from r ls)
  unfolding runs_from
  runs_from-IsUniform r [] h = (h, tt)
  runs_from-IsUniform r (l ∷ ls) h = elim (Bool-cases (beq (key l) (key r.first))) [
    | inl e ↦ rw e (
        runs_from-IsUniform (record r { rest = r.rest ++ l ∷ [] }) ls
          (All-append _ r.rest (l ∷ []) h (beq→eq (key l) (key r.first) e, tt)))
    | inr e ↦ rw e (h, runs_from-IsUniform (record { first = l; rest = [] }) ls tt)
  ]

  -- The first of the runs has the first line of `r`.
  Separated-cons :
      (r : Run) (s : Run) (ls : List Bytes)
      → beq (key s.first) (key r.first) ≡ false
      → Separated (runs_from s ls)
      → Separated (r ∷ runs_from s ls)
  unfolding runs_from
  Separated-cons r s [] e h = (e, h)
  Separated-cons r s (l ∷ ls) e h = elim (Bool-cases (beq (key l) (key s.first))) [
    | inl t ↦ rw t (Separated-cons r (record s { rest = s.rest ++ l ∷ [] }) ls e (rw t at h))
    | inr t ↦ rw t (e, rw t at h)
  ]

  runs_from-Separated : (r : Run) (ls : List Bytes) → Separated (runs_from r ls)
  unfolding runs_from
  runs_from-Separated r [] = tt
  runs_from-Separated r (l ∷ ls) = elim (Bool-cases (beq (key l) (key r.first))) [
    | inl e ↦ rw e (runs_from-Separated (record r { rest = r.rest ++ l ∷ [] }) ls)
    | inr e ↦ rw e (
        Separated-cons r (record { first = l; rest = [] }) ls e
          (runs_from-Separated (record { first = l; rest = [] }) ls))
  ]

  longer : (r : Run) (l : Bytes) → suc (length r.rest) + 1 ≡ suc (length (r.rest ++ l ∷ []))
  longer r l = omega (arith, length-append r.rest (l ∷ []))

  append_item_lem :
      (r : Run) (rs : List Run) (items : List UniqItem)
      → append_item o r.first (length (lines_of r)) items ++ items_of rs
        ≡ items ++ items_of (r ∷ rs)
  unfolding append_item
  append_item_lem r rs items = elim (Bool-cases (wanted o (length (lines_of r)))) [
    | inl e ↦ rw e (
        append_assoc items (record { line = r.first; count = length (lines_of r) } ∷ [])
          (items_of rs))
    | inr e ↦ rw e
  ]

  scan-runs_from :
      (r : Run) (ls : List Bytes) (items : List UniqItem)
      → scan to_lower o (key r.first) r.first (length (lines_of r)) ls items
        ≡ items ++ items_of (runs_from r ls)
  unfolding scan runs_from
  scan-runs_from r [] items = ground (arith, append-nil items)
  scan-runs_from r (l ∷ ls) items = elim (Bool-cases (beq (key l) (key r.first))) [
    | inl e ↦ rw (e, longer r l) (scan-runs_from (record r { rest = r.rest ++ l ∷ [] }) ls items)
    | inr e ↦ rw e (
        scan-runs_from (record { first = l; rest = [] }) ls
          (append_item o r.first (length (lines_of r)) items)
        ∙ append_item_lem r (runs_from (record { first = l; rest = [] }) ls) items)
  ]

  -- `uniq` splits the lines into runs: put together they are the lines, all lines of a run have one
  -- key, and neighbouring runs have different keys. The items are the wanted runs in order, each with
  -- its first line and its length. (With -d and -u together there are no items.)
  pub run_lem :
      (l : Bytes) (ls : List Bytes)
      → o.unique_only && o.duplicates_only ≡ false
      → (rs : List Run) × (all_lines rs ≡ l ∷ ls)
        × All IsUniform rs
        × Separated rs
        × (run to_lower o (l ∷ ls) ≡ items_of rs)
  unfolding run
  run_lem l ls h =
      let r : Run = record { first = l; rest = [] } in
      (
        runs_from r ls,
        all_lines-runs_from r ls,
        runs_from-IsUniform r ls tt,
        runs_from-Separated r ls,
        rw h (scan-runs_from r ls []),
      )
