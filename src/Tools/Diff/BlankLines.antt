-- ===== src/Tools/Diff/BlankLines.antt =====
-- `-B`: changes of blank lines only.
use go_posix.Base.{
  ℕ, zero, suc, ◌≤◌, ◌≡◌, refl, sym, ap, ◌∙◌, inl, inr, true, false, ◌&&◌, ◌||◌, List, [], ◌∷◌,
  ◌++◌, map, Bytes, arith, subst, length, length-drop, take, drop, take-append-drop, Bool-cases,
  if◌then◌else◌,
}
use go_posix.Tools.Diff.{DiffItem}
use go_posix.Tools.Diff.Script.{old_side, new_side}
use go_posix.Tools.Diff.Plain.{Plain, old_side-append, new_side-append}
use go_posix.Tools.Diff.Hunks.{is_change, change_run}
use go_posix.Tools.Diff.Texts.{same_sides}
use go_posix.Tools.Diff.Generate.{
  is_blank_line, ignore_change, all_blank, filter_blank_line_changes, differs,
}

-- The lines that are not blank.
unfoldable pub solid : List Bytes → List Bytes
unfolding is_blank_line
solid [] = []
solid (l ∷ ls) = let rest = solid ls in if is_blank_line l then rest else l ∷ rest

solid-append : (xs ys : List Bytes) → solid (xs ++ ys) ≡ solid xs ++ solid ys
unfolding solid
solid-append [] ys = refl
solid-append (x ∷ xs) ys = ground (arith, solid-append xs ys)

-- A run of changes keeps its lines where they are ignored.
ignored_old :
    (n : ℕ) (script : List DiffItem)
    → n ≤ change_run script
    → old_side (map ignore_change (take n script)) ≡ old_side (take n script)
unfolding old_side change_run ignore_change is_change
ignored_old zero script le = refl
ignored_old (suc n) [] le = refl
ignored_old (suc n) (item ∷ script) le = ground (arith, le, ignored_old n script)

ignored_new :
    (n : ℕ) (script : List DiffItem)
    → n ≤ change_run script
    → new_side (map ignore_change (take n script)) ≡ new_side (take n script)
unfolding new_side change_run ignore_change is_change
ignored_new zero script le = refl
ignored_new (suc n) [] le = refl
ignored_new (suc n) (item ∷ script) le = ground (arith, le, ignored_new n script)

all_blank-solid :
    (script : List DiffItem)
    → all_blank script ≡ true
    → (solid (old_side script) ≡ []) × (solid (new_side script) ≡ [])
unfolding all_blank solid old_side new_side
all_blank-solid [] h = (refl, refl)
all_blank-solid (item ∷ script) h = ground (arith, h, all_blank-solid script)

differs-append : (xs ys : List DiffItem) → differs (xs ++ ys) ≡ differs xs || differs ys
unfolding differs
differs-append [] ys = refl
differs-append (x ∷ xs) ys = ground (arith, differs-append xs ys)

-- What `-B` makes of a script.
pub record Filtered (script result : List DiffItem) : Type 0 where
  pub old : old_side result ≡ old_side script
  pub new : new_side result ≡ new_side script
  pub blank :
      Plain script → differs result ≡ false → solid (old_side script) ≡ solid (new_side script)

-- Items that stay.
Filtered-same : (script : List DiffItem) → Filtered script script
Filtered-same script = record {
  old = refl;
  new = refl;
  blank = λ plain h. ap solid (same_sides script plain h);
}

-- A run of blank changes, which is ignored.
Filtered-ignored :
    (n : ℕ) (script : List DiffItem)
    → n ≤ change_run script
    → all_blank (take n script) ≡ true
    → Filtered (take n script) (map ignore_change (take n script))
Filtered-ignored n script le h = record {
  old = ignored_old n script le;
  new = ignored_new n script le;
  blank =
      λ plain _. (all_blank-solid (take n script) h).0 ∙ sym (all_blank-solid (take n script) h).1;
}

Plain-parts : (xs ys : List DiffItem) → Plain (xs ++ ys) → Plain xs × Plain ys
unfolding Plain
Plain-parts [] ys h = (tt, h)
Plain-parts (x ∷ xs) ys (p, h) = let (hx, hy) = Plain-parts xs ys h in ((p, hx), hy)

Filtered-append :
    (block later block2 later2 : List DiffItem)
    → Filtered block block2
    → Filtered later later2
    → Filtered (block ++ later) (block2 ++ later2)
Filtered-append block later block2 later2 hb hl = record {
  old = old_side-append block2 later2 ∙ rw (hb.old, hl.old) (sym (old_side-append block later));
  new = new_side-append block2 later2 ∙ rw (hb.new, hl.new) (sym (new_side-append block later));
  blank = λ plain h.
      let (pb, pl) = Plain-parts block later plain in
      let none_differs : differs block2 || differs later2 ≡ false =
        sym (differs-append block2 later2) ∙ h in
      let eb = hb.blank pb (ground (arith, none_differs)) in
      let el = hl.blank pl (ground (arith, none_differs)) in
      ap solid (old_side-append block later)
      ∙ solid-append (old_side block) (old_side later)
      ∙ rw (eb, el)
          (sym (
            ap solid (new_side-append block later)
            ∙ solid-append (new_side block) (new_side later)));
}

pub filter-Filtered :
    (rounds : ℕ) (script : List DiffItem)
    → length script ≤ rounds
    → Filtered script (filter_blank_line_changes rounds script)
unfolding filter_blank_line_changes change_run
filter-Filtered zero script le = Filtered-same script
filter-Filtered (suc rounds) [] le = Filtered-same []
filter-Filtered (suc rounds) (item ∷ items) le =
    let script = item ∷ items in
    let n = if is_change item.op then change_run script else 1 in
    let later = drop n script in
    let pos : 1 ≤ n = first_run item items in
    let rest = filter-Filtered rounds later (omega (arith, pos, le, length-drop n script)) in
    let whole = take-append-drop n script in
    subst (λ s. Filtered s (filter_blank_line_changes (suc rounds) script)) whole
      (elim (Bool-cases (is_change item.op && all_blank (take n script))) [
        | inl e ↦ rw e (
            Filtered-append (take n script) later (map ignore_change (take n script))
              (filter_blank_line_changes rounds later)
              (Filtered-ignored n script (ground (arith, e)) (ground (arith, e))) rest)
        | inr e ↦ rw e (
            Filtered-append (take n script) later (take n script)
              (filter_blank_line_changes rounds later) (Filtered-same (take n script)) rest)
      ])
  where
    first_run :
        (item : DiffItem) (items : List DiffItem)
        → 1 ≤ (if is_change item.op then change_run (item ∷ items) else 1)
    first_run item items = ground arith
