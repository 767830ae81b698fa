-- ===== src/Tools/Diff/Segments.antt =====
-- Where `BuildHunks` cuts the script.
use go_posix.Base.{
  ℕ, zero, suc, ◌+◌, ◌-◌, ◌*◌, ◌≤◌, ◌<◌, ◌≡◌, ap, ◌∙◌, ◌⊎◌, inl, inr, false, List, [], ◌∷◌, arith,
  tests, length, length-drop, drop, ltb, leb, Bool-cases,
}
use go_posix.Tools.Diff.{DiffItem}
use go_posix.Tools.Diff.Furthest.{drop-add}
use go_posix.Tools.Diff.Hunks.{kept_run, change_run, find_end}

kept_run_le : (items : List DiffItem) → kept_run items ≤ length items
unfolding kept_run
kept_run_le [] = omega arith
kept_run_le (item ∷ items) = ground (arith, kept_run_le items)

change_run_le : (items : List DiffItem) → change_run items ≤ length items
unfolding change_run
change_run_le [] = omega arith
change_run_le (item ∷ items) = ground (arith, change_run_le items)

-- What is left of a run within it.
pub kept_run-drop :
    (items : List DiffItem) (k : ℕ)
    → k ≤ kept_run items
    → kept_run (drop k items) ≡ kept_run items - k
unfolding kept_run
kept_run-drop items zero h = omega arith
kept_run-drop [] (suc k) h = omega (arith, h)
kept_run-drop (item ∷ items) (suc k) h = ground (arith, h, kept_run-drop items k)

-- Where no kept items stand, changes do.
change_run_pos :
    (items : List DiffItem) → kept_run items ≡ 0 → 0 < length items → 0 < change_run items
unfolding kept_run change_run
change_run_pos [] h lt = lt
change_run_pos (item ∷ items) h lt = ground (arith, h)

-- The next hunk does not start before `e`.
unfoldable pub Apart : List DiffItem → ℕ → ℕ → Type 0
Apart script context e =
    (e + context ≤ e + kept_run (drop e script)) ⊎ (length script ≤ e + kept_run (drop e script))

-- The end of the hunk of a change at `e`.
unfoldable pub Ends : List DiffItem → ℕ → ℕ → ℕ → Type 0
Ends script context e end = (e < end) × (end ≤ length script) × Apart script context end

-- An end behind `context` lines of the kept run from `after` on.
Ends-within :
    (script : List DiffItem) (context e after end : ℕ)
    → e < after
    → context < kept_run (drop after script)
    → after + kept_run (drop after script) ≤ length script
    → (length script ≤ after + kept_run (drop after script))
      ⊎ (2 * context < kept_run (drop after script))
    → end ≡ after + context
    → Ends script context e end
unfolding Ends Apart
Ends-within script context e after end lt short inside reason is_end =
    let left : kept_run (drop end script) ≡ kept_run (drop after script) - context =
      ap (λ k. kept_run (drop k script)) is_end
      ∙ ap kept_run (drop-add after context script)
      ∙ kept_run-drop (drop after script) context (omega (arith, short)) in
    (
      omega (arith, lt, is_end),
      omega (arith, is_end, inside, short),
      elim reason [
        | inl over ↦ inr (omega (arith, over, is_end, left, short))
        | inr long ↦ inl (omega (arith, long, is_end, left))
      ],
    )

Ends-last :
    (script : List DiffItem) (context e : ℕ)
    → e < length script
    → Ends script context e (length script)
unfolding Ends Apart
Ends-last script context e lt = (lt, omega arith, inr (omega arith))

Ends-after :
    (script : List DiffItem) (context e next end : ℕ)
    → e < next
    → Ends script context next end
    → Ends script context e end
unfolding Ends
Ends-after script context e next end lt (lt2, inside, apart) =
    (omega (arith, lt, lt2), inside, apart)

pub find_end-Ends :
    (rounds : ℕ) (script : List DiffItem) (context e : ℕ)
    → e < length script
    → length script ≤ e + rounds
    → kept_run (drop e script) ≡ 0
    → Ends script context e (find_end rounds script context e)
unfolding find_end
find_end-Ends zero script context e lt enough at = absurd (omega (arith, lt, enough))
find_end-Ends (suc rounds) script context e lt enough at =
    let after = e + change_run (drop e script) in
    let equal = kept_run (drop after script) in
    let next = after + equal in
    let e1 : leb (length script) e ≡ false = ground (arith, lt) in
    let pos : e < after =
      omega (arith, change_run_pos (drop e script) at (omega (arith, length-drop e script, lt))) in
    let inside : next ≤ length script = omega (
      arith,
      change_run_le (drop e script),
      kept_run_le (drop after script),
      length-drop e script,
      length-drop after script,
      lt,
    ) in
    rw e1 (elim (Bool-cases (leb (length script) next)) [
      | inl e2 ↦ rw e2 (elim (Bool-cases (ltb context equal)) [
        | inl e3 ↦ rw e3 (
            Ends-within script context e after (next - equal + context) pos (omega (tests, e3))
              inside (inl (omega (tests, e2))) (omega arith))
        | inr e3 ↦ rw e3 (Ends-last script context e lt)
      ])
      | inr e2 ↦ rw e2 (elim (Bool-cases (ltb (2 * context) equal)) [
        | inl e3 ↦
            let fits : ltb (length script) (next - equal + context) ≡ false =
              ground (arith, e3, inside) in
            rw (e3, fits)
              (Ends-within script context e after (next - equal + context) pos (omega (tests, e3))
                inside (inr (omega (tests, e3))) (omega arith))
        | inr e3 ↦ rw e3 (
            Ends-after script context e next (find_end rounds script context next)
              (omega (arith, pos))
              (find_end-Ends rounds script context next (ground (arith, e2))
                (omega (arith, pos, enough))
                (ap kept_run (drop-add after equal script)
                  ∙ kept_run-drop (drop after script) equal (omega arith)
                  ∙ omega arith)))
      ])
    ])
