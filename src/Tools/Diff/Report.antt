-- ===== src/Tools/Diff/Report.antt =====
-- The two results of `GenerateDiff`.
use go_posix.Base.{
  ℕ, ◌≡◌, refl, sym, ap, ◌∙◌, ◌↔◌, Bool, true, false, List, [], ◌∷◌, map, Bytes, arith, length,
}
use go_posix.Tools.Diff.Script.{new_side}
use go_posix.Tools.Diff.Generate.{content_lines, compared, line_script, generate_diff}
use go_posix.Tools.Diff.Texts.{line_script-sides, line_script-differs}
use go_posix.Tools.Diff.BlankLines.{solid, filter-Filtered}

-- Without `-B`, no difference is reported just where the lines of the files are equal as they are
-- compared.
pub generate_diff-differs :
    (content1 content2 : Bytes) (context : ℕ) (space all_space : Bool)
    → let comp = compared space all_space in
      ((generate_diff content1 content2 context space all_space false).0 ≡ false)
      ↔ (map comp (content_lines content1) ≡ map comp (content_lines content2))
unfolding generate_diff
generate_diff-differs content1 content2 context space all_space =
    line_script-differs (content_lines content1) (content_lines content2) space all_space

pub map_id {ℓ} : {A : Type ℓ} (xs : List A) → map (λ x. x) xs ≡ xs
map_id [] = refl
map_id (x ∷ xs) = ap (λ ys. x ∷ ys) (map_id xs)

-- With `-B` alone, where no difference is reported, the files are equal but for their blank lines.
pub generate_diff-blank :
    (content1 content2 : Bytes) (context : ℕ)
    → (generate_diff content1 content2 context false false true).0 ≡ false
    → solid (content_lines content1) ≡ solid (content_lines content2)
unfolding generate_diff compared
generate_diff-blank content1 content2 context h =
    let script = line_script (content_lines content1) (content_lines content2) false false in
    let (old, new, plain) =
      line_script-sides (content_lines content1) (content_lines content2) false false in
    let same : new_side script ≡ content_lines content2 =
      sym (map_id (new_side script)) ∙ new ∙ map_id (content_lines content2) in
    sym (ap solid old)
    ∙ (filter-Filtered (length script) script (omega arith)).blank plain h
    ∙ ap solid same
