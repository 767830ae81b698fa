-- ===== src/Tools/Uniq/Tests.antt =====
-- A file with two runs of `a`.
use go_posix.Base.{◌≡◌, refl, false, List, [], ◌∷◌, Bytes, beq, codes, All}
use go_posix.Tools.Uniq.{Options, run, extract_compare_key}
use go_posix.Tools.Uniq.Runs.{Run, all_lines, IsUniform, Separated, items_of, run_lem}

abbrev plain : Options
plain = record {
  duplicates_only = false;
  unique_only = false;
  ignore_case = false;
  skip_fields = 0;
  skip_chars = 0;
  check_chars = 0;
}

abbrev file : List Bytes
file = codes "a" ∷ codes "a" ∷ codes "b" ∷ codes "a" ∷ []

counted :
    run (λ c. c) plain file
    ≡ record { line = codes "a"; count = 2 }
      ∷ record { line = codes "b"; count = 1 }
      ∷ record { line = codes "a"; count = 1 }
      ∷ []
unfolding run beq
counted = refl

second_field : extract_compare_key (codes " x  yz w") 1 3 1 ≡ codes "z"
unfolding extract_compare_key
second_field = refl

run_lem_example :
    (rs : List Run) × (all_lines (λ c. c) plain rs ≡ file)
    × All (IsUniform (λ c. c) plain) rs
    × Separated (λ c. c) plain rs
    × (run (λ c. c) plain file ≡ items_of (λ c. c) plain rs)
run_lem_example = run_lem (λ c. c) plain (codes "a") (codes "a" ∷ codes "b" ∷ codes "a" ∷ []) refl
