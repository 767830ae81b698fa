-- ===== src/Security.antt =====
-- pkg/common/security.go: the check that keeps a path inside a base directory.
-- The file system is a parameter: `filepath.EvalSymlinks` answers with a path, with an error that
-- `os.IsNotExist` takes for a missing file, or with another error.
pub mod Confine
mod Fuel
mod Tests
use go_posix.Base.{
  ℕ, zero, suc, ◌+◌, ◌≡◌, Bool, true, false, not, ◌&&◌, ◌||◌, ◌++◌, [], ◌∷◌, Bytes, beq, length,
  codes, ◌⊎◌, if◌then◌else◌, Result, ok, err, ◌>>=◌,
}
use go_posix.Base.FilePath
use go_posix.Base.FilePath.{slash, clean, join, dir, is_abs, has_prefix, has_suffix}

-- `out_of_fuel` belongs to the model only.
pub data PathError : Type 0 where
  not_exist : PathError
  io_error : Bytes → PathError
  traversal : PathError
  out_of_fuel : PathError

pub record FileSystem : Type 0 where
  -- `os.Getwd`
  pub getwd : Result PathError Bytes
  pub eval_symlinks : Bytes → Result PathError Bytes

-- `filepath.Abs`
abs : FileSystem → Bytes → Result PathError Bytes
abs fs p = if is_abs p then ok (clean p) else (fs.getwd >>= λ wd. ok (join wd p))

-- One round of the loop of `resolveSymlinks`, on what `EvalSymlinks(current)` answers; `next` is the
-- loop on the parent and the parts that are missing below it.
walk_round :
    Result PathError Bytes
    → Bytes
    → Bytes
    → Bytes
    → (Bytes → Bytes → Result PathError Bytes)
    → Result PathError Bytes
walk_round (ok resolved) path current missing next =
    ok (clean (if beq missing [] then resolved else join resolved missing))
walk_round (err not_exist) path current missing next =
    let name = FilePath.base current in
    let below = if beq missing [] then name else join name missing in
    let parent = dir current in if beq parent current then ok (clean path) else next parent below
walk_round (err e) path current missing next = err e

walk : ℕ → FileSystem → Bytes → Bytes → Bytes → Result PathError Bytes
unfolding walk_round
walk zero fs path current missing = err out_of_fuel
walk (suc fuel) fs path current missing =
    walk_round (fs.eval_symlinks current) path current missing (walk fuel fs path)

-- The ancestors of a path are no more than its bytes, and one. The first round of the loop asks once
-- more about `path` itself.
resolve_round : Result PathError Bytes → FileSystem → Bytes → Result PathError Bytes
unfolding walk
resolve_round (ok resolved) fs path = ok (clean resolved)
resolve_round (err not_exist) fs path = walk (length path + 2) fs path path []
resolve_round (err e) fs path = err e

pub resolve_symlinks : FileSystem → Bytes → Result PathError Bytes
unfolding resolve_round
resolve_symlinks fs path = resolve_round (fs.eval_symlinks path) fs path

-- A path with a separator behind it, if it has none.
abbrev pub with_sep : Bytes → Bytes
with_sep p = if has_suffix p slash then p else p ++ slash

-- The target as an absolute path.
abs_target : Bytes → Bytes → Bytes
abs_target base target = if is_abs target then clean target else clean (join base target)

-- The test on the two resolved paths.
check_inside : Bytes → Bytes → Result PathError Bytes
check_inside real_base real_target =
    if not (beq real_target real_base)
      && not (has_prefix (with_sep real_target) (with_sep real_base))
    then err traversal
    else ok real_target

-- The base directory with its symbolic links resolved.
pub real_base : FileSystem → Bytes → Result PathError Bytes
unfolding abs resolve_symlinks
real_base fs base_dir = do
  abs_base ← abs fs (if beq base_dir [] then slash else base_dir)
  resolve_symlinks fs (clean abs_base)

unfoldable pub secure_path : FileSystem → Bytes → Bytes → Result PathError Bytes
unfolding abs resolve_symlinks abs_target check_inside
secure_path fs target base_dir = do
  abs_base ← abs fs (if beq base_dir [] then slash else base_dir)
  let abs_base' = clean abs_base
  real ← resolve_symlinks fs abs_base'
  if beq real slash
      then ok (abs_target abs_base' target)
      else (resolve_symlinks fs (abs_target abs_base' target) >>= λ t. check_inside real t)

-- The path is the directory, or goes on behind it and a separator.
abbrev pub Within : Bytes → Bytes → Type 0
Within base p = (p ≡ base) ⊎ ((rest : Bytes) × (with_sep p ≡ with_sep base ++ rest))
