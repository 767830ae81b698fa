-- ===== src/Security/Fuel.antt =====
-- The rounds of the loop of `resolveSymlinks`.
use go_posix.Base.{
  ℕ, zero, suc, ◌+◌, ◌≤◌, ◌<◌, ◌≡◌, ◌≢◌, refl, sym, ap, subst, ◌∙◌, Bool, true, false, [], ◌∷◌,
  ◌++◌, Bytes, beq, beq_refl, length, ◌⊎◌, inl, inr, Bool-cases, arith, Result, ok, err, ◌>>=◌,
  bind_value, if◌then◌else◌,
}
use go_posix.Base.FilePath
use go_posix.Base.FilePath.{slash, clean, join, dir, is_abs, has_prefix, has_prefix-append}
use go_posix.Base.FilePath.Length.{clean-absolute, dir-shrinks}
use go_posix.Security.{
  PathError, not_exist, io_error, traversal, out_of_fuel, FileSystem, abs, walk_round, walk,
  resolve_round, resolve_symlinks, abs_target, check_inside, secure_path,
}

-- The result is not the model's own error.
abbrev Ends : Result PathError Bytes → Type 0
Ends r = r ≢ err out_of_fuel

-- The parent of a path needs one round less.
room :
    (body s : Bytes) (fuel : ℕ)
    → (body ≡ []) ⊎ (length body < length s)
    → b'/' ∷ body ≢ b'/' ∷ s
    → length s + 1 ≤ suc fuel
    → length body + 1 ≤ fuel
room [] [] fuel shorter differ h = absurd (differ refl)
room [] (c ∷ s) fuel shorter differ h = omega arith
room (b ∷ body) s fuel (inl e) differ h = cc
room (b ∷ body) s fuel (inr l) differ h = omega arith

walk_round-Ends :
    (r : Result PathError Bytes) (path s missing : Bytes)
    (next : Bytes → Bytes → Result PathError Bytes)
    → Ends r
    → ((body below : Bytes)
        → (body ≡ []) ⊎ (length body < length s)
        → b'/' ∷ body ≢ b'/' ∷ s
        → Ends (next (b'/' ∷ body) below))
    → Ends (walk_round r path (b'/' ∷ s) missing next)
unfolding walk_round
walk_round-Ends (ok resolved) path s missing next h k = λ e. cc
walk_round-Ends (err (io_error m)) path s missing next h k = λ e. cc
walk_round-Ends (err traversal) path s missing next h k = λ e. cc
walk_round-Ends (err out_of_fuel) path s missing next h k = absurd (h refl)
walk_round-Ends (err not_exist) path s missing next h k =
    elim (Bool-cases (beq (dir (b'/' ∷ s)) (b'/' ∷ s))) [
      | inl top ↦ rw top (λ e. cc)
      | inr below ↦
          let (body, e, shorter) = dir-shrinks s in
          rw below (
            subst
              (λ (d : Bytes). Ends (
                next d (
                  if beq missing []
                  then FilePath.base (b'/' ∷ s)
                  else join (FilePath.base (b'/' ∷ s)) missing)))
              (sym e)
              (k body
                (if beq missing []
                  then FilePath.base (b'/' ∷ s)
                  else join (FilePath.base (b'/' ∷ s)) missing)
                shorter
                (λ same.
                  let again : beq (dir (b'/' ∷ s)) (b'/' ∷ s) ≡ true =
                    ap (λ d. beq d (b'/' ∷ s)) (e ∙ same) ∙ beq_refl (b'/' ∷ s) in
                  ground arith)))
    ]

module _ (fs : FileSystem) (answers : (p : Bytes) → fs.eval_symlinks p ≢ err out_of_fuel) where
  walk-Ends :
      (fuel : ℕ) (path s missing : Bytes)
      → length s + 1 ≤ fuel
      → Ends (walk fuel fs path (b'/' ∷ s) missing)
  unfolding walk
  walk-Ends zero path s missing h = absurd (omega arith)
  walk-Ends (suc fuel) path s missing h =
      walk_round-Ends (fs.eval_symlinks (b'/' ∷ s)) path s missing (walk fuel fs path)
        (answers (b'/' ∷ s))
        (λ body below shorter differ.
          walk-Ends fuel path body below (room body s fuel shorter differ h))

  resolve_round-Ends :
      (r : Result PathError Bytes) (s : Bytes) → Ends r → Ends (resolve_round r fs (b'/' ∷ s))
  unfolding resolve_round
  resolve_round-Ends (ok resolved) s h = λ e. cc
  resolve_round-Ends (err (io_error m)) s h = λ e. cc
  resolve_round-Ends (err traversal) s h = λ e. cc
  resolve_round-Ends (err out_of_fuel) s h = absurd (h refl)
  resolve_round-Ends (err not_exist) s h =
      walk-Ends (length (b'/' ∷ s) + 2) (b'/' ∷ s) s [] (omega arith)

  resolve_symlinks-Ends : (path : Bytes) → is_abs path ≡ true → Ends (resolve_symlinks fs path)
  unfolding resolve_symlinks is_abs
  resolve_symlinks-Ends path h =
      let (s, e) = has_prefix-append path slash h in
      subst (λ (p : Bytes). Ends (resolve_round (fs.eval_symlinks p) fs p)) (sym e)
        (resolve_round-Ends (fs.eval_symlinks (b'/' ∷ s)) s (answers (b'/' ∷ s)))

bind-Ends :
    {A : Type 0} (r : Result PathError A) (f : A → Result PathError Bytes)
    → r ≢ err out_of_fuel
    → ((a : A) → r ≡ ok a → Ends (f a))
    → Ends (r >>= f)
bind-Ends (ok a) f h k = k a refl
bind-Ends (err e) f h k = λ same. h (ground arith)

is_abs-clean : (p : Bytes) → is_abs p ≡ true → is_abs (clean p) ≡ true
unfolding is_abs has_prefix
is_abs-clean p h =
    let (s, e) = has_prefix-append p slash h in
    let (body, c) = clean-absolute s in
    subst (λ (q : Bytes). is_abs q ≡ true) (sym (ap clean e ∙ c)) refl

is_abs-join : (a b : Bytes) → is_abs a ≡ true → is_abs (join a b) ≡ true
unfolding is_abs has_prefix join
is_abs-join [] b h = cc
is_abs-join (c ∷ a) b h = is_abs-clean ((c ∷ a) ++ b'/' ∷ b) h

abbrev IsAbsOk : Result PathError Bytes → Type 0
IsAbsOk (ok p) = is_abs p ≡ true
IsAbsOk (err e) = Unit {0}

abs-is_abs :
    (fs : FileSystem) (p a : Bytes)
    → ((w : Bytes) → fs.getwd ≡ ok w → is_abs w ≡ true)
    → abs fs p ≡ ok a
    → is_abs a ≡ true
unfolding abs
abs-is_abs fs p a wd h = elim (Bool-cases (is_abs p)) [
  | inl e ↦ subst IsAbsOk (rw e at h) (is_abs-clean p e)
  | inr e ↦
      let (w, ew, joined) = bind_value fs.getwd (rw e at h) in
      subst IsAbsOk joined (is_abs-join w p (wd w ew))
]

abs-Ends : (fs : FileSystem) (p : Bytes) → fs.getwd ≢ err out_of_fuel → Ends (abs fs p)
unfolding abs
abs-Ends fs p h = elim (Bool-cases (is_abs p)) [
  | inl e ↦ rw e (λ x. cc)
  | inr e ↦ rw e (bind-Ends fs.getwd (λ w. ok (join w p)) h (λ w ew. λ x. cc))
]

is_abs-abs_target :
    (base target : Bytes) → is_abs base ≡ true → is_abs (abs_target base target) ≡ true
unfolding abs_target
is_abs-abs_target base target h = elim (Bool-cases (is_abs target)) [
  | inl e ↦ rw e (is_abs-clean target e)
  | inr e ↦ rw e (is_abs-clean (join base target) (is_abs-join base target h))
]

either-Ends : (b : Bool) (t : Bytes) → Ends (if b then err traversal else ok t)
either-Ends true t = λ e. cc
either-Ends false t = λ e. cc

check_inside-Ends : (real t : Bytes) → Ends (check_inside real t)
unfolding check_inside
check_inside-Ends real t = either-Ends _ t

-- `SecurePath` ends: it never runs out of the rounds that the model gives the loop of
-- `resolveSymlinks`, one for each byte of the path and two more. The conditions are that the answers
-- of the file system are never the model's own error, and that `os.Getwd` returns absolute paths.
pub secure_path-Ends :
    (fs : FileSystem) (target base_dir : Bytes)
    → ((p : Bytes) → fs.eval_symlinks p ≢ err out_of_fuel)
    → fs.getwd ≢ err out_of_fuel
    → ((w : Bytes) → fs.getwd ≡ ok w → is_abs w ≡ true)
    → secure_path fs target base_dir ≢ err out_of_fuel
unfolding secure_path
secure_path-Ends fs target base_dir answers wd_ends wd_abs =
    let base = if beq base_dir [] then slash else base_dir in
    bind-Ends (abs fs base) _ (abs-Ends fs base wd_ends) (λ a ea.
      let clean_abs = is_abs-clean a (abs-is_abs fs base a wd_abs ea) in
      bind-Ends (resolve_symlinks fs (clean a)) _
        (resolve_symlinks-Ends fs answers (clean a) clean_abs)
        (λ real er.
          let target_path = abs_target (clean a) target in
          elim (Bool-cases (beq real slash)) [
            | inl e ↦ rw e (λ x. cc)
            | inr e ↦ rw e (
                bind-Ends (resolve_symlinks fs target_path) _
                  (resolve_symlinks-Ends fs answers target_path
                    (is_abs-abs_target (clean a) target clean_abs))
                  (λ t et. check_inside-Ends real t))
          ]))
