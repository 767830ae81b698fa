-- ===== src/Security/Confine.antt =====
-- Where the paths lie that `SecurePath` returns.
use go_posix.Base.{
  ℕ, zero, suc, ◌∷◌, beq_iff, ◌≡◌, ◌≢◌, subst, ◌+◌, length, false, Bytes, beq, beq→eq, ◌⊎◌, inl,
  inr, Bool-cases, [], if◌then◌else◌, bind_value, Result, ok, err, ◌>>=◌, arith,
}
use go_posix.Base.FilePath.{
  slash, has_prefix, has_prefix-append, dir, join, clean, is_abs, join_parts, clean_parts,
  split_slash,
}
use go_posix.Security.{
  FileSystem, PathError, real_base, secure_path, check_inside, resolve_symlinks, abs, with_sep,
  Within, abs_target, walk, walk_round, resolve_round, not_exist,
}

check_inside-Within : (b t p : Bytes) → check_inside b t ≡ ok p → Within b p
unfolding check_inside
check_inside-Within b t p h = elim (Bool-cases (beq t b)) [
  | inl e ↦ inl (ground (arith, beq→eq t b e))
  | inr e ↦ elim (Bool-cases (has_prefix (with_sep t) (with_sep b))) [
    | inl inside ↦
        let same : t ≡ p = ground arith in
        inr (rw same at (has_prefix-append (with_sep t) (with_sep b) inside))
    | inr outside ↦ absurd (ground arith)
  ]
]

-- The last branches of `SecurePath`: the root allows anything.
finish-Within :
    (fs : FileSystem) (real abs_base target p : Bytes)
    → (if beq real slash
        then ok (abs_target abs_base target)
        else (resolve_symlinks fs (abs_target abs_base target) >>= λ t. check_inside real t))
      ≡ ok p
    → (real ≡ slash) ⊎ Within real p
finish-Within fs real abs_base target p h = elim (Bool-cases (beq real slash)) [
  | inl e ↦ inl (beq→eq real slash e)
  | inr e ↦
      let inside = bind_value (resolve_symlinks fs (abs_target abs_base target)) (rw e at h) in
      inr (check_inside-Within real inside.0 p inside.2)
]

-- A path that `SecurePath` returns lies in the resolved base directory, unless that is the root.
pub secure_path-Within :
    (fs : FileSystem) (target base_dir p : Bytes)
    → secure_path fs target base_dir ≡ ok p
    → (b : Bytes) × (real_base fs base_dir ≡ ok b) × ((b ≡ slash) ⊎ Within b p)
unfolding secure_path real_base
secure_path-Within fs target base_dir p h =
    let (abs_base, ea, h1) = bind_value (abs fs (if beq base_dir [] then slash else base_dir)) h in
    let (real, er, h2) = bind_value (resolve_symlinks fs (clean abs_base)) h1 in
    (real, rw ea er, finish-Within fs real (clean abs_base) target p h2)

cons-ne-nil : (c : ℕ) (s : Bytes) → c ∷ s ≢ []
cons-ne-nil c s = ground arith

clean-ne-nil : (p : Bytes) → clean p ≢ []
unfolding clean
clean-ne-nil p = elim (Bool-cases (is_abs p)) [
  | inl e ↦ rw e (cons-ne-nil _ _)
  | inr e ↦
      rw e (elim (Bool-cases (beq (join_parts (clean_parts false [] (split_slash p [])) []) [])) [
        | inl t ↦ rw t (cons-ne-nil _ _)
        | inr t ↦ λ h.
            ground (arith, beq_iff (join_parts (clean_parts false [] (split_slash p [])) []) [])
      ])
]

-- A path, if there is one, is not empty.
abbrev HasBytes : Result PathError Bytes → Type 0
HasBytes (ok p) = p ≢ []
HasBytes (err e) = Unit

walk_round-HasBytes :
    (r : Result PathError Bytes) (path current missing : Bytes)
    (next : Bytes → Bytes → Result PathError Bytes)
    → ((parent below : Bytes) → HasBytes (next parent below))
    → HasBytes (walk_round r path current missing next)
unfolding walk_round
walk_round-HasBytes (ok resolved) path current missing next h = clean-ne-nil _
walk_round-HasBytes (err not_exist) path current missing next h =
    elim (Bool-cases (beq (dir current) current)) [
      | inl e ↦ rw e (clean-ne-nil path)
      | inr e ↦ rw e (h _ _)
    ]
walk_round-HasBytes (err e) path current missing next h = tt

walk-HasBytes :
    (fuel : ℕ) (fs : FileSystem) (path current missing : Bytes)
    → HasBytes (walk fuel fs path current missing)
unfolding walk
walk-HasBytes zero fs path current missing = tt
walk-HasBytes (suc fuel) fs path current missing =
    walk_round-HasBytes (fs.eval_symlinks current) path current missing (walk fuel fs path)
      (walk-HasBytes fuel fs path)

resolve_round-HasBytes :
    (r : Result PathError Bytes) (fs : FileSystem) (path : Bytes)
    → HasBytes (resolve_round r fs path)
unfolding resolve_round
resolve_round-HasBytes (ok resolved) fs path = clean-ne-nil resolved
resolve_round-HasBytes (err not_exist) fs path = walk-HasBytes (length path + 2) fs path path []
resolve_round-HasBytes (err e) fs path = tt

abs_target-ne-nil : (base target : Bytes) → abs_target base target ≢ []
unfolding abs_target
abs_target-ne-nil base target = elim (Bool-cases (is_abs target)) [
  | inl e ↦ rw e (clean-ne-nil target)
  | inr e ↦ rw e (clean-ne-nil (join base target))
]

check_inside-eq : (b t p : Bytes) → check_inside b t ≡ ok p → t ≡ p
unfolding check_inside
check_inside-eq b t p h = ground arith

-- A path that `SecurePath` returns is not empty.
pub secure_path-ne-nil :
    (fs : FileSystem) (target base_dir p : Bytes) → secure_path fs target base_dir ≡ ok p → p ≢ []
unfolding secure_path resolve_symlinks
secure_path-ne-nil fs target base_dir p h =
    let (abs_base, ea, h1) = bind_value (abs fs (if beq base_dir [] then slash else base_dir)) h in
    let (real, er, h2) = bind_value (resolve_symlinks fs (clean abs_base)) h1 in
    let at = abs_target (clean abs_base) target in
    elim (Bool-cases (beq real slash)) [
      | inl e ↦ subst HasBytes (rw e at h2) (abs_target-ne-nil (clean abs_base) target)
      | inr e ↦
          let (t, et, h3) = bind_value (resolve_symlinks fs at) (rw e at h2) in
          subst (λ (q : Bytes). q ≢ []) (check_inside-eq real t p h3)
            (subst HasBytes et (resolve_round-HasBytes (fs.eval_symlinks at) fs at))
    ]
