-- ===== src/Security/Tests.antt =====
-- A small file system in which `/srv/link` is a symbolic link to `/etc`.
use go_posix.Base.{
  ◌≡◌, refl, Bytes, beq, codes, if◌then◌else◌, ok, err, ◌⊎◌, ◌≢◌, Bool, true, Result, subst,
}
use go_posix.Base.FilePath.{slash, clean, join, dir, base, is_abs, has_suffix, has_prefix}
use go_posix.Security.{
  FileSystem, not_exist, traversal, secure_path, real_base, Within, PathError, out_of_fuel,
}
use go_posix.Security.Confine.{secure_path-Within}
use go_posix.Security.Fuel.{secure_path-Ends}

abbrev linked : FileSystem
linked = record {
  getwd = ok (codes "/");
  eval_symlinks = λ p.
      if beq p (codes "/srv/link")
      then ok (codes "/etc")
      else if beq p (codes "/srv")
      then ok p
      else err not_exist;
}

new_file : secure_path linked (codes "sub/../new.txt") (codes "/srv") ≡ ok (codes "/srv/new.txt")
unfolding secure_path beq clean join dir base is_abs has_prefix has_suffix
new_file = refl

link_escape : secure_path linked (codes "link/passwd") (codes "/srv") ≡ err traversal
unfolding secure_path beq clean join dir base is_abs has_prefix has_suffix
link_escape = refl

dot_dot_escape : secure_path linked (codes "../srvx") (codes "/srv") ≡ err traversal
unfolding secure_path beq clean join dir base is_abs has_prefix has_suffix
dot_dot_escape = refl

secure_path-Within_example :
    (b : Bytes) × (real_base linked (codes "/srv") ≡ ok b)
    × ((b ≡ slash) ⊎ Within b (codes "/srv/new.txt"))
secure_path-Within_example =
    secure_path-Within linked (codes "sub/../new.txt") (codes "/srv") (codes "/srv/new.txt")
      new_file

-- Nothing exists, so that the loop climbs to the root.
abbrev bare : FileSystem
bare = record { getwd = ok (codes "/srv"); eval_symlinks = λ p. err not_exist }

abbrev is_abs_ok : Result PathError Bytes → Bool
is_abs_ok (ok w) = is_abs w
is_abs_ok (err e) = true

bare-is_abs : (w : Bytes) → bare.getwd ≡ ok w → is_abs w ≡ true
unfolding is_abs has_prefix
bare-is_abs w e = subst (λ (r : Result PathError Bytes). is_abs_ok r ≡ true) e refl

secure_path-Ends_example : secure_path bare (codes "a/b/c") (codes "jail") ≢ err out_of_fuel
secure_path-Ends_example =
    secure_path-Ends bare (codes "a/b/c") (codes "jail") (λ p x. cc) (λ x. cc) bare-is_abs

climbs_to_the_root : secure_path bare (codes "a/b/c") (codes "jail") ≡ ok (codes "/srv/jail/a/b/c")
unfolding secure_path beq clean join dir base is_abs has_prefix has_suffix
climbs_to_the_root = refl
