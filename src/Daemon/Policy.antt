-- ===== src/Daemon/Policy.antt =====
-- `common.SecurePath` over a file system, as what the sessions use of it.
use go_posix.Base.{Bool, Option, none, some, [], Bytes, ◌≡◌, ◌⊎◌, Result, ok, err, subst, sym, ap}
use go_posix.Base.FilePath.{slash}
use go_posix.Security.{FileSystem, PathError, Within, real_base, secure_path}
use go_posix.Security.Confine.{secure_path-Within, secure_path-ne-nil}
use go_posix.Daemon.Sessions.{PathPolicy}

abbrev path_of : Result PathError Bytes → Option Bytes
path_of (ok p) = some p
path_of (err e) = none

abbrev path_or_nil : Result PathError Bytes → Bytes
path_or_nil (ok p) = p
path_or_nil (err e) = []

pub path_of-some : (r : Result PathError Bytes) (p : Bytes) → path_of r ≡ some p → r ≡ ok p
path_of-some (ok q) p h = cc
path_of-some (err e) p h = cc

pub secure_path-policy_Within :
    (fs : FileSystem) (path base p : Bytes)
    → path_of (secure_path fs path base) ≡ some p
    → (path_or_nil (real_base fs base) ≡ slash) ⊎ Within (path_or_nil (real_base fs base)) p
secure_path-policy_Within fs path base p h =
    let (b, e, inside) = secure_path-Within fs path base p (path_of-some _ p h) in
    subst (λ (q : Bytes). (q ≡ slash) ⊎ Within q p) (sym (ap path_or_nil e)) inside

abbrev pub policy : FileSystem → (Bytes → Bool) → PathPolicy
policy fs is_dir = record {
  secure_path = λ path base. path_of (secure_path fs path base);
  is_dir = is_dir;
  real = λ base. path_or_nil (real_base fs base);
  secure_path-Within = secure_path-policy_Within fs;
  secure_path-ne-nil = λ path base p h. secure_path-ne-nil fs path base p (path_of-some _ p h);
}
