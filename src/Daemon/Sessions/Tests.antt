-- ===== src/Daemon/Sessions/Tests.antt =====
-- A client that moves into a directory and tries to leave it.
use go_posix.Base.{
  ℕ, ◌-◌, ◌≤◌, ◌≡◌, refl, true, false, some, [], ◌∷◌, List, Bytes, codes, beq, arith, ok,
}
use go_posix.Base.FilePath.{slash, clean, join, dir, base, is_abs, has_suffix, has_prefix}
use go_posix.Base.Map.{lookup, insert, delete}
use go_posix.Security.{FileSystem, secure_path}
use go_posix.Daemon.Policy.{policy}
use go_posix.Daemon.Sessions.{
  PathPolicy, Session, SessionManager, Call, create_call, get_call, set_cwd_call, tick, run,
  cleanup, new_session_manager, create, set_cwd,
}
use go_posix.Daemon.Sessions.Jail.{JailIs, run-JailIs}
use go_posix.Daemon.Sessions.Expiry.{cleanup-lookup}

-- Every path is a directory and there are no links.
abbrev plain : FileSystem
plain = record { getwd = ok slash; eval_symlinks = λ p. ok p }

abbrev fs : PathPolicy
fs = policy plain (λ p. true)

abbrev one : Bytes
one = codes "01"

abbrev calls : List (Call × ℕ)
calls =
    (create_call one, 10)
    ∷ (set_cwd_call one (codes "/srv/app"), 20)
    ∷ (set_cwd_call one (codes "logs"), 30)
    ∷ (set_cwd_call one (codes "../.."), 40)
    ∷ (tick, 50)
    ∷ []

abbrev jailed : Session
jailed = record {
  id = one;
  cwd = codes "/srv/app/logs";
  base_dir = codes "/srv/app";
  env = [];
  last_active = 30;
}

stays_inside : lookup (run fs (new_session_manager 1800) calls).sessions one ≡ some jailed
unfolding run new_session_manager create set_cwd cleanup secure_path beq clean join dir base is_abs
    has_prefix has_suffix lookup insert delete
stays_inside = refl

abbrev one_session : SessionManager
one_session = record {
  sessions = (one, jailed) ∷ [];
  ttl = 1800;
  total_sessions_created = 1;
  done = false;
}

abbrev more_calls : List (Call × ℕ)
more_calls = (set_cwd_call one (codes "/"), 60) ∷ (get_call one, 70) ∷ []

run-JailIs_example : JailIs one (codes "/srv/app") (run fs one_session more_calls).sessions
unfolding lookup beq
run-JailIs_example =
    run-JailIs one (codes "/srv/app") fs one_session more_calls (ground arith) (tt, (tt, tt))
      (λ s e. ground arith)

cleanup-lookup_example :
    (lookup one_session.sessions one ≡ some jailed) × (100 - jailed.last_active ≤ 1800)
unfolding cleanup lookup beq
cleanup-lookup_example = cleanup-lookup one_session 100 one jailed refl refl
