-- ===== src/Daemon/Sessions.antt =====
-- internal/daemon/session.go: the sessions of the daemon.
-- Each method holds the mutex, so a method is one step on the manager. The clock and the random
-- session id are arguments. The deep copies that `Get` and `List` return are values here.
-- `os.Stat` is the field `is_dir` of the interface below, beside `common.SecurePath`.
pub mod Confine
mod Expiry
mod Jail
mod Tests
use go_posix.Base.{
  ℕ, ◌+◌, ◌-◌, ◌≡◌, ◌≢◌, Bool, true, false, not, ◌&&◌, Option, none, some, List, [], ◌∷◌, map,
  Bytes, beq, codes, ltb, if◌then◌else◌, ◌⊎◌,
}
use go_posix.Base.FilePath.{slash}
use go_posix.Base.Map.{Map, lookup, insert, delete}
use go_posix.Security.{Within}

-- What the sessions use of the file system.
pub record PathPolicy : Type 0 where
  -- `common.SecurePath(path, base)`, `none` for an error
  pub secure_path : Bytes → Bytes → Option Bytes
  -- `os.Stat` succeeds and finds a directory
  pub is_dir : Bytes → Bool
  -- the base directory with its links resolved
  pub real : Bytes → Bytes
  pub secure_path-Within :
      (path base p : Bytes)
      → secure_path path base ≡ some p
      → (real base ≡ slash) ⊎ Within (real base) p
  -- `filepath.Clean` never returns the empty path
  pub secure_path-ne-nil : (path base p : Bytes) → secure_path path base ≡ some p → p ≢ []

pub record Session : Type 0 where
  pub id : Bytes
  pub cwd : Bytes
  pub base_dir : Bytes
  pub env : Map Bytes
  pub last_active : ℕ

pub record SessionManager : Type 0 where
  pub sessions : Map Session
  pub ttl : ℕ
  pub total_sessions_created : ℕ
  pub done : Bool

unfoldable pub new_session_manager : ℕ → SessionManager
new_session_manager ttl = record {
  sessions = [];
  ttl = ttl;
  total_sessions_created = 0;
  done = false;
}

new_session : Bytes → ℕ → Session
new_session id now = record { id = id; cwd = slash; base_dir = slash; env = []; last_active = now }

-- `Create`, with the id that the random bytes spell.
pub create : SessionManager → Bytes → ℕ → SessionManager × Session
unfolding new_session
create sm id now =
    let s = new_session id now in
    (
      record sm {
        sessions = insert sm.sessions id s;
        total_sessions_created = sm.total_sessions_created + 1;
      },
      s,
    )

unfoldable pub get : SessionManager → Bytes → ℕ → SessionManager × Option Session
get sm id now = elim (lookup sm.sessions id) [
  | none ↦ (sm, none)
  | some s ↦
      let s' = record s { last_active = now } in
      (record sm { sessions = insert sm.sessions id s' }, some s')
]

-- The writes of `SetCwd` to a session, for a path that passed its checks.
move_to : Session → Bytes → ℕ → Session
move_to s path now = record s {
  cwd = path;
  base_dir = if beq s.base_dir slash && not (beq path slash) then path else s.base_dir;
  last_active = now;
}

base_of : Session → Bytes
base_of s = if beq s.base_dir [] then slash else s.base_dir

unfoldable pub set_cwd : PathPolicy → SessionManager → Bytes → Bytes → ℕ → SessionManager × Bool
unfolding move_to base_of
set_cwd fs sm id path now = elim (lookup sm.sessions id) [
  | none ↦ (sm, false)
  | some s ↦ elim (fs.secure_path path (base_of s)) [
    | none ↦ (sm, false)
    | some p ↦
        if fs.is_dir p
        then (record sm { sessions = insert sm.sessions id (move_to s p now) }, true)
        else (sm, false)
  ]
]

pub destroy : SessionManager → Bytes → SessionManager × Bool
destroy sm id = elim (lookup sm.sessions id) [
  | none ↦ (sm, false)
  | some s ↦ (record sm { sessions = delete sm.sessions id }, true)
]

pub list : SessionManager → List Session
list sm = map (λ e. e.1) sm.sessions

expired : SessionManager → ℕ → Session → Bool
expired sm now s = ltb sm.ttl (now - s.last_active)

-- The loop of `cleanupLoop` over the map, which deletes from it as it goes.
clean_entries : SessionManager → ℕ → Map Session → Map Session → Map Session
unfolding expired
clean_entries sm now [] m = m
clean_entries sm now ((id, s) ∷ es) m =
    clean_entries sm now es (if expired sm now s then delete m id else m)

-- One tick of `cleanupLoop`, which returns once `done` is closed.
pub cleanup : SessionManager → ℕ → SessionManager
unfolding clean_entries
cleanup sm now =
    if sm.done then sm else record sm { sessions = clean_entries sm now sm.sessions sm.sessions }

pub stop : SessionManager → SessionManager
stop sm = record sm { done = true }

-- The calls that reach the manager, in the order in which they take the mutex.
pub data Call : Type 0 where
  create_call : Bytes → Call
  get_call : Bytes → Call
  set_cwd_call : Bytes → Bytes → Call
  destroy_call : Bytes → Call
  tick : Call

pub step : PathPolicy → SessionManager → Call → ℕ → SessionManager
step fs sm (create_call id) now = (create sm id now).0
step fs sm (get_call id) now = (get sm id now).0
step fs sm (set_cwd_call id path) now = (set_cwd fs sm id path now).0
step fs sm (destroy_call id) now = (destroy sm id).0
step fs sm tick now = cleanup sm now

pub run : PathPolicy → SessionManager → List (Call × ℕ) → SessionManager
unfolding step
run fs sm [] = sm
run fs sm ((c, now) ∷ calls) = run fs (step fs sm c now) calls
