-- ===== src/Daemon/Server/State.antt =====
-- What a request does to the sessions, the files and the counters.
use go_posix.Base.{
  ℕ, ◌+◌, ◌≡◌, refl, ◌≢◌, List, [], Bool, true, false, Option, none, some, Bytes, beq, codes, ltb,
  length, if◌then◌else◌, Bool-cases, Option-cases, beq→eq, ◌<◌, ◌⊎◌, inl, inr, arith,
}
use go_posix.Base.FilePath.{slash, has_prefix}
use go_posix.Base.Map.{Map}
use go_posix.Daemon.Sessions.{PathPolicy, SessionManager, Session}
use go_posix.Daemon.Sessions
use go_posix.Daemon.Sessions.Confine.{
  AllConfined, get-AllConfined, create-AllConfined, set_cwd-AllConfined, destroy-AllConfined,
  SameBases, SameBases-AllConfined,
}
use go_posix.Daemon.Rpc.{Request, GoposixParams, Host, Env, Command}
use go_posix.Daemon.Commands.{
  get_session, cwd_or_root, build_args, run_command, command_body, params_or_none,
}
use go_posix.Daemon.Server.{
  Server, Method, other, ping, create, set_cwd, list, destroy, exec, dispatch, handle,
  process_request, method_of, own_body, other_body, set_cwd_body, destroy_body, exec_body,
  run_shell, with_sm, command_name, decode_if_any,
}

-- Every session is confined, in the file system as it stands.
abbrev pub HostConfined : Host → Type 0
HostConfined host = AllConfined host.files.paths host.sm

-- Whatever script runs or registered command, the base directories of the sessions still resolve to
-- the same directories behind it.
pub record KeepsBases (env : Env) (host : Host) : Type 0 where
  pub exec :
      (script cwd : Bytes) (vars : Map Bytes)
      → SameBases host.files.paths (env.exec host.files script cwd vars).1.paths host.sm
  pub run :
      (name : Bytes) (cmd : Command)
      → env.lookup name ≡ some cmd
      → (args : List Bytes) (stdin cwd : Bytes)
      → SameBases host.files.paths (cmd.run host.files args stdin cwd).1.paths host.sm

get_session-AllConfined :
    (fs : PathPolicy) (sm : SessionManager) (sid : Bytes) (now : ℕ)
    → AllConfined fs sm
    → AllConfined fs (get_session sm sid now).0
unfolding get_session
get_session-AllConfined fs sm sid now h = elim (Bool-cases (beq sid [])) [
  | inl e ↦ rw e h
  | inr e ↦ rw e (get-AllConfined fs sm sid now h)
]

set_cwd_body-AllConfined :
    (fs : PathPolicy) (sm : SessionManager) (now : ℕ) (o : Option (Bytes × Bytes))
    → AllConfined fs sm
    → AllConfined fs (set_cwd_body fs sm now o).0
unfolding set_cwd_body
set_cwd_body-AllConfined fs sm now none h = h
set_cwd_body-AllConfined fs sm now (some (sid, path)) h =
    let h' = get-AllConfined fs sm sid now h in
    elim (Option-cases (Sessions.get sm sid now).1) [
      | inl e ↦ rw (e, set_cwd_body) h'
      | inr (s, e) ↦ rw (e, set_cwd_body) (set_cwd-AllConfined fs _ sid path now h')
    ]

destroy_body-AllConfined :
    (fs : PathPolicy) (sm : SessionManager) (o : Option Bytes)
    → AllConfined fs sm
    → AllConfined fs (destroy_body sm o).0
unfolding destroy_body
destroy_body-AllConfined fs sm none h = h
destroy_body-AllConfined fs sm (some sid) h = destroy-AllConfined fs sm sid h

if-AllConfined :
    (fs : PathPolicy) (b : Bool) (x y : SessionManager)
    → AllConfined fs x
    → AllConfined fs y
    → AllConfined fs (if b then x else y)
if-AllConfined fs true x y hx hy = hx
if-AllConfined fs false x y hx hy = hy

module _ (env : Env) (host : Host) (h : HostConfined host) (keeps : KeepsBases env host) where
  run_shell-AllConfined :
      (script : Bytes) (o : Option Session)
      → AllConfined (run_shell env host.files script o).1.paths host.sm
  unfolding run_shell
  run_shell-AllConfined script none =
      SameBases-AllConfined host.files.paths (env.exec host.files script slash []).1.paths host.sm h
        (keeps.exec script slash [])
  run_shell-AllConfined script (some s) =
      SameBases-AllConfined host.files.paths (env.exec host.files script s.cwd s.env).1.paths
        host.sm h (keeps.exec script s.cwd s.env)

  exec_body-HostConfined :
      (now : ℕ) (o : Option (Bytes × Bytes)) → HostConfined (exec_body env host now o).0
  unfolding exec_body
  exec_body-HostConfined now none = h
  exec_body-HostConfined now (some (sid, script)) =
      let found = (get_session host.sm sid now).1 in
      let paths = (run_shell env host.files script found).1.paths in
      let h' = get_session-AllConfined paths host.sm sid now (run_shell-AllConfined script found) in
      if-AllConfined paths _ _ _ (set_cwd-AllConfined paths _ sid _ now h') h'

  own_body-HostConfined :
      (active now : ℕ) (new_id params : Bytes) (m : Method)
      → HostConfined (own_body env host active now new_id params m).0
  unfolding own_body with_sm
  own_body-HostConfined active now new_id params ping = h
  own_body-HostConfined active now new_id params create =
      create-AllConfined host.files.paths host.sm new_id now h
  own_body-HostConfined active now new_id params set_cwd =
      set_cwd_body-AllConfined host.files.paths host.sm now (env.decode_set_cwd params) h
  own_body-HostConfined active now new_id params list = h
  own_body-HostConfined active now new_id params destroy =
      destroy_body-AllConfined host.files.paths host.sm (env.decode_destroy params) h
  own_body-HostConfined active now new_id params exec =
      exec_body-HostConfined now (env.decode_exec params)
  own_body-HostConfined active now new_id params other = h

  -- A command runs behind the look at the session.
  run_command-HostConfined :
      (now : ℕ) (name : Bytes) (cmd : Command) (p : GoposixParams) (cwd path : Bytes)
      → env.lookup name ≡ some cmd
      → let marked = record host { sm = (get_session host.sm p.session_id now).0 } in
        HostConfined (run_command env marked name cmd p cwd path).0
  unfolding run_command
  run_command-HostConfined now name cmd p cwd path found =
      let paths = (cmd.run host.files (build_args name p path) p.stdin cwd).1.paths in
      get_session-AllConfined paths host.sm p.session_id now (
        SameBases-AllConfined host.files.paths paths host.sm h
          (keeps.run name cmd found (build_args name p path) p.stdin cwd))

  command_body-HostConfined :
      (now : ℕ) (name : Bytes) (cmd : Command) (p : GoposixParams)
      → env.lookup name ≡ some cmd
      → HostConfined (command_body env host now name cmd p).0
  unfolding command_body
  command_body-HostConfined now name cmd p found =
      let cwd = cwd_or_root (get_session host.sm p.session_id now).1 in
      elim (Bool-cases (beq p.path [])) [
        | inl e ↦ rw e (run_command-HostConfined now name cmd p cwd [] found)
        | inr e ↦ elim (Option-cases (host.files.paths.secure_path p.path cwd)) [
          | inl f ↦ rw (e, f) (get_session-AllConfined host.files.paths host.sm p.session_id now h)
          | inr (path, f) ↦ rw (e, f) (run_command-HostConfined now name cmd p cwd path found)
        ]
      ]

  other_body-HostConfined : (now : ℕ) (req : Request) → HostConfined (other_body env host now req).0
  unfolding other_body
  other_body-HostConfined now req = elim (Bool-cases (has_prefix req.method (codes "goposix."))) [
    | inr e ↦ rw e h
    | inl e ↦ rw e (elim (Option-cases (env.lookup (command_name req.method))) [
      | inl f ↦ rw f h
      | inr (cmd, f) ↦ rw f (
          command_body-HostConfined now (command_name req.method) cmd
            (params_or_none (decode_if_any env req.params)) f)
    ])
  ]

  dispatch-HostConfined :
      (active : ℕ) (req : Request) (now : ℕ) (new_id : Bytes) (m : Method) (id : Option Bytes)
      → HostConfined (dispatch env host active req now new_id m id).0
  unfolding dispatch
  dispatch-HostConfined active req now new_id other id = other_body-HostConfined now req
  dispatch-HostConfined active req now new_id m none = h
  dispatch-HostConfined active req now new_id m (some i) =
      own_body-HostConfined active now new_id req.params m

  handle-HostConfined :
      (active : ℕ) (req : Request) (now : ℕ) (new_id : Bytes)
      → HostConfined (handle env host active req now new_id).0
  unfolding handle
  handle-HostConfined active req now new_id = elim (Bool-cases (beq req.jsonrpc (codes "2.0"))) [
    | inr e ↦ rw e h
    | inl e ↦ elim (Bool-cases (ltb 256 (length req.method))) [
      | inl long ↦ rw (e, long) h
      | inr short ↦
          rw (e, short) (dispatch-HostConfined active req now new_id (method_of req.method) req.id)
    ]
  ]

-- Where the sessions are confined before a request, and neither a script nor a registered command
-- changes what their base directories resolve to, every session is confined behind the request, in the
-- file system as it stands then; the request is counted, and no worker stays counted as active.
pub process_request-HostConfined :
    (env : Env) (srv : Server) (req : Request) (now : ℕ) (new_id : Bytes)
    → HostConfined srv.host
    → KeepsBases env srv.host
    → HostConfined (process_request env srv req now new_id).0.host
      × ((process_request env srv req now new_id).0.total_requests ≡ srv.total_requests + 1)
      × ((process_request env srv req now new_id).0.active_workers ≡ srv.active_workers)
unfolding process_request
process_request-HostConfined env srv req now new_id h keeps = (
  handle-HostConfined env srv.host h keeps (srv.active_workers + 1) req now new_id,
  refl,
  omega arith,
)

dispatch-notification :
    (env : Env) (host : Host) (active : ℕ) (req : Request) (now : ℕ) (new_id : Bytes) (m : Method)
    → m ≢ other
    → (dispatch env host active req now new_id m none).0 ≡ host
unfolding dispatch
dispatch-notification env host active req now new_id other h = absurd (h refl)
dispatch-notification env host active req now new_id _ h = refl

-- A notification for a method of the server itself changes no session and no file, and neither does a
-- request that is not JSON-RPC 2.0 or has too long a method.
pub process_request-host_same :
    (env : Env) (srv : Server) (req : Request) (now : ℕ) (new_id : Bytes)
    → ((req.id ≡ none) × (method_of req.method ≢ other))
      ⊎ ((req.jsonrpc ≢ codes "2.0") ⊎ (256 < length req.method))
    → (process_request env srv req now new_id).0.host ≡ srv.host
unfolding process_request handle
process_request-host_same env srv req now new_id h =
    elim (Bool-cases (beq req.jsonrpc (codes "2.0"))) [
      | inr e ↦ rw e
      | inl e ↦ elim (Bool-cases (ltb 256 (length req.method))) [
        | inl long ↦ rw (e, long)
        | inr short ↦
            rw (e, short)
              (elim h [
                | inl (no_id, own) ↦ rw no_id (
                    dispatch-notification env srv.host (srv.active_workers + 1) req now new_id
                      (method_of req.method) own)
                | inr (inl bad) ↦ absurd (bad (beq→eq req.jsonrpc (codes "2.0") e))
                | inr (inr long) ↦ absurd (ground arith)
              ])
      ]
    ]
