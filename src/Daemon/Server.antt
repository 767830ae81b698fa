-- ===== src/Daemon/Server.antt =====
-- internal/daemon/server.go: what the server does with one request.
-- The counters are those that a request changes; metrics, the log line and the `data` of an error
-- are output only and are left out.
pub mod Replies
pub mod State
mod Tests
use go_posix.Base.{
  ℕ, ◌+◌, ◌-◌, ◌*◌, ◌≡◌, Bool, true, false, not, ◌&&◌, Option, none, some, List, [], ◌∷◌, ◌++◌,
  Bytes, beq, codes, length, ltb, if◌then◌else◌, drop,
}
use go_posix.Base.FilePath.{slash, has_prefix}
use go_posix.Base.Map.{Map}
use go_posix.Daemon.Limits.{LimitWriter, write_all}
use go_posix.Daemon.Sessions.{PathPolicy, Session, SessionManager}
use go_posix.Daemon.Sessions
use go_posix.Daemon.Rpc.{
  Request, GoposixParams, ShellResult, Envelope, RpcResult, pong, session, done, sessions, shell,
  raw, enveloped, Body, result, rpc_error, Response, Files, Host, Command, Env,
}
use go_posix.Daemon.Commands.{get_session, command_body, params_or_none}

pub record Server : Type 0 where
  pub host : Host
  pub total_requests : ℕ
  pub active_workers : ℕ

-- The sessions and the files behind a request and what is answered; `none` is no response.
abbrev Answer : Type 0
Answer = Host × Option Response

-- `if req.ID != nil { return &Response{…} }; return nil`
pub respond : Option Bytes → Body → Option Response
respond none b = none
respond (some i) b = some (record { body = b; id = i })

invalid_session : Body
invalid_session = rpc_error 32602 (codes "Invalid session")

-- `goposix.session.setCwd`
pub set_cwd_body : PathPolicy → SessionManager → ℕ → Option (Bytes × Bytes) → SessionManager × Body
set_cwd_body paths sm now none = (sm, rpc_error 32602 (codes "Invalid params"))
set_cwd_body paths sm now (some (sid, path)) =
    let (sm', found) = Sessions.get sm sid now in
    elim found [
      | none ↦ (sm', invalid_session)
      | some s ↦
          let (sm'', moved) = Sessions.set_cwd paths sm' sid path now in
          (
            sm'',
            if moved
                then result done
                else rpc_error 32602 (codes "Path traversal detected or directory does not exist"),
          )
    ]

-- `goposix.session.destroy`
pub destroy_body : SessionManager → Option Bytes → SessionManager × Body
destroy_body sm none = (sm, invalid_session)
destroy_body sm (some sid) =
    let (sm', gone) = Sessions.destroy sm sid in
    (sm', if gone then result done else invalid_session)

-- The shell runs in the session's directory and environment, where there is a session.
pub run_shell : Env → Files → Bytes → Option Session → ShellResult × Files
run_shell env files script none = env.exec files script slash []
run_shell env files script (some s) = env.exec files script s.cwd s.env

-- `goposix.shell.exec`: the session moves in the file system that the script leaves.
pub exec_body : Env → Host → ℕ → Option (Bytes × Bytes) → Host × Body
unfolding get_session run_shell
exec_body env host now none = (host, rpc_error 32602 (codes "Invalid params"))
exec_body env host now (some (sid, script)) =
    let (sm', found) = get_session host.sm sid now in
    let (res, files') = run_shell env host.files script found in
    let moved = (Sessions.set_cwd files'.paths sm' sid res.cwd now).0 in
    let sm'' = if not (beq sid []) && not (beq res.cwd []) then moved else sm' in
    (record { sm = sm''; files = files' }, result (shell res))

-- `s.sm.List()` and the other answers to a method of the server itself; `none` is another method.
pub data Method : Type 0 where
  ping create set_cwd list destroy exec : Method
  other : Method

pub method_of : Bytes → Method
method_of m =
    if beq m (codes "goposix.ping")
    then ping
    else if beq m (codes "goposix.session.create")
    then create
    else if beq m (codes "goposix.session.setCwd")
    then set_cwd
    else if beq m (codes "goposix.session.list")
    then list
    else if beq m (codes "goposix.session.destroy")
    then destroy
    else if beq m (codes "goposix.shell.exec")
    then exec
    else other

not_found : Body
not_found = rpc_error 32601 (codes "Method not found")

pub decode_if_any : Env → Bytes → Option GoposixParams
decode_if_any env params = if beq params [] then none else env.decode_params params

-- `strings.TrimPrefix(req.Method, "goposix.")` on a method that has the prefix.
pub command_name : Bytes → Bytes
command_name m = drop 8 m

-- A request for a command, with an id or without one: a notification runs the command too.
pub other_body : Env → Host → ℕ → Request → Host × Body
unfolding command_name decode_if_any params_or_none command_body not_found
other_body env host now req =
    if has_prefix req.method (codes "goposix.")
    then (elim (env.lookup (command_name req.method)) [
      | none ↦ (host, not_found)
      | some cmd ↦
          command_body env host now (command_name req.method) cmd
            (params_or_none (decode_if_any env req.params))
    ])
    else (host, not_found)

-- What a method does to the sessions alone.
pub with_sm : Host → SessionManager × Body → Host × Body
with_sm host (sm', b) = (record host { sm = sm' }, b)

-- The methods of the server itself, for a request with an id. `active` counts this request.
pub own_body : Env → Host → ℕ → ℕ → Bytes → Bytes → Method → Host × Body
unfolding with_sm set_cwd_body destroy_body exec_body not_found
own_body env host active now new_id params ping = (host, result (pong active))
own_body env host active now new_id params create =
    let (sm', s) = Sessions.create host.sm new_id now in with_sm host (sm', result (session s))
own_body env host active now new_id params set_cwd =
    with_sm host (set_cwd_body host.files.paths host.sm now (env.decode_set_cwd params))
own_body env host active now new_id params list = (host, result (sessions (Sessions.list host.sm)))
own_body env host active now new_id params destroy =
    with_sm host (destroy_body host.sm (env.decode_destroy params))
own_body env host active now new_id params exec = exec_body env host now (env.decode_exec params)
own_body env host active now new_id params other = (host, not_found)

pub answer : Option Bytes → Host × Body → Answer
unfolding respond
answer id (host, b) = (host, respond id b)

-- The methods of the server itself do nothing for a notification.
pub dispatch : Env → Host → ℕ → Request → ℕ → Bytes → Method → Option Bytes → Answer
unfolding answer own_body other_body
dispatch env host active req now new_id other id = answer id (other_body env host now req)
dispatch env host active req now new_id m none = (host, none)
dispatch env host active req now new_id m (some i) =
    answer (some i) (own_body env host active now new_id req.params m)

-- `processRequest` between the two changes of `activeWorkers`.
pub handle : Env → Host → ℕ → Request → ℕ → Bytes → Answer
unfolding respond method_of dispatch
handle env host active req now new_id =
    if not (beq req.jsonrpc (codes "2.0"))
    then (host, respond req.id (rpc_error 32600 (codes "Invalid Request")))
    else if ltb 256 (length req.method)
    then (host, respond req.id (rpc_error 32600 (codes "Method too long")))
    else dispatch env host active req now new_id (method_of req.method) req.id

pub process_request : Env → Server → Request → ℕ → Bytes → Server × Option Response
unfolding handle
process_request env srv req now new_id =
    let (host', answer) = handle env srv.host (srv.active_workers + 1) req now new_id in
    (
      record srv {
        host = host';
        total_requests = srv.total_requests + 1;
        active_workers = srv.active_workers + 1 - 1;
      },
      answer,
    )
