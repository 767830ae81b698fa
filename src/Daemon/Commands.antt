-- ===== src/Daemon/Commands.antt =====
-- internal/daemon/server.go, the second half of `processRequest`: a request that runs a command.
use go_posix.Base.{
  ℕ, ◌*◌, Bool, false, not, ◌&&◌, Option, none, some, List, [], ◌∷◌, ◌++◌, Bytes, beq, codes,
  if◌then◌else◌,
}
use go_posix.Base.FilePath.{slash}
use go_posix.Daemon.Limits.{write_all}
use go_posix.Daemon.Sessions.{Session, SessionManager}
use go_posix.Daemon.Sessions
use go_posix.Daemon.Rpc.{GoposixParams, raw, enveloped, Body, result, rpc_error, Host, Command, Env}

abbrev response_limit : ℕ
response_limit = 50 * 1024 * 1024

-- What a command's writes leave in its buffer.
buffered : List Bytes → Bytes
buffered ps = (write_all (record { w = []; limit = response_limit; wrote = 0 }) ps).w

-- The session that a request names, which `Get` marks as active.
unfoldable pub get_session : SessionManager → Bytes → ℕ → SessionManager × Option Session
get_session sm sid now = if beq sid [] then (sm, none) else Sessions.get sm sid now

pub cwd_or_root : Option Session → Bytes
cwd_or_root none = slash
cwd_or_root (some s) = if beq s.cwd [] then slash else s.cwd

no_params : GoposixParams
no_params = record {
  flags = [];
  path = [];
  text = [];
  stdin = [];
  session_id = [];
  raw_output = false;
}

unfoldable pub params_or_none : Option GoposixParams → GoposixParams
unfolding no_params
params_or_none none = no_params
params_or_none (some p) = p

-- `append(args, s)` where `s` is not empty
append_if : Bool → List Bytes → Bytes → List Bytes
append_if b args s = if b then args ++ s ∷ [] else args

-- The arguments of the command, given the path that passed the check.
pub build_args : Bytes → GoposixParams → Bytes → List Bytes
unfolding append_if
build_args name p path =
    let args = append_if (beq name (codes "echo") && not (beq p.text [])) p.flags p.text in
    let args' = append_if (not (beq path [])) args path in
    if p.raw_output then args' else codes "--json" ∷ args'

-- What the output of a command becomes.
pub finish : Env → GoposixParams → ℕ × List Bytes × List Bytes → Body
unfolding buffered
finish env p (exit_code, out, errs) =
    let stdout = buffered out in
    let stderr = buffered errs in
    if p.raw_output
    then result (raw exit_code stdout stderr)
    else elim (env.decode_envelope stdout) [
      | none ↦ result (enveloped exit_code (if beq stdout [] then none else some stdout) stderr)
      | some e ↦ elim e.error [
        | some (message, code) ↦ rpc_error 32000 message
        | none ↦ result (enveloped exit_code (some e.data_) stderr)
      ]
    ]

-- `cmd.Run`, given the directory and the path that passed the check.
unfoldable pub run_command :
    Env → Host → Bytes → Command → GoposixParams → Bytes → Bytes → Host × Body
unfolding build_args finish
run_command env host name cmd p cwd path =
    let (ran, files') = cmd.run host.files (build_args name p path) p.stdin cwd in
    (record host { files = files' }, finish env p ran)

-- A registered command.
unfoldable pub command_body : Env → Host → ℕ → Bytes → Command → GoposixParams → Host × Body
unfolding get_session cwd_or_root run_command
command_body env host now name cmd p =
    let (sm', s) = get_session host.sm p.session_id now in
    let cwd = cwd_or_root s in
    let marked = record host { sm = sm' } in
    if beq p.path []
    then run_command env marked name cmd p cwd []
    else elim (host.files.paths.secure_path p.path cwd) [
      | none ↦ (marked, rpc_error 32602 (codes "Path traversal detected"))
      | some path ↦ run_command env marked name cmd p cwd path
    ]
