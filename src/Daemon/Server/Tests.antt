-- ===== src/Daemon/Server/Tests.antt =====
-- Requests to a server with one command, `pwd`, that prints its working directory, and a shell that
-- writes each script to a file and moves down.
use go_posix.Base.{
  ◌+◌, ◌≡◌, refl, true, Option, none, some, [], ◌∷◌, Bytes, codes, beq, if◌then◌else◌, arith, ok,
  inl, inr, Bool-cases, subst,
}
use go_posix.Base.FilePath.{slash, has_prefix, clean, join, dir, base, is_abs, has_suffix}
use go_posix.Security.{FileSystem, secure_path}
use go_posix.Daemon.Policy.{policy}
use go_posix.Base.Map.{lookup, insert}
use go_posix.Daemon.Sessions.{Session, new_session_manager, get, set_cwd}
use go_posix.Daemon.Sessions.Confine.{SameBases}
use go_posix.Daemon.Rpc.{Request, Command, Env, result, enveloped, pong}
use go_posix.Daemon.Commands.{get_session, command_body, params_or_none}
use go_posix.Daemon.Limits.{write_all, write}
use go_posix.Daemon.Server.{Server, process_request, method_of}
use go_posix.Daemon.Server.Replies.{reply_id, process_request-reply_id}
use go_posix.Daemon.Server.State.{
  HostConfined, KeepsBases, process_request-HostConfined, process_request-host_same,
}

abbrev plain : FileSystem
plain = record { getwd = ok slash; eval_symlinks = λ p. ok p }

abbrev pwd : Command
pwd = record { run = λ files args stdin cwd. ((0, cwd ∷ [], []), files) }

abbrev env : Env
env = record {
  lookup = λ name. if beq name (codes "pwd") then some pwd else none;
  exec = λ files script cwd vars. (
    record { output = []; exit_code = 0; cwd = codes "logs" },
    record files { contents = λ p. if beq p (codes "/out") then some script else files.contents p },
  );
  decode_params = λ raw. none;
  decode_set_cwd = λ raw. none;
  decode_destroy = λ raw. none;
  decode_exec = λ raw. some (codes "s", raw);
  decode_envelope = λ raw. none;
}

abbrev fresh : Server
fresh = record {
  host = record {
    sm = new_session_manager 1800;
    files = record { paths = policy plain (λ p. true); contents = λ p. none };
  };
  total_requests = 0;
  active_workers = 0;
}

abbrev request : Bytes → Option Bytes → Request
request method id = record { jsonrpc = codes "2.0"; method = method; params = []; id = id }

pwd_prints_root :
    (process_request env fresh (request (codes "goposix.pwd") (some (codes "7"))) 5 []).1
    ≡ some (record { body = result (enveloped 0 (some slash) []); id = codes "7" })
unfolding process_request beq has_prefix command_body params_or_none get_session new_session_manager
    write_all write
pwd_prints_root = refl

ping_counts_itself :
    (process_request env fresh (request (codes "goposix.ping") (some (codes "8"))) 5 []).1
    ≡ some (record { body = result (pong 1); id = codes "8" })
unfolding process_request beq
ping_counts_itself = refl

process_request-reply_id_example :
    reply_id (process_request env fresh (request (codes "goposix.nope") (some (codes "9"))) 5 []).1
    ≡ some (codes "9")
process_request-reply_id_example =
    process_request-reply_id env fresh (request (codes "goposix.nope") (some (codes "9"))) 5 []

abbrev in_app : Session
in_app = record {
  id = codes "s";
  cwd = codes "/app";
  base_dir = codes "/app";
  env = [];
  last_active = 3;
}

-- A server with one session.
abbrev busy : Server
busy = record fresh {
  host = record fresh.host { sm = record fresh.host.sm { sessions = (codes "s", in_app) ∷ [] } };
}

KeepsBases-env : KeepsBases env busy.host
KeepsBases-env = record {
  exec = λ script cwd vars. (refl, tt);
  run = λ name cmd found args stdin cwd. elim (Bool-cases (beq name (codes "pwd"))) [
    | inl e ↦
        let found' : some pwd ≡ some cmd = (rw e at found) in
        let same : pwd ≡ cmd = cc in
        subst
          (λ (c : Command).
            SameBases busy.host.files.paths (c.run busy.host.files args stdin cwd).1.paths
              busy.host.sm)
          same (refl, tt)
    | inr e ↦ (let found' : none ≡ some cmd = (rw e at found) in cc)
  ];
}

abbrev run_script : Request
run_script = request (codes "goposix.shell.exec") (some (codes "1"))

process_request-HostConfined_example :
    HostConfined (process_request env busy run_script 5 []).0.host
    × ((process_request env busy run_script 5 []).0.total_requests ≡ 0 + 1)
    × ((process_request env busy run_script 5 []).0.active_workers ≡ 0)
process_request-HostConfined_example =
    process_request-HostConfined env busy run_script 5 [] (((λ e. ground arith), inl refl), tt)
      KeepsBases-env

-- The script moves the session.
script_moves :
    lookup (process_request env busy run_script 5 []).0.host.sm.sessions (codes "s")
    ≡ some (record in_app { cwd = codes "/app/logs"; last_active = 5 })
unfolding process_request beq has_prefix get_session get set_cwd lookup insert new_session_manager
    secure_path clean join dir base is_abs has_suffix
script_moves = refl

process_request-host_same_example :
    (process_request env fresh (request (codes "goposix.session.create") none) 5 []).0.host
    ≡ fresh.host
unfolding method_of beq
process_request-host_same_example =
    process_request-host_same env fresh (request (codes "goposix.session.create") none) 5 []
      (inl (refl, ground arith))
