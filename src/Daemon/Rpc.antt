-- ===== src/Daemon/Rpc.antt =====
-- internal/daemon/server.go: the messages of the protocol, and what the server calls.
-- encoding/json, the shell and the commands are parameters. A command is a function to its exit code,
-- its writes and the files that it leaves; what it does is one step here. An error of the codec is
-- `none`.
use go_posix.Base.{ℕ, Bool, Option, List, Bytes}
use go_posix.Base.Map.{Map}
use go_posix.Daemon.Sessions.{PathPolicy, Session, SessionManager}

-- `Params` is raw JSON; the id of a notification is `none`.
pub record Request : Type 0 where
  pub jsonrpc : Bytes
  pub method : Bytes
  pub params : Bytes
  pub id : Option Bytes

pub record GoposixParams : Type 0 where
  pub flags : List Bytes
  pub path : Bytes
  pub text : Bytes
  pub stdin : Bytes
  pub session_id : Bytes
  pub raw_output : Bool

pub record ShellResult : Type 0 where
  pub output : Bytes
  pub exit_code : ℕ
  pub cwd : Bytes

-- `JSONEnvelope`, as far as it is read: the data, and the error's message and code.
pub record Envelope : Type 0 where
  pub data_ : Bytes
  pub error : Option (Bytes × Bytes)

-- The values that stand under `result`.
pub data RpcResult : Type 0 where
  pong : ℕ → RpcResult
  session : Session → RpcResult
  done : RpcResult
  sessions : List Session → RpcResult
  shell : ShellResult → RpcResult
  raw : ℕ → Bytes → Bytes → RpcResult
  enveloped : ℕ → Option Bytes → Bytes → RpcResult

-- A response has a result or an error. The code of an error is negative: `rpc_error 32600` is -32600.
pub data Body : Type 0 where
  result : RpcResult → Body
  rpc_error : ℕ → Bytes → Body

pub record Response : Type 0 where
  pub body : Body
  pub id : Bytes

-- The file system as it stands: what the checks of paths find in it, and the contents of its files.
pub record Files : Type 0 where
  pub paths : PathPolicy
  pub contents : Bytes → Option Bytes

-- What a request may change: the sessions, and the files of the machine.
pub record Host : Type 0 where
  pub sm : SessionManager
  pub files : Files

pub record Command : Type 0 where
  -- the files, arguments, standard input and working directory to the exit code and the writes to
  -- both outputs, and to the files behind the run
  pub run : Files → List Bytes → Bytes → Bytes → (ℕ × List Bytes × List Bytes) × Files

-- What the server calls.
pub record Env : Type 0 where
  pub lookup : Bytes → Option Command
  -- `shell.Exec` on the files, a script, a directory and variables, and the files behind the run
  pub exec : Files → Bytes → Bytes → Map Bytes → ShellResult × Files
  pub decode_params : Bytes → Option GoposixParams
  pub decode_set_cwd : Bytes → Option (Bytes × Bytes)
  pub decode_destroy : Bytes → Option Bytes
  pub decode_exec : Bytes → Option (Bytes × Bytes)
  pub decode_envelope : Bytes → Option Envelope
