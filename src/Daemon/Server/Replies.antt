-- ===== src/Daemon/Server/Replies.antt =====
-- Which requests are answered.
use go_posix.Base.{
  ℕ, ◌+◌, ◌≡◌, refl, Option, none, some, Bytes, beq, codes, ltb, length, Bool-cases, inl, inr,
}
use go_posix.Daemon.Rpc.{Request, Body, Response, Host, Env}
use go_posix.Daemon.Server.{
  Server, respond, answer, Method, other, dispatch, handle, process_request, method_of, own_body,
  other_body,
}

abbrev pub reply_id : Option Response → Option Bytes
reply_id none = none
reply_id (some r) = some r.id

reply_id-respond : (id : Option Bytes) (b : Body) → reply_id (respond id b) ≡ id
unfolding respond
reply_id-respond none b = refl
reply_id-respond (some i) b = refl

reply_id-answer : (id : Option Bytes) (p : Host × Body) → reply_id (answer id p).1 ≡ id
unfolding answer
reply_id-answer id (host, b) = reply_id-respond id b

reply_id-dispatch :
    (env : Env) (host : Host) (active : ℕ) (req : Request) (now : ℕ) (new_id : Bytes) (m : Method)
    (id : Option Bytes)
    → reply_id (dispatch env host active req now new_id m id).1 ≡ id
unfolding dispatch
reply_id-dispatch env host active req now new_id other id =
    reply_id-answer id (other_body env host now req)
reply_id-dispatch env host active req now new_id m none = refl
reply_id-dispatch env host active req now new_id m (some i) =
    reply_id-answer (some i) (own_body env host active now new_id req.params m)

reply_id-handle :
    (env : Env) (host : Host) (active : ℕ) (req : Request) (now : ℕ) (new_id : Bytes)
    → reply_id (handle env host active req now new_id).1 ≡ req.id
unfolding handle
reply_id-handle env host active req now new_id = elim (Bool-cases (beq req.jsonrpc (codes "2.0"))) [
  | inr e ↦ rw e (reply_id-respond req.id _)
  | inl e ↦ elim (Bool-cases (ltb 256 (length req.method))) [
    | inl long ↦ rw (e, long) (reply_id-respond req.id _)
    | inr short ↦
        rw (e, short)
          (reply_id-dispatch env host active req now new_id (method_of req.method) req.id)
  ]
]

-- A request with an id gets one response, with that id; a notification gets none. This holds for
-- every method, known or not, and whatever the commands do to the files.
pub process_request-reply_id :
    (env : Env) (srv : Server) (req : Request) (now : ℕ) (new_id : Bytes)
    → reply_id (process_request env srv req now new_id).1 ≡ req.id
unfolding process_request
process_request-reply_id env srv req now new_id =
    reply_id-handle env srv.host (srv.active_workers + 1) req now new_id
