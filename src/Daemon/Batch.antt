-- ===== src/Daemon/Batch.antt =====
-- internal/daemon/server.go: a message of a connection (the loop of `handleConn`), `handleBatch` and
-- `handleSingleAsync`.
-- The workers of a batch run in any order. A list of turns says in which order they come to their
-- requests; a request is one step. `Submit` never fails, as its context is never cancelled.
mod Order
mod Messages
mod Tests
use go_posix.Base.{
  ℕ, Bool, true, false, Option, none, some, List, [], ◌∷◌, Bytes, codes, if◌then◌else◌, ◌==◌,
  get_elem?, set, length, replicate,
}
use go_posix.Daemon.RateLimiter.{RateLimiter, allow}
use go_posix.Daemon.Rpc.{Request, Response, Env}
use go_posix.Daemon.Server.{Server, process_request}

-- A worker: the index of its request, the clock, and the random id that `Create` would draw.
pub record Turn : Type 0 where
  pub index : ℕ
  pub now : ℕ
  pub new_id : Bytes

-- `if res != nil { results[idx] = res }`
pub put : List (Option Response) → ℕ → Option Response → List (Option Response)
put results i none = results
put results i (some r) = set results i (some r)

-- A worker, on the request at its index.
pub work_on :
    Env → Turn → Server × List (Option Response) → Option Request → Server × List (Option Response)
unfolding put
work_on env t state none = state
work_on env t (srv, results) (some req) =
    let (srv', res) = process_request env srv req t.now t.new_id in (srv', put results t.index res)

pub work :
    Env → List Request → Turn → Server × List (Option Response) → Server × List (Option Response)
unfolding work_on
work env reqs t state = work_on env t state (get_elem? reqs t.index)

pub work_all :
    Env
    → List Request
    → List Turn
    → Server × List (Option Response)
    → Server × List (Option Response)
unfolding work
work_all env reqs [] state = state
work_all env reqs (t ∷ ts) state = work_all env reqs ts (work env reqs t state)

-- The loop that removes the nil responses.
unfoldable pub compact {ℓ} : {A : Type ℓ} → List (Option A) → List A
compact [] = []
compact (none ∷ xs) = compact xs
compact (some x ∷ xs) = x ∷ compact xs

-- The server behind the batch, and the responses of the array that is written; of no response
-- nothing is written.
pub handle_batch : Env → Server → List Request → List Turn → Server × List Response
unfolding work_all
handle_batch env srv reqs turns =
    let (srv', results) = work_all env reqs turns (srv, replicate (length reqs) none) in
    (srv', compact results)

-- encoding/json on a message: an object and an array.
pub record Codec : Type 0 where
  pub decode_request : Bytes → Option Request
  pub decode_batch : Bytes → Option (List Request)

-- What is written to the connection. `error_reply 32600` has the code -32600 and no id.
pub data Written : Type 0 where
  nothing : Written
  error_reply : ℕ → Bytes → Written
  single_reply : Response → Written
  batch_reply : List Response → Written

pub invalid_request : Written
invalid_request = error_reply 32600 (codes "Invalid Request")

pub is_array : Bytes → Bool
is_array [] = false
is_array (c ∷ raw) = c == b'['

-- `enc.Encode`, where there is something to write.
pub write_batch : Server × List Response → Server × Written
write_batch (srv, []) = (srv, nothing)
write_batch (srv, r ∷ rs) = (srv, batch_reply (r ∷ rs))

pub write_single : Server × Option Response → Server × Written
write_single (srv, none) = (srv, nothing)
write_single (srv, some r) = (srv, single_reply r)

pub on_batch : Env → Server → List Turn → Option (List Request) → Server × Written
unfolding write_batch handle_batch invalid_request
on_batch env srv turns none = (srv, invalid_request)
on_batch env srv turns (some []) = (srv, invalid_request)
on_batch env srv turns (some (r ∷ rs)) = write_batch (handle_batch env srv (r ∷ rs) turns)

pub on_single : Env → Server → ℕ → Bytes → Option Request → Server × Written
unfolding write_single invalid_request
on_single env srv now new_id none = (srv, invalid_request)
on_single env srv now new_id (some req) = write_single (process_request env srv req now new_id)

-- One round of the loop of `handleConn`, on a message that was read.
pub on_message :
    Env
    → Codec
    → RateLimiter × Server
    → Bytes
    → ℕ
    → Bytes
    → List Turn
    → (RateLimiter × Server) × Written
unfolding on_batch on_single is_array
on_message env codec (rl, srv) raw now new_id turns =
    let (rl', allowed) = allow rl now in
    let (srv', written) =
      if is_array raw
      then on_batch env srv turns (codec.decode_batch raw)
      else on_single env srv now new_id (codec.decode_request raw) in
    if allowed
    then ((rl', srv'), written)
    else ((rl', srv), error_reply 32000 (codes "Rate limit exceeded"))
