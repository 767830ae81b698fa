-- ===== src/Daemon/Batch/Tests.antt =====
-- A batch of three requests, the second one a notification, whose workers run backwards.
use go_posix.Base.{
  ℕ, zero, suc, ◌<◌, ◌≡◌, refl, true, Option, none, some, List, [], ◌∷◌, map, Bytes, codes, arith,
  ok, inl, inr, length, ◌⊎◌,
}
use go_posix.Base.FilePath.{slash, has_prefix}
use go_posix.Security.{FileSystem}
use go_posix.Daemon.Policy.{policy}
use go_posix.Daemon.Sessions.{new_session_manager}
use go_posix.Daemon.RateLimiter.{new_rate_limiter, allow}
use go_posix.Daemon.Rpc.{Request, Env}
use go_posix.Daemon.Server.{Server}
use go_posix.Daemon.Batch.{Turn, Codec, compact, handle_batch, on_message}
use go_posix.Daemon.Batch.Order.{Visits, handle_batch-ids}
use go_posix.Daemon.Batch.Messages.{outcome, wanted, requests_in, on_message-outcome}

abbrev plain : FileSystem
plain = record { getwd = ok slash; eval_symlinks = λ p. ok p }

abbrev env : Env
env = record {
  lookup = λ name. none;
  exec = λ files script cwd vars. (record { output = []; exit_code = 0; cwd = cwd }, files);
  decode_params = λ raw. none;
  decode_set_cwd = λ raw. none;
  decode_destroy = λ raw. none;
  decode_exec = λ raw. none;
  decode_envelope = λ raw. none;
}

abbrev fresh : Server
fresh = record {
  host = record {
    sm = new_session_manager 1800;
    files = record { paths = policy plain (λ p. true); contents = λ p. none };
  };
  total_requests = 0;
  active_workers = 0;
}

abbrev request : Bytes → Option Bytes → Request
request method id = record { jsonrpc = codes "2.0"; method = method; params = []; id = id }

abbrev three : List Request
three =
    request (codes "goposix.ping") (some (codes "a"))
    ∷ request (codes "goposix.session.create") none
    ∷ request (codes "goposix.session.create") (some (codes "c"))
    ∷ []

abbrev turn : ℕ → Turn
turn i = record { index = i; now = 5; new_id = codes "s" }

abbrev backwards : List Turn
backwards = turn 2 ∷ turn 1 ∷ turn 0 ∷ []

Visits-backwards : (i : ℕ) → i < length three → Visits backwards i
Visits-backwards zero h = inr (inr (inl refl))
Visits-backwards (suc zero) h = inr (inl refl)
Visits-backwards (suc (suc zero)) h = inl refl
Visits-backwards (suc (suc (suc i))) h = absurd (omega arith)

handle_batch-ids_example :
    map (λ r. r.id) (handle_batch env fresh three backwards).1 ≡ compact (map (λ r. r.id) three)
handle_batch-ids_example = handle_batch-ids env fresh three backwards Visits-backwards

answered : compact (map (λ r. r.id) three) ≡ codes "a" ∷ codes "c" ∷ []
unfolding compact
answered = refl

abbrev codec : Codec
codec = record { decode_request = λ raw. none; decode_batch = λ raw. some three }

-- The first message of a limiter that lets one through.
on_message-outcome_example :
    let ((rl', srv'), written) =
      on_message env codec (new_rate_limiter 100 1 100 0, fresh) (codes "[{}]") 5 [] backwards in
    (outcome written
      ≡ wanted (allow (new_rate_limiter 100 1 100 0) 5).1 (requests_in codec (codes "[{}]")))
    × ((outcome written).0 ≡ none ⊎ srv' ≡ fresh)
    × (rl' ≡ (allow (new_rate_limiter 100 1 100 0) 5).0)
on_message-outcome_example =
    on_message-outcome env fresh codec (new_rate_limiter 100 1 100 0) (codes "[{}]") 5 [] backwards
      Visits-backwards

-- It is let through, and is a batch of three requests.
let_through :
    wanted (allow (new_rate_limiter 100 1 100 0) 5).1 (requests_in codec (codes "[{}]"))
    ≡ (none, codes "a" ∷ codes "c" ∷ [])
unfolding allow new_rate_limiter has_prefix compact
let_through = refl
