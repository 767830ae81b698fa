-- ===== src/Daemon/Batch/Messages.antt =====
-- What is written for a message.
use go_posix.Base.{
  ℕ, ◌<◌, ◌≡◌, refl, ap, ◌∙◌, ◌⊎◌, inl, inr, Bool, true, false, Option, none, some, List, [], ◌∷◌,
  map, Bytes, codes, length, if◌then◌else◌, Bool-cases, arith,
}
use go_posix.Base.FilePath.{has_prefix}
use go_posix.Daemon.RateLimiter.{RateLimiter, allow}
use go_posix.Daemon.Rpc.{Request, Response, Env}
use go_posix.Daemon.Server.{Server, process_request}
use go_posix.Daemon.Server.Replies.{reply_id, process_request-reply_id}
use go_posix.Daemon.Batch.{
  Turn, Codec, Written, nothing, error_reply, single_reply, batch_reply, compact, handle_batch,
  write_batch, write_single, on_batch, on_single, on_message, is_array, invalid_request,
}
use go_posix.Daemon.Batch.Order.{Visits, handle_batch-ids}

-- The code of an error for the whole message, and the ids of the responses.
abbrev pub outcome : Written → Option ℕ × List Bytes
outcome nothing = (none, [])
outcome (error_reply code message) = (some code, [])
outcome (single_reply r) = (none, r.id ∷ [])
outcome (batch_reply rs) = (none, map (λ r. r.id) rs)

-- The requests of a decoded message: an empty batch is no message.
abbrev nonempty : Option (List Request) → Option (List Request)
nonempty none = none
nonempty (some []) = none
nonempty (some (r ∷ rs)) = some (r ∷ rs)

abbrev one : Option Request → Option (List Request)
one none = none
one (some r) = some (r ∷ [])

-- The requests of a message: a batch is what begins with a bracket.
abbrev pub requests_in : Codec → Bytes → Option (List Request)
requests_in codec raw =
    if has_prefix raw (codes "[")
    then nonempty (codec.decode_batch raw)
    else one (codec.decode_request raw)

-- What is to be written, given whether the rate limiter lets the message through.
abbrev pub wanted : Bool → Option (List Request) → Option ℕ × List Bytes
wanted false message = (some 32000, [])
wanted true none = (some 32600, [])
wanted true (some reqs) = (none, compact (map (λ r. r.id) reqs))

-- The workers come to every request of the batch.
abbrev pub Covers : List Turn → Option (List Request) → Type 0
Covers turns none = Unit
Covers turns (some reqs) = (i : ℕ) → i < length reqs → Visits turns i

has_prefix-is_array : (raw : Bytes) → has_prefix raw (codes "[") ≡ is_array raw
unfolding has_prefix is_array
has_prefix-is_array [] = refl
has_prefix-is_array (c ∷ raw) = ground arith

outcome-write_batch :
    (srv : Server) (rs : List Response)
    → outcome (write_batch (srv, rs)).1 ≡ (none, map (λ r. r.id) rs)
unfolding write_batch
outcome-write_batch srv [] = refl
outcome-write_batch srv (r ∷ rs) = refl

outcome-write_single :
    (srv : Server) (o : Option Response)
    → outcome (write_single (srv, o)).1 ≡ (none, compact (reply_id o ∷ []))
unfolding write_single compact
outcome-write_single srv none = refl
outcome-write_single srv (some r) = refl

module _ (env : Env) (srv : Server) where
  -- The result of a part of the loop: what is written, and whether the server is as it was.
  abbrev Does : Option ℕ × List Bytes → Server × Written → Type 0
  Does w (srv', written) = (outcome written ≡ w) × ((outcome written).0 ≡ none ⊎ srv' ≡ srv)

  on_batch-Does :
      (turns : List Turn) (o : Option (List Request))
      → Covers turns o
      → Does (wanted true (nonempty o)) (on_batch env srv turns o)
  unfolding on_batch invalid_request
  on_batch-Does turns none h = (refl, inr refl)
  on_batch-Does turns (some []) h = (refl, inr refl)
  on_batch-Does turns (some (r ∷ rs)) h =
      let (srv', answers) = handle_batch env srv (r ∷ rs) turns in
      let e = outcome-write_batch srv' answers in
      (
        e ∙ ap (λ ids. (none, ids)) (handle_batch-ids env srv (r ∷ rs) turns h),
        inl (ap (λ (w : Option ℕ × List Bytes). w.0) e),
      )

  on_single-Does :
      (now : ℕ) (new_id : Bytes) (o : Option Request)
      → Does (wanted true (one o)) (on_single env srv now new_id o)
  unfolding on_single invalid_request
  on_single-Does now new_id none = (refl, inr refl)
  on_single-Does now new_id (some req) =
      let (srv', answer) = process_request env srv req now new_id in
      let e = outcome-write_single srv' answer in
      (
        e ∙ ap (λ id. (none, compact (id ∷ []))) (process_request-reply_id env srv req now new_id),
        inl (ap (λ (w : Option ℕ × List Bytes). w.0) e),
      )

  -- Where the workers come to every request of a batch, in whatever order, what is written for a message
  -- is the error -32000 if the rate limiter refuses it, else the error -32600 if it holds no request that
  -- can be read (an empty batch holds none), and else the responses to its requests with an id, in their
  -- order. With an error for the message the server is as it was, and the rate limiter is always as `Allow`
  -- leaves it.
  pub on_message-outcome :
      (codec : Codec) (rl : RateLimiter) (raw : Bytes) (now : ℕ) (new_id : Bytes)
      (turns : List Turn)
      → Covers turns (codec.decode_batch raw)
      → let ((rl', srv'), written) = on_message env codec (rl, srv) raw now new_id turns in
        (outcome written ≡ wanted (allow rl now).1 (requests_in codec raw))
        × ((outcome written).0 ≡ none ⊎ srv' ≡ srv)
        × (rl' ≡ (allow rl now).0)
  unfolding on_message
  on_message-outcome codec rl raw now new_id turns h = elim (Bool-cases (allow rl now).1) [
    | inr refused ↦ rw refused (refl, inr refl, refl)
    | inl allowed ↦ elim (Bool-cases (is_array raw)) [
      | inl e ↦
          let (w, s) = on_batch-Does turns (codec.decode_batch raw) h in
          rw (allowed, has_prefix-is_array raw, e) (w, s, refl)
      | inr e ↦
          let (w, s) = on_single-Does now new_id (codec.decode_request raw) in
          rw (allowed, has_prefix-is_array raw, e) (w, s, refl)
    ]
  ]
