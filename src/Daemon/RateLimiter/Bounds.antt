-- ===== src/Daemon/RateLimiter/Bounds.antt =====
-- How many requests the token bucket lets through.
use go_posix.Base.{
  ℕ, ◌+◌, ◌-◌, ◌*◌, ◌/◌, ◌≤◌, ◌<◌, ◌≡◌, refl, ◌∙◌, Bool, true, false, List, [], ◌∷◌, arith,
  if◌then◌else◌,
}
use go_posix.Daemon.RateLimiter.{RateLimiter, token, conn_rate_limiter, allow, serve}

-- The parameters of the limiter stay, and its clock is the last request's.
abbrev Same : RateLimiter → RateLimiter → Type 0
Same a b = (a.rate_num ≡ b.rate_num) × (a.rate_den ≡ b.rate_den) × (a.burst ≡ b.burst)

-- No more than a full bucket.
abbrev IsBounded : RateLimiter → Type 0
IsBounded rl = rl.tokens ≤ rl.burst * (1_000_000_000 * rl.rate_den)

allow-Same : (rl : RateLimiter) (now : ℕ) → Same (allow rl now).0 rl
unfolding allow
allow-Same rl now = ground arith

allow-token : (rl : RateLimiter) (now : ℕ) → token (allow rl now).0 ≡ token rl
unfolding allow
allow-token rl now = ground arith

allow-last_update : (rl : RateLimiter) (now : ℕ) → (allow rl now).0.last_update ≡ now
unfolding allow
allow-last_update rl now = ground arith

allow-IsBounded : (rl : RateLimiter) (now : ℕ) → IsBounded (allow rl now).0
unfolding allow
allow-IsBounded rl now = ground arith

-- A request that is let through costs a token, and a refused one nothing.
abbrev cost : RateLimiter → Bool → ℕ
cost rl b = if b then token rl else 0

allow-cost :
    (rl : RateLimiter) (now : ℕ)
    → (allow rl now).0.tokens + cost rl (allow rl now).1
      ≤ rl.tokens + (now - rl.last_update) * rl.rate_num
unfolding allow
allow-cost rl now = ground arith

-- The times do not run backwards from `t`.
abbrev pub Ordered : ℕ → List ℕ → Type 0
Ordered t [] = Unit
Ordered t (now ∷ times) = (t ≤ now) × Ordered now times

abbrev pub last_time : ℕ → List ℕ → ℕ
last_time t [] = t
last_time t (now ∷ times) = last_time now times

elapsed_mul : (last now r : ℕ) → last ≤ now → (now - last) * r + r * last ≡ r * now
elapsed_mul last now r h = let e : now ≡ last + (now - last) = omega arith in grind (arith, e)

add_one_mul : (n u : ℕ) → (n + 1) * u ≡ n * u + u
add_one_mul n u = omega arith

last_time-le : (t : ℕ) (times : List ℕ) → Ordered t times → t ≤ last_time t times
last_time-le t [] h = omega arith
last_time-le t (now ∷ times) (h, hs) = omega (arith, last_time-le now times hs)

token_le_burst : (burst unit : ℕ) → 0 < burst → unit ≤ burst * unit
token_le_burst burst unit h = grind arith

-- The bound for the rest of the requests, with the clock of the first one put in.
serve_rest :
    (rl : RateLimiter) (now : ℕ) (times : List ℕ) (unit r : ℕ)
    → token rl ≡ unit
    → rl.rate_num ≡ r
    → Ordered now times
    → (token (allow rl now).0 ≡ unit
        → (allow rl now).0.rate_num ≡ r
        → Ordered (allow rl now).0.last_update times
        → (serve (allow rl now).0 times).1 * unit + r * (allow rl now).0.last_update
          ≤ (allow rl now).0.tokens + r * last_time (allow rl now).0.last_update times)
    → (serve (allow rl now).0 times).1 * unit + r * now
      ≤ (allow rl now).0.tokens + r * last_time now times
serve_rest rl now times unit r et er hs ih =
    rw (allow-last_update rl now) at
      (ih (allow-token rl now ∙ et) ((allow-Same rl now).0 ∙ er) (rw (allow-last_update rl now) hs))

-- One request, over names for what requests leave alone.
allow_step :
    (rl : RateLimiter) (now unit r : ℕ)
    → token rl ≡ unit
    → rl.rate_num ≡ r
    → rl.last_update ≤ now
    → (allow rl now).0.tokens + (if (allow rl now).1 then unit else 0) + r * rl.last_update
      ≤ rl.tokens + r * now
allow_step rl now unit r et er h =
    rw (← et, ← er) (omega (arith, allow-cost rl now, elapsed_mul rl.last_update now rl.rate_num h))

serve_bound :
    (rl : RateLimiter) (times : List ℕ) (unit r : ℕ)
    → token rl ≡ unit
    → rl.rate_num ≡ r
    → Ordered rl.last_update times
    → (serve rl times).1 * unit + r * rl.last_update
      ≤ rl.tokens + r * last_time rl.last_update times
unfolding serve
serve_bound rl [] unit r et er h = omega arith
serve_bound rl (now ∷ times) unit r et er (h, hs) = ground (
  arith,
  add_one_mul (serve (allow rl now).0 times).1 unit,
  serve_rest rl now times unit r et er hs (serve_bound (allow rl now).0 times unit r),
  allow_step rl now unit r et er h,
)

-- From a limiter no fuller than its burst, the requests let through cost no more than the burst and
-- what the rate brings in the time that passes: in units, `n` tokens are at most
-- `burst` tokens and `rate_num` for each nanosecond.
pub serve-burst :
    (rl : RateLimiter) (times : List ℕ)
    → IsBounded rl
    → Ordered rl.last_update times
    → (serve rl times).1 * token rl
      ≤ rl.burst * token rl + rl.rate_num * (last_time rl.last_update times - rl.last_update)
unfolding token
serve-burst rl times b h = omega (
  arith,
  serve_bound rl times (token rl) rl.rate_num refl refl h,
  elapsed_mul rl.last_update (last_time rl.last_update times) rl.rate_num
      (last_time-le rl.last_update times h),
)

-- A limiter with a burst lets a request through that comes a token's time after the one before.
allow_after_token :
    (rl : RateLimiter) (now : ℕ)
    → 0 < rl.burst
    → token rl ≤ (now - rl.last_update) * rl.rate_num
    → (allow rl now).1 ≡ true
unfolding allow
allow_after_token rl now hb h = grind (arith, token_le_burst)

-- An empty bucket with no burst.
record IsEmpty (rl : RateLimiter) : Type 0 where
  no_burst : rl.burst ≡ 0
  no_tokens : rl.tokens ≡ 0
  has_unit : 0 < rl.rate_den

allow-IsEmpty :
    (rl : RateLimiter) (now : ℕ)
    → IsEmpty rl
    → IsEmpty (allow rl now).0 × ((allow rl now).1 ≡ false)
unfolding allow
allow-IsEmpty rl now e =
    let z : rl.burst * (1_000_000_000 * rl.rate_den) ≡ 0 = grind (arith, e.no_burst) in
    (ground arith, ground arith)

serve-IsEmpty : (rl : RateLimiter) (times : List ℕ) → IsEmpty rl → (serve rl times).1 ≡ 0
unfolding serve
serve-IsEmpty rl [] e = refl
serve-IsEmpty rl (now ∷ times) e =
    rw ((allow-IsEmpty rl now e).1)
      (serve-IsEmpty (allow rl now).0 times (allow-IsEmpty rl now e).0)

-- A connection with a rate below one request per second gets an empty bucket: it refuses every
-- request, however long the client waits.
serve-slow_rate :
    (rate_num rate_den start : ℕ) (times : List ℕ)
    → rate_num < rate_den
    → (serve (conn_rate_limiter rate_num rate_den start) times).1 ≡ 0
unfolding conn_rate_limiter
serve-slow_rate rate_num rate_den start times h =
    let z : rate_num / rate_den ≡ 0 = grind arith in
    serve-IsEmpty (conn_rate_limiter rate_num rate_den start) times
      (record { no_burst = z; no_tokens = rw z (omega arith); has_unit = omega arith })
