-- ===== src/Daemon/RateLimiter/Tests.antt =====
-- Runs of the token bucket.
use go_posix.Base.{ℕ, ◌+◌, ◌-◌, ◌*◌, ◌≤◌, ◌≡◌, refl, [], ◌∷◌, List, arith}
use go_posix.Daemon.RateLimiter.{RateLimiter, token, allow, serve}
use go_posix.Daemon.RateLimiter.Bounds.{serve-burst, last_time}

-- Two requests per second, at most two at once.
abbrev two_per_second : RateLimiter
two_per_second = record {
  rate_num = 2;
  rate_den = 1;
  burst = 2;
  tokens = 2_000_000_000;
  last_update = 0;
}

abbrev arrivals : List ℕ
arrivals = 1 ∷ 2 ∷ 3 ∷ 500_000_010 ∷ []

third_refused : (serve two_per_second arrivals).1 ≡ 3
unfolding serve allow token
third_refused = refl

serve-burst_example :
    (serve two_per_second arrivals).1 * token two_per_second
    ≤ 2 * token two_per_second + 2 * (last_time 0 arrivals - 0)
unfolding token
serve-burst_example = serve-burst two_per_second arrivals (omega arith) (omega arith)
