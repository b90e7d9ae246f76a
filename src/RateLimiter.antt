-- ===== src/RateLimiter.antt =====
-- The sliding window of RateLimiterMiddleware (src/middleware/rate_limiter.py), for one key: a
-- sorted set in Redis of the times of requests, of which the Redis commands of the source are
-- functions on a list. Times are whole microseconds. A member of the set is the text of its time, so
-- that two requests of one time are one member. The key's expiry, a second after the window of the
-- last request, only drops times that the next request removes anyway.
pub mod Window
pub mod Log
use ai_detention.Prelude.{
  ℕ, Bool, List, ◌∷◌, ◌-◌, if◌then◌else◌, leb, any, length, [], ltb, ◌==◌, ◌+◌,
}

-- zremrangebyscore(key, 0, limit)
unfoldable pub zremrangebyscore : ℕ → List ℕ → List ℕ
zremrangebyscore limit [] = []
zremrangebyscore limit (t ∷ ts) =
    let rest = zremrangebyscore limit ts in if leb t limit then rest else t ∷ rest

-- zadd(key, {str(now): now})
unfoldable pub zadd : ℕ → List ℕ → List ℕ
zadd now times = if any (◌==◌ now) times then times else now ∷ times

pub record Settings : Type 0 where
  pub rate_limit_window : ℕ
  pub rate_limit_default : ℕ

pub record Decision : Type 0 where
  pub allowed : Bool
  pub x_ratelimit_remaining : ℕ
  pub x_ratelimit_reset : ℕ

module _ (settings : Settings) where
  open settings use {rate_limit_window, rate_limit_default}

  -- The decision on a request at the time `now`, and the set after it. The time is past the first
  -- window after the epoch, so that `now - window` does not fall below 0.
  unfoldable pub dispatch : ℕ → List ℕ → Decision × List ℕ
  dispatch now times =
      let kept = zremrangebyscore (now - rate_limit_window) times in
      let current_count = length kept in
      (
        record {
          allowed = ltb current_count rate_limit_default;
          x_ratelimit_remaining = rate_limit_default - current_count - 1;
          x_ratelimit_reset = now + rate_limit_window;
        },
        zadd now kept,
      )
