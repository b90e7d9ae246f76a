-- ===== src/RateLimiter/Log.antt =====
-- check_rate_limit (src/rate_limit.py): the sliding window that counts a request before it decides
-- on it. The set and its commands are those of RateLimiter; a time is in microseconds, the window in
-- seconds. A failure of Redis before or in the pipeline lets the request pass.
use ai_detention.Prelude.{
  ℕ, List, ◌*◌, ◌≤◌, ◌∷◌, ◌≡◌, [], arith, max, min, ◌-◌, ◌+◌, length, refl, ◌/◌, if◌then◌else◌, ◌↔◌,
  ltb, ◌<◌,
}
use ai_detention.RateLimiter.{dispatch, Settings, zremrangebyscore, zadd}
use ai_detention.RateLimiter.Window.{Later, set_after, since, kept_after, zadd-later, All-since}

pub data Checked : Type 0 where
  passed : Checked
  exceeded : ℕ → Checked

-- `not cache_manager.is_healthy or not cache_manager._redis`, an exception of the pipeline, or none
pub data RedisState : Type 0 where
  unhealthy failing available : RedisState

-- The least time, from one at hand on.
unfoldable pub oldest_from : ℕ → List ℕ → ℕ
oldest_from t [] = t
oldest_from t (s ∷ times) = oldest_from (min t s) times

-- max(1, int((oldest_ts + window_seconds) - now)), of the first entry of zrange(key, 0, 0)
unfoldable pub retry_after : ℕ → ℕ → List ℕ → ℕ
retry_after window_seconds now [] = window_seconds
retry_after window_seconds now (t ∷ times) =
    max 1 ((oldest_from t times + window_seconds * 1000000 - now) / 1000000)

unfoldable pub check_rate_limit : RedisState → ℕ → ℕ → ℕ → List ℕ → Checked × List ℕ
check_rate_limit unhealthy limit window_seconds now times = (passed, times)
check_rate_limit failing limit window_seconds now times = (passed, times)
check_rate_limit available limit window_seconds now times =
    let kept = zremrangebyscore (now - window_seconds * 1000000) times in
    let counted = zadd now kept in
    (
      if ltb limit (length counted)
          then exceeded (retry_after window_seconds now counted)
          else passed,
      counted,
    )

oldest_from-le : (t : ℕ) (times : List ℕ) → oldest_from t times ≤ t
unfolding oldest_from
oldest_from-le t [] = omega arith
oldest_from-le t (s ∷ times) = omega (arith, oldest_from-le (min t s) times)

-- The set after the requests, newest first, that start with an empty one.
abbrev pub log_after : ℕ → ℕ → List ℕ → List ℕ
log_after limit window_seconds [] = []
log_after limit window_seconds (t ∷ older) =
    (check_rate_limit available limit window_seconds t (log_after limit window_seconds older)).1

abbrev window_settings : ℕ → ℕ → Settings
window_settings limit window_seconds = record {
  rate_limit_window = window_seconds * 1000000;
  rate_limit_default = limit;
}

log_after-set :
    (limit window_seconds : ℕ) (older : List ℕ)
    → log_after limit window_seconds older ≡ set_after (window_settings limit window_seconds) older
unfolding check_rate_limit dispatch
log_after-set limit window_seconds [] = refl
log_after-set limit window_seconds (t ∷ older) = rw (log_after-set limit window_seconds older) refl

-- The set that a request leaves holds it and the recent ones before it.
logged :
    (limit window_seconds now : ℕ) (older : List ℕ)
    → Later (now ∷ older)
    → let cutoff = now - window_seconds * 1000000 in
      zadd now (zremrangebyscore cutoff (log_after limit window_seconds older))
      ≡ now ∷ since cutoff older
logged limit window_seconds now older later =
    rw
      (
        log_after-set limit window_seconds older,
        kept_after (window_settings limit window_seconds) now older later,
      )
      (zadd-later now (since (now - window_seconds * 1000000) older)
        (All-since now (now - window_seconds * 1000000) older later.0))

retry_after-between :
    (window_seconds now : ℕ) (times : List ℕ)
    → 1 ≤ window_seconds
    → (1 ≤ retry_after window_seconds now (now ∷ times))
      × (retry_after window_seconds now (now ∷ times) ≤ window_seconds)
unfolding retry_after
retry_after-between window_seconds now times wide =
    let early = oldest_from-le now times in (omega arith, omega arith)

-- Let requests come at increasing times, and let Redis be available. Then a request passes exactly if
-- fewer than `limit` earlier ones, the refused ones included, came less than a window before it; a
-- refusal names a time of at least one second and at most the window.
pub check_exact :
    (limit window_seconds now : ℕ) (older : List ℕ)
    → 1 ≤ window_seconds
    → Later (now ∷ older)
    → let recent = length (since (now - window_seconds * 1000000) older) in
      let checked_now =
        (check_rate_limit available limit window_seconds now
          (log_after limit window_seconds older)).0 in
      ((checked_now ≡ passed) ↔ (recent < limit))
      × ((seconds : ℕ)
          → checked_now ≡ exceeded seconds
          → (1 ≤ seconds) × (seconds ≤ window_seconds))
unfolding check_rate_limit
check_exact limit window_seconds now older wide later =
    let (low, high) =
      retry_after-between window_seconds now (since (now - window_seconds * 1000000) older) wide in
    rw (logged limit window_seconds now older later)
      (((λ h. ground arith), λ h. ground arith), λ seconds h. (ground arith, ground arith))
