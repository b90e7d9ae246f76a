-- ===== src/RateLimiter/Window.antt =====
-- The limiter decides as a sliding window over all earlier requests, the rejected ones included.
use ai_detention.RateLimiter.{Settings, Decision, dispatch, zremrangebyscore, zadd}
use ai_detention.Prelude.{
  List, ℕ, ◌≡◌, ◌∷◌, ltb, All, length, ◌-◌, ◌<◌, arith, [], any, refl, ◌==◌, false, ◌≤◌,
}
use ai_detention.Database.Table.{select, select-select}

-- Each request of the list, newest first, is later than those before it.
abbrev pub Later : List ℕ → Type 0
Later [] = Unit
Later (t ∷ older) = All (λ s. s < t) older × Later older

-- The requests after a time.
abbrev pub since : ℕ → List ℕ → List ℕ
since cutoff requests = select (ltb cutoff) requests

zrem-since : (cutoff : ℕ) (times : List ℕ) → zremrangebyscore cutoff times ≡ since cutoff times
unfolding zremrangebyscore select
zrem-since cutoff [] = refl
zrem-since cutoff (t ∷ ts) = ground (arith, zrem-since cutoff ts)

pub All-since :
    (now cutoff : ℕ) (ts : List ℕ) → All (λ s. s < now) ts → All (λ s. s < now) (since cutoff ts)
unfolding select
All-since now cutoff [] h = tt
All-since now cutoff (t ∷ ts) h = ground (arith, All-since now cutoff ts h.1)

any-later : (now : ℕ) (ts : List ℕ) → All (λ s. s < now) ts → any (◌==◌ now) ts ≡ false
any-later now [] h = refl
any-later now (t ∷ ts) h = ground (arith, any-later now ts h.1)

pub zadd-later : (now : ℕ) (ts : List ℕ) → All (λ s. s < now) ts → zadd now ts ≡ now ∷ ts
unfolding zadd
zadd-later now ts h = rw (any-later now ts h) refl

since-since :
    (c d t : ℕ) (older : List ℕ) → c ≤ d → since d (t ∷ since c older) ≡ since d (t ∷ older)
unfolding select
since-since c d t older h =
    ground (arith, select-select (ltb c) (ltb d) older (λ x p. ground arith))

module _ (settings : Settings) where
  -- The set after the requests, newest first, that start with an empty one.
  abbrev pub set_after : List ℕ → List ℕ
  set_after [] = []
  set_after (t ∷ older) = (dispatch settings t (set_after older)).1

  abbrev pub decision : ℕ → List ℕ → Decision
  decision now older = (dispatch settings now (set_after older)).0

  pub kept_after :
      (now : ℕ) (older : List ℕ)
      → Later (now ∷ older)
      → zremrangebyscore (now - settings.rate_limit_window) (set_after older)
        ≡ since (now - settings.rate_limit_window) older
  unfolding dispatch
  kept_after now [] h = zrem-since (now - settings.rate_limit_window) []
  kept_after now (t ∷ older) (lt, later) =
      rw
        (
          kept_after t older later,
          zadd-later t (since (t - settings.rate_limit_window) older)
              (All-since t (t - settings.rate_limit_window) older later.0),
          zrem-since (now - settings.rate_limit_window)
              (t ∷ since (t - settings.rate_limit_window) older),
        )
        (since-since (t - settings.rate_limit_window) (now - settings.rate_limit_window) t older
          (omega arith))

  -- Let requests come at increasing times. Then a request is allowed exactly if fewer than `limit`
  -- earlier requests, whether these were allowed or not, came less than a window before it.
  pub allowed_exact :
      (now : ℕ) (older : List ℕ)
      → Later (now ∷ older)
      → (decision now older).allowed
        ≡ ltb (length (since (now - settings.rate_limit_window) older)) settings.rate_limit_default
  unfolding dispatch
  allowed_exact now older h = rw (kept_after now older h) refl
