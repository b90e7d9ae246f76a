-- ===== src/Cache.antt =====
-- The cache in Redis (src/cache.py): CacheManager's `get` and `set`, and the `cached` decorator.
-- Redis and `json` are parameters: Redis by the records of its commands and their laws. The time, the
-- random number and the comparison of floats in `_should_recompute` are one choice of each call. The
-- counters of hits and misses change nothing else.
pub mod Refines
use ai_detention.Prelude.{Bool, ℕ, String, Option, ◌≡◌, if◌then◌else◌, not, some, ◌⊎◌, ◌||◌, none}
use ai_detention.Errors.{Result, ok, err}
use ai_detention.Prelude.Text.{is_empty}

-- A command either raises a RedisError or replies.
pub data Reply {ℓ} (A : Type ℓ) : Type ℓ where
  redis_error : Reply A
  reply : A → Reply A

-- A client whose server is in a state of `S`; `content` is what the server holds, of which `get`
-- may find less when a key expires, and which `set` may evict other keys from.
pub record Redis (S : Type 0) : Type 0 where
  pub get : String → S → Reply (Option String)
  pub set : String → String → ℕ → S → Reply (Unit {0}) × S
  pub content : String → S → Option String
  pub get-content : (key x : String) (s : S) → get key s ≡ reply (some x) → content key s ≡ some x
  pub content-set :
      (key value : String) (ttl : ℕ) (s : S) (key' x : String)
      → content key' (set key value ttl s).1 ≡ some x
      → ((key' ≡ key) × (x ≡ value)) ⊎ (content key' s ≡ some x)

-- {"val": …, "ts": …, "ttl": …}
pub record Payload (A : Type 0) : Type 0 where
  pub val : A
  pub ts : ℕ
  pub ttl : ℕ

-- json.dumps and json.loads on the payloads; a text that is not JSON raises. `decoded` is what a value
-- is after both, which json's conversion tables say: a tuple has become a list, a key a text. A
-- payload's own keys are texts, its times numbers.
pub record PayloadJson (A : Type 0) : Type 0 where
  pub decoded : A → A
  pub dumps : Payload A → String
  pub loads : String → Result (Payload A)
  pub loads-dumps :
      (p : Payload A)
      → loads (dumps p) ≡ ok (record { val = decoded p.val; ts = p.ts; ttl = p.ttl })

-- `self._is_connected`, and whether `self._redis` is set
pub record CacheManager : Type 0 where
  pub is_connected : Bool
  pub has_client : Bool

module _ {A S : Type 0} (redis : Redis S) (json : PayloadJson A) where
  -- `if val`: a missing value and an empty text are misses.
  abbrev pub parse : Option String → Result (Option (Payload A))
  parse none = ok none
  parse (some raw) =
      if is_empty raw
      then ok none
      else elim (json.loads raw) [ ok payload ↦ ok (some payload) | err e ↦ err e ]

  abbrev pub parse_reply : Reply (Option String) → Result (Option (Payload A))
  parse_reply redis_error = ok none
  parse_reply (reply val) = parse val

  unfoldable pub cache_get : CacheManager → String → S → Result (Option (Payload A))
  cache_get manager key s =
      if not manager.is_connected || not manager.has_client
      then ok none
      else parse_reply (redis.get key s)

  -- A RedisError is swallowed.
  unfoldable pub cache_set : CacheManager → ℕ → String → A → ℕ → S → S
  cache_set manager now key value ttl s =
      if not manager.is_connected || not manager.has_client
      then s
      else (redis.set key (json.dumps (record { val = value; ts = now; ttl = ttl })) ttl s).1

  module _ {Args : Type 0} (ttl : ℕ) (key_builder : Args → String) (func : Args → Result A) where
    -- What follows the function's own result.
    abbrev pub store : CacheManager → ℕ → Args → S → Result A → Result A × S
    store manager now args s (err e) = (err e, s)
    store manager now args s (ok result) =
        (ok result, cache_set manager now (key_builder args) result ttl s)

    abbrev pub compute : CacheManager → ℕ → Args → S → Result A × S
    compute manager now args s = store manager now args s (func args)

    abbrev pub hit :
        CacheManager
        → (Payload A → Bool)
        → ℕ
        → Args
        → Result (Option (Payload A))
        → S
        → Result A × S
    hit manager should_recompute now args (err e) s = (err e, s)
    hit manager should_recompute now args (ok none) s = compute manager now args s
    hit manager should_recompute now args (ok (some payload)) s =
        if should_recompute payload then compute manager now args s else (ok payload.val, s)

    -- The wrapper that `cached` puts around `func`.
    unfoldable pub cached : CacheManager → (Payload A → Bool) → ℕ → Args → S → Result A × S
    cached manager should_recompute now args s =
        if manager.is_connected
        then hit manager should_recompute now args (cache_get manager (key_builder args) s) s
        else compute manager now args s
